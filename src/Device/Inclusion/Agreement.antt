-- ===== src/Device/Inclusion/Agreement.antt =====
-- A whole inclusion, between a hub and a device that each get what the other sent.
use radio_mesh.Base.{ℕ, true, false, some, List, [], ◌∷◌, length, ◌≡◌, refl, ap, sym, subst, ◌∙◌}
use radio_mesh.Codes.{e_none}
use radio_mesh.Types.{
  is_hub, include_request, included, inclusion_pending, state_byte, state_of_byte,
}
use radio_mesh.Packet.{Packet}
use radio_mesh.Crypto.Primitives.{Primitives}
use radio_mesh.Storage.{
  ByteStorage, persist_state, load_state, state_of_read, load_network_key, network_key_key,
  state_key,
}
use radio_mesh.Storage.Laws.{IsStore, key_filled, network_key_differs}
use radio_mesh.KeyManager.Keys.{set_then_has, set_network_key-written}
use radio_mesh.KeyManager
use radio_mesh.Device.{Device, World, protocol_idle, waiting_for_request, waiting_for_response}
use radio_mesh.Device.Inclusion.{handle_inclusion_message}
use radio_mesh.Device.Inclusion.HubSide.{answered, confirmed}
use radio_mesh.Device.Inclusion.DeviceSide.{accepted, joined}

-- A storage that has stored a network key and then the state included gives both back.
stored_both :
    (store : ByteStorage) (law : IsStore store) (key : List ℕ) (s s1 : store.State)
    → law.Fits network_key_key key s
    → KeyManager.set_network_key store key s ≡ (e_none, s1)
    → law.Fits state_key (state_byte included ∷ []) s
    → (persist_state store included s1).0 ≡ e_none
    → (load_state store (persist_state store included s1).1 ≡ (e_none, some included))
      × (KeyManager.get_current_network_key store (persist_state store included s1).1
          ≡ (e_none, key))
unfolding persist_state load_state state_of_read state_of_byte KeyManager.get_current_network_key
    load_network_key
stored_both store law key s s1 place set spare done =
    let after : (KeyManager.set_network_key store key s).1 ≡ s1 = ap (λ x. x.1) set in
    let written = set_network_key-written store key s (ap (λ x. x.0) set) in
    let place' =
      subst (λ x. law.Fits state_key (state_byte included ∷ []) x)
        (sym (ap (λ x. x.1) written) ∙ after)
        (law.still_fits network_key_key state_key key (state_byte included ∷ []) s place spare
          (λ e. network_key_differs (sym e)) (sym (ap (λ x. x.0) written) ∙ ap (λ x. x.0) set)) in
    let had = (set_then_has store law key s place (ap (λ x. x.0) set)).0 in
    let back = law.read_back state_key (state_byte included ∷ []) s1 place' done in
    let other =
      law.kept state_key network_key_key (state_byte included ∷ []) s1 place' (λ e. key_filled e)
        network_key_differs done in
    (rw back refl, other ∙ rw after at had)

module _ (prim : Primitives) (hub_store device_store : ByteStorage) (w1 w2 w3 w4 : World)
    (request response confirm success : Packet) (h : Device hub_store.State)
    (v : Device device_store.State) where
  -- The hub after the request and after the confirmation, the device after the response and after the
  -- success.
  abbrev pub h1 : Device hub_store.State
  h1 = (handle_inclusion_message prim hub_store w1 request h).1

  abbrev pub v1 : Device device_store.State
  v1 = (handle_inclusion_message prim device_store w2 response v).1

  abbrev pub h2 : Device hub_store.State
  h2 = (handle_inclusion_message prim hub_store w3 confirm h1).1

  abbrev pub v2 : Device device_store.State
  v2 = (handle_inclusion_message prim device_store w4 success v1).1

  -- A hub in inclusion mode waits for a request and holds a network key of 32 bytes, and a device waits
  -- for its response. The hub gets a request with a key of 32 bytes, the device a packet with what the
  -- hub then sends, the hub one with what the device then sends, and the device one with the topic
  -- that the hub then sends. If the device's storage has a place for the key and for the state, and
  -- stores both without an error, both sides hold the key at the end, as they did after the response,
  -- the hub is idle again, and the device is included and idle, and its storage gives back the state
  -- included and the key.
  pub handshake :
      (law : IsStore device_store) (key : List ℕ) (s : device_store.State)
      → is_hub h.controller.device_type ≡ true
      → h.controller.inclusion_mode_enabled ≡ true
      → h.controller.protocol_state ≡ waiting_for_request
      → KeyManager.get_current_network_key hub_store h.stored ≡ (e_none, key)
      → length key ≡ 32
      → length w1.random_nonce ≡ 4
      → is_hub v.controller.device_type ≡ false
      → v.controller.state ≡ inclusion_pending
      → v.controller.protocol_state ≡ waiting_for_response
      → law.Fits network_key_key key v.stored
      → KeyManager.set_network_key device_store key v.stored ≡ (e_none, s)
      → law.Fits state_key (state_byte included ∷ []) v.stored
      → (persist_state device_store included s).0 ≡ e_none
      → request.topic ≡ include_request
      → length request.packet_data ≡ 32
      → response.topic ≡ h1.tx_packet.topic
      → response.packet_data ≡ h1.tx_packet.packet_data
      → confirm.topic ≡ v1.tx_packet.topic
      → confirm.packet_data ≡ v1.tx_packet.packet_data
      → success.topic ≡ h2.tx_packet.topic
      → (h1.service.network_key ≡ key)
        × (v1.service.network_key ≡ key)
        × (h2.controller.protocol_state ≡ protocol_idle)
        × (v2.controller.state ≡ included)
        × (v2.controller.protocol_state ≡ protocol_idle)
        × (h2.service.network_key ≡ key)
        × (v2.service.network_key ≡ key)
        × (load_state device_store v2.stored ≡ (e_none, some included))
        × (KeyManager.get_current_network_key device_store v2.stored ≡ (e_none, key))
  handshake law key s hub mode waits stored k nonce device pending waiting place set spare done
        topic size rt rd ct cd st =
      let a = answered prim hub_store w1 request h key hub mode waits topic size nonce k stored in
      let b =
        accepted prim device_store w2 response v key w1.random_nonce s device pending waiting
          (rt ∙ a.0) (rd ∙ a.1) k nonce set in
      let c =
        confirmed prim hub_store w3 confirm h1 w1.random_nonce a.6 a.5 a.4 (ct ∙ b.0) (cd ∙ b.1) in
      let kept = stored_both device_store law key v.stored s place set spare done in
      let held : KeyManager.get_current_network_key device_store
            (persist_state device_store included v1.stored).1
          ≡ (e_none, key) =
        rw b.6 kept.1 in
      let e = joined prim device_store w4 success v1 key b.5 b.3 b.4 (st ∙ c.0) held in
      let end : v2.stored ≡ (persist_state device_store included s).1 =
        e.2 ∙ ap (λ x. (persist_state device_store included x).1) b.6 in
      (
        a.2,
        b.2,
        c.1,
        e.0,
        e.1,
        ap (λ x. x.network_key) c.2 ∙ a.2,
        e.3,
        rw end kept.0,
        rw end kept.1,
      )
