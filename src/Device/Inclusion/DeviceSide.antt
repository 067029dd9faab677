-- ===== src/Device/Inclusion/DeviceSide.antt =====
-- What a device makes of the messages of an inclusion that succeeds.
use radio_mesh.Base.{
  ℕ, ◌+◌, ◌%◌, ◌≤◌, true, false, List, ◌++◌, length, take, drop, ◌≡◌, refl, ◌∙◌, ap, subst, arith,
  u32_mod, take-append, drop-append, length-append, take_of_length-le,
}
use radio_mesh.Codes.{ReturnCode, e_none, error}
use radio_mesh.Types.{
  is_hub, is_inclusion_topic, include_response, include_confirm, include_success, included,
  inclusion_pending,
}
use radio_mesh.Packet.{Packet, broadcast_addr, max_data_length}
use radio_mesh.Utils.{bytes_to_number}
use radio_mesh.Utils.Numbers.{length-number_to_bytes}
use radio_mesh.Crypto.Primitives.{Primitives}
use radio_mesh.Crypto.Service
use radio_mesh.Storage.{ByteStorage, persist_state}
use radio_mesh.KeyManager
use radio_mesh.Device.{
  Device, Controller, World, protocol_idle, waiting_for_response, waiting_for_success, send_data,
  can_send_message,
}
use radio_mesh.Device.Protocol.{in_state, transition_to_state}
use radio_mesh.Device.Protocol.Timeout.{transition_to_state_lem}
use radio_mesh.Device.Inclusion.{
  handle_inclusion_message, handle_response, handle_success, accept_key, send_inclusion_confirm,
  incremented_nonce, apply_key, update_security_params,
}
use radio_mesh.Device.Inclusion.HubSide.{send_data_sent}

apply_key-session :
    (prim : Primitives) (store : ByteStorage) (x : ReturnCode × List ℕ) (d : Device store.State)
    → ((apply_key prim store x d).controller ≡ d.controller)
      × ((apply_key prim store x d).stored ≡ d.stored)
unfolding apply_key update_security_params
apply_key-session prim store (error n, key) d = (refl, refl)
apply_key-session prim store (e_none, key) d = (refl, refl)

apply_key-network_key :
    (prim : Primitives) (store : ByteStorage) (key : List ℕ) (d : Device store.State)
    → (apply_key prim store (e_none, key) d).service.network_key ≡ key
unfolding apply_key update_security_params Service.set_network_key
apply_key-network_key prim store key d = refl

confirm_can : (c : Controller) → can_send_message include_confirm c ≡ true
unfolding can_send_message is_inclusion_topic
confirm_can c = ground arith

module _ (prim : Primitives) (store : ByteStorage) where
  -- The response that a waiting device accepts.
  accept_eq :
      (w : World) (p : Packet) (v : Device store.State) (key nonce : List ℕ) (s : store.State)
      → is_hub v.controller.device_type ≡ false
      → v.controller.state ≡ inclusion_pending
      → in_state waiting_for_response v.controller ≡ true
      → p.topic ≡ include_response
      → length p.packet_data ≡ 36
      → take 32 p.packet_data ≡ key
      → take 4 (drop 32 p.packet_data) ≡ nonce
      → KeyManager.set_network_key store key v.stored ≡ (e_none, s)
      → handle_inclusion_message prim store w p v
        ≡ send_inclusion_confirm prim store w (record v {
          controller =
              transition_to_state w.now waiting_for_success
                (record v.controller { current_nonce = nonce });
          stored = s;
          service = Service.set_network_key key v.service;
        })
  unfolding handle_inclusion_message handle_response accept_key
  accept_eq w p v key nonce s device pending waits topic size k n stored =
      rw (device, pending, waits, topic, size, k, n, stored) refl

  confirm_eq :
      (w : World) (d : Device store.State)
      → is_hub d.controller.device_type ≡ false
      → send_inclusion_confirm prim store w d
        ≡ send_data prim w include_confirm
            (incremented_nonce d.controller.current_nonce)
            broadcast_addr
            d
  unfolding send_inclusion_confirm
  confirm_eq w d device = rw device refl

  -- What a waiting device makes of the response.
  pub accepted :
      (w : World) (p : Packet) (v : Device store.State) (key nonce : List ℕ) (s : store.State)
      → is_hub v.controller.device_type ≡ false
      → v.controller.state ≡ inclusion_pending
      → v.controller.protocol_state ≡ waiting_for_response
      → p.topic ≡ include_response
      → p.packet_data ≡ key ++ nonce
      → length key ≡ 32
      → length nonce ≡ 4
      → KeyManager.set_network_key store key v.stored ≡ (e_none, s)
      → ((handle_inclusion_message prim store w p v).1.tx_packet.topic ≡ include_confirm)
        × ((handle_inclusion_message prim store w p v).1.tx_packet.packet_data
            ≡ incremented_nonce nonce)
        × ((handle_inclusion_message prim store w p v).1.service.network_key ≡ key)
        × ((handle_inclusion_message prim store w p v).1.controller.state ≡ inclusion_pending)
        × ((handle_inclusion_message prim store w p v).1.controller.protocol_state
            ≡ waiting_for_success)
        × (is_hub (handle_inclusion_message prim store w p v).1.controller.device_type ≡ false)
        × ((handle_inclusion_message prim store w p v).1.stored ≡ s)
  unfolding Service.set_network_key incremented_nonce
  accepted w p v key nonce s device pending waits topic payload k n stored =
      let ready : in_state waiting_for_response v.controller ≡ true = rw waits refl in
      let size : length p.packet_data ≡ 36 = rw (payload, length-append key nonce, k, n) refl in
      let key_part : take 32 p.packet_data ≡ key =
        rw payload (subst (λ i. take i (key ++ nonce) ≡ key) k (take-append key nonce)) in
      let rest : drop 32 p.packet_data ≡ nonce =
        rw payload (subst (λ i. drop i (key ++ nonce) ≡ nonce) k (drop-append key nonce)) in
      let nonce_part : take 4 (drop 32 p.packet_data) ≡ nonce =
        rw rest (take_of_length-le 4 nonce (omega (arith, n))) in
      let c : Controller = record v.controller { current_nonce = nonce } in
      let kind = transition_to_state_lem w.now waiting_for_success c in
      let after : Device store.State = record v {
        controller = transition_to_state w.now waiting_for_success c;
        stored = s;
        service = Service.set_network_key key v.service;
      } in
      let is : is_hub after.controller.device_type ≡ false = rw kind.2 device in
      let fits : length (incremented_nonce nonce) ≤ max_data_length =
        rw (length-number_to_bytes 4 ((bytes_to_number 4 nonce + 1) % u32_mod)) (omega arith) in
      let sent =
        send_data_sent prim w include_confirm (incremented_nonce nonce) broadcast_addr after
          (confirm_can after.controller) fits in
      let eq =
        accept_eq w p v key nonce s device pending ready topic size key_part nonce_part stored
        ∙ confirm_eq w after is
        ∙ ap (λ x. send_data prim w include_confirm (incremented_nonce x) broadcast_addr after)
            kind.4 in
      rw eq (
        sent.0,
        sent.1,
        ap (λ x. x.network_key) sent.2,
        ap (λ x. x.state) sent.3 ∙ kind.1 ∙ pending,
        ap (λ x. x.protocol_state) sent.3 ∙ kind.0,
        ap (λ x. is_hub x.device_type) sent.3 ∙ is,
        sent.4,
      )

  -- What a waiting device makes of the success.
  pub joined :
      (w : World) (p : Packet) (v : Device store.State) (key : List ℕ)
      → is_hub v.controller.device_type ≡ false
      → v.controller.state ≡ inclusion_pending
      → v.controller.protocol_state ≡ waiting_for_success
      → p.topic ≡ include_success
      → KeyManager.get_current_network_key store (persist_state store included v.stored).1
        ≡ (e_none, key)
      → ((handle_inclusion_message prim store w p v).1.controller.state ≡ included)
        × ((handle_inclusion_message prim store w p v).1.controller.protocol_state ≡ protocol_idle)
        × ((handle_inclusion_message prim store w p v).1.stored
            ≡ (persist_state store included v.stored).1)
        × ((handle_inclusion_message prim store w p v).1.service.network_key ≡ key)
  unfolding handle_inclusion_message handle_success
  joined w p v key device pending waits topic held =
      let ready : in_state waiting_for_success v.controller ≡ true = rw waits refl in
      grind (
        arith,
        device,
        pending,
        ready,
        topic,
        held,
        apply_key-session prim store,
        apply_key-network_key prim store key,
        transition_to_state_lem w.now protocol_idle (record v.controller { state = included }),
      )
