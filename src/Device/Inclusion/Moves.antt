-- ===== src/Device/Inclusion/Moves.antt =====
-- The states that the inclusion protocol can be in.
use radio_mesh.Base.{
  ℕ, true, false, List, ◌≡◌, refl, ◌⊎◌, inl, arith, length, ◌!=◌, ◌++◌, if◌then◌else◌,
}
use radio_mesh.Codes.{ReturnCode, e_none, error, e_invalid_length}
use radio_mesh.Types.{DeviceInclusionState, is_hub, not_included, inclusion_pending, included}
use radio_mesh.Packet.{Packet, DeviceId, broadcast_addr}
use radio_mesh.Crypto.Primitives.{Primitives}
use radio_mesh.Storage.{ByteStorage}
use radio_mesh.KeyManager
use radio_mesh.Device.{
  Device, Controller, World, ProtocolState, protocol_idle, waiting_for_request,
  waiting_for_response, waiting_for_confirmation, waiting_for_success, send_data, route,
}
use radio_mesh.Device.Protocol.{transition_to_state}
use radio_mesh.Device.Protocol.Timeout.{in_state_lem, transition_to_state_lem}
use radio_mesh.Device.Inclusion.{
  handle_inclusion_message, send_inclusion_open, send_inclusion_request, send_inclusion_response,
  send_inclusion_confirm, send_inclusion_success, handle_request, handle_confirm, handle_open,
  handle_response, handle_success, accept_key, apply_key, on_success, update_security_params,
  prepare_response, get_public_key, send_public_key,
}

pub send_data_lem :
    (prim : Primitives) {State : Type 0} (w : World) (topic : ℕ) (bytes : List ℕ)
    (target : DeviceId) (d : Device State)
    → ((send_data prim w topic bytes target d).1.controller ≡ d.controller)
      × ((send_data prim w topic bytes target d).1.device_type ≡ d.device_type)
      × ((send_data prim w topic bytes target d).1.stored ≡ d.stored)
unfolding send_data route
send_data_lem prim w topic bytes target d = ground arith

-- What holds of the device with and without the next step holds after it.
pub on_success_lem :
    {A : Type 0} {State : Type 0} (P : Device State → Type 0) (x : ReturnCode × A)
    (d : Device State) (next : A → ReturnCode × Device State)
    → P d
    → ((a : A) → P (next a).1)
    → P (on_success x d next).1
on_success_lem P (error n, a) d next h k = h
on_success_lem P (e_none, a) d next h k = k a

-- The moves of the protocol, as an abstract machine on the inclusion state and the protocol's state.
abbrev pub Stays : Controller → Controller → Type 0
Stays c c' = (c'.state ≡ c.state) × (c'.protocol_state ≡ c.protocol_state)

abbrev pub Moves :
    Controller
    → Controller
    → DeviceInclusionState
    → ProtocolState
    → DeviceInclusionState
    → ProtocolState
    → Type 0
Moves c c' s q s' q' =
    (c.state ≡ s) × (c.protocol_state ≡ q) × (c'.state ≡ s') × (c'.protocol_state ≡ q')

abbrev pub DeviceMove : Controller → Controller → Type 0
DeviceMove c c' =
    Stays c c'
    ⊎ Moves c c' not_included protocol_idle inclusion_pending waiting_for_response
    ⊎ Moves c c' inclusion_pending waiting_for_response inclusion_pending waiting_for_success
    ⊎ Moves c c' inclusion_pending waiting_for_success included protocol_idle

module _ (prim : Primitives) (store : ByteStorage) (w : World) where
  pub send_public_key-controller :
      (topic : ℕ) (d : Device store.State)
      → (send_public_key prim store w topic d).1.controller ≡ d.controller
  unfolding send_public_key
  send_public_key-controller topic d =
      on_success_lem (λ d'. d'.controller ≡ d.controller) (get_public_key prim store d.stored) d
        (λ key. send_data prim w topic key broadcast_addr d) refl
        (λ key. (send_data_lem prim w topic key broadcast_addr d).0)

  pub send_inclusion_request-controller :
      (d : Device store.State) → (send_inclusion_request prim store w d).1.controller ≡ d.controller
  unfolding send_inclusion_request
  send_inclusion_request-controller d = grind (arith, send_public_key-controller)

  pub send_inclusion_confirm-controller :
      (d : Device store.State) → (send_inclusion_confirm prim store w d).1.controller ≡ d.controller
  unfolding send_inclusion_confirm
  send_inclusion_confirm-controller d = grind (arith, send_data_lem)

  pub send_inclusion_success-controller :
      (d : Device store.State) → (send_inclusion_success prim store w d).1.controller ≡ d.controller
  unfolding send_inclusion_success
  send_inclusion_success-controller d = grind (arith, send_data_lem)

  handle_open-move :
      (p : Packet) (d : Device store.State)
      → DeviceMove d.controller (handle_open prim store w p d).1.controller
  unfolding handle_open
  handle_open-move p d = grind (
    arith,
    in_state_lem protocol_idle d.controller,
    send_inclusion_request-controller,
    transition_to_state_lem,
  )

  accept_key-controller :
      (key : List ℕ) (x : ReturnCode × store.State) (d : Device store.State)
      → ((accept_key prim store w key x d).1.controller ≡ d.controller)
        ⊎ ((accept_key prim store w key x d).1.controller
            ≡ transition_to_state w.now waiting_for_success d.controller)
  unfolding accept_key
  accept_key-controller key (error n, s) d = inl refl
  accept_key-controller key (e_none, s) d = grind (arith, send_inclusion_confirm-controller)

  handle_response-move :
      (p : Packet) (d : Device store.State)
      → DeviceMove d.controller (handle_response prim store w p d).1.controller
  unfolding handle_response
  handle_response-move p d = grind (
    arith,
    in_state_lem waiting_for_response d.controller,
    accept_key-controller,
    transition_to_state_lem,
  )

  apply_key-controller :
      (x : ReturnCode × List ℕ) (d : Device store.State)
      → (apply_key prim store x d).controller ≡ d.controller
  unfolding apply_key update_security_params
  apply_key-controller (error n, key) d = refl
  apply_key-controller (e_none, key) d = refl

  handle_success-move :
      (d : Device store.State)
      → DeviceMove d.controller (handle_success prim store w d).1.controller
  unfolding handle_success
  handle_success-move d = grind (
    arith,
    in_state_lem waiting_for_success d.controller,
    apply_key-controller,
    transition_to_state_lem,
  )

  pub handle_inclusion_message-DeviceMove :
      (p : Packet) (d : Device store.State)
      → is_hub d.controller.device_type ≡ false
      → DeviceMove d.controller (handle_inclusion_message prim store w p d).1.controller
  unfolding handle_inclusion_message
  handle_inclusion_message-DeviceMove p d h =
      grind (arith, handle_open-move, handle_response-move, handle_success-move)

-- The moves of a hub: a session opens, a request is answered in inclusion mode, and any session may end.
abbrev pub HubMove : Controller → Controller → Type 0
HubMove c c' =
    (c'.state ≡ c.state)
    × ((c'.protocol_state ≡ c.protocol_state)
        ⊎ (c'.protocol_state ≡ protocol_idle)
        ⊎ ((c.inclusion_mode_enabled ≡ true) × (c'.protocol_state ≡ waiting_for_request))
        ⊎ ((c.inclusion_mode_enabled ≡ true)
            × (c.protocol_state ≡ waiting_for_request)
            × (c'.protocol_state ≡ waiting_for_confirmation)))

-- What a step of the session leaves alone.
abbrev pub SameSession : {State : Type 0} → Device State → Device State → Type 0
SameSession d d' =
    (d'.controller.state ≡ d.controller.state)
    × (d'.controller.protocol_state ≡ d.controller.protocol_state)
    × (d'.controller.inclusion_mode_enabled ≡ d.controller.inclusion_mode_enabled)
    × (d'.controller.device_type ≡ d.controller.device_type)
    × (d'.device_type ≡ d.device_type)

module _ (prim : Primitives) (store : ByteStorage) (w : World) where
  respond :
      (p : Packet) (d : Device store.State) (network_key : List ℕ)
      → SameSession d
          (send_data prim w 7
            (network_key ++ w.random_nonce)
            broadcast_addr
            (prepare_response prim store w network_key p d)).1
  unfolding prepare_response
  respond p d network_key = grind (arith, send_data_lem)

  pub send_inclusion_response-session :
      (p : Packet) (d : Device store.State)
      → SameSession d (send_inclusion_response prim store w p d).1
  unfolding send_inclusion_response
  send_inclusion_response-session p d =
      let keyed =
        on_success_lem (λ d'. SameSession d d') (KeyManager.get_current_network_key store d.stored)
          d
          (λ network_key.
            if length p.packet_data != 32
            then (e_invalid_length, d)
            else send_data prim w 7 (network_key ++ w.random_nonce) broadcast_addr
                (prepare_response prim store w network_key p d))
          (refl, refl, refl, refl, refl) (λ network_key. grind (arith, respond)) in
      ground (arith, keyed)

  handle_request-move :
      (p : Packet) (d : Device store.State)
      → HubMove d.controller (handle_request prim store w p d).1.controller
  unfolding handle_request
  handle_request-move p d = grind (
    arith,
    in_state_lem waiting_for_request d.controller,
    send_inclusion_response-session,
    transition_to_state_lem,
  )

  handle_confirm-move :
      (p : Packet) (d : Device store.State)
      → HubMove d.controller (handle_confirm prim store w p d).1.controller
  unfolding handle_confirm
  handle_confirm-move p d = grind (
    arith,
    in_state_lem waiting_for_confirmation d.controller,
    send_inclusion_success-controller,
    transition_to_state_lem,
  )

  pub handle_inclusion_message-HubMove :
      (p : Packet) (d : Device store.State)
      → is_hub d.controller.device_type ≡ true
      → HubMove d.controller (handle_inclusion_message prim store w p d).1.controller
  unfolding handle_inclusion_message
  handle_inclusion_message-HubMove p d h = grind (arith, handle_request-move, handle_confirm-move)

  pub send_inclusion_open-HubMove :
      (d : Device store.State)
      → HubMove d.controller (send_inclusion_open prim store w d).1.controller
  unfolding send_inclusion_open
  send_inclusion_open-HubMove d =
      grind (arith, send_public_key-controller prim store w, transition_to_state_lem)
