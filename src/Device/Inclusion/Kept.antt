-- ===== src/Device/Inclusion/Kept.antt =====
-- No step of the inclusion protocol changes what kind of device this is, nor the hub's mode.
use radio_mesh.Base.{ℕ, List, ◌≡◌, refl, arith}
use radio_mesh.Codes.{ReturnCode, e_none, error}
use radio_mesh.Packet.{Packet, broadcast_addr}
use radio_mesh.Crypto.Primitives.{Primitives}
use radio_mesh.Storage.{ByteStorage}
use radio_mesh.Device.{Device, World, send_data}
use radio_mesh.Device.Protocol.Timeout.{transition_to_state_lem}
use radio_mesh.Device.Inclusion.{
  handle_inclusion_message, send_inclusion_open, send_inclusion_request, send_inclusion_confirm,
  send_inclusion_success, handle_request, handle_confirm, handle_open, handle_response,
  handle_success, accept_key, apply_key, update_security_params, get_public_key, send_public_key,
}
use radio_mesh.Device.Inclusion.Moves.{
  send_data_lem, on_success_lem, send_inclusion_response-session, SameSession,
  send_inclusion_request-controller, send_inclusion_confirm-controller,
  send_inclusion_success-controller,
}

abbrev pub SameKind : {State : Type 0} → Device State → Device State → Type 0
SameKind d d' =
    (d'.controller.inclusion_mode_enabled ≡ d.controller.inclusion_mode_enabled)
    × (d'.controller.device_type ≡ d.controller.device_type)
    × (d'.device_type ≡ d.device_type)

module _ (prim : Primitives) (store : ByteStorage) (w : World) where
  send_public_key-kind :
      (topic : ℕ) (d : Device store.State) → SameKind d (send_public_key prim store w topic d).1
  unfolding send_public_key
  send_public_key-kind topic d =
      on_success_lem (λ d'. SameKind d d') (get_public_key prim store d.stored) d
        (λ key. send_data prim w topic key broadcast_addr d) (refl, refl, refl)
        (λ key. grind (arith, send_data_lem))

  pub send_inclusion_open-kind :
      (d : Device store.State) → SameKind d (send_inclusion_open prim store w d).1
  unfolding send_inclusion_open
  send_inclusion_open-kind d = grind (arith, send_public_key-kind, transition_to_state_lem)

  send_inclusion_request-kind :
      (d : Device store.State) → SameKind d (send_inclusion_request prim store w d).1
  unfolding send_inclusion_request
  send_inclusion_request-kind d = grind (arith, send_public_key-kind)

  send_inclusion_confirm-kind :
      (d : Device store.State) → SameKind d (send_inclusion_confirm prim store w d).1
  unfolding send_inclusion_confirm
  send_inclusion_confirm-kind d = grind (arith, send_data_lem)

  send_inclusion_success-kind :
      (d : Device store.State) → SameKind d (send_inclusion_success prim store w d).1
  unfolding send_inclusion_success
  send_inclusion_success-kind d = grind (arith, send_data_lem)

  handle_request-kind :
      (p : Packet) (d : Device store.State) → SameKind d (handle_request prim store w p d).1
  unfolding handle_request
  handle_request-kind p d = grind (arith, send_inclusion_response-session, transition_to_state_lem)

  handle_confirm-kind :
      (p : Packet) (d : Device store.State) → SameKind d (handle_confirm prim store w p d).1
  unfolding handle_confirm
  handle_confirm-kind p d = grind (arith, send_inclusion_success-kind, transition_to_state_lem)

  handle_open-kind :
      (p : Packet) (d : Device store.State) → SameKind d (handle_open prim store w p d).1
  unfolding handle_open
  handle_open-kind p d = grind (arith, send_inclusion_request-kind, transition_to_state_lem)

  accept_key-kind :
      (key : List ℕ) (x : ReturnCode × store.State) (d : Device store.State)
      → SameKind d (accept_key prim store w key x d).1
  unfolding accept_key
  accept_key-kind key (error n, s) d = (refl, refl, refl)
  accept_key-kind key (e_none, s) d =
      grind (arith, send_inclusion_confirm-kind, transition_to_state_lem)

  handle_response-kind :
      (p : Packet) (d : Device store.State) → SameKind d (handle_response prim store w p d).1
  unfolding handle_response
  handle_response-kind p d = grind (arith, accept_key-kind)

  apply_key-kind :
      (x : ReturnCode × List ℕ) (d : Device store.State) → SameKind d (apply_key prim store x d)
  unfolding apply_key update_security_params
  apply_key-kind (error n, key) d = (refl, refl, refl)
  apply_key-kind (e_none, key) d = (refl, refl, refl)

  handle_success-kind : (d : Device store.State) → SameKind d (handle_success prim store w d).1
  unfolding handle_success
  handle_success-kind d = grind (arith, apply_key-kind, transition_to_state_lem)

  pub handle_inclusion_message-kind :
      (p : Packet) (d : Device store.State)
      → SameKind d (handle_inclusion_message prim store w p d).1
  unfolding handle_inclusion_message
  handle_inclusion_message-kind p d = grind (
    arith, handle_request-kind, handle_confirm-kind, handle_open-kind, handle_response-kind,
    handle_success-kind,
  )

  -- A step that keeps the controller and the kind keeps the session.
  session :
      (d d' : Device store.State)
      → d'.controller ≡ d.controller
      → d'.device_type ≡ d.device_type
      → SameSession d d'
  session d d' c k = rw (c, k) (refl, refl, refl, refl, refl)

  pub send_inclusion_request-session :
      (d : Device store.State) → SameSession d (send_inclusion_request prim store w d).1
  send_inclusion_request-session d =
      session d (send_inclusion_request prim store w d).1
        (send_inclusion_request-controller prim store w d) (send_inclusion_request-kind d).2

  pub send_inclusion_confirm-session :
      (d : Device store.State) → SameSession d (send_inclusion_confirm prim store w d).1
  send_inclusion_confirm-session d =
      session d (send_inclusion_confirm prim store w d).1
        (send_inclusion_confirm-controller prim store w d) (send_inclusion_confirm-kind d).2

  pub send_inclusion_success-session :
      (d : Device store.State) → SameSession d (send_inclusion_success prim store w d).1
  send_inclusion_success-session d =
      session d (send_inclusion_success prim store w d).1
        (send_inclusion_success-controller prim store w d) (send_inclusion_success-kind d).2
