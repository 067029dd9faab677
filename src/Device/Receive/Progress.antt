-- ===== src/Device/Receive/Progress.antt =====
-- How a device joins: which steps its inclusion goes through, and in which order.
use radio_mesh.Base.{ℕ, true, false, List, ◌≡◌, refl, ◌⊎◌, inl, inr, arith, ap}
use radio_mesh.Codes.{ReturnCode}
use radio_mesh.Crypto.Aes.{SecurityParams}
use radio_mesh.Device.Inclusion.{update_security_params}
use radio_mesh.Device.Startup.{factory_reset}
use radio_mesh.Device.Startup.Initial.{new_controller_lem, new_controller-protocol_state}
use radio_mesh.Types.{DeviceInclusionState, is_hub, is_standard, not_included, inclusion_pending}
use radio_mesh.Crypto.Primitives.{Primitives}
use radio_mesh.Storage.{ByteStorage}
use radio_mesh.Device.{Device, Controller, protocol_idle, waiting_for_response, waiting_for_success}
use radio_mesh.Device.Protocol.{
  check_protocol_timeouts, handle_state_timeout, exit_inclusion_mode, enter_inclusion_mode,
}
use radio_mesh.Device.Protocol.Timeout.{reset_protocol_state_lem}
use radio_mesh.Device.Inclusion.Moves.{
  send_inclusion_response-session, DeviceMove, Moves, send_data_lem,
}
use radio_mesh.Device.Inclusion.Kept.{
  send_inclusion_request-session, send_inclusion_confirm-session, send_inclusion_success-session,
  send_inclusion_open-kind,
}
use radio_mesh.Device.Receive.Packets.{handle_packet-DeviceMove, handle_packet-kind}
use radio_mesh.Device.Receive.Steps.{
  Step, requested, responded, confirmed, succeeded, received, ticked, sent, opened, entered, left,
  secured, was_reset, IsReset, factory_reset_lem, IsJoining, DeviceStates, no_session,
}

-- The moves of a device, with its session's end.
abbrev pub JoinMove : Controller → Controller → Type 0
JoinMove c c' =
    DeviceMove c c'
    ⊎ Moves c c' inclusion_pending waiting_for_response not_included protocol_idle
    ⊎ Moves c c' inclusion_pending waiting_for_success not_included protocol_idle

module _ (prim : Primitives) (store : ByteStorage) where
  device_states :
      (d : Device store.State)
      → IsJoining prim store d
      → is_standard d.device_type ≡ true
      → DeviceStates prim store d.controller
        × (is_standard d.controller.device_type ≡ true)
        × (is_hub d.controller.device_type ≡ false)
        × (is_hub d.device_type ≡ false)
  device_states d h s = ground arith

  ticked_move :
      (now : ℕ) (d : Device store.State)
      → DeviceStates prim store d.controller
      → is_standard d.controller.device_type ≡ true
      → JoinMove d.controller (check_protocol_timeouts store now d).controller
  unfolding check_protocol_timeouts handle_state_timeout
  ticked_move now d h s = grind (
    arith,
    reset_protocol_state_lem store
        (record d { controller = record d.controller { inclusion_mode_enabled = false } }) now,
  )

  left_stays :
      (now : ℕ) (d : Device store.State)
      → is_hub d.device_type ≡ false
      → (exit_inclusion_mode store now d).1.controller ≡ d.controller
  unfolding exit_inclusion_mode
  left_stays now d h = rw h refl

  entered_stays :
      (d : Device store.State)
      → is_hub d.device_type ≡ false
      → (enter_inclusion_mode store d).1.controller ≡ d.controller
  unfolding enter_inclusion_mode
  entered_stays d h = rw h refl

  secured_stays :
      (params : SecurityParams) (d : Device store.State)
      → (update_security_params params d).controller ≡ d.controller
  unfolding update_security_params
  secured_stays params d = refl

  stays : (c c' : Controller) → c' ≡ c → JoinMove c c'
  stays c c' e = inl (inl (ap (λ x. x.state) e, ap (λ x. x.protocol_state) e))

  -- What a factoryReset leaves that succeeds
  abbrev pub IsAnew : Controller → Type 0
  IsAnew c = (c.protocol_state ≡ protocol_idle) × (c.inclusion_mode_enabled ≡ false)

  reset_move :
      (memory : DeviceInclusionState) (seed : ℕ) (random_key : List ℕ)
      (cleared : ReturnCode × store.State) (d : Device store.State)
      → JoinMove d.controller
          (factory_reset prim store memory seed random_key cleared d).1.controller
        ⊎ IsAnew (factory_reset prim store memory seed random_key cleared d).1.controller
  reset_move memory seed random_key cleared d =
      let made = new_controller_lem prim store d.device_type memory seed random_key cleared.1 in
      let idle =
        new_controller-protocol_state prim store d.device_type memory seed random_key cleared.1 in
      elim (factory_reset_lem prim store memory seed random_key cleared d).1 [
        | inl same ↦ inl (
            stays d.controller
              (factory_reset prim store memory seed random_key cleared d).1.controller same)
        | inr new ↦ inr (rw new (idle, made.0))
      ]

  -- Every step of a standard device, which is a received packet, a tick of the clock, or a call that sends,
  -- switches inclusion mode, sets a key or resets the device, is a move of the joining machine, unless it
  -- is a factoryReset: it stays, or goes from not included and idle to pending and waiting for a response,
  -- from there to waiting for the success, from there to included and idle, or from either wait back to
  -- not included and idle. A factoryReset does the same or leaves the protocol idle and inclusion mode off.
  pub Step-JoinMove :
      (d d' : Device store.State)
      → IsJoining prim store d
      → is_standard d.device_type ≡ true
      → (s : Step prim store d d')
      → JoinMove d.controller d'.controller ⊎ (IsReset prim store s × IsAnew d'.controller)
  Step-JoinMove d d' h s (received w rssi p) =
      inl (inl (handle_packet-DeviceMove prim store w rssi p d (device_states d h s).2))
  Step-JoinMove d d' h s (ticked now) =
      let k = device_states d h s in inl (ticked_move now d k.0 k.1)
  Step-JoinMove d d' h s (sent w topic bytes target) =
      inl (stays d.controller d'.controller (send_data_lem prim w topic bytes target d).0)
  Step-JoinMove d d' h s (requested w) =
      let same = send_inclusion_request-session prim store w d in inl (inl (inl (same.0, same.1)))
  Step-JoinMove d d' h s (responded w p) =
      let same = send_inclusion_response-session prim store w p d in
      inl (inl (inl (same.0, same.1)))
  Step-JoinMove d d' h s (confirmed w) =
      let same = send_inclusion_confirm-session prim store w d in inl (inl (inl (same.0, same.1)))
  Step-JoinMove d d' h s (succeeded w) =
      let same = send_inclusion_success-session prim store w d in inl (inl (inl (same.0, same.1)))
  Step-JoinMove d d' h s (opened w) = inl (
      stays d.controller d'.controller
        (ap (λ x. x.controller) (no_session prim store w d (device_states d h s).0.0)))
  Step-JoinMove d d' h s entered =
      inl (stays d.controller d'.controller (entered_stays d (device_states d h s).3))
  Step-JoinMove d d' h s (left now) =
      inl (stays d.controller d'.controller (left_stays now d (device_states d h s).3))
  Step-JoinMove d d' h s (secured params) =
      inl (stays d.controller d'.controller (secured_stays params d))
  Step-JoinMove d d' h s (was_reset memory seed random_key cleared) =
      elim (reset_move memory seed random_key cleared d) [ inl m ↦ inl m | inr new ↦ inr (tt, new) ]

  pub Step-device_type :
      (d d' : Device store.State) → Step prim store d d' → d'.device_type ≡ d.device_type
  unfolding check_protocol_timeouts handle_state_timeout exit_inclusion_mode enter_inclusion_mode
      update_security_params
  Step-device_type d d' (received w rssi p) = (handle_packet-kind prim store w rssi p d).2
  Step-device_type d d' (ticked now) = grind (
    arith,
    reset_protocol_state_lem store
        (record d { controller = record d.controller { inclusion_mode_enabled = false } }) now,
  )
  Step-device_type d d' (sent w topic bytes target) = (send_data_lem prim w topic bytes target d).1
  Step-device_type d d' (requested w) = (send_inclusion_request-session prim store w d).4
  Step-device_type d d' (responded w p) = (send_inclusion_response-session prim store w p d).4
  Step-device_type d d' (confirmed w) = (send_inclusion_confirm-session prim store w d).4
  Step-device_type d d' (succeeded w) = (send_inclusion_success-session prim store w d).4
  Step-device_type d d' (opened w) = (send_inclusion_open-kind prim store w d).2
  Step-device_type d d' entered = ground arith
  Step-device_type d d' (left now) = grind (
    arith,
    reset_protocol_state_lem store
        (record d { controller = record d.controller { inclusion_mode_enabled = false } }) now,
  )
  Step-device_type d d' (secured params) = refl
  Step-device_type d d' (was_reset memory seed random_key cleared) =
      (factory_reset_lem prim store memory seed random_key cleared d).0
