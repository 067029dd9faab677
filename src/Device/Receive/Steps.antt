-- ===== src/Device/Receive/Steps.antt =====
-- The device as a transition system, between initialize and the end of the program: packets that its radio has
-- received, its clock, and the calls of IDevice that send, switch inclusion mode, reset it or set a key with
-- the method AES. The calls that set a device up are not among the steps, setDeviceType and initialize with
-- them: the builder makes these before, and setDeviceType does not reach the controller.
use radio_mesh.Base.{ℕ, true, false, List, ◌≡◌, refl, ◌⊎◌, inl, inr, arith, sym, ◌∙◌}
use radio_mesh.Base.Int.{ℤ}
use radio_mesh.Codes.{ReturnCode, e_none, error}
use radio_mesh.Types.{DeviceInclusionState, is_hub, inclusion_pending, included}
use radio_mesh.Packet.{Packet, DeviceId}
use radio_mesh.Crypto.Primitives.{Primitives}
use radio_mesh.Storage.{ByteStorage}
use radio_mesh.Device.{
  Device, Controller, World, protocol_idle, waiting_for_request, waiting_for_response,
  waiting_for_confirmation, waiting_for_success, send_data,
}
use radio_mesh.Device.Protocol.{
  check_protocol_timeouts, handle_state_timeout, enter_inclusion_mode, exit_inclusion_mode,
}
use radio_mesh.Device.Protocol.Timeout.{reset_protocol_state_lem}
use radio_mesh.Device.Inclusion.{
  send_inclusion_open, send_inclusion_request, send_inclusion_response, send_inclusion_confirm,
  send_inclusion_success, update_security_params,
}
use radio_mesh.Device.Inclusion.Moves.{
  SameSession, send_inclusion_response-session, DeviceMove, HubMove, send_data_lem,
  send_inclusion_open-HubMove,
}
use radio_mesh.Device.Inclusion.Kept.{
  send_inclusion_request-session, send_inclusion_confirm-session, send_inclusion_success-session,
  SameKind, send_inclusion_open-kind,
}
use radio_mesh.Device.Receive.Packets.{
  handle_packet-DeviceMove, handle_packet-HubMove, handle_packet-kind,
}
use radio_mesh.Crypto.Aes.{SecurityParams}
use radio_mesh.Device.Startup.{factory_reset, new_controller}
use radio_mesh.Device.Startup.Initial.{new_controller_lem, new_controller-protocol_state}
use radio_mesh.Device.Receive.{handle_packet}

module _ (prim : Primitives) (store : ByteStorage) where
  -- A step of the device.
  pub data Step : Device store.State → Device store.State → Type 0 where
    received :
        {d : Device store.State} (w : World) (rssi : ℤ) (p : Packet)
        → Step d (handle_packet prim store w rssi p d).1
    ticked : {d : Device store.State} (now : ℕ) → Step d (check_protocol_timeouts store now d)
    sent :
        {d : Device store.State} (w : World) (topic : ℕ) (bytes : List ℕ) (target : DeviceId)
        → Step d (send_data prim w topic bytes target d).1
    requested :
        {d : Device store.State} (w : World) → Step d (send_inclusion_request prim store w d).1
    responded :
        {d : Device store.State} (w : World) (p : Packet)
        → Step d (send_inclusion_response prim store w p d).1
    confirmed :
        {d : Device store.State} (w : World) → Step d (send_inclusion_confirm prim store w d).1
    succeeded :
        {d : Device store.State} (w : World) → Step d (send_inclusion_success prim store w d).1
    opened : {d : Device store.State} (w : World) → Step d (send_inclusion_open prim store w d).1
    entered : {d : Device store.State} → Step d (enter_inclusion_mode store d).1
    left : {d : Device store.State} (now : ℕ) → Step d (exit_inclusion_mode store now d).1
    secured :
        {d : Device store.State} (params : SecurityParams)
        → Step d (update_security_params params d)
    was_reset :
        {d : Device store.State} (memory : DeviceInclusionState) (seed : ℕ) (random_key : List ℕ)
        (cleared : ReturnCode × store.State)
        → Step d (factory_reset prim store memory seed random_key cleared d).1

  -- A factoryReset
  abbrev pub IsReset : {d d' : Device store.State} → Step d d' → Type 0
  IsReset (was_reset memory seed random_key cleared) = Unit
  IsReset _ = ⊥

  -- The states that a device can be in: a hub is included, and waits for a request or a confirmation or
  -- not at all. Any other device is never in inclusion mode, and waits for a response or for the
  -- success only while its inclusion is pending.
  abbrev pub HubStates : Controller → Type 0
  HubStates c =
      (c.state ≡ included)
      × ((c.protocol_state ≡ protocol_idle)
          ⊎ (c.protocol_state ≡ waiting_for_request)
          ⊎ (c.protocol_state ≡ waiting_for_confirmation))

  abbrev pub DeviceStates : Controller → Type 0
  DeviceStates c =
      (c.inclusion_mode_enabled ≡ false)
      × ((c.protocol_state ≡ protocol_idle)
          ⊎ ((c.state ≡ inclusion_pending) × (c.protocol_state ≡ waiting_for_response))
          ⊎ ((c.state ≡ inclusion_pending) × (c.protocol_state ≡ waiting_for_success)))

  abbrev pub IsJoining : Device store.State → Type 0
  IsJoining d =
      (d.controller.device_type ≡ d.device_type)
      × (((is_hub d.device_type ≡ true) × HubStates d.controller)
          ⊎ ((is_hub d.device_type ≡ false) × DeviceStates d.controller))

  -- From one state on, any number of steps.
  pub data Reachable (start : Device store.State) : Device store.State → Type 0 where
    here : Reachable start start
    step : {d d' : Device store.State} → Reachable start d → Step d d' → Reachable start d'

  -- No step of the run is a factoryReset.
  abbrev pub NoReset : {start d : Device store.State} → Reachable start d → Type 0
  NoReset here = Unit
  NoReset (step r s) = (IsReset s → ⊥) × NoReset r

  hub_next :
      (d d' : Device store.State)
      → HubStates d.controller
      → HubMove d.controller d'.controller
      → HubStates d'.controller
  hub_next d d' h m = ground arith

  device_next :
      (d d' : Device store.State)
      → DeviceStates d.controller
      → DeviceMove d.controller d'.controller
      → SameKind d d'
      → DeviceStates d'.controller
  device_next d d' h m k = ground arith

  received_next :
      (w : World) (rssi : ℤ) (p : Packet) (d : Device store.State)
      → IsJoining d
      → IsJoining (handle_packet prim store w rssi p d).1
  received_next w rssi p d (same, inl (here_hub, h)) =
      let d' = (handle_packet prim store w rssi p d).1 in
      let kept = handle_packet-kind prim store w rssi p d in
      let next = hub_next d d' h (handle_packet-HubMove prim store w rssi p d (rw same here_hub)) in
      (kept.1 ∙ same ∙ sym kept.2, inl (rw kept.2 here_hub, next))
  received_next w rssi p d (same, inr (no_hub, h)) =
      let d' = (handle_packet prim store w rssi p d).1 in
      let kept = handle_packet-kind prim store w rssi p d in
      let next =
        device_next d d' h (handle_packet-DeviceMove prim store w rssi p d (rw same no_hub)) kept in
      (kept.1 ∙ same ∙ sym kept.2, inr (rw kept.2 no_hub, next))

  ticked_next :
      (now : ℕ) (d : Device store.State)
      → IsJoining d
      → IsJoining (check_protocol_timeouts store now d)
  unfolding check_protocol_timeouts handle_state_timeout
  ticked_next now d h = grind (
    arith,
    reset_protocol_state_lem store
        (record d { controller = record d.controller { inclusion_mode_enabled = false } }) now,
  )

  left_next :
      (now : ℕ) (d : Device store.State)
      → IsJoining d
      → IsJoining (exit_inclusion_mode store now d).1
  unfolding exit_inclusion_mode
  left_next now d h = grind (
    arith,
    reset_protocol_state_lem store
        (record d { controller = record d.controller { inclusion_mode_enabled = false } }) now,
  )

  entered_next : (d : Device store.State) → IsJoining d → IsJoining (enter_inclusion_mode store d).1
  unfolding enter_inclusion_mode
  entered_next d h = ground arith

  sent_next :
      (w : World) (topic : ℕ) (bytes : List ℕ) (target : DeviceId) (d : Device store.State)
      → IsJoining d
      → IsJoining (send_data prim w topic bytes target d).1
  sent_next w topic bytes target d h =
      let kept = send_data_lem prim w topic bytes target d in rw (kept.0, kept.1) h

  session_next : (d d' : Device store.State) → SameSession d d' → IsJoining d → IsJoining d'
  session_next d d' same h = ground arith

  pub factory_reset_lem :
      (memory : DeviceInclusionState) (seed : ℕ) (random_key : List ℕ)
      (cleared : ReturnCode × store.State) (d : Device store.State)
      → ((factory_reset prim store memory seed random_key cleared d).1.device_type ≡ d.device_type)
        × (((factory_reset prim store memory seed random_key cleared d).1.controller ≡ d.controller)
            ⊎ ((factory_reset prim store memory seed random_key cleared d).1.controller
                ≡ (new_controller prim store d.device_type memory seed random_key cleared.1).0))
  unfolding factory_reset
  factory_reset_lem memory seed random_key (error n, cleared) d = (refl, inl refl)
  factory_reset_lem memory seed random_key (e_none, cleared) d = (refl, inr refl)

  reset_next :
      (memory : DeviceInclusionState) (seed : ℕ) (random_key : List ℕ)
      (cleared : ReturnCode × store.State) (d : Device store.State)
      → IsJoining d
      → IsJoining (factory_reset prim store memory seed random_key cleared d).1
  reset_next memory seed random_key cleared d h = ground (
    arith,
    factory_reset_lem memory seed random_key cleared d,
    new_controller_lem prim store d.device_type memory seed random_key cleared.1,
    new_controller-protocol_state prim store d.device_type memory seed random_key cleared.1,
  )

  secured_next :
      (params : SecurityParams) (d : Device store.State)
      → IsJoining d
      → IsJoining (update_security_params params d)
  unfolding update_security_params
  secured_next params d h = h

  -- A device that is not in inclusion mode opens no session.
  pub no_session :
      (w : World) (d : Device store.State)
      → d.controller.inclusion_mode_enabled ≡ false
      → (send_inclusion_open prim store w d).1 ≡ d
  unfolding send_inclusion_open
  no_session w d h = rw h refl

  opened_next :
      (w : World) (d : Device store.State)
      → IsJoining d
      → IsJoining (send_inclusion_open prim store w d).1
  opened_next w d (same, inl (here_hub, h)) =
      let kept = send_inclusion_open-kind prim store w d in
      let next =
        hub_next d (send_inclusion_open prim store w d).1 h
          (send_inclusion_open-HubMove prim store w d) in
      (kept.1 ∙ same ∙ sym kept.2, inl (rw kept.2 here_hub, next))
  opened_next w d (same, inr (no_hub, h)) = rw (no_session w d h.0) (same, inr (no_hub, h))

  pub Step-IsJoining : (d d' : Device store.State) → Step d d' → IsJoining d → IsJoining d'
  Step-IsJoining d d' (received w rssi p) h = received_next w rssi p d h
  Step-IsJoining d d' (ticked now) h = ticked_next now d h
  Step-IsJoining d d' (sent w topic bytes target) h = sent_next w topic bytes target d h
  Step-IsJoining d d' (requested w) h =
      session_next d d' (send_inclusion_request-session prim store w d) h
  Step-IsJoining d d' (responded w p) h =
      session_next d d' (send_inclusion_response-session prim store w p d) h
  Step-IsJoining d d' (confirmed w) h =
      session_next d d' (send_inclusion_confirm-session prim store w d) h
  Step-IsJoining d d' (succeeded w) h =
      session_next d d' (send_inclusion_success-session prim store w d) h
  Step-IsJoining d d' (opened w) h = opened_next w d h
  Step-IsJoining d d' entered h = entered_next d h
  Step-IsJoining d d' (left now) h = left_next now d h
  Step-IsJoining d d' (secured params) h = secured_next params d h
  Step-IsJoining d d' (was_reset memory seed random_key cleared) h =
      reset_next memory seed random_key cleared d h

  pub Reachable-IsJoining :
      (start d : Device store.State) → IsJoining start → Reachable start d → IsJoining d
  Reachable-IsJoining start d h here = h
  Reachable-IsJoining start d h (step {d = e} r s) =
      Step-IsJoining e d s (Reachable-IsJoining start e h r)
