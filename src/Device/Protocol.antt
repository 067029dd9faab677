-- ===== src/Device/Protocol.antt =====
-- framework/device/src/InclusionController.cpp: the protocol's state machine, its timeout and the hub's
-- inclusion mode.
pub mod Timeout
use radio_mesh.Base.{ℕ, Bool, true, false, not, ◌&&◌, ◌==◌, ltb, if◌then◌else◌, sub32}
use radio_mesh.Codes.{ReturnCode, e_none, e_invalid_device_type}
use radio_mesh.Types.{not_included, is_hub, is_standard, is_pending}
use radio_mesh.Storage.{ByteStorage, persist_state}
use radio_mesh.Device.{
  Device, Controller, ProtocolState, protocol_idle, waiting_for_request, waiting_for_response,
  waiting_for_confirmation, waiting_for_success,
}

abbrev pub base_timeout_ms : ℕ
base_timeout_ms = 60000

abbrev pub state_number : ProtocolState → ℕ
state_number protocol_idle = 0
state_number waiting_for_request = 1
state_number waiting_for_response = 2
state_number waiting_for_confirmation = 3
state_number waiting_for_success = 4

abbrev pub in_state : ProtocolState → Controller → Bool
in_state expected c = state_number c.protocol_state == state_number expected

-- transitionToState
unfoldable pub transition_to_state : ℕ → ProtocolState → Controller → Controller
transition_to_state now new_state c =
    if in_state new_state c
    then c
    else record c { protocol_state = new_state; state_start_time = now; retry_count = 0 }

-- isStateTimedOut, with the unsigned difference of two uint32_t
unfoldable pub is_state_timed_out : ℕ → Controller → Bool
is_state_timed_out now c =
    if in_state protocol_idle c then false else ltb base_timeout_ms (sub32 now c.state_start_time)

module _ (store : ByteStorage) where
  -- resetProtocolState
  unfoldable pub reset_protocol_state : ℕ → Device store.State → Device store.State
  reset_protocol_state now d =
      let idle = record (transition_to_state now protocol_idle d.controller) { retry_count = 0 } in
      if is_standard idle.device_type && is_pending idle.state
      then record d {
        controller = record idle { state = not_included };
        stored = (persist_state store not_included d.stored).1;
      }
      else record d { controller = idle }

  -- handleStateTimeout
  unfoldable pub handle_state_timeout : ℕ → Device store.State → Device store.State
  unfolding reset_protocol_state
  handle_state_timeout now d =
      reset_protocol_state now
        (record d { controller = record d.controller { inclusion_mode_enabled = false } })

  -- checkProtocolTimeouts, which returns RM_E_NONE in any case
  unfoldable pub check_protocol_timeouts : ℕ → Device store.State → Device store.State
  unfolding handle_state_timeout is_state_timed_out
  check_protocol_timeouts now d =
      if is_state_timed_out now d.controller then handle_state_timeout now d else d

  -- enterInclusionMode
  unfoldable pub enter_inclusion_mode : Device store.State → ReturnCode × Device store.State
  enter_inclusion_mode d =
      if not (is_hub d.device_type)
      then (e_invalid_device_type, d)
      else (e_none, record d { controller = record d.controller { inclusion_mode_enabled = true } })

  -- exitInclusionMode
  unfoldable pub exit_inclusion_mode : ℕ → Device store.State → ReturnCode × Device store.State
  unfolding reset_protocol_state
  exit_inclusion_mode now d = if not (is_hub d.device_type) then (e_invalid_device_type, d) else (
    e_none,
    reset_protocol_state now
        (record d { controller = record d.controller { inclusion_mode_enabled = false } }),
  )
