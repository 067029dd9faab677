-- ===== src/Device/Protocol/Timeout.antt =====
-- The timeout of a session, across the wrap-around of millis().
use radio_mesh.Base.{
  ℕ, ◌+◌, ◌%◌, ◌<◌, ◌≤◌, ◌≡◌, ◌≢◌, refl, ◌⊎◌, true, false, ◌==◌, arith, u32_mod, sub32,
}
use radio_mesh.Types.{not_included, inclusion_pending, is_standard, is_pending}
use radio_mesh.Storage.{ByteStorage, persist_state}
use radio_mesh.Device.{Device, Controller, ProtocolState, protocol_idle}
use radio_mesh.Device.Protocol.{
  state_number, in_state, transition_to_state, is_state_timed_out, reset_protocol_state,
  handle_state_timeout, check_protocol_timeouts, base_timeout_ms,
}

state_number_eq : (q r : ProtocolState) → (state_number r == state_number q) ≡ true → r ≡ q
state_number_eq q r h = ground arith

pub in_state_lem : (q : ProtocolState) (c : Controller) → in_state q c ≡ true → c.protocol_state ≡ q
in_state_lem q c h = state_number_eq q c.protocol_state h

pub transition_to_state_lem :
    (now : ℕ) (q : ProtocolState) (c : Controller)
    → ((transition_to_state now q c).protocol_state ≡ q)
      × ((transition_to_state now q c).state ≡ c.state)
      × ((transition_to_state now q c).device_type ≡ c.device_type)
      × ((transition_to_state now q c).inclusion_mode_enabled ≡ c.inclusion_mode_enabled)
      × ((transition_to_state now q c).current_nonce ≡ c.current_nonce)
unfolding transition_to_state
transition_to_state_lem now q c = ground (arith, in_state_lem q c)

elapsed_eq :
    (start elapsed : ℕ)
    → start < u32_mod
    → elapsed < u32_mod
    → sub32 ((start + elapsed) % u32_mod) start ≡ elapsed
elapsed_eq start elapsed s e = omega arith

module _ (store : ByteStorage) (d : Device store.State) where
  -- What resetProtocolState leaves.
  pub reset_protocol_state_lem :
      (now : ℕ)
      → ((reset_protocol_state store now d).controller.protocol_state ≡ protocol_idle)
        × ((reset_protocol_state store now d).controller.inclusion_mode_enabled
            ≡ d.controller.inclusion_mode_enabled)
        × ((reset_protocol_state store now d).controller.device_type ≡ d.controller.device_type)
        × ((reset_protocol_state store now d).device_type ≡ d.device_type)
        × (((d.controller.state ≡ inclusion_pending)
              × (is_standard d.controller.device_type ≡ true)
              × ((reset_protocol_state store now d).controller.state ≡ not_included)
              × ((reset_protocol_state store now d).stored
                  ≡ (persist_state store not_included d.stored).1))
            ⊎ (((is_standard d.controller.device_type ≡ false)
                  ⊎ (is_pending d.controller.state ≡ false))
                × ((reset_protocol_state store now d).controller.state ≡ d.controller.state)
                × ((reset_protocol_state store now d).stored ≡ d.stored)))
  unfolding reset_protocol_state
  reset_protocol_state_lem now =
      grind (arith, transition_to_state_lem now protocol_idle d.controller)

module _ (store : ByteStorage) (d : Device store.State) where
  idle_in_state :
      d.controller.protocol_state ≡ protocol_idle → in_state protocol_idle d.controller ≡ true
  idle_in_state h = rw h refl

  module _ (elapsed : ℕ) (s : d.controller.state_start_time < u32_mod) (e : elapsed < u32_mod) where
    abbrev pub checked : Device store.State
    checked = check_protocol_timeouts store ((d.controller.state_start_time + elapsed) % u32_mod) d

    -- A session that began at its start time and is checked `elapsed` milliseconds later, on a clock of
    -- 32 bits that may have wrapped: when no session runs or at most 60 seconds have passed, nothing
    -- changes. Otherwise the protocol is idle and inclusion mode off afterwards, and a standard device
    -- that was pending is not included, in its storage too; any other keeps its state and storage.
    pub check_protocol_timeouts_lem :
        (((d.controller.protocol_state ≡ protocol_idle) ⊎ (elapsed ≤ base_timeout_ms))
          × (checked ≡ d))
        ⊎ ((d.controller.protocol_state ≢ protocol_idle)
            × (base_timeout_ms < elapsed)
            × (checked.controller.protocol_state ≡ protocol_idle)
            × (checked.controller.inclusion_mode_enabled ≡ false)
            × (((d.controller.state ≡ inclusion_pending)
                  × (is_standard d.controller.device_type ≡ true)
                  × (checked.controller.state ≡ not_included)
                  × (checked.stored ≡ (persist_state store not_included d.stored).1))
                ⊎ (((is_standard d.controller.device_type ≡ false)
                      ⊎ (is_pending d.controller.state ≡ false))
                    × (checked.controller.state ≡ d.controller.state)
                    × (checked.stored ≡ d.stored))))
    unfolding check_protocol_timeouts is_state_timed_out handle_state_timeout
    check_protocol_timeouts_lem =
        let now = (d.controller.state_start_time + elapsed) % u32_mod in
        grind (
          arith,
          elapsed_eq d.controller.state_start_time elapsed s e,
          idle_in_state,
          in_state_lem protocol_idle d.controller,
          reset_protocol_state_lem store
              (record d { controller = record d.controller { inclusion_mode_enabled = false } })
              now,
        )
