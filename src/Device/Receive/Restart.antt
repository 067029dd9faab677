-- ===== src/Device/Receive/Restart.antt =====
-- A standard device that restarts while its inclusion is pending.
use radio_mesh.Base.{ℕ, true, false, List, [], ◌∷◌, ◌≡◌, refl, inl, inr, arith, ap, ◌∙◌}
use radio_mesh.Codes.{e_none}
use radio_mesh.Types.{
  DeviceInclusionState, is_standard, is_hub, inclusion_pending, state_byte, state_of_byte,
}
use radio_mesh.Crypto.Primitives.{Primitives}
use radio_mesh.Storage.{ByteStorage, load_state, state_key, state_of_read, load_private_key}
use radio_mesh.Device.{Device, Controller, protocol_idle}
use radio_mesh.Device.Startup.{
  initialize, new_controller, initialize_keys, keys_of_load, initial_state, state_of_load,
}
use radio_mesh.KeyManager.{derive_public_key}
use radio_mesh.Device.Startup.Initial.{initialize_lem, new_controller-protocol_state}
use radio_mesh.Device.Receive.Initialized.{initialize-IsJoining}
use radio_mesh.Device.Receive.Steps.{IsJoining, Reachable, here, step, NoReset, Reachable-IsJoining}
use radio_mesh.Device.Receive.Progress.{Step-JoinMove, JoinMove, Step-device_type}

module _ (prim : Primitives) (store : ByteStorage) where
  -- Pending and idle, for a standard device.
  abbrev pub IsStuck : Device store.State → Type 0
  IsStuck d =
      (is_standard d.device_type ≡ true)
      × (d.controller.state ≡ inclusion_pending)
      × (d.controller.protocol_state ≡ protocol_idle)

  no_move :
      (c c' : Controller)
      → c.state ≡ inclusion_pending
      → c.protocol_state ≡ protocol_idle
      → JoinMove c c'
      → (c'.state ≡ inclusion_pending) × (c'.protocol_state ≡ protocol_idle)
  no_move c c' s q m = ground arith

  Reachable-IsStuck :
      (start d : Device store.State)
      → IsJoining prim store start
      → IsStuck start
      → (run : Reachable prim store start d) → NoReset prim store run
      → IsStuck d
  Reachable-IsStuck start d h stuck here quiet = stuck
  Reachable-IsStuck start d h stuck (step {d = e} r s) (other, quiet) =
      let before = Reachable-IsStuck start e h stuck r quiet in
      let joining = Reachable-IsJoining prim store start e h r in
      let moved = Step-JoinMove prim store e d joining before.0 s in
      let after =
        no_move e.controller d.controller before.1 before.2
          (elim moved [ inl m ↦ m | inr (is_reset, new) ↦ absurd (other is_reset) ]) in
      (rw (Step-device_type prim store e d s) before.0, after.0, after.1)

  stored_pending :
      (memory : DeviceInclusionState) (seed : ℕ) (key : List ℕ) (random_key : List ℕ)
      (d : Device store.State)
      → is_standard d.device_type ≡ true
      → load_private_key store d.stored ≡ (e_none, key)
      → (derive_public_key prim key).0 ≡ e_none
      → store.read state_key d.stored ≡ (e_none, state_byte inclusion_pending ∷ [])
      → (new_controller prim store d.device_type memory seed random_key d.stored).0.state
        ≡ inclusion_pending
  unfolding new_controller initialize_keys keys_of_load initial_state state_of_load load_state
      state_of_read state_of_byte
  stored_pending memory seed key random_key d s k e r =
      let hub : is_hub d.device_type ≡ false = ground arith in rw (hub, k, e, r) refl

  -- A standard device whose storage holds its private key and the state pending is initialized to
  -- a device that is pending while its protocol is idle, and stays so through every run without a
  -- factoryReset, whatever it receives, sends and waits for: no message and no timeout lets it join
  -- or start over.
  pub restart_pending :
      (memory : DeviceInclusionState) (seed : ℕ) (key random_key : List ℕ)
      (d d' : Device store.State)
      → is_standard d.device_type ≡ true
      → load_private_key store d.stored ≡ (e_none, key)
      → (derive_public_key prim key).0 ≡ e_none
      → store.read state_key d.stored ≡ (e_none, state_byte inclusion_pending ∷ [])
      → (run : Reachable prim store (initialize prim store memory seed random_key d) d')
      → NoReset prim store run
      → (d'.controller.state ≡ inclusion_pending) × (d'.controller.protocol_state ≡ protocol_idle)
  restart_pending memory seed key random_key d d' s k e r run quiet =
      let start = initialize prim store memory seed random_key d in
      let made = initialize_lem prim store memory seed random_key d in
      let idle : IsStuck start = (
        rw made.1 s,
        ap (λ c. c.state) made.0 ∙ stored_pending memory seed key random_key d s k e r,
        ap (λ c. c.protocol_state) made.0
            ∙ new_controller-protocol_state prim store d.device_type memory seed random_key
                d.stored,
      ) in
      let stuck =
        Reachable-IsStuck start d' (initialize-IsJoining prim store memory seed random_key d) idle
          run quiet in
      (stuck.1, stuck.2)
