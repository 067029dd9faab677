-- ===== src/Device/Startup/Initial.antt =====
-- The state of a controller that was just made, and what the rest of initialize leaves of it.
use radio_mesh.Base.{ℕ, false, List, ◌≡◌, refl, ◌⊎◌, arith}
use radio_mesh.Codes.{ReturnCode, e_none, error}
use radio_mesh.Types.{DeviceInclusionState, MeshDeviceType, is_hub, included}
use radio_mesh.Crypto.Primitives.{Primitives}
use radio_mesh.Storage.{ByteStorage}
use radio_mesh.KeyManager.{derive_public_key}
use radio_mesh.Device.{Device, protocol_idle}
use radio_mesh.Device.Inclusion.{update_security_params}
use radio_mesh.Device.Startup.{
  initialize, new_controller, initial_state, configure_keys, set_keys_of, apply_stored_key,
  load_and_apply_network_key,
}

module _ (prim : Primitives) (store : ByteStorage) where
  pub new_controller-protocol_state :
      (k : MeshDeviceType) (memory : DeviceInclusionState) (seed : ℕ) (random_key : List ℕ)
      (s : store.State)
      → (new_controller prim store k memory seed random_key s).0.protocol_state ≡ protocol_idle
  unfolding new_controller
  new_controller-protocol_state k memory seed random_key s = refl

  pub new_controller_lem :
      (k : MeshDeviceType) (memory : DeviceInclusionState) (seed : ℕ) (random_key : List ℕ)
      (s : store.State)
      → ((new_controller prim store k memory seed random_key s).0.inclusion_mode_enabled ≡ false)
        × ((new_controller prim store k memory seed random_key s).0.device_type ≡ k)
        × ((is_hub k ≡ false)
            ⊎ ((new_controller prim store k memory seed random_key s).0.state ≡ included))
  unfolding new_controller initial_state
  new_controller_lem k memory seed random_key s = ground arith

  set_keys_of-controller :
      (key : List ℕ) (x : ReturnCode × List ℕ) (d : Device store.State)
      → ((set_keys_of prim store key x d).controller ≡ d.controller)
        × ((set_keys_of prim store key x d).device_type ≡ d.device_type)
  unfolding set_keys_of
  set_keys_of-controller key (error n, k) d = (refl, refl)
  set_keys_of-controller key (e_none, k) d = (refl, refl)

  configure_keys-controller :
      (x : ReturnCode × List ℕ) (d : Device store.State)
      → ((configure_keys prim store x d).controller ≡ d.controller)
        × ((configure_keys prim store x d).device_type ≡ d.device_type)
  unfolding configure_keys
  configure_keys-controller (error n, k) d = (refl, refl)
  configure_keys-controller (e_none, k) d = set_keys_of-controller k (derive_public_key prim k) d

  apply_stored_key-controller :
      (x : ReturnCode × List ℕ) (d : Device store.State)
      → ((apply_stored_key prim store x d).1.controller ≡ d.controller)
        × ((apply_stored_key prim store x d).1.device_type ≡ d.device_type)
  unfolding apply_stored_key update_security_params
  apply_stored_key-controller (error n, k) d = (refl, refl)
  apply_stored_key-controller (e_none, k) d = (refl, refl)

  load_and_apply-controller :
      (d : Device store.State)
      → ((load_and_apply_network_key prim store d).1.controller ≡ d.controller)
        × ((load_and_apply_network_key prim store d).1.device_type ≡ d.device_type)
  unfolding load_and_apply_network_key
  load_and_apply-controller d = grind (arith, apply_stored_key-controller)

  pub initialize_lem :
      (memory : DeviceInclusionState) (seed : ℕ) (random_key : List ℕ) (d : Device store.State)
      → ((initialize prim store memory seed random_key d).controller
          ≡ (new_controller prim store d.device_type memory seed random_key d.stored).0)
        × ((initialize prim store memory seed random_key d).device_type ≡ d.device_type)
  unfolding initialize
  initialize_lem memory seed random_key d =
      grind (arith, configure_keys-controller, load_and_apply-controller)
