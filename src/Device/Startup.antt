-- ===== src/Device/Startup.antt =====
-- The constructor of framework/device/src/InclusionController.cpp, and initialize and factoryReset of
-- framework/device/src/Device.cpp, over a storage that has begun.
pub mod Initial
use radio_mesh.Base.{
  ℕ, zero, Bool, true, false, ◌||◌, Option, none, some, List, [], if◌then◌else◌, ◌==◌,
}
use radio_mesh.Codes.{ReturnCode, e_none, error, e_invalid_state}
use radio_mesh.Types.{
  MeshDeviceType, DeviceInclusionState, not_included, included, is_hub, is_included,
}
use radio_mesh.Crypto.Primitives.{Primitives}
use radio_mesh.Crypto.Service
use radio_mesh.Storage.{ByteStorage, load_state, load_private_key}
use radio_mesh.KeyManager.{
  generate_key_pair, derive_public_key, save_private_key, initialize_for_hub,
  get_current_network_key,
}
use radio_mesh.Device.{Device, Controller, protocol_idle}
use radio_mesh.Device.Inclusion.{update_security_params, network_params}

-- The result of a code, or another where it is an error.
abbrev is_e_none : ReturnCode → Bool
is_e_none e_none = true
is_e_none (error n) = false

module _ (prim : Primitives) (store : ByteStorage) where
  -- initializeKeys: the code, and the contents of the storage
  unfoldable pub store_new_keys :
      ReturnCode × List ℕ × List ℕ → store.State → ReturnCode × store.State
  store_new_keys (error n, public_key, private_key) s = (error n, s)
  store_new_keys (e_none, public_key, private_key) s = save_private_key store private_key s

  unfoldable pub keys_of_load : ℕ → ReturnCode × List ℕ → store.State → ReturnCode × store.State
  unfolding store_new_keys
  keys_of_load seed (e_none, private_key) s = ((derive_public_key prim private_key).0, s)
  keys_of_load seed (error n, private_key) s =
      if n == 503 then store_new_keys (generate_key_pair prim seed) s else (error n, s)

  unfoldable pub initialize_keys : ℕ → store.State → ReturnCode × store.State
  unfolding keys_of_load
  initialize_keys seed s = keys_of_load seed (load_private_key store s) s

  -- What a standard device makes of loadState; a state that was not assigned stays as the memory held it.
  unfoldable pub state_of_load :
      DeviceInclusionState → ReturnCode × Option DeviceInclusionState → DeviceInclusionState
  state_of_load memory (e_none, some state) = state
  state_of_load memory (e_none, none) = memory
  state_of_load memory (error n, state) = not_included

  -- The constructor's last step. A device whose keys failed keeps what the memory held.
  unfoldable pub initial_state :
      MeshDeviceType → DeviceInclusionState → ReturnCode × store.State → DeviceInclusionState
  initial_state device_type memory (rc, s) =
      if is_hub device_type
      then included
      else if is_e_none rc
      then state_of_load memory (load_state store s)
      else memory

  -- The constructor: the controller, and the contents of the storage
  unfoldable pub new_controller :
      MeshDeviceType → DeviceInclusionState → ℕ → List ℕ → store.State → Controller × store.State
  new_controller device_type memory seed random_key s =
      let keyed = initialize_keys seed s in
      let ready =
        if is_hub device_type then initialize_for_hub store random_key keyed.1 else keyed in
      (
        record {
          state = initial_state device_type memory ready;
          device_type = device_type;
          inclusion_mode_enabled = false;
          protocol_state = protocol_idle;
          state_start_time = zero;
          retry_count = zero;
          current_nonce = [];
          temp_hub_public_key = [];
        },
        ready.1,
      )

  -- loadAndApplyNetworkKey
  unfoldable pub apply_stored_key :
      ReturnCode × List ℕ → Device store.State → ReturnCode × Device store.State
  apply_stored_key (error n, key) d = (error n, d)
  apply_stored_key (e_none, key) d = (e_none, update_security_params (network_params key) d)

  unfoldable pub load_and_apply_network_key : Device store.State → ReturnCode × Device store.State
  load_and_apply_network_key d =
      if is_hub d.controller.device_type || is_included d.controller.state
      then apply_stored_key (get_current_network_key store d.stored) d
      else (e_invalid_state, d)

  -- The keys that initialize gives to the encryption service
  unfoldable pub set_keys_of :
      List ℕ → ReturnCode × List ℕ → Device store.State → Device store.State
  set_keys_of private_key (error n, public_key) d = d
  set_keys_of private_key (e_none, public_key) d = record d {
    service = Service.set_device_keys private_key public_key d.service;
  }

  unfoldable pub configure_keys : ReturnCode × List ℕ → Device store.State → Device store.State
  configure_keys (error n, private_key) d = d
  configure_keys (e_none, private_key) d =
      set_keys_of private_key (derive_public_key prim private_key) d

  -- initialize, once the storage has begun
  unfoldable pub initialize :
      DeviceInclusionState → ℕ → List ℕ → Device store.State → Device store.State
  initialize memory seed random_key d =
      let made = new_controller d.device_type memory seed random_key d.stored in
      let set : Device store.State = configure_keys (load_private_key store made.1) (record d {
        controller = made.0;
        stored = made.1;
        router = record d.router { encryption_set = true; mic_set = true };
      }) in
      if is_included set.controller.state || is_hub set.device_type
      then (load_and_apply_network_key set).1
      else set

  -- factoryReset, with `cleared` what the storage's clear() answers and leaves
  unfoldable pub factory_reset :
      DeviceInclusionState
      → ℕ
      → List ℕ
      → ReturnCode × store.State
      → Device store.State
      → ReturnCode × Device store.State
  unfolding new_controller
  factory_reset memory seed random_key (error n, cleared) d =
      (error n, record d { stored = cleared })
  factory_reset memory seed random_key (e_none, cleared) d =
      let made = new_controller d.device_type memory seed random_key cleared in
      (e_none, record d { packet_counter = 0; controller = made.0; stored = made.1 })
