-- ===== src/Device/Inclusion/Keys.antt =====
-- handleHubKey and handleNetworkKey of framework/device/src/InclusionController.cpp, which nothing calls yet.
use radio_mesh.Base.{ℕ, List, length, if◌then◌else◌, ◌≡◌, refl, arith}
use radio_mesh.Codes.{ReturnCode, e_none, failed}
use radio_mesh.Crypto.Primitives.{Primitives}
use radio_mesh.Crypto.Service
use radio_mesh.Storage.{network_key_key, ByteStorage, load_private_key}
use radio_mesh.Storage.Laws.{IsStore}
use radio_mesh.KeyManager
use radio_mesh.KeyManager.{
  decrypt_network_key, save_hub_key, save_network_key, validate_key, get_current_network_key,
}
use radio_mesh.KeyManager.Keys.{decrypt_network_key-unchanged, set_then_has}
use radio_mesh.Device.{Device}
use radio_mesh.Device.Inclusion.{on_success}

module _ (prim : Primitives) (store : ByteStorage) where
  unfoldable pub handle_hub_key : List ℕ → Device store.State → ReturnCode × Device store.State
  handle_hub_key hub_key d =
      let r = save_hub_key store hub_key d.stored in (r.0, record d { stored = r.1 })

  -- The end of handleNetworkKey: the key is stored, and given to the encryption service.
  unfoldable pub keep_network_key : List ℕ → Device store.State → ReturnCode × Device store.State
  keep_network_key network_key d =
      let r = KeyManager.set_network_key store network_key d.stored in
      if failed r.0 then (r.0, record d { stored = r.1 }) else (
        e_none,
        record d { stored = r.1; service = Service.set_network_key network_key d.service },
      )

  unfoldable pub handle_network_key : List ℕ → Device store.State → ReturnCode × Device store.State
  unfolding keep_network_key
  handle_network_key encrypted_key d =
      on_success {A = List ℕ} (load_private_key store d.stored) d (λ private_key.
        on_success {A = List ℕ}
          (decrypt_network_key prim encrypted_key private_key d.router.aes_params) d
          (λ network_key. keep_network_key network_key d))

  keep_network_key-kept :
      (law : IsStore store) (network_key : List ℕ) (d : Device store.State)
      → law.Fits network_key_key network_key d.stored
      → (keep_network_key network_key d).0 ≡ e_none
      → (get_current_network_key store (keep_network_key network_key d).1.stored
          ≡ (e_none, network_key))
        × ((keep_network_key network_key d).1.service
            ≡ Service.set_network_key network_key d.service)
  unfolding keep_network_key
  keep_network_key-kept law network_key d place ok =
      let done : (KeyManager.set_network_key store network_key d.stored).0 ≡ e_none =
        ground (arith, ok) in
      rw done ((set_then_has store law network_key d.stored place done).0, refl)

  pub handle_network_key-kept :
      (encrypted_key private_key : List ℕ) (d : Device store.State)
      → load_private_key store d.stored ≡ (e_none, private_key)
      → length private_key ≡ 32
      → length encrypted_key ≡ 32
      → handle_network_key encrypted_key d ≡ keep_network_key encrypted_key d
  unfolding handle_network_key
  handle_network_key-kept encrypted_key private_key d has p e =
      let plain =
        decrypt_network_key-unchanged prim encrypted_key private_key d.router.aes_params e p in
      rw (has, plain) refl

  -- On a storage that has a place for the key, a device with a private key of 32 bytes takes the 32 bytes of
  -- the encrypted key themselves for the network key: once handleNetworkKey succeeds, they are what
  -- getCurrentNetworkKey gives and what the encryption service encrypts with.
  pub handle_network_key-unchanged :
      (law : IsStore store) (encrypted_key private_key : List ℕ) (d : Device store.State)
      → load_private_key store d.stored ≡ (e_none, private_key)
      → length private_key ≡ 32
      → length encrypted_key ≡ 32
      → law.Fits network_key_key encrypted_key d.stored
      → (handle_network_key encrypted_key d).0 ≡ e_none
      → (get_current_network_key store (handle_network_key encrypted_key d).1.stored
          ≡ (e_none, encrypted_key))
        × ((handle_network_key encrypted_key d).1.service
            ≡ Service.set_network_key encrypted_key d.service)
  handle_network_key-unchanged law encrypted_key private_key d has p e place ok =
      let same = handle_network_key-kept encrypted_key private_key d has p e in
      rw same (keep_network_key-kept law encrypted_key d place (rw same at ok))
