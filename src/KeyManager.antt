-- ===== src/KeyManager.antt =====
-- framework/device/inc/KeyManager.h and src/KeyManager.cpp: the keys of a device. `random(256)` and the
-- chip's id are arguments.
pub mod Keys
use radio_mesh.Base.{
  ℕ, zero, suc, ◌+◌, ◌*◌, ◌/◌, ◌%◌, ◌^◌, Bool, false, not, ◌||◌, none, some, List, [], ◌∷◌, length,
  get_or, set, ◌==◌, ◌!=◌, if◌then◌else◌, u32_mod,
}
use radio_mesh.Codes.{ReturnCode, e_none, error, e_invalid_param, e_crypto_setup}
use radio_mesh.Crypto.Primitives.{Primitives}
use radio_mesh.Crypto.Aes.{SecurityParams}
use radio_mesh.Crypto.Service.{new_service, set_device_keys, encrypt_direct_ecc, decrypt_direct_ecc}
use radio_mesh.Storage.{
  ByteStorage, persist_private_key, load_private_key, persist_hub_key, persist_network_key,
  load_network_key,
}

-- The bytes of generateDeterministicKey: a linear congruential generator on a uint32_t.
unfoldable pub lcg_bytes : ℕ → ℕ → List ℕ
lcg_bytes zero seed = []
lcg_bytes (suc n) seed =
    let next = (seed * 1103515245 + 12345) % u32_mod in (next / 2 ^ 16 % 256) ∷ lcg_bytes n next

-- The Curve25519 mask of a key of 32 bytes: `& 0xF8` on the first, `(x & 0x7F) | 0x40` on the last.
unfoldable pub mask_key : List ℕ → List ℕ
mask_key key = set (set key 0 (get_or key 0 0 / 8 * 8)) 31 (get_or key 31 0 % 64 + 64)

-- generateDeterministicKey of 32 bytes
unfoldable pub generate_deterministic_key : ℕ → List ℕ
unfolding lcg_bytes mask_key
generate_deterministic_key seed = mask_key (lcg_bytes 32 seed)

-- validatePublicKey, validatePrivateKey and validateNetworkKey: each wants 32 bytes.
unfoldable pub validate_key : List ℕ → Bool
validate_key key = length key == 32

module _ (prim : Primitives) where
  -- derivePublicKey
  unfoldable pub derive_public_key : List ℕ → ReturnCode × List ℕ
  derive_public_key private_key =
      if length private_key != 32
      then (e_invalid_param, [])
      else elim (prim.curve_eval private_key none) [
        | none ↦ (e_crypto_setup, [])
        | some public_key ↦ (e_none, public_key)
      ]

  -- generateKeyPair: the public and the private key
  unfoldable pub generate_key_pair : ℕ → ReturnCode × List ℕ × List ℕ
  generate_key_pair seed = elim (prim.curve_eval (generate_deterministic_key seed) none) [
    | none ↦ (e_crypto_setup, [], generate_deterministic_key seed)
    | some public_key ↦ (e_none, public_key, generate_deterministic_key seed)
  ]

  -- decryptNetworkKey, with an EncryptionService of its own that holds no key
  unfoldable pub decrypt_network_key : List ℕ → List ℕ → SecurityParams → ReturnCode × List ℕ
  decrypt_network_key encrypted_key private_key params =
      if not (validate_key private_key)
      then (e_invalid_param, [])
      else let network_key =
          (decrypt_direct_ecc prim encrypted_key private_key new_service params).0 in
        if not (validate_key network_key)
        then (e_crypto_setup, network_key)
        else (e_none, network_key)

-- The test of hasNetworkKey
unfoldable pub is_key_of_load : ReturnCode × List ℕ → Bool
is_key_of_load (e_none, key) = validate_key key
is_key_of_load (error n, key) = false

module _ (store : ByteStorage) where
  -- persistPrivateKey, persistHubKey and persistNetworkKey of the KeyManager
  unfoldable pub save_private_key : List ℕ → store.State → ReturnCode × store.State
  save_private_key key s =
      if not (validate_key key) then (e_invalid_param, s) else persist_private_key store key s

  unfoldable pub save_hub_key : List ℕ → store.State → ReturnCode × store.State
  save_hub_key key s =
      if not (validate_key key) then (e_invalid_param, s) else persist_hub_key store key s

  unfoldable pub save_network_key : List ℕ → store.State → ReturnCode × store.State
  save_network_key key s =
      if not (validate_key key) then (e_invalid_param, s) else persist_network_key store key s

  -- setNetworkKey, which validates once more
  unfoldable pub set_network_key : List ℕ → store.State → ReturnCode × store.State
  set_network_key key s =
      if not (validate_key key) then (e_invalid_param, s) else save_network_key key s

  -- getCurrentNetworkKey
  unfoldable pub get_current_network_key : store.State → ReturnCode × List ℕ
  get_current_network_key s = load_network_key store s

  -- hasNetworkKey
  unfoldable pub has_network_key : store.State → Bool
  has_network_key s = is_key_of_load (load_network_key store s)

  -- initializeForHub: a new network key only if none is stored; `random_key` is generateNetworkKey's.
  unfoldable pub initialize_for_hub : List ℕ → store.State → ReturnCode × store.State
  initialize_for_hub random_key s =
      if has_network_key s then (e_none, s) else set_network_key random_key s

  -- encryptNetworkKey, with an EncryptionService of its own that holds the device's keys
  unfoldable pub encrypt_network_key :
      Primitives → List ℕ → List ℕ → SecurityParams → store.State → ReturnCode × List ℕ
  encrypt_network_key prim network_key recipient params s =
      if length recipient != 32 || not (validate_key network_key)
      then (e_invalid_param, [])
      else with_private (load_private_key store s)
    where
      encrypted : List ℕ → List ℕ → List ℕ
      encrypted private_key public_key =
          (encrypt_direct_ecc prim network_key recipient
            (set_device_keys private_key public_key new_service) params).0

      with_public : List ℕ → ReturnCode × List ℕ → ReturnCode × List ℕ
      with_public private_key (error n, public_key) = (error n, [])
      with_public private_key (e_none, public_key) =
          if length (encrypted private_key public_key) != length network_key
          then (e_crypto_setup, encrypted private_key public_key)
          else (e_none, encrypted private_key public_key)

      with_private : ReturnCode × List ℕ → ReturnCode × List ℕ
      with_private (error n, private_key) = (error n, [])
      with_private (e_none, private_key) =
          with_public private_key (derive_public_key prim private_key)
