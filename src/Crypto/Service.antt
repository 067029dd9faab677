-- ===== src/Crypto/Service.antt =====
-- core/protocol/inc/crypto/EncryptionService.h and src/crypto/EncryptionService.cpp: which key and which
-- method a topic gets. The parameters of the AesCrypto singleton are passed along, since encryptAES
-- and decryptAES set them.
pub mod Keys
pub mod RoundTrip
use radio_mesh.Base.{
  ℕ, Bool, true, false, ◌||◌, Option, none, some, List, [], length, is_empty, replicate, ◌==◌, ◌!=◌,
  if◌then◌else◌,
}
use radio_mesh.Types.{
  MeshDeviceType, DeviceInclusionState, is_hub, is_standard, is_included, include_open,
  include_request, include_response, include_confirm, include_success,
}
use radio_mesh.Crypto.Primitives.{Primitives}
use radio_mesh.Crypto.Aes.{SecurityParams, set_params, encrypt, decrypt, aes_iv_size}

pub record EncryptionService : Type 0 where
  pub network_key : List ℕ
  pub device_private_key : List ℕ
  pub device_public_key : List ℕ
  pub hub_public_key : List ℕ
  pub temp_device_public_key : List ℕ

abbrev pub new_service : EncryptionService
new_service = record {
  network_key = [];
  device_private_key = [];
  device_public_key = [];
  hub_public_key = [];
  temp_device_public_key = [];
}

-- `enum class EncryptionMethod`
pub data EncryptionMethod : Type 0 where
  plain direct_ecc aes : EncryptionMethod

-- setNetworkKey, which checks nothing
unfoldable pub set_network_key : List ℕ → EncryptionService → EncryptionService
set_network_key key s = record s { network_key = key }

-- setDeviceKeys
unfoldable pub set_device_keys : List ℕ → List ℕ → EncryptionService → EncryptionService
set_device_keys private_key public_key s =
    if length private_key != 32
    then s
    else if length public_key != 32
    then s
    else record s { device_private_key = private_key; device_public_key = public_key }

-- setHubPublicKey
unfoldable pub set_hub_public_key : List ℕ → EncryptionService → EncryptionService
set_hub_public_key hub_key s =
    if length hub_key != 32 then s else record s { hub_public_key = hub_key }

-- setTempDevicePublicKey
unfoldable pub set_temp_device_public_key : List ℕ → EncryptionService → EncryptionService
set_temp_device_public_key device_key s =
    if length device_key != 32 then s else record s { temp_device_public_key = device_key }

-- determineCryptoMethod
unfoldable pub determine_crypto_method :
    ℕ → MeshDeviceType → DeviceInclusionState → EncryptionMethod
determine_crypto_method topic device_type inclusion_state =
    if topic == include_open
    then plain
    else if topic == include_request
    then plain
    else if topic == include_response
    then direct_ecc
    else if topic == include_confirm
    then aes
    else if topic == include_success
    then aes
    else if is_included inclusion_state || is_hub device_type
    then aes
    else plain

-- getEncryptionKey; `deviceType` is only logged
unfoldable pub get_encryption_key : EncryptionMethod → ℕ → EncryptionService → List ℕ
get_encryption_key direct_ecc topic s =
    if topic == include_request
    then s.hub_public_key
    else if topic == include_response
    then s.temp_device_public_key
    else []
get_encryption_key aes topic s = s.network_key
get_encryption_key plain topic s = []

-- getDecryptionKey
unfoldable pub get_decryption_key :
    EncryptionMethod → ℕ → MeshDeviceType → EncryptionService → List ℕ
get_decryption_key direct_ecc topic device_type s =
    if topic == include_request
    then (if is_hub device_type then s.device_private_key else [])
    else if topic == include_response
    then (if is_standard device_type then s.device_private_key else [])
    else []
get_decryption_key aes topic device_type s = s.network_key
get_decryption_key plain topic device_type s = []

-- The parameters that encryptAES and decryptAES hand to AesCrypto.
abbrev pub zero_iv_params : List ℕ → SecurityParams
zero_iv_params key = record { key = key; iv = replicate aes_iv_size 0 }

module _ (prim : Primitives) where
  -- encryptAES: the code of setParams is not looked at.
  unfoldable pub encrypt_aes : List ℕ → List ℕ → SecurityParams → List ℕ × SecurityParams
  encrypt_aes bytes key params =
      let now = (set_params (zero_iv_params key) params).1 in (encrypt prim now bytes, now)

  -- decryptAES
  unfoldable pub decrypt_aes : List ℕ → List ℕ → SecurityParams → List ℕ × SecurityParams
  decrypt_aes bytes key params =
      let now = (set_params (zero_iv_params key) params).1 in (decrypt prim now bytes, now)

  -- encryptDirectECC: AES under the digest of the shared secret. On a failure the data goes back as it
  -- came.
  unfoldable pub encrypt_direct_ecc :
      List ℕ → List ℕ → EncryptionService → SecurityParams → List ℕ × SecurityParams
  encrypt_direct_ecc bytes public_key s params =
      if length public_key != 32
      then (bytes, params)
      else if length s.device_private_key != 32
      then (bytes, params)
      else elim (prim.curve_eval s.device_private_key (some public_key)) [
        | none ↦ (bytes, params)
        | some shared_secret ↦
            let out = encrypt_aes bytes (prim.sha256 shared_secret) params in
            if is_empty out.0 then (bytes, out.1) else out
      ]

  -- decryptDirectECC: the sender is the hub if its public key is known, and otherwise the device whose
  -- key is held for the moment.
  unfoldable pub sender_public_key : EncryptionService → List ℕ
  sender_public_key s =
      if is_empty s.hub_public_key then s.temp_device_public_key else s.hub_public_key

  unfoldable pub decrypt_direct_ecc :
      List ℕ → List ℕ → EncryptionService → SecurityParams → List ℕ × SecurityParams
  unfolding sender_public_key
  decrypt_direct_ecc bytes private_key s params =
      if is_empty bytes
      then (bytes, params)
      else if length private_key != 32
      then (bytes, params)
      else if length (sender_public_key s) != 32
      then (bytes, params)
      else elim (prim.curve_eval private_key (some (sender_public_key s))) [
        | none ↦ (bytes, params)
        | some shared_secret ↦ decrypt_aes bytes (prim.sha256 shared_secret) params
      ]

  -- encrypt, by the method
  unfoldable pub encrypt_by :
      EncryptionMethod → List ℕ → ℕ → EncryptionService → SecurityParams → List ℕ × SecurityParams
  unfolding get_encryption_key
  encrypt_by plain bytes topic s params = (bytes, params)
  encrypt_by direct_ecc bytes topic s params =
      if is_empty (get_encryption_key direct_ecc topic s)
      then (bytes, params)
      else encrypt_direct_ecc bytes (get_encryption_key direct_ecc topic s) s params
  encrypt_by aes bytes topic s params =
      if is_empty (get_encryption_key aes topic s)
      then (bytes, params)
      else encrypt_aes bytes (get_encryption_key aes topic s) params

  unfoldable pub encrypt_payload :
      List ℕ
      → ℕ
      → MeshDeviceType
      → DeviceInclusionState
      → EncryptionService
      → SecurityParams
      → List ℕ × SecurityParams
  encrypt_payload bytes topic device_type inclusion_state s params =
      encrypt_by (determine_crypto_method topic device_type inclusion_state) bytes topic s params

  -- decrypt, by the method
  unfoldable pub decrypt_by :
      EncryptionMethod
      → List ℕ
      → ℕ
      → MeshDeviceType
      → EncryptionService
      → SecurityParams
      → List ℕ × SecurityParams
  unfolding get_decryption_key
  decrypt_by plain bytes topic device_type s params = (bytes, params)
  decrypt_by direct_ecc bytes topic device_type s params =
      if is_empty (get_decryption_key direct_ecc topic device_type s)
      then (bytes, params)
      else decrypt_direct_ecc bytes (get_decryption_key direct_ecc topic device_type s) s params
  decrypt_by aes bytes topic device_type s params =
      if is_empty (get_decryption_key aes topic device_type s)
      then (bytes, params)
      else decrypt_aes bytes (get_decryption_key aes topic device_type s) params

  unfoldable pub decrypt_payload :
      List ℕ
      → ℕ
      → MeshDeviceType
      → DeviceInclusionState
      → EncryptionService
      → SecurityParams
      → List ℕ × SecurityParams
  decrypt_payload bytes topic device_type inclusion_state s params =
      if is_empty bytes
      then (bytes, params)
      else decrypt_by (determine_crypto_method topic device_type inclusion_state) bytes topic
          device_type s params
