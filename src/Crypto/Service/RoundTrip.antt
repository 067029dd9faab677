-- ===== src/Crypto/Service/RoundTrip.antt =====
-- EncryptionService: the receiver of a pair reads what the sender wrote.
use radio_mesh.Base.{ℕ, ◌≡◌, refl, sym, ◌∙◌, false, some, List, [], ◌∷◌, length, is_empty, arith}
use radio_mesh.Types.{MeshDeviceType, DeviceInclusionState, standard, include_response}
use radio_mesh.Crypto.Primitives.{Primitives, IsLawful}
use radio_mesh.Crypto.Aes.{SecurityParams, set_params, encrypt}
use radio_mesh.Crypto.Aes.RoundTrip.{decrypt-encrypt, length-encrypt}
use radio_mesh.Crypto.Service.{
  EncryptionService, EncryptionMethod, aes, direct_ecc, plain, determine_crypto_method,
  zero_iv_params, encrypt_aes, decrypt_aes, encrypt_direct_ecc, decrypt_direct_ecc, encrypt_by,
  decrypt_by, encrypt_payload, decrypt_payload,
}
use radio_mesh.Crypto.Service.Keys.{End, Paired, by_network_key, by_exchange}

set_params_key :
    (key : List ℕ) (old : SecurityParams)
    → length key ≡ 32
    → (set_params (zero_iv_params key) old).1 ≡ zero_iv_params key
unfolding set_params
set_params_key key old h = rw h

pub nonempty_of_length : (xs : List ℕ) → length xs ≡ 32 → is_empty xs ≡ false
nonempty_of_length [] h = absurd (omega arith)
nonempty_of_length (x ∷ xs) h = refl

is_empty-length : (xs ys : List ℕ) → length xs ≡ length ys → is_empty xs ≡ is_empty ys
is_empty-length [] [] h = refl
is_empty-length [] (y ∷ ys) h = absurd (omega arith)
is_empty-length (x ∷ xs) [] h = absurd (omega arith)
is_empty-length (x ∷ xs) (y ∷ ys) h = refl

module _ (prim : Primitives) (law : IsLawful prim) where
  -- What encryptAES makes of the data under a key of 32 bytes, whatever parameters held before.
  abbrev secret_of : List ℕ → List ℕ → List ℕ
  secret_of key bytes = encrypt prim (zero_iv_params key) bytes

  pub encrypt_aes_eq :
      (key bytes : List ℕ) (params : SecurityParams)
      → length key ≡ 32
      → encrypt_aes prim bytes key params ≡ (secret_of key bytes, zero_iv_params key)
  unfolding encrypt_aes
  encrypt_aes_eq key bytes params h = rw (set_params_key key params h)

  pub decrypt_aes_eq :
      (key bytes : List ℕ) (params : SecurityParams)
      → length key ≡ 32
      → (decrypt_aes prim (secret_of key bytes) key params).0 ≡ bytes
  unfolding decrypt_aes
  decrypt_aes_eq key bytes params h =
      rw (set_params_key key params h) (decrypt-encrypt prim law (zero_iv_params key) bytes)

  secret_nil : (key : List ℕ) → secret_of key [] ≡ []
  unfolding encrypt
  secret_nil key = refl

  secret_cons : (key : List ℕ) (x : ℕ) (xs : List ℕ) → is_empty (secret_of key (x ∷ xs)) ≡ false
  secret_cons key x xs =
      is_empty-length (secret_of key (x ∷ xs)) (x ∷ xs)
        (length-encrypt prim law (zero_iv_params key) (x ∷ xs))

  -- The early return of decrypt on empty data loses nothing.
  decrypt_payload_eq :
      (topic : ℕ) (end : End) (key bytes : List ℕ) (params : SecurityParams)
      → ((x : ℕ) (xs : List ℕ)
          → (decrypt_by prim
              (determine_crypto_method topic end.device_type end.state)
              (secret_of key (x ∷ xs))
              topic
              end.device_type
              end.service
              params).0
            ≡ x ∷ xs)
      → (decrypt_payload prim
          (secret_of key bytes)
          topic
          end.device_type
          end.state
          end.service
          params).0
        ≡ bytes
  unfolding decrypt_payload
  decrypt_payload_eq topic end key [] params h = rw (secret_nil key)
  decrypt_payload_eq topic end key (x ∷ xs) params h = rw (secret_cons key x xs) (h x xs)

  encrypt_direct_ecc_eq :
      (bytes public_key secret : List ℕ) (s : EncryptionService) (params : SecurityParams)
      → length public_key ≡ 32
      → length s.device_private_key ≡ 32
      → prim.curve_eval s.device_private_key (some public_key) ≡ some secret
      → (encrypt_direct_ecc prim bytes public_key s params).0 ≡ secret_of (prim.sha256 secret) bytes
  unfolding encrypt_direct_ecc
  encrypt_direct_ecc_eq [] public_key secret s params a b e = rw (
    a,
    b,
    e,
    encrypt_aes_eq (prim.sha256 secret) [] params (law.digest_length secret),
    secret_nil (prim.sha256 secret),
  )
  encrypt_direct_ecc_eq (x ∷ xs) public_key secret s params a b e = rw (
    a,
    b,
    e,
    encrypt_aes_eq (prim.sha256 secret) (x ∷ xs) params (law.digest_length secret),
    secret_cons (prim.sha256 secret) x xs,
  )

  decrypt_direct_ecc_eq :
      (x : ℕ) (xs private_key secret : List ℕ) (s : EncryptionService) (params : SecurityParams)
      → length private_key ≡ 32
      → length s.hub_public_key ≡ 32
      → prim.curve_eval private_key (some s.hub_public_key) ≡ some secret
      → (decrypt_direct_ecc prim (secret_of (prim.sha256 secret) (x ∷ xs)) private_key s params).0
        ≡ x ∷ xs
  unfolding decrypt_direct_ecc
  decrypt_direct_ecc_eq x xs private_key secret s params a b e =
      rw (secret_cons (prim.sha256 secret) x xs, a, nonempty_of_length s.hub_public_key b, b, e)
        (decrypt_aes_eq (prim.sha256 secret) (x ∷ xs) params (law.digest_length secret))

  encrypt_by_network :
      (bytes : List ℕ) (topic : ℕ) (s : EncryptionService) (params : SecurityParams)
      → length s.network_key ≡ 32
      → (encrypt_by prim aes bytes topic s params).0 ≡ secret_of s.network_key bytes
  unfolding encrypt_by
  encrypt_by_network bytes topic s params h =
      rw (nonempty_of_length s.network_key h, encrypt_aes_eq s.network_key bytes params h)

  decrypt_by_network :
      (bytes key : List ℕ) (topic : ℕ) (d : MeshDeviceType) (s : EncryptionService)
      (params : SecurityParams)
      → key ≡ s.network_key
      → length key ≡ 32
      → (decrypt_by prim aes (secret_of key bytes) topic d s params).0 ≡ bytes
  unfolding decrypt_by
  decrypt_by_network bytes key topic d s params e h =
      rw (← e, nonempty_of_length key h) (decrypt_aes_eq key bytes params h)

  -- The same on INCLUDE_RESPONSE, where the method is the exchange.
  encrypt_by_exchange :
      (bytes secret : List ℕ) (s : EncryptionService) (params : SecurityParams)
      → length s.device_private_key ≡ 32
      → length s.temp_device_public_key ≡ 32
      → prim.curve_eval s.device_private_key (some s.temp_device_public_key) ≡ some secret
      → (encrypt_by prim direct_ecc bytes include_response s params).0
        ≡ secret_of (prim.sha256 secret) bytes
  unfolding encrypt_by
  encrypt_by_exchange bytes secret s params a b e =
      rw (nonempty_of_length s.temp_device_public_key b)
        (encrypt_direct_ecc_eq bytes s.temp_device_public_key secret s params b a e)

  decrypt_by_exchange :
      (x : ℕ) (xs secret : List ℕ) (s : EncryptionService) (params : SecurityParams)
      → length s.device_private_key ≡ 32
      → length s.hub_public_key ≡ 32
      → prim.curve_eval s.device_private_key (some s.hub_public_key) ≡ some secret
      → (decrypt_by prim direct_ecc
          (secret_of (prim.sha256 secret) (x ∷ xs))
          include_response
          standard
          s
          params).0
        ≡ x ∷ xs
  unfolding decrypt_by
  decrypt_by_exchange x xs secret s params a b e =
      rw (nonempty_of_length s.device_private_key a)
        (decrypt_direct_ecc_eq x xs s.device_private_key secret s params a b e)

  module _ (topic : ℕ) (sender receiver : End) (bytes : List ℕ)
      (params params' : SecurityParams) where
    -- Over a pair of ends, decrypt undoes encrypt, whatever parameters the AES singletons hold.
    pub decrypt_payload-encrypt_payload :
        Paired prim topic sender receiver
        → (decrypt_payload prim
            (encrypt_payload prim bytes topic sender.device_type sender.state sender.service
              params).0
            topic
            receiver.device_type
            receiver.state
            receiver.service
            params').0
          ≡ bytes
    unfolding encrypt_payload determine_crypto_method
    decrypt_payload-encrypt_payload (by_network_key s r same size) =
        rw (s, encrypt_by_network bytes topic sender.service params size)
          (decrypt_payload_eq topic receiver sender.service.network_key bytes params' λ x xs. rw r (
            decrypt_by_network (x ∷ xs) sender.service.network_key topic receiver.device_type
              receiver.service params' same size))
    decrypt_payload-encrypt_payload (by_exchange secret t h st a b c d e f g) =
        rw (t, encrypt_by_exchange bytes secret sender.service params a b g)
          (decrypt_payload_eq include_response receiver (prim.sha256 secret) bytes params' λ x xs.
            rw st (
              decrypt_by_exchange x xs secret receiver.service params' c d (
                sym (
                  law.exchange sender.service.device_private_key receiver.service.device_private_key
                    receiver.service.hub_public_key sender.service.temp_device_public_key e f)
                ∙ g)))

    -- Encryption for the other end of a pair keeps the length.
    pub length-encrypt_payload :
        Paired prim topic sender receiver
        → length
            (encrypt_payload prim bytes topic sender.device_type sender.state sender.service
              params).0
          ≡ length bytes
    unfolding encrypt_payload determine_crypto_method
    length-encrypt_payload (by_network_key s r same size) =
        rw (s, encrypt_by_network bytes topic sender.service params size)
          (length-encrypt prim law (zero_iv_params sender.service.network_key) bytes)
    length-encrypt_payload (by_exchange secret t h st a b c d e f g) =
        rw (t, encrypt_by_exchange bytes secret sender.service params a b g)
          (length-encrypt prim law (zero_iv_params (prim.sha256 secret)) bytes)

encrypt_by_nil :
    (prim : Primitives) (m : EncryptionMethod) (topic : ℕ) (s : EncryptionService)
    (params : SecurityParams)
    → (encrypt_by prim m [] topic s params).0 ≡ []
unfolding encrypt_by encrypt_direct_ecc encrypt_aes encrypt
encrypt_by_nil prim plain topic s params = refl
encrypt_by_nil prim direct_ecc topic s params = ground arith
encrypt_by_nil prim aes topic s params = ground arith

-- No data is encrypted to no data, whatever the keys.
pub encrypt_payload_nil :
    (prim : Primitives) (topic : ℕ) (d : MeshDeviceType) (st : DeviceInclusionState)
    (s : EncryptionService) (params : SecurityParams)
    → (encrypt_payload prim [] topic d st s params).0 ≡ []
unfolding encrypt_payload
encrypt_payload_nil prim topic d st s params =
    encrypt_by_nil prim (determine_crypto_method topic d st) topic s params
