-- ===== src/Crypto/Aes.antt =====
-- core/protocol/inc/crypto/aes/AesCrypto.h and src/crypto/aes/AesCrypto.cpp: AES-256 in counter mode,
-- block by block. The singleton's state is its SecurityParams.
pub mod RoundTrip
pub mod Rounds
use radio_mesh.Base.{
  ℕ, zero, suc, Bool, true, false, ◌!=◌, List, [], ◌∷◌, ◌++◌, length, take, drop, is_empty,
  if◌then◌else◌, replicate,
}
use radio_mesh.Codes.{ReturnCode, e_none, e_invalid_param}
use radio_mesh.Crypto.Primitives.{Primitives}

abbrev pub aes_key_size : ℕ
aes_key_size = 32

abbrev pub aes_iv_size : ℕ
aes_iv_size = 16

abbrev pub aes_block_size : ℕ
aes_block_size = 16

-- `struct SecurityParams`; AesCrypto stores the key and the vector of the ones that it is given, and
-- never the method.
pub record SecurityParams : Type 0 where
  pub key : List ℕ
  pub iv : List ℕ

-- setParams and resetSecurityParams: the code, and the parameters that hold from now on.
unfoldable pub set_params : SecurityParams → SecurityParams → ReturnCode × SecurityParams
set_params params old =
    if length params.key != aes_key_size
    then (e_invalid_param, old)
    else if length params.iv != aes_iv_size
    then (e_invalid_param, old)
    else (e_none, params)

-- The loop of encrypt and decrypt over the blocks of the data, in order; the last may be short. `fuel`
-- bounds the rounds: each takes at least one byte.
unfoldable pub block_loop {ℓ} : {S : Type ℓ} → (S → List ℕ → List ℕ × S) → ℕ → S → List ℕ → List ℕ
block_loop cipher zero s rest = []
block_loop cipher (suc fuel) s rest = elim (is_empty rest) [
  | true ↦ []
  | false ↦
      (cipher s (take aes_block_size rest)).0
      ++ block_loop cipher fuel (cipher s (take aes_block_size rest)).1 (drop aes_block_size rest)
]

module _ (prim : Primitives) where
  -- encrypt
  unfoldable pub encrypt : SecurityParams → List ℕ → List ℕ
  unfolding block_loop
  encrypt params clear_data =
      block_loop prim.ctr_encrypt (length clear_data) (prim.stream params.key params.iv) clear_data

  -- decrypt
  unfoldable pub decrypt : SecurityParams → List ℕ → List ℕ
  unfolding block_loop
  decrypt params encrypted_data =
      block_loop prim.ctr_decrypt (length encrypted_data) (prim.stream params.key params.iv)
        encrypted_data
