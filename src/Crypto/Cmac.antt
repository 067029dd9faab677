-- ===== src/Crypto/Cmac.antt =====
-- core/protocol/inc/crypto/cmac/AesCmac.h and src/crypto/cmac/AesCmac.cpp: CMAC over AES, and the MIC
-- that is its first four bytes. An empty vector is the code's answer to a failure.
-- computeCMAC lets a key of 24 bytes pass, for which aesEncryptBlock fails and `L[0]` lies outside the
-- empty vector. Here such a read gives 0 and such a write does nothing.
pub mod Length
pub mod Verify
use radio_mesh.Base.{
  ℕ, zero, suc, ◌+◌, ◌-◌, ◌*◌, ◌/◌, ◌%◌, bit_xor, Bool, true, false, not, ◌&&◌, ◌||◌, List, [], ◌∷◌,
  ◌++◌, length, take, drop, is_empty, get_or, set, replicate, ltb, ◌==◌, ◌!=◌, if◌then◌else◌,
}
use radio_mesh.Crypto.Primitives.{Primitives}

abbrev pub block_size : ℕ
block_size = 16

abbrev pub cmac_mic_size : ℕ
cmac_mic_size = 4

-- `x & 0x80` of a byte
abbrev pub top_bit : ℕ → Bool
top_bit x = x / 128 % 2 == 1

-- leftShift: byte by byte, with the top bit of the next byte
unfoldable pub left_shift : List ℕ → List ℕ
left_shift [] = []
left_shift (x ∷ []) = (x * 2 % 256) ∷ []
left_shift (x ∷ y ∷ rest) = (x * 2 % 256 + (if top_bit y then 1 else 0)) ∷ left_shift (y ∷ rest)

unfoldable xor_loop : List ℕ → List ℕ → List ℕ
xor_loop [] b = []
xor_loop (x ∷ a) [] = []
xor_loop (x ∷ a) (y ∷ b) = bit_xor x y ∷ xor_loop a b

-- xorVectors
unfoldable pub xor_vectors : List ℕ → List ℕ → List ℕ
unfolding xor_loop
xor_vectors a b = if length a != length b then [] else xor_loop a b

-- padData: 0x80, and zeros up to the block size
unfoldable pub pad_data : List ℕ → ℕ → List ℕ
pad_data bytes size = bytes ++ (0x80 ∷ replicate (size - (length bytes + 1)) 0)

-- The blocks of computeCMAC's first loop; `fuel` bounds the rounds, each of which takes a byte.
unfoldable pub split_blocks : ℕ → List ℕ → List (List ℕ)
split_blocks zero bytes = []
split_blocks (suc fuel) bytes = elim (is_empty bytes) [
  | true ↦ []
  | false ↦ take block_size bytes ∷ split_blocks fuel (drop block_size bytes)
]

-- No data makes one block, 0x80 followed by zeros.
unfoldable pub data_blocks : List ℕ → List (List ℕ)
unfolding split_blocks
data_blocks bytes =
    if is_empty (split_blocks (length bytes) bytes)
    then (0x80 ∷ replicate (block_size - 1) 0) ∷ []
    else split_blocks (length bytes) bytes

module _ (prim : Primitives) where
  -- aesEncryptBlock
  unfoldable pub aes_encrypt_block : List ℕ → List ℕ → List ℕ
  aes_encrypt_block key block =
      if length block != block_size
      then []
      else if length key == 16 || length key == 32
      then prim.encrypt_block key block
      else []

  -- K1 or K2 of generateSubkeys, from L or K1: shifted, and reduced when the top bit falls out
  unfoldable pub subkey : List ℕ → List ℕ
  unfolding left_shift
  subkey l =
      if top_bit (get_or l 0 0)
      then set (left_shift l) (block_size - 1)
          (bit_xor (get_or (left_shift l) (block_size - 1) 0) 0x87)
      else left_shift l

  -- generateSubkeys
  unfoldable pub generate_subkeys : List ℕ → List ℕ × List ℕ
  unfolding aes_encrypt_block subkey
  generate_subkeys key =
      let l = aes_encrypt_block key (replicate block_size 0) in (subkey l, subkey (subkey l))

  -- The last block of computeCMAC: a full one meets K1, a short one is padded and meets K2.
  unfoldable pub finish_block : List ℕ → List ℕ × List ℕ → List ℕ
  unfolding xor_vectors pad_data
  finish_block last (k1, k2) =
      if length last == block_size
      then xor_vectors last k1
      else xor_vectors (pad_data last block_size) k2

  -- The chaining of computeCMAC over the blocks.
  unfoldable pub chain_blocks : List ℕ → List ℕ × List ℕ → List ℕ → List (List ℕ) → List ℕ
  unfolding xor_vectors aes_encrypt_block finish_block
  chain_blocks key subkeys y [] = []
  chain_blocks key subkeys y (last ∷ []) =
      aes_encrypt_block key (xor_vectors y (finish_block last subkeys))
  chain_blocks key subkeys y (block ∷ next ∷ rest) =
      chain_blocks key subkeys (aes_encrypt_block key (xor_vectors y block)) (next ∷ rest)

  -- computeCMAC
  unfoldable pub compute_cmac : List ℕ → List ℕ → List ℕ
  unfolding generate_subkeys chain_blocks data_blocks
  compute_cmac key bytes =
      if is_empty key || length key != 16 && (length key != 24 && length key != 32)
      then []
      else chain_blocks key (generate_subkeys key) (replicate block_size 0) (data_blocks bytes)

  -- computeMIC
  unfoldable pub compute_mic : List ℕ → List ℕ → List ℕ
  unfolding compute_cmac
  compute_mic key bytes =
      if ltb (length (compute_cmac key bytes)) cmac_mic_size
      then []
      else take cmac_mic_size (compute_cmac key bytes)

-- The constant-time comparison of verifyMIC: `n` bytes, with no early exit.
unfoldable pub compare_loop : ℕ → Bool → List ℕ → List ℕ → Bool
compare_loop zero is_valid computed received = is_valid
compare_loop (suc n) is_valid computed received =
    compare_loop n (is_valid && get_or computed 0 0 == get_or received 0 0) (drop 1 computed)
      (drop 1 received)

-- verifyMIC
unfoldable pub verify_mic : Primitives → List ℕ → List ℕ → List ℕ → Bool
verify_mic prim key bytes received_mic =
    if length received_mic != cmac_mic_size
    then false
    else if length (compute_mic prim key bytes) != cmac_mic_size
    then false
    else compare_loop cmac_mic_size true (compute_mic prim key bytes) received_mic
