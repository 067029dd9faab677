-- ===== src/Crypto/Cmac/Length.antt =====
-- A MIC has four bytes, for every AES-128 or AES-256 key and all data.
use radio_mesh.Base.{
  ℕ, zero, suc, ◌+◌, ◌-◌, ◌≤◌, ◌<◌, ◌≡◌, ◌⊎◌, inl, inr, refl, ap, false, List, [], ◌∷◌, length,
  take, drop, is_empty, get_or, ltb-false, ◌!=◌, ◌||◌, ◌&&◌, bit_xor, replicate, arith,
  length-append, length-set, length-take, length-drop, length-replicate, Bool-cases, ◌==◌,
}
use radio_mesh.Crypto.Primitives.{Primitives, IsLawful}
use radio_mesh.Crypto.Cmac.{
  left_shift, xor_loop, xor_vectors, pad_data, split_blocks, data_blocks, aes_encrypt_block, subkey,
  generate_subkeys, finish_block, chain_blocks, compute_cmac, compute_mic, top_bit, block_size,
  cmac_mic_size,
}

-- A key that AES128 or AES256 takes.
abbrev pub IsKey : List ℕ → Type 0
IsKey key = (length key ≡ 16) ⊎ (length key ≡ 32)

abbrev IsBlock : List ℕ → Type 0
IsBlock xs = length xs ≡ block_size

-- Full blocks, and a last one that is full or short.
abbrev AreBlocks : List (List ℕ) → Type 0
AreBlocks [] = ⊥
AreBlocks (last ∷ []) = length last ≤ block_size
AreBlocks (block ∷ next ∷ rest) = IsBlock block × AreBlocks (next ∷ rest)

length-left_shift : (xs : List ℕ) → length (left_shift xs) ≡ length xs
unfolding left_shift
length-left_shift [] = refl
length-left_shift (x ∷ []) = refl
length-left_shift (x ∷ y ∷ rest) = ap suc (length-left_shift (y ∷ rest))

length-xor_loop : (a b : List ℕ) → length a ≡ length b → length (xor_loop a b) ≡ length a
unfolding xor_loop
length-xor_loop [] b h = refl
length-xor_loop (x ∷ a) [] h = absurd (omega arith)
length-xor_loop (x ∷ a) (y ∷ b) h = ap suc (length-xor_loop a b (omega arith))

xor_vectors-IsBlock : (a b : List ℕ) → IsBlock a → IsBlock b → IsBlock (xor_vectors a b)
unfolding xor_vectors
xor_vectors-IsBlock a b p q = ground (arith, length-xor_loop a b)

pad_data-IsBlock : (xs : List ℕ) → length xs < block_size → IsBlock (pad_data xs block_size)
unfolding pad_data
pad_data-IsBlock xs h = omega (
  arith,
  length-append xs (0x80 ∷ replicate (block_size - (length xs + 1)) 0),
  length-replicate (block_size - (length xs + 1)) zero,
)

split_blocks-nil : (fuel : ℕ) → split_blocks fuel [] ≡ []
unfolding split_blocks
split_blocks-nil zero = refl
split_blocks-nil (suc fuel) = refl

AreBlocks-last : (block : List ℕ) → length block ≤ block_size → AreBlocks (block ∷ [])
AreBlocks-last block h = h

AreBlocks-more :
    (block : List ℕ) (rest : List (List ℕ))
    → IsBlock block
    → AreBlocks rest
    → AreBlocks (block ∷ rest)
AreBlocks-more block [] h b = absurd b
AreBlocks-more block (next ∷ rest) h b = (h, b)

-- The blocks of data that is not empty, when the fuel is enough.
split_blocks-AreBlocks :
    (fuel : ℕ) (x : ℕ) (xs : List ℕ) → length xs < fuel → AreBlocks (split_blocks fuel (x ∷ xs))
unfolding split_blocks
split_blocks-AreBlocks zero x xs h = absurd (omega arith)
split_blocks-AreBlocks (suc fuel) x xs h =
    go (drop block_size (x ∷ xs)) (length-drop block_size (x ∷ xs)) (split_blocks-AreBlocks fuel)
  where
    block : List ℕ
    block = take block_size (x ∷ xs)

    go :
        (rest : List ℕ)
        → length rest ≡ length (x ∷ xs) - block_size
        → ((y : ℕ) (ys : List ℕ) → length ys < fuel → AreBlocks (split_blocks fuel (y ∷ ys)))
        → AreBlocks (block ∷ split_blocks fuel rest)
    go [] e ih =
        rw (split_blocks-nil fuel)
          (AreBlocks-last block (omega (arith, length-take block_size (x ∷ xs))))
    go (y ∷ ys) e ih =
        AreBlocks-more block (split_blocks fuel (y ∷ ys))
          (omega (arith, length-take block_size (x ∷ xs))) (ih y ys (omega arith))

data_blocks-AreBlocks : (bytes : List ℕ) → AreBlocks (data_blocks bytes)
unfolding data_blocks
data_blocks-AreBlocks [] = omega arith
data_blocks-AreBlocks (x ∷ xs) = split_blocks-AreBlocks (length (x ∷ xs)) x xs (omega arith)

known_size :
    (key : List ℕ)
    → IsKey key
    → (is_empty key || length key != 16 && (length key != 24 && length key != 32)) ≡ false
known_size [] h = absurd (omega arith)
known_size (x ∷ xs) (inl h) = rw h
known_size (x ∷ xs) (inr h) = rw h

module _ (prim : Primitives) (law : IsLawful prim) (key : List ℕ) (good : IsKey key) where
  aes_encrypt_block-IsBlock :
      (block : List ℕ) → IsBlock block → IsBlock (aes_encrypt_block prim key block)
  unfolding aes_encrypt_block
  aes_encrypt_block-IsBlock block h = ground (arith, law.block_length key block)

  subkey-IsBlock : (l : List ℕ) → IsBlock l → IsBlock (subkey prim l)
  unfolding subkey
  subkey-IsBlock l h = elim (Bool-cases (top_bit (get_or l 0 0))) [
    | inl carry ↦ rw carry (
        omega (
          arith,
          length-left_shift l,
          length-set (left_shift l) (block_size - 1)
              (bit_xor (get_or (left_shift l) (block_size - 1) 0) 0x87),
        ))
    | inr plain ↦ rw plain (omega (arith, length-left_shift l))
  ]

  abbrev subkeys : List ℕ × List ℕ
  subkeys = generate_subkeys prim key

  subkeys-AreBlocks : IsBlock subkeys.0 × IsBlock subkeys.1
  unfolding generate_subkeys
  subkeys-AreBlocks =
      let zero_block : List ℕ = replicate block_size 0 in
      let first =
        subkey-IsBlock (aes_encrypt_block prim key zero_block)
          (aes_encrypt_block-IsBlock zero_block refl) in
      (first, subkey-IsBlock _ first)

  finish_block-IsBlock :
      (last : List ℕ) → length last ≤ block_size → IsBlock (finish_block prim last subkeys)
  unfolding finish_block
  finish_block-IsBlock last h = elim (Bool-cases (length last == block_size)) [
    | inl full ↦ rw full (xor_vectors-IsBlock last subkeys.0 (ground arith) subkeys-AreBlocks.0)
    | inr short ↦ rw short (
        xor_vectors-IsBlock (pad_data last block_size) subkeys.1
          (pad_data-IsBlock last (ground arith)) subkeys-AreBlocks.1)
  ]

  chain_blocks-IsBlock :
      (y : List ℕ) (blocks : List (List ℕ))
      → IsBlock y
      → AreBlocks blocks
      → IsBlock (chain_blocks prim key subkeys y blocks)
  unfolding chain_blocks
  chain_blocks-IsBlock y [] h b = absurd b
  chain_blocks-IsBlock y (last ∷ []) h b =
      aes_encrypt_block-IsBlock _
        (xor_vectors-IsBlock y (finish_block prim last subkeys) h (finish_block-IsBlock last b))
  chain_blocks-IsBlock y (block ∷ next ∷ rest) h b =
      chain_blocks-IsBlock (aes_encrypt_block prim key (xor_vectors y block)) (next ∷ rest)
        (aes_encrypt_block-IsBlock _ (xor_vectors-IsBlock y block h b.0)) b.1

  -- computeCMAC gives a block.
  pub length-compute_cmac : (bytes : List ℕ) → length (compute_cmac prim key bytes) ≡ block_size
  unfolding compute_cmac
  length-compute_cmac bytes = rw (known_size key good) (
      chain_blocks-IsBlock (replicate block_size 0) (data_blocks bytes) refl
        (data_blocks-AreBlocks bytes))

  -- For a key of 16 or 32 bytes, computeMIC gives four bytes, whatever the data.
  pub length-compute_mic : (bytes : List ℕ) → length (compute_mic prim key bytes) ≡ cmac_mic_size
  unfolding compute_mic
  length-compute_mic bytes =
      rw
        (ltb-false (length (compute_cmac prim key bytes)) cmac_mic_size
          (omega (arith, length-compute_cmac bytes)))
        (omega (
          arith,
          length-compute_cmac bytes,
          length-take cmac_mic_size (compute_cmac prim key bytes),
        ))
