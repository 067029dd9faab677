-- ===== src/Crypto/Aes/RoundTrip.antt =====
-- Decrypting what AesCrypto encrypts under the same parameters gives the data back.
use radio_mesh.Base.{
  ℕ, zero, suc, ◌≤◌, ◌<◌, ◌≡◌, refl, false, List, [], ◌∷◌, ◌++◌, length, take, drop, is_empty,
  arith, length-append, take-append, drop-append, take-append-drop, take_of_length-le, length-take,
  length-drop, subst, dec_lt, ◌⊎◌, inl, inr,
}
use mathlib.Core.List.{append-nil}
use radio_mesh.Crypto.Primitives.{Primitives, IsLawful}
use radio_mesh.Crypto.Aes.{SecurityParams, block_loop, encrypt, decrypt, aes_block_size}

nonempty : (xs : List ℕ) → 0 < length xs → is_empty xs ≡ false
nonempty [] h = elim h [ ]
nonempty (x ∷ xs) h = refl

drop_of_length-le : (n : ℕ) (xs : List ℕ) → length xs ≤ n → drop n xs ≡ []
drop_of_length-le zero [] h = refl
drop_of_length-le zero (x ∷ xs) h = absurd (omega arith)
drop_of_length-le (suc n) [] h = refl
drop_of_length-le (suc n) (x ∷ xs) h = drop_of_length-le n xs (omega arith)

-- A list that was put before another is the first `n` of the whole, if it has `n` elements or if
-- nothing follows it.
split_at :
    (n : ℕ) (xs ys : List ℕ)
    → (length xs ≡ n) ⊎ ((length xs ≤ n) × (ys ≡ []))
    → (take n (xs ++ ys) ≡ xs) × (drop n (xs ++ ys) ≡ ys)
split_at n xs ys (inl e) = (
  subst (λ m. take m (xs ++ ys) ≡ xs) e (take-append xs ys),
  subst (λ m. drop m (xs ++ ys) ≡ ys) e (drop-append xs ys),
)
split_at n xs ys (inr (short, last)) =
    rw (last, append-nil) (take_of_length-le n xs short, drop_of_length-le n xs short)

module _ (prim : Primitives) (law : IsLawful prim) where
  block_loop-nil :
      (cipher : prim.Stream → List ℕ → List ℕ × prim.Stream) (fuel : ℕ) (s : prim.Stream)
      → block_loop cipher fuel s [] ≡ []
  unfolding block_loop
  block_loop-nil cipher zero s = refl
  block_loop-nil cipher (suc fuel) s = refl

  length-block_loop :
      (fuel : ℕ) (s : prim.Stream) (xs : List ℕ)
      → length xs ≤ fuel
      → length (block_loop prim.ctr_encrypt fuel s xs) ≡ length xs
  unfolding block_loop
  length-block_loop zero s [] h = refl
  length-block_loop zero s (x ∷ xs) h = absurd (omega arith)
  length-block_loop (suc fuel) s [] h = refl
  length-block_loop (suc fuel) s (x ∷ xs) h =
      let c = take aes_block_size (x ∷ xs) in
      let r = drop aes_block_size (x ∷ xs) in
      omega (
        arith,
        length-append (prim.ctr_encrypt s c).0
            (block_loop prim.ctr_encrypt fuel (prim.ctr_encrypt s c).1 r),
        law.ctr_length s c,
        length-take aes_block_size (x ∷ xs),
        length-drop aes_block_size (x ∷ xs),
        length-block_loop fuel (prim.ctr_encrypt s c).1 r
            (omega (arith, length-drop aes_block_size (x ∷ xs))),
      )

  block_loop-step :
      (cipher : prim.Stream → List ℕ → List ℕ × prim.Stream) (fuel : ℕ) (s : prim.Stream)
      (ys : List ℕ)
      → 0 < length ys
      → block_loop cipher (suc fuel) s ys
        ≡ (cipher s (take aes_block_size ys)).0
          ++ block_loop cipher fuel (cipher s (take aes_block_size ys)).1 (drop aes_block_size ys)
  unfolding block_loop
  block_loop-step cipher fuel s [] h = elim h [ ]
  block_loop-step cipher fuel s (y ∷ ys) h = refl

  -- One block of the decryption, by the rest of it.
  module _ (fuel : ℕ) (s : prim.Stream) (xs : List ℕ) where
    abbrev block : List ℕ
    block = take aes_block_size xs

    abbrev secret : List ℕ
    secret = (prim.ctr_encrypt s block).0

    abbrev rest : List ℕ
    rest = block_loop prim.ctr_encrypt fuel (prim.ctr_encrypt s block).1 (drop aes_block_size xs)

    full_or_last :
        (length secret ≡ aes_block_size) ⊎ ((length secret ≤ aes_block_size) × (rest ≡ []))
    full_or_last = elim (dec_lt (length xs) aes_block_size) [
      | no long ↦ inl (omega (arith, law.ctr_length s block, length-take aes_block_size xs))
      | yes short ↦ inr (
        omega (arith, law.ctr_length s block, length-take aes_block_size xs),
        rw (drop_of_length-le aes_block_size xs (omega arith))
            (block_loop-nil prim.ctr_encrypt fuel (prim.ctr_encrypt s block).1),
      )
    ]

    step_inverse :
        0 < length xs
        → block_loop prim.ctr_decrypt fuel (prim.ctr_encrypt s block).1 rest
          ≡ drop aes_block_size xs
        → block_loop prim.ctr_decrypt (suc fuel) s (secret ++ rest) ≡ xs
    step_inverse some_data ih =
        let parts = split_at aes_block_size secret rest full_or_last in
        rw
          (
            block_loop-step prim.ctr_decrypt fuel s (secret ++ rest) (
                omega (
                  arith,
                  length-append secret rest,
                  law.ctr_length s block,
                  length-take aes_block_size xs,
                )),
            parts.0,
            parts.1,
            law.ctr_inverse s block,
            ih,
          )
          (take-append-drop aes_block_size xs)

  block_loop-inverse :
      (fuel : ℕ) (s : prim.Stream) (xs : List ℕ)
      → length xs ≤ fuel
      → block_loop prim.ctr_decrypt fuel s (block_loop prim.ctr_encrypt fuel s xs) ≡ xs
  unfolding block_loop
  block_loop-inverse zero s [] h = refl
  block_loop-inverse zero s (x ∷ xs) h = absurd (omega arith)
  block_loop-inverse (suc fuel) s [] h = refl
  block_loop-inverse (suc fuel) s (x ∷ xs) h =
      let fits : length (drop aes_block_size (x ∷ xs)) ≤ fuel =
        omega (arith, length-drop aes_block_size (x ∷ xs)) in
      step_inverse fuel s (x ∷ xs) (omega arith) (
        block_loop-inverse fuel (prim.ctr_encrypt s (take aes_block_size (x ∷ xs))).1
          (drop aes_block_size (x ∷ xs)) fits)

  -- Encryption keeps the length of the data.
  pub length-encrypt :
      (params : SecurityParams) (xs : List ℕ) → length (encrypt prim params xs) ≡ length xs
  unfolding encrypt
  length-encrypt params xs =
      length-block_loop (length xs) (prim.stream params.key params.iv) xs (omega arith)

  -- Decrypting what was encrypted under the same key and vector gives the data back, whatever its
  -- length.
  pub decrypt-encrypt :
      (params : SecurityParams) (xs : List ℕ) → decrypt prim params (encrypt prim params xs) ≡ xs
  unfolding decrypt encrypt
  decrypt-encrypt params xs =
      rw (length-encrypt params xs)
        (block_loop-inverse (length xs) (prim.stream params.key params.iv) xs (omega arith))
