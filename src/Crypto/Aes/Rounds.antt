-- ===== src/Crypto/Aes/Rounds.antt =====
-- The block loop of AesCrypto.cpp: it ends after as many rounds as the data has blocks, and what the rounds do.
use radio_mesh.Base.{
  ℕ, zero, suc, ◌+◌, ◌*◌, ◌/◌, ◌≤◌, ◌≡◌, refl, ap, List, [], ◌∷◌, ◌++◌, ◌∙◌, sym, length, take,
  drop, arith, length-drop,
}
use radio_mesh.Crypto.Aes.{block_loop}

-- The number of blocks of n bytes, the last of which may be short
abbrev pub blocks : ℕ → ℕ
blocks n = (n + 15) / 16

drop-nil {ℓ} : {A : Type ℓ} (a : ℕ) → drop {A = A} a [] ≡ []
drop-nil zero = refl
drop-nil (suc a) = refl

drop-drop {ℓ} : {A : Type ℓ} (a b : ℕ) (xs : List A) → drop a (drop b xs) ≡ drop (b + a) xs
drop-drop a zero xs = let e : 0 + a ≡ a = omega arith in ap (λ n. drop n xs) (sym e)
drop-drop {A} a (suc b) [] = drop-nil a ∙ sym (drop-nil {A = A} (suc b + a))
drop-drop a (suc b) (x ∷ xs) =
    let e : suc b + a ≡ suc (b + a) = omega arith in
    drop-drop a b xs ∙ sym (ap (λ n. drop n (x ∷ xs)) e)

module _ {ℓ} {S : Type ℓ} (cipher : S → List ℕ → List ℕ × S) where
  -- `count` rounds from block `i` on: round `i` takes the 16 bytes at `16 * i`, or those that are left.
  unfoldable pub each_block : ℕ → ℕ → S → List ℕ → List ℕ
  each_block zero i s xs = []
  each_block (suc count) i s xs =
      (cipher s (take 16 (drop (16 * i) xs))).0
      ++ each_block count (i + 1) (cipher s (take 16 (drop (16 * i) xs))).1 xs

  rounds_from :
      (fuel count i : ℕ) (s : S) (xs rest : List ℕ)
      → drop (16 * i) xs ≡ rest
      → blocks (length rest) ≡ count
      → count ≤ fuel
      → block_loop cipher fuel s rest ≡ each_block count i s xs
  unfolding block_loop each_block
  rounds_from zero zero i s xs rest e n h = refl
  rounds_from zero (suc count) i s xs rest e n h = absurd (omega arith)
  rounds_from (suc fuel) zero i s xs [] e n h = refl
  rounds_from (suc fuel) zero i s xs (y ∷ rest) e n h = absurd (omega arith)
  rounds_from (suc fuel) (suc count) i s xs [] e n h = absurd (omega arith)
  rounds_from (suc fuel) (suc count) i s xs (y ∷ rest) e n h =
      let c = take 16 (y ∷ rest) in
      let r = drop 16 (y ∷ rest) in
      let shorter = length-drop 16 (y ∷ rest) in
      let place : 16 * (i + 1) ≡ 16 * i + 16 = omega arith in
      let next : drop (16 * (i + 1)) xs ≡ r =
        rw place (sym (drop-drop 16 (16 * i) xs) ∙ ap (drop 16) e) in
      rw e (
        ap (λ t. (cipher s c).0 ++ t)
          (rounds_from fuel count (i + 1) (cipher s c).1 xs r next (omega (arith, shorter))
            (omega arith)))

  -- The loop of encrypt and decrypt ends by itself after one round for each block of the data, the last of
  -- which may be short: with that bound on its rounds or any larger one, such as the length of the data, it
  -- gives what the cipher makes of the 16 bytes at 0, at 16, at 32 and so on, one after the other, each
  -- from the state that the one before left, whatever the cipher.
  pub block_loop-terminates :
      (fuel : ℕ) (s : S) (xs : List ℕ)
      → blocks (length xs) ≤ fuel
      → (block_loop cipher fuel s xs ≡ each_block (blocks (length xs)) 0 s xs)
        × (block_loop cipher (length xs) s xs ≡ each_block (blocks (length xs)) 0 s xs)
  block_loop-terminates fuel s xs enough = (
    rounds_from fuel (blocks (length xs)) 0 s xs xs refl refl enough,
    rounds_from (length xs) (blocks (length xs)) 0 s xs xs refl refl (omega arith),
  )
