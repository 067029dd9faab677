-- ===== src/Crc32/Bits.antt =====
-- Laws of `^` and `|` on machine words, by their lowest binary digit.
use Prim.Native.Nat.{max, digits, bitwise, differ, bit_or, bit_or-bitwise, bit_xor-bitwise}
use native.Mathlib.Nat.{le_refl}
use radio_mesh.Base.{
  ℕ, zero, suc, ◌+◌, ◌*◌, ◌/◌, ◌%◌, ◌^◌, ◌≤◌, ◌<◌, ◌≡◌, refl, ap, ◌∙◌, bit_xor, arith,
}

-- The digits do not depend on how much fuel is left over.
digits-stable :
    (z : ℕ → ℕ) (f : ℕ → ℕ → ℕ) (n m a b : ℕ) → a ≤ n → a ≤ m → digits z f n a b ≡ digits z f m a b
digits-stable z f zero zero a b p q = refl
digits-stable z f zero (suc m) zero b p q = refl
digits-stable z f (suc n) zero zero b p q = refl
digits-stable z f (suc n) (suc m) zero b p q = refl
digits-stable z f zero (suc m) (suc a) b p q = absurd (omega arith)
digits-stable z f (suc n) zero (suc a) b p q = absurd (omega arith)
digits-stable z f (suc n) (suc m) (suc a) b p q =
    ap (λ t. t * 2 + f (suc a % 2) (b % 2))
      (digits-stable z f n m (suc a / 2) (b / 2) (omega arith) (omega arith))

bitwise-lowest :
    (z : ℕ → ℕ) (f : ℕ → ℕ → ℕ) (a b : ℕ)
    → bitwise z f (suc a) b ≡ bitwise z f (suc a / 2) (b / 2) * 2 + f (suc a % 2) (b % 2)
bitwise-lowest z f a b =
    ap (λ t. t * 2 + f (suc a % 2) (b % 2))
      (digits-stable z f a (suc a / 2) (suc a / 2) (b / 2) (omega arith) (le_refl (suc a / 2)))

pub bit_or-lowest : (a b : ℕ) → bit_or a b ≡ bit_or (a / 2) (b / 2) * 2 + max (a % 2) (b % 2)
bit_or-lowest zero b = simp bit_or-bitwise (omega arith)
bit_or-lowest (suc a) b = simp bit_or-bitwise (bitwise-lowest (λ y. y) max a b)

pub bit_xor-lowest : (a b : ℕ) → bit_xor a b ≡ bit_xor (a / 2) (b / 2) * 2 + differ (a % 2) (b % 2)
bit_xor-lowest zero b = simp bit_xor-bitwise (zero_case b)
  where
    zero_case : (b : ℕ) → b ≡ b / 2 * 2 + differ 0 (b % 2)
    zero_case b = omega arith
bit_xor-lowest (suc a) b = simp bit_xor-bitwise (bitwise-lowest (λ y. y) differ a b)

-- The digit of a sum of two digits, without carry
differ_lem : (x y : ℕ) → x < 2 → y < 2 → differ x y ≡ (x + y) % 2
differ_lem zero zero p q = refl
differ_lem zero (suc zero) p q = refl
differ_lem (suc zero) zero p q = refl
differ_lem (suc zero) (suc zero) p q = refl
differ_lem zero (suc (suc y)) p q = absurd (omega arith)
differ_lem (suc zero) (suc (suc y)) p q = absurd (omega arith)
differ_lem (suc (suc x)) y p q = absurd (omega arith)

pub bit_xor_step : (a b : ℕ) → bit_xor a b ≡ bit_xor (a / 2) (b / 2) * 2 + (a % 2 + b % 2) % 2
bit_xor_step a b =
    bit_xor-lowest a b
    ∙ ap (λ t. bit_xor (a / 2) (b / 2) * 2 + t)
        (differ_lem (a % 2) (b % 2) (omega arith) (omega arith))

-- 2 ^ k, by doubling
unfoldable pub pow2 : ℕ → ℕ
pow2 zero = 1
pow2 (suc k) = 2 * pow2 k

pub bit_xor-lt : (k a b : ℕ) → a < pow2 k → b < pow2 k → bit_xor a b < pow2 k
unfolding pow2
bit_xor-lt zero a b p q =
    let za : a ≡ 0 = omega arith in let zb : b ≡ 0 = omega arith in rw (za, zb) (omega arith)
bit_xor-lt (suc k) a b p q =
    omega (arith, bit_xor_step a b, bit_xor-lt k (a / 2) (b / 2) (omega arith) (omega arith))

-- A digit that only one of two numbers has stands in their `^`.
pub bit_xor-top : (k a b : ℕ) → a < pow2 k → pow2 k ≤ b → b < pow2 (suc k) → pow2 k ≤ bit_xor a b
unfolding pow2
bit_xor-top zero a b p q r =
    let za : a ≡ 0 = omega arith in let zb : b ≡ 1 = omega arith in rw (za, zb) (omega arith)
bit_xor-top (suc k) a b p q r = omega (
  arith,
  bit_xor_step a b,
  bit_xor-top k (a / 2) (b / 2) (omega arith) (omega arith) (omega arith),
)

cancel_right_below : (n a b c : ℕ) → a ≤ n → b ≤ n → bit_xor a c ≡ bit_xor b c → a ≡ b
cancel_right_below zero a b c p q e = omega arith
cancel_right_below (suc n) a b c p q e =
    let sa = bit_xor_step a c in
    let sb = bit_xor_step b c in
    let rest : bit_xor (a / 2) (c / 2) ≡ bit_xor (b / 2) (c / 2) = omega (arith, sa, sb, e) in
    let half = cancel_right_below n (a / 2) (b / 2) (c / 2) (omega arith) (omega arith) rest in
    omega (arith, sa, sb, e, half, rest)

pub bit_xor-cancel_right : (a b c : ℕ) → bit_xor a c ≡ bit_xor b c → a ≡ b
bit_xor-cancel_right a b c e = cancel_right_below (a + b) a b c (omega arith) (omega arith) e

cancel_left_below : (n a b c : ℕ) → a ≤ n → b ≤ n → bit_xor c a ≡ bit_xor c b → a ≡ b
cancel_left_below zero a b c p q e = omega arith
cancel_left_below (suc n) a b c p q e =
    let sa = bit_xor_step c a in
    let sb = bit_xor_step c b in
    let rest : bit_xor (c / 2) (a / 2) ≡ bit_xor (c / 2) (b / 2) = omega (arith, sa, sb, e) in
    let half = cancel_left_below n (a / 2) (b / 2) (c / 2) (omega arith) (omega arith) rest in
    omega (arith, sa, sb, e, half, rest)

pub bit_xor-cancel_left : (a b c : ℕ) → bit_xor c a ≡ bit_xor c b → a ≡ b
bit_xor-cancel_left a b c e = cancel_left_below (a + b) a b c (omega arith) (omega arith) e

bit_or-zero_below : (n a : ℕ) → a ≤ n → bit_or a 0 ≡ a
bit_or-zero_below zero a p = let z : a ≡ 0 = omega arith in rw z (omega arith)
bit_or-zero_below (suc n) a p =
    omega (arith, bit_or-lowest a 0, bit_or-zero_below n (a / 2) (omega arith))

-- `|` with a digit above which the number has all of its own is a sum.
pub bit_or-pow2 : (k q : ℕ) → bit_or (q * pow2 (suc k)) (pow2 k) ≡ q * pow2 (suc k) + pow2 k
unfolding pow2
bit_or-pow2 zero q =
    let whole : q * pow2 1 / 2 ≡ q = omega arith in
    let rest : bit_or (q * pow2 1 / 2) (1 / 2) ≡ q =
      ap (λ t. bit_or t 0) whole ∙ bit_or-zero_below q q (le_refl q) in
    omega (arith, bit_or-lowest (q * pow2 1) 1, rest)
bit_or-pow2 (suc k) q =
    let whole : q * pow2 (suc (suc k)) / 2 ≡ q * pow2 (suc k) = omega arith in
    let digit : pow2 (suc k) / 2 ≡ pow2 k = omega arith in
    let rest : bit_or (q * pow2 (suc (suc k)) / 2) (pow2 (suc k) / 2) ≡ q * pow2 (suc k) + pow2 k =
      ap (λ t. bit_or t (pow2 (suc k) / 2)) whole
      ∙ ap (bit_or (q * pow2 (suc k))) digit
      ∙ bit_or-pow2 k q in
    omega (arith, bit_or-lowest (q * pow2 (suc (suc k))) (pow2 (suc k)), rest)

pub pow2-pow : (k : ℕ) → 2 ^ k ≡ pow2 k
unfolding pow2
pow2-pow zero = refl
pow2-pow (suc k) = omega (arith, pow2-pow k)
