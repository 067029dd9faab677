-- ===== src/Crc32/Reflect.antt =====
-- The bit reversal of RadioMeshCrc32.h loses nothing.
use Prim.Native.Nat.{bit_or}
use native.Mathlib.Nat.{div-div-eq-div-mul}
use native.Mathlib.Numerals.{towards_suc}
use radio_mesh.Base.{
  ℕ, zero, suc, ◌+◌, ◌*◌, ◌/◌, ◌%◌, ◌^◌, ◌<◌, ◌≡◌, ap, ◌∙◌, sym, ◌⊎◌, inl, inr, ◌==◌, Bool-cases,
  arith,
}
use radio_mesh.Crc32.{reflect, reflect_loop}
use radio_mesh.Crc32.Bits.{pow2, bit_or-pow2, pow2-pow}

-- The lowest k bits, in the opposite order
unfoldable pub reversed : ℕ → ℕ → ℕ
reversed zero w = 0
reversed (suc k) w = w % 2 * pow2 k + reversed k (w / 2)

digit_cases : (w : ℕ) → (w % 2 ≡ 0) ⊎ (w % 2 ≡ 1)
digit_cases w = elim (Bool-cases (w % 2 == 1)) [
  | inl e ↦ inr (ground (arith, e))
  | inr e ↦ inl (ground (arith, e))
]

shifted_once : (value i : ℕ) → value / 2 ^ (i + 1) ≡ value / 2 ^ i / 2
shifted_once value i =
    let e : 2 ^ (i + 1) ≡ 2 ^ i * 2 = simp towards_suc (omega arith) in
    ap (λ t. value / t) e ∙ sym (div-div-eq-div-mul value (2 ^ i) 2)

-- The loop adds the reversed bits below those that it has.
reflect_loop_lem :
    (k i value q : ℕ)
    → reflect_loop k i value (q * pow2 k) ≡ q * pow2 k + reversed k (value / 2 ^ i)
unfolding reflect_loop reversed pow2
reflect_loop_lem zero i value q = omega arith
reflect_loop_lem (suc k) i value q =
    let w = value / 2 ^ i in
    let later = shifted_once value i in
    elim (Bool-cases (w % 2 == 1)) [
      | inl one ↦
          let digit : w % 2 ≡ 1 = ground (arith, one) in
          let more : bit_or (q * pow2 (suc k)) (2 ^ k) ≡ (2 * q + 1) * pow2 k =
            ap (bit_or (q * pow2 (suc k))) (pow2-pow k) ∙ bit_or-pow2 k q ∙ omega arith in
          let next = reflect_loop_lem k (i + 1) value (2 * q + 1) in
          rw (one, digit, more, next, later) (omega arith)
      | inr none_there ↦
          let digit : w % 2 ≡ 0 = ground (arith, none_there) in
          let same : q * pow2 (suc k) ≡ (2 * q) * pow2 k = omega arith in
          let next = reflect_loop_lem k (i + 1) value (2 * q) in
          rw (none_there, digit, same, next, later) (omega arith)
    ]

reversed-lt : (k w : ℕ) → reversed k w < pow2 k
unfolding reversed pow2
reversed-lt zero w = omega arith
reversed-lt (suc k) w = elim (digit_cases w) [
  | inl e ↦ rw e (omega (arith, reversed-lt k (w / 2)))
  | inr e ↦ rw e (omega (arith, reversed-lt k (w / 2)))
]

reversed-injective : (k v w : ℕ) → v < pow2 k → w < pow2 k → reversed k v ≡ reversed k w → v ≡ w
unfolding reversed pow2
reversed-injective zero v w p q e = omega arith
reversed-injective (suc k) v w p q e =
    let bv = reversed-lt k (v / 2) in
    let bw = reversed-lt k (w / 2) in
    let ih = reversed-injective k (v / 2) (w / 2) (omega arith) (omega arith) in
    elim (digit_cases v) [
      | inl a ↦ elim (digit_cases w) [
        | inl b ↦ let h = ih (ground (arith, e, a, b)) in omega (arith, h, a, b)
        | inr b ↦ absurd (ground (arith, e, a, b, bv, bw))
      ]
      | inr a ↦ elim (digit_cases w) [
        | inl b ↦ absurd (ground (arith, e, a, b, bv, bw))
        | inr b ↦ let h = ih (ground (arith, e, a, b)) in omega (arith, h, a, b)
      ]
    ]

reflect_lem : (width value : ℕ) → reflect width value ≡ reversed width value
unfolding reflect
reflect_lem width value =
    let nothing : 0 ≡ 0 * pow2 width = omega arith in
    let whole : value / 2 ^ 0 ≡ value = omega arith in
    ap (reflect_loop width 0 value) nothing
    ∙ reflect_loop_lem width 0 value 0
    ∙ omega (arith, ap (reversed width) whole)

pub reflect-lt : (width value : ℕ) → reflect width value < pow2 width
reflect-lt width value = omega (arith, reflect_lem width value, reversed-lt width value)

-- Reflection loses nothing.
pub reflect-injective :
    (width v w : ℕ) → v < pow2 width → w < pow2 width → reflect width v ≡ reflect width w → v ≡ w
reflect-injective width v w p q e =
    reversed-injective width v w p q (sym (reflect_lem width v) ∙ e ∙ reflect_lem width w)
