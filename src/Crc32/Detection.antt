-- ===== src/Crc32/Detection.antt =====
-- The CRC of RadioMeshCrc32.h over the payload of a packet tells apart what differs in one byte.
use radio_mesh.Base.{
  ℕ, zero, suc, ◌*◌, ◌/◌, ◌%◌, ◌^◌, ◌≤◌, ◌<◌, ◌≡◌, refl, ◌∙◌, sym, bit_xor, List, [], ◌∷◌, ◌++◌,
  Bool-cases, ◌==◌, inl, inr, ◌⊎◌, u32_mod, arith,
}
use radio_mesh.Crc32.{
  reflect, round, rounds, update_byte, update_bytes, update_u16, update_u32, finalize, polynomial,
}
use radio_mesh.Crc32.Bits.{pow2, bit_xor-lt, bit_xor-top, bit_xor-cancel_left, bit_xor-cancel_right}
use radio_mesh.Crc32.Reflect.{reflect-lt, reflect-injective}

pow2_32 : pow2 32 ≡ u32_mod
unfolding pow2
pow2_32 = refl

pow2_31 : 2 * pow2 31 ≡ u32_mod
unfolding pow2
pow2_31 = refl

pow2_8 : pow2 8 ≡ 256
unfolding pow2
pow2_8 = refl

polynomial_top : (pow2 31 ≤ polynomial) × (polynomial < pow2 32)
unfolding pow2
polynomial_top = omega arith

-- The highest digit of a round's result is the lowest digit of the register before.
round_top :
    (crc : ℕ)
    → crc < u32_mod
    → ((crc % 2 ≡ 1) × (round crc ≡ bit_xor (crc / 2) polynomial) × (pow2 31 ≤ round crc))
      ⊎ ((crc % 2 ≡ 0) × (round crc ≡ crc / 2) × (round crc < pow2 31))
unfolding round
round_top crc small = elim (Bool-cases (crc % 2 == 1)) [
  | inl odd ↦ inl (
    ground (arith, odd),
    rw odd refl,
    rw odd (
        bit_xor-top 31 (crc / 2) polynomial (omega (arith, pow2_31)) polynomial_top.0
          polynomial_top.1),
  )
  | inr even ↦ inr (ground (arith, even), rw even refl, rw even (omega (arith, pow2_31)))
]

round-lt : (crc : ℕ) → crc < u32_mod → round crc < u32_mod
round-lt crc small = elim (round_top crc small) [
  | inl odd ↦ omega (
    arith,
    odd.1,
    pow2_32,
    bit_xor-lt 32 (crc / 2) polynomial (omega (arith, pow2_32)) polynomial_top.1,
  )
  | inr even ↦ omega (arith, even.1)
]

round-injective : (a b : ℕ) → a < u32_mod → b < u32_mod → round a ≡ round b → a ≡ b
round-injective a b sa sb e = elim (round_top a sa) [
  | inl oa ↦ elim (round_top b sb) [
    | inl ob ↦
        let half = bit_xor-cancel_right (a / 2) (b / 2) polynomial (sym oa.1 ∙ e ∙ ob.1) in
        omega (arith, half, oa.0, ob.0)
    | inr eb ↦ absurd (omega (arith, e, oa.2, eb.2))
  ]
  | inr ea ↦ elim (round_top b sb) [
    | inl ob ↦ absurd (omega (arith, e, ea.2, ob.2))
    | inr eb ↦ omega (arith, e, ea.1, eb.1, ea.0, eb.0)
  ]
]

rounds-lt : (k crc : ℕ) → crc < u32_mod → rounds k crc < u32_mod
unfolding rounds
rounds-lt zero crc small = small
rounds-lt (suc k) crc small = rounds-lt k (round crc) (round-lt crc small)

rounds-injective : (k a b : ℕ) → a < u32_mod → b < u32_mod → rounds k a ≡ rounds k b → a ≡ b
unfolding rounds
rounds-injective zero a b sa sb e = e
rounds-injective (suc k) a b sa sb e =
    round-injective a b sa sb
      (rounds-injective k (round a) (round b) (round-lt a sa) (round-lt b sb) e)

mixed-lt : (crc value : ℕ) → crc < u32_mod → bit_xor crc (reflect 8 value) < u32_mod
mixed-lt crc value small =
    let r = reflect-lt 8 value in
    omega (
      arith,
      pow2_32,
      bit_xor-lt 32 crc (reflect 8 value) (omega (arith, pow2_32))
          (omega (arith, pow2_32, pow2_8, r)),
    )

update_byte-lt : (crc value : ℕ) → crc < u32_mod → update_byte crc value < u32_mod
unfolding update_byte
update_byte-lt crc value small =
    rounds-lt 8 (bit_xor crc (reflect 8 value)) (mixed-lt crc value small)

-- Different registers stay different over the same byte.
update_byte-register :
    (a b value : ℕ) → a < u32_mod → b < u32_mod → update_byte a value ≡ update_byte b value → a ≡ b
unfolding update_byte
update_byte-register a b value sa sb e = bit_xor-cancel_right a b (reflect 8 value) (
    rounds-injective 8 (bit_xor a (reflect 8 value)) (bit_xor b (reflect 8 value))
      (mixed-lt a value sa) (mixed-lt b value sb) e)

-- Different bytes make the register different.
update_byte-value :
    (crc v w : ℕ)
    → crc < u32_mod
    → v < 256
    → w < 256
    → update_byte crc v ≡ update_byte crc w
    → v ≡ w
unfolding update_byte
update_byte-value crc v w small p q e =
    reflect-injective 8 v w (omega (arith, pow2_8)) (omega (arith, pow2_8)) (
      bit_xor-cancel_left (reflect 8 v) (reflect 8 w) crc (
        rounds-injective 8 (bit_xor crc (reflect 8 v)) (bit_xor crc (reflect 8 w))
          (mixed-lt crc v small) (mixed-lt crc w small) e))

pub update_bytes-lt : (bs : List ℕ) (crc : ℕ) → crc < u32_mod → update_bytes crc bs < u32_mod
unfolding update_bytes
update_bytes-lt [] crc small = small
update_bytes-lt (b ∷ bs) crc small =
    update_bytes-lt bs (update_byte crc b) (update_byte-lt crc b small)

update_bytes-register :
    (bs : List ℕ) (a b : ℕ)
    → a < u32_mod
    → b < u32_mod
    → update_bytes a bs ≡ update_bytes b bs
    → a ≡ b
unfolding update_bytes
update_bytes-register [] a b sa sb e = e
update_bytes-register (c ∷ bs) a b sa sb e = update_byte-register a b c sa sb (
    update_bytes-register bs (update_byte a c) (update_byte b c) (update_byte-lt a c sa)
      (update_byte-lt b c sb) e)

-- Two byte strings that differ in one byte leave different registers.
pub update_bytes-one_byte :
    (before after : List ℕ) (crc v w : ℕ)
    → crc < u32_mod
    → v < 256
    → w < 256
    → update_bytes crc (before ++ (v ∷ after)) ≡ update_bytes crc (before ++ (w ∷ after))
    → v ≡ w
unfolding update_bytes
update_bytes-one_byte [] after crc v w small p q e = update_byte-value crc v w small p q (
    update_bytes-register after (update_byte crc v) (update_byte crc w) (update_byte-lt crc v small)
      (update_byte-lt crc w small) e)
update_bytes-one_byte (b ∷ before) after crc v w small p q e =
    update_bytes-one_byte before after (update_byte crc b) v w (update_byte-lt crc b small) p q e

pub update_u32-lt : (crc value : ℕ) → crc < u32_mod → update_u32 crc value < u32_mod
unfolding update_u32 update_u16
update_u32-lt crc value small =
    let low = value % 2 ^ 16 in
    let high = value / 2 ^ 16 % 2 ^ 16 in
    let c1 = update_byte crc (low % 256) in
    let c2 = update_byte c1 (low / 2 ^ 8 % 256) in
    let c3 = update_byte c2 (high % 256) in
    update_byte-lt c3 (high / 2 ^ 8 % 256) (
      update_byte-lt c2 (high % 256)
        (update_byte-lt c1 (low / 2 ^ 8 % 256) (update_byte-lt crc (low % 256) small)))

pub finalize-injective : (a b : ℕ) → a < u32_mod → b < u32_mod → finalize a ≡ finalize b → a ≡ b
unfolding finalize
finalize-injective a b sa sb e =
    let ra = reflect-lt 32 a in
    let rb = reflect-lt 32 b in
    let ones : 0xFFFFFFFF < pow2 32 = omega (arith, pow2_32) in
    let xa = bit_xor-lt 32 (reflect 32 a) 0xFFFFFFFF ra ones in
    let xb = bit_xor-lt 32 (reflect 32 b) 0xFFFFFFFF rb ones in
    let same : bit_xor (reflect 32 a) 0xFFFFFFFF ≡ bit_xor (reflect 32 b) 0xFFFFFFFF =
      omega (arith, e, xa, xb, pow2_32) in
    reflect-injective 32 a b (omega (arith, pow2_32)) (omega (arith, pow2_32))
      (bit_xor-cancel_right (reflect 32 a) (reflect 32 b) 0xFFFFFFFF same)
