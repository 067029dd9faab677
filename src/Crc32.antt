-- ===== src/Crc32.antt =====
-- common/utils/RadioMeshCrc32.h: the CRC over the frame counter and the payload.
pub mod Bits
pub mod Reflect
pub mod Detection
use Prim.Native.Nat.{bit_or}
use radio_mesh.Base.{
  ℕ, zero, suc, ◌+◌, ◌/◌, ◌%◌, ◌^◌, ◌<◌, bit_xor, List, [], ◌∷◌, ◌==◌, if◌then◌else◌, u32_mod,
  arith,
}

-- The register after `reset`: ~0L in a uint32_t.
abbrev pub reset : ℕ
reset = 0xFFFFFFFF

abbrev polynomial : ℕ
polynomial = 0xEDB88320

-- The loop of reflectByte and reflect with `k` rounds left, at bit `i`: bit `i` goes to `k - 1`.
unfoldable reflect_loop : ℕ → ℕ → ℕ → ℕ → ℕ
reflect_loop zero i value reflection = reflection
reflect_loop (suc k) i value reflection =
    reflect_loop k (i + 1) value
      (if value / 2 ^ i % 2 == 1 then bit_or reflection (2 ^ k) else reflection)

-- reflectByte is `reflect 8`, reflect is `reflect 32`.
unfoldable pub reflect : ℕ → ℕ → ℕ
unfolding reflect_loop
reflect width value = reflect_loop width 0 value 0

-- One round of the loop of `update(uint8_t)`.
unfoldable pub round : ℕ → ℕ
round crc = if crc % 2 == 1 then bit_xor (crc / 2) polynomial else crc / 2

unfoldable rounds : ℕ → ℕ → ℕ
rounds zero crc = crc
rounds (suc k) crc = rounds k (round crc)

unfoldable pub update_byte : ℕ → ℕ → ℕ
unfolding reflect rounds round
update_byte crc value = rounds 8 (bit_xor crc (reflect 8 value))

-- update(const uint8_t*, size_t)
unfoldable pub update_bytes : ℕ → List ℕ → ℕ
update_bytes crc [] = crc
update_bytes crc (b ∷ rest) = update_bytes (update_byte crc b) rest

-- update(uint16_t) and update(uint32_t): the least significant byte goes first.
unfoldable pub update_u16 : ℕ → ℕ → ℕ
unfolding update_byte
update_u16 crc value = update_byte (update_byte crc (value % 256)) (value / 2 ^ 8 % 256)

unfoldable pub update_u32 : ℕ → ℕ → ℕ
unfolding update_u16
update_u32 crc value = update_u16 (update_u16 crc (value % 2 ^ 16)) (value / 2 ^ 16 % 2 ^ 16)

-- finalize: the result is returned as a uint32_t.
unfoldable pub finalize : ℕ → ℕ
unfolding reflect
finalize crc = bit_xor (reflect 32 crc) 0xFFFFFFFF % u32_mod

pub finalize-lt : (crc : ℕ) → finalize crc < u32_mod
unfolding finalize
finalize-lt crc = omega arith
