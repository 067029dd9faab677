-- ===== src/Utils.antt =====
-- common/utils/Utils.cpp and Utils.h: conversions between numbers, bytes and device ids.
pub mod Numbers
pub mod Text
use radio_mesh.Base.{
  ℕ, zero, suc, ◌+◌, ◌*◌, ◌/◌, ◌%◌, ◌^◌, Bool, List, [], ◌∷◌, get_or, if◌then◌else◌, u32_mod,
}
use radio_mesh.Packet.{DeviceId, broadcast_addr, id_eq, be32, byte24, byte16, byte8, byte0}

-- toUint32 and deviceIdToUint32
abbrev pub to_uint32 : DeviceId → ℕ
to_uint32 i = be32 i.b0 i.b1 i.b2 i.b3

-- uint32ToDeviceId
unfoldable pub uint32_to_device_id : ℕ → DeviceId
uint32_to_device_id value = record {
  b0 = byte24 value;
  b1 = byte16 value;
  b2 = byte8 value;
  b3 = byte0 value;
}

-- isBroadcastAddress
unfoldable pub is_broadcast_address : DeviceId → Bool
is_broadcast_address address = if id_eq address broadcast_addr then Bool.true else Bool.false

-- numberToBytes of a type of `size` bytes: the most significant byte comes first.
unfoldable pub number_to_bytes : ℕ → ℕ → List ℕ
number_to_bytes zero number = []
number_to_bytes (suc i) number = (number / 2 ^ (8 * i) % 256) ∷ number_to_bytes i number

-- The loop of bytesToNumber, which reads at most `size` bytes: `(number << 8) | byte` in `size` bytes.
unfoldable pub bytes_loop : ℕ → ℕ → ℕ → List ℕ → ℕ
bytes_loop size zero number bytes = number
bytes_loop size (suc k) number [] = number
bytes_loop size (suc k) number (b ∷ bytes) =
    bytes_loop size k ((number * 256 + b) % 2 ^ (8 * size)) bytes

unfoldable pub bytes_to_number : ℕ → List ℕ → ℕ
unfolding bytes_loop
bytes_to_number size bytes = bytes_loop size size 0 bytes

-- "0123456789ABCDEF"[d], as an ASCII code
unfoldable pub hex_digit : ℕ → ℕ
hex_digit d =
    get_or
      (b'0' ∷ b'1' ∷ b'2' ∷ b'3' ∷ b'4' ∷ b'5' ∷ b'6' ∷ b'7' ∷ b'8' ∷ b'9' ∷ b'A' ∷ b'B' ∷ b'C'
        ∷ b'D' ∷ b'E' ∷ b'F' ∷ [])
      d 0

-- convertToHex
unfoldable pub convert_to_hex : List ℕ → List ℕ
unfolding hex_digit
convert_to_hex [] = []
convert_to_hex (val ∷ rest) = hex_digit (val / 16 % 16) ∷ hex_digit (val % 16) ∷ convert_to_hex rest
