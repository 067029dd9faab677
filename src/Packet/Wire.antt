-- ===== src/Packet/Wire.antt =====
-- The wire format of a packet (toByteBuffer and the constructor from a buffer).
use radio_mesh.Base.{ℕ, ◌+◌, ◌<◌, ◌≡◌, refl, some, ◌++◌, length, arith, u32_mod, ltb-false}
use radio_mesh.Packet.{
  Packet, InRange, from_byte_buffer, to_byte_buffer, header_bytes, header_length, be32, byte24,
  byte16, byte8, byte0,
}

-- The four bytes of a uint32_t give it back.
pub be32_bytes : (x : ℕ) → x < u32_mod → be32 (byte24 x) (byte16 x) (byte8 x) (byte0 x) ≡ x
be32_bytes x h = omega arith

pub to_byte_buffer-eq : (p : Packet) → to_byte_buffer p ≡ header_bytes p ++ p.packet_data
unfolding to_byte_buffer header_bytes
to_byte_buffer-eq p = refl

pub length-to_byte_buffer :
    (p : Packet) → length (to_byte_buffer p) ≡ header_length + length p.packet_data
unfolding to_byte_buffer
length-to_byte_buffer p = omega arith

-- Reading back the bytes of a packet whose CRC and counter are 32-bit words gives the packet.
pub from_byte_buffer-to_byte_buffer :
    (p : Packet) → InRange p → from_byte_buffer (to_byte_buffer p) ≡ some p
unfolding from_byte_buffer to_byte_buffer
from_byte_buffer-to_byte_buffer p h = rw (
  be32_bytes p.packet_crc h.crc_fits,
  be32_bytes p.fcounter h.counter_fits,
  ltb-false (length (to_byte_buffer p)) header_length (omega arith),
)
