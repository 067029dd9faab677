-- ===== src/Packet.antt =====
-- core/protocol/inc/packet/Packet.h: the packet, its wire format and the MIC at its payload's end.
-- A `std::array<byte, 4>` is a record of four numbers, a `std::vector<byte>` a list.
pub mod Ids
pub mod Wire
pub mod Mic
use radio_mesh.Base.{
  ℕ, ◌+◌, ◌-◌, ◌*◌, ◌/◌, ◌%◌, ◌^◌, ◌<◌, Bool, ◌&&◌, not, Option, none, some, List, [], ◌∷◌, ◌++◌,
  length, get_or, take, drop, ltb, leb, ◌==◌, ◌!=◌, if◌then◌else◌, AllBytes, u32_mod,
}
use radio_mesh.Types.{unused, include_open, include_request}

pub record DeviceId : Type 0 where
  pub b0 : ℕ
  pub b1 : ℕ
  pub b2 : ℕ
  pub b3 : ℕ

abbrev pub id_bytes : DeviceId → List ℕ
id_bytes i = i.b0 ∷ i.b1 ∷ i.b2 ∷ i.b3 ∷ []

abbrev pub zero_id : DeviceId
zero_id = record { b0 = 0; b1 = 0; b2 = 0; b3 = 0 }

abbrev pub broadcast_addr : DeviceId
broadcast_addr = record { b0 = 255; b1 = 255; b2 = 255; b3 = 255 }

-- `==` of two arrays
abbrev pub id_eq : DeviceId → DeviceId → Bool
id_eq i j = i.b0 == j.b0 && (i.b1 == j.b1 && (i.b2 == j.b2 && i.b3 == j.b3))

-- `(x0 << 24) | (x1 << 16) | (x2 << 8) | x3` as a uint32_t: the four bytes lie apart, so `|` adds.
abbrev pub be32 : ℕ → ℕ → ℕ → ℕ → ℕ
be32 x0 x1 x2 x3 = x0 * 2 ^ 24 + x1 * 2 ^ 16 + x2 * 2 ^ 8 + x3

-- `(x >> s) & 0xFF` at the four shifts
abbrev pub byte24 : ℕ → ℕ
byte24 x = x / 2 ^ 24 % 256

abbrev pub byte16 : ℕ → ℕ
byte16 x = x / 2 ^ 16 % 256

abbrev pub byte8 : ℕ → ℕ
byte8 x = x / 2 ^ 8 % 256

abbrev pub byte0 : ℕ → ℕ
byte0 x = x % 256

pub record Reserved : Type 0 where
  pub r0 : ℕ
  pub r1 : ℕ
  pub r2 : ℕ

abbrev pub zero_reserved : Reserved
zero_reserved = record { r0 = 0; r1 = 0; r2 = 0 }

pub record Packet : Type 0 where
  pub protocol_version : ℕ
  pub source_dev_id : DeviceId
  pub dest_dev_id : DeviceId
  pub packet_id : DeviceId
  pub topic : ℕ
  pub device_type : ℕ
  pub hop_count : ℕ
  pub packet_crc : ℕ
  pub fcounter : ℕ
  pub last_hop_id : DeviceId
  pub next_hop_id : DeviceId
  pub reserved : Reserved
  pub packet_data : List ℕ

abbrev pub header_length : ℕ
header_length = 35

abbrev pub mic_size : ℕ
mic_size = 4

abbrev pub max_data_length : ℕ
max_data_length = 256 - header_length - mic_size

abbrev pub protocol_version_now : ℕ
protocol_version_now = 4

-- RadioMeshPacket::reset, which sets each field as the default constructor does
abbrev pub empty_packet : Packet
empty_packet = record {
  protocol_version = protocol_version_now;
  source_dev_id = zero_id;
  dest_dev_id = zero_id;
  packet_id = zero_id;
  topic = unused;
  device_type = 1;
  hop_count = 0;
  packet_crc = 0;
  fcounter = 0;
  last_hop_id = zero_id;
  next_hop_id = zero_id;
  reserved = zero_reserved;
  packet_data = [];
}

-- four bytes from `pos` on
abbrev read_id : List ℕ → ℕ → DeviceId
read_id buffer p = record {
  b0 = get_or buffer p 0;
  b1 = get_or buffer (p + 1) 0;
  b2 = get_or buffer (p + 2) 0;
  b3 = get_or buffer (p + 3) 0;
}

abbrev read_u32 : List ℕ → ℕ → ℕ
read_u32 buffer p =
    be32 (get_or buffer p 0) (get_or buffer (p + 1) 0) (get_or buffer (p + 2) 0)
      (get_or buffer (p + 3) 0)

-- The constructor from a buffer. It checks no length: a buffer shorter than the header is read past
-- its end, and that undefined behaviour is `none`.
unfoldable pub from_byte_buffer : List ℕ → Option Packet
from_byte_buffer buffer =
    if ltb (length buffer) header_length
    then none
    else some (record {
      protocol_version = get_or buffer 0 0;
      source_dev_id = read_id buffer 1;
      dest_dev_id = read_id buffer 5;
      packet_id = read_id buffer 9;
      topic = get_or buffer 13 0;
      device_type = get_or buffer 14 0;
      hop_count = get_or buffer 15 0;
      packet_crc = read_u32 buffer 16;
      fcounter = read_u32 buffer 20;
      last_hop_id = read_id buffer 24;
      next_hop_id = read_id buffer 28;
      reserved = record {
        r0 = get_or buffer 32 0;
        r1 = get_or buffer 33 0;
        r2 = get_or buffer 34 0;
      };
      packet_data = drop header_length buffer;
    })

-- toByteBuffer
unfoldable pub to_byte_buffer : Packet → List ℕ
to_byte_buffer p =
    p.protocol_version ∷ id_bytes p.source_dev_id
    ++ (id_bytes p.dest_dev_id
        ++ (id_bytes p.packet_id
            ++ (p.topic
                  ∷ p.device_type
                  ∷ p.hop_count
                  ∷ byte24 p.packet_crc
                  ∷ byte16 p.packet_crc
                  ∷ byte8 p.packet_crc
                  ∷ byte0 p.packet_crc
                  ∷ byte24 p.fcounter
                  ∷ byte16 p.fcounter
                  ∷ byte8 p.fcounter
                  ∷ byte0 p.fcounter
                  ∷ id_bytes p.last_hop_id
                ++ (id_bytes p.next_hop_id
                    ++ (p.reserved.r0 ∷ p.reserved.r1 ∷ p.reserved.r2 ∷ p.packet_data)))))

-- getHeaderBytes
unfoldable pub header_bytes : Packet → List ℕ
header_bytes p =
    p.protocol_version ∷ id_bytes p.source_dev_id
    ++ (id_bytes p.dest_dev_id
        ++ (id_bytes p.packet_id
            ++ (p.topic
                  ∷ p.device_type
                  ∷ p.hop_count
                  ∷ byte24 p.packet_crc
                  ∷ byte16 p.packet_crc
                  ∷ byte8 p.packet_crc
                  ∷ byte0 p.packet_crc
                  ∷ byte24 p.fcounter
                  ∷ byte16 p.fcounter
                  ∷ byte8 p.fcounter
                  ∷ byte0 p.fcounter
                  ∷ id_bytes p.last_hop_id
                ++ (id_bytes p.next_hop_id
                    ++ (p.reserved.r0 ∷ p.reserved.r1 ∷ p.reserved.r2 ∷ [])))))

-- hasMIC
unfoldable pub has_mic : Packet → Bool
has_mic p =
    p.topic != include_open && p.topic != include_request && leb mic_size (length p.packet_data)

-- extractMIC
unfoldable pub extract_mic : Packet → List ℕ
unfolding has_mic
extract_mic p = if not (has_mic p) then [] else drop (length p.packet_data - mic_size) p.packet_data

-- getDataWithoutMIC
unfoldable pub data_without_mic : Packet → List ℕ
unfolding has_mic
data_without_mic p =
    if not (has_mic p) then p.packet_data else take (length p.packet_data - mic_size) p.packet_data

-- appendMIC: a MIC of the wrong size, or one that does not fit, leaves the packet as it is.
unfoldable pub append_mic : Packet → List ℕ → Packet
append_mic p mic =
    if length mic != mic_size
    then p
    else if ltb (max_data_length + mic_size) (length p.packet_data + mic_size)
    then p
    else record p { packet_data = p.packet_data ++ mic }

-- Every byte of the array is a byte, and so on: what the C++ types give.
abbrev pub IdInRange : DeviceId → Type 0
IdInRange i = (i.b0 < 256) × (i.b1 < 256) × (i.b2 < 256) × (i.b3 < 256)

pub record InRange (p : Packet) : Type 0 where
  pub crc_fits : p.packet_crc < u32_mod
  pub counter_fits : p.fcounter < u32_mod
