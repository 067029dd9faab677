-- ===== src/Types.antt =====
-- The enumerations and topics that every component shares: common/inc/Definitions.h, with the
-- topic tests of its namespace TopicUtils and of core/protocol/inc/packet/Topics.h.
use radio_mesh.Base.{ℕ, Bool, ◌||◌, ltb, leb, ◌==◌}

-- `enum MeshDeviceType`; `type_byte` is the value that goes into a packet.
pub data MeshDeviceType : Type 0 where
  unknown standard hub : MeshDeviceType

abbrev pub type_byte : MeshDeviceType → ℕ
type_byte unknown = 1
type_byte standard = 2
type_byte hub = 3

abbrev pub is_hub : MeshDeviceType → Bool
is_hub hub = Bool.true
is_hub unknown = Bool.false
is_hub standard = Bool.false

abbrev pub is_standard : MeshDeviceType → Bool
is_standard standard = Bool.true
is_standard unknown = Bool.false
is_standard hub = Bool.false

-- `enum class DeviceInclusionState`. The state is stored as a byte and read back by a cast, so a
-- value outside the enumeration can occur: `other b`.
pub data DeviceInclusionState : Type 0 where
  not_included inclusion_pending included : DeviceInclusionState
  other : ℕ → DeviceInclusionState

abbrev pub state_byte : DeviceInclusionState → ℕ
state_byte not_included = 1
state_byte inclusion_pending = 2
state_byte included = 3
state_byte (other b) = b

unfoldable pub state_of_byte : ℕ → DeviceInclusionState
state_of_byte b = elim (b == 1) [
  | Bool.true ↦ not_included
  | Bool.false ↦ elim (b == 2) [
    | Bool.true ↦ inclusion_pending
    | Bool.false ↦ elim (b == 3) [ Bool.true ↦ included | Bool.false ↦ other b ]
  ]
]

abbrev pub is_included : DeviceInclusionState → Bool
is_included included = Bool.true
is_included not_included = Bool.false
is_included inclusion_pending = Bool.false
is_included (other b) = Bool.false

abbrev pub is_pending : DeviceInclusionState → Bool
is_pending inclusion_pending = Bool.true
is_pending not_included = Bool.false
is_pending included = Bool.false
is_pending (other b) = Bool.false

abbrev pub is_not_included : DeviceInclusionState → Bool
is_not_included not_included = Bool.true
is_not_included inclusion_pending = Bool.false
is_not_included included = Bool.false
is_not_included (other b) = Bool.false

-- `enum MessageTopic`. A topic is a byte from the air, so it is a number.
abbrev pub unused : ℕ
unused = 0x00

abbrev pub ping : ℕ
ping = 0x01

abbrev pub bye : ℕ
bye = 0x05

abbrev pub include_request : ℕ
include_request = 0x06

abbrev pub include_response : ℕ
include_response = 0x07

abbrev pub include_open : ℕ
include_open = 0x08

abbrev pub include_confirm : ℕ
include_confirm = 0x09

abbrev pub include_success : ℕ
include_success = 0x0A

abbrev pub max_reserved : ℕ
max_reserved = 0x0F

-- TopicUtils::isTopicReverved
unfoldable pub is_topic_reserved : ℕ → Bool
is_topic_reserved topic = ltb max_reserved topic

-- isProtocolTopic of Topics.h
unfoldable pub is_protocol_topic : ℕ → Bool
is_protocol_topic topic = leb topic max_reserved

-- TopicUtils::isInclusionTopic
unfoldable pub is_inclusion_topic : ℕ → Bool
is_inclusion_topic topic =
    topic == include_request
    || topic == include_response
    || topic == include_open
    || topic == include_confirm
