-- ===== src/Device.antt =====
-- framework/device/inc/Device.h and src/Device.cpp, with the state of
-- framework/device/inc/InclusionController.h: what a device keeps, what it may send, and sendData. The
-- controller and the device hold references to each other, so that one record holds the state of both.
pub mod Protocol
pub mod Inclusion
pub mod Receive
pub mod Startup
pub mod Sending
use radio_mesh.Base.{
  ℕ, zero, ◌+◌, ◌%◌, Bool, true, false, not, ◌||◌, List, [], ◌++◌, length, ltb, ◌==◌, if◌then◌else◌,
  u32_mod,
}
use radio_mesh.Codes.{ReturnCode, e_none, error, e_device_not_included, e_packet_too_long}
use radio_mesh.Types.{
  MeshDeviceType, DeviceInclusionState, type_byte, is_hub, is_included, is_inclusion_topic,
}
use radio_mesh.Packet.{
  DeviceId, Packet, broadcast_addr, zero_id, zero_reserved, empty_packet, max_data_length,
}
use radio_mesh.Crypto.Primitives.{Primitives}
use radio_mesh.Crypto.Service.{EncryptionService}
use radio_mesh.LoraRadio.{TransmitStatus}
use radio_mesh.PacketRouter.{Router, Origin, Routed, route_packet}

-- `enum InclusionProtocolState`
pub data ProtocolState : Type 0 where
  protocol_idle waiting_for_request waiting_for_response waiting_for_confirmation
        waiting_for_success :
      ProtocolState

pub record Controller : Type 0 where
  pub state : DeviceInclusionState
  pub device_type : MeshDeviceType
  pub inclusion_mode_enabled : Bool
  pub protocol_state : ProtocolState
  pub state_start_time : ℕ
  pub retry_count : ℕ
  pub current_nonce : List ℕ
  pub temp_hub_public_key : List ℕ

-- A device over a storage whose contents are a `State`. `sent` are the buffers that were handed to the
-- radio, and `notified` the packets that the application's callback was given, in order.
pub record Device (State : Type 0) : Type 0 where
  pub id : DeviceId
  pub device_type : MeshDeviceType
  pub packet_counter : ℕ
  pub relay_enabled : Bool
  pub controller : Controller
  pub stored : State
  pub service : EncryptionService
  pub router : Router
  pub tx_packet : Packet
  pub sent : List (List ℕ)
  pub notified : List Packet

-- What a call reads from the world: `millis()`, the answer of the radio, the random bytes of a packet id
-- and those of a nonce.
pub record World : Type 0 where
  pub now : ℕ
  pub status : TransmitStatus
  pub random_id : DeviceId
  pub random_nonce : List ℕ

-- canSendMessage of the InclusionController
unfoldable pub can_send_message : ℕ → Controller → Bool
can_send_message topic c =
    if is_hub c.device_type
    then true
    else if is_inclusion_topic topic
    then true
    else is_included c.state

module _ (prim : Primitives) {State : Type 0} where
  abbrev pub origin : Device State → Origin
  origin d = record {
    device_id = d.id;
    device_type = d.device_type;
    inclusion_state = d.controller.state;
    service = d.service;
  }

  -- A call of routePacket by the device
  unfoldable pub route : World → Packet → Device State → ReturnCode × Device State
  route w p d =
      let out = route_packet prim (origin d) w.now w.status p d.router in
      (out.code, record d { router = out.router; sent = d.sent ++ out.sent })

  -- The packet that sendData fills in
  unfoldable pub data_packet : World → ℕ → List ℕ → DeviceId → Device State → Packet
  data_packet w topic bytes target d = record empty_packet {
    topic = topic;
    source_dev_id = d.id;
    dest_dev_id = target;
    device_type = type_byte d.device_type;
    packet_id = w.random_id;
    hop_count = 0;
    fcounter = (d.packet_counter + 1) % u32_mod;
    last_hop_id = d.id;
    next_hop_id = broadcast_addr;
    packet_data = bytes;
  }

  -- sendData. The two tests of the ids' lengths are of arrays of RM_ID_LENGTH bytes, and pass.
  unfoldable pub send_data :
      World → ℕ → List ℕ → DeviceId → Device State → ReturnCode × Device State
  send_data w topic bytes target d =
      if not (can_send_message topic d.controller)
      then (e_device_not_included, d)
      else if ltb max_data_length (length bytes)
      then (e_packet_too_long, d)
      else route w (data_packet w topic bytes target d) (record d {
        tx_packet = data_packet w topic bytes target d;
        packet_counter = (d.packet_counter + 1) % u32_mod;
      })
