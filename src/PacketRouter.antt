-- ===== src/PacketRouter.antt =====
-- core/protocol/inc/routing/PacketRouter.h and src/routing/PacketRouter.cpp. The router's own state is the
-- packet tracker and two pointers; the singletons that it uses (the routing table and the AES
-- parameters) are kept beside it. Both pointers lead to the services of the device, whose keys are an
-- argument; `millis()` and the radio's answer are arguments too.
pub mod Steps
pub mod Outcome
pub mod Tracking
pub mod Secrecy
use radio_mesh.Base.{
  ℕ, ◌+◌, ◌%◌, Bool, true, false, not, ◌||◌, Option, none, some, List, [], ◌∷◌, length, is_empty,
  leb, ◌==◌, if◌then◌else◌,
}
use radio_mesh.Codes.{
  ReturnCode, e_none, error, e_max_hops, e_device_initialization_failed, e_auth_failed,
}
use radio_mesh.Types.{MeshDeviceType, DeviceInclusionState, include_open, include_request}
use radio_mesh.Packet.{
  DeviceId, Packet, zero_id, zero_reserved, to_byte_buffer, header_bytes, append_mic,
}
use radio_mesh.Utils.{to_uint32, is_broadcast_address}
use radio_mesh.Crc32
use radio_mesh.PacketTracker.{PacketTracker, add_entry, find_or_default, new_tracker}
use radio_mesh.RoutingTable.{RouteEntry, find_next_hop, max_hops}
use radio_mesh.Crypto.Primitives.{Primitives}
use radio_mesh.Crypto.Aes.{SecurityParams}
use radio_mesh.Crypto.Service.{EncryptionService, encrypt_payload}
use radio_mesh.Crypto.MicService.{compute_packet_mic}
use radio_mesh.LoraRadio.{TransmitStatus, send_code}

pub record Router : Type 0 where
  pub tracker : PacketTracker
  pub encryption_set : Bool
  pub mic_set : Bool
  pub routes : List RouteEntry
  pub aes_params : SecurityParams

-- The router of getInstance, with no service set.
abbrev pub new_router : List RouteEntry → SecurityParams → Router
new_router routes params = record {
  tracker = new_tracker 50;
  encryption_set = false;
  mic_set = false;
  routes = routes;
  aes_params = params;
}

-- Who sends: the device's id, its type, its inclusion state and its keys.
pub record Origin : Type 0 where
  pub device_id : DeviceId
  pub device_type : MeshDeviceType
  pub inclusion_state : DeviceInclusionState
  pub service : EncryptionService

-- What routePacket leaves: its code, the buffers that were handed to the radio, and the router.
pub record Routed : Type 0 where
  pub code : ReturnCode
  pub sent : List (List ℕ)
  pub router : Router

-- checkMaxHops
unfoldable pub check_max_hops : Packet → Bool
check_max_hops p = leb max_hops p.hop_count

-- updateLastHopId: `hopCount++` on a uint8_t
unfoldable pub update_last_hop_id : DeviceId → Packet → Packet
update_last_hop_id our_id p = record p { last_hop_id = our_id; hop_count = (p.hop_count + 1) % 256 }

-- routeToNextHop: a broadcast keeps its next hop, and no route means the zero id.
unfoldable pub route_to_next_hop : ℕ → Packet → List RouteEntry → Packet × List RouteEntry
route_to_next_hop now p routes =
    if is_broadcast_address p.dest_dev_id
    then (p, routes)
    else elim (find_next_hop p.dest_dev_id now routes).0 [
      | some next_hop ↦
          (record p { next_hop_id = next_hop }, (find_next_hop p.dest_dev_id now routes).1)
      | none ↦ (record p { next_hop_id = zero_id }, (find_next_hop p.dest_dev_id now routes).1)
    ]

-- calculatePacketCrc: over the frame counter and the payload as it stands
unfoldable pub payload_crc : ℕ → List ℕ → ℕ
payload_crc fcounter bytes =
    Crc32.finalize (Crc32.update_bytes (Crc32.update_u32 Crc32.reset fcounter) bytes)

unfoldable pub calculate_packet_crc : Packet → Packet
calculate_packet_crc p = record p { packet_crc = payload_crc p.fcounter p.packet_data }

-- trackPacket
unfoldable pub track_packet : ℕ → ℕ → Router → Router
track_packet key crc r = record r { tracker = add_entry key crc r.tracker }

-- isPacketFoundInTracker: the CRC under the packet's id, or 0 when there is none, is compared.
unfoldable pub is_packet_found_in_tracker : Packet → Router → Bool × Router
is_packet_found_in_tracker p r =
    let found = find_or_default (to_uint32 p.packet_id) 0 r.tracker in
    (found.0 == p.packet_crc, record r { tracker = found.1 })

module _ (prim : Primitives) where
  -- encryptPacketData, and the test of the topic before it
  unfoldable pub encrypt_packet_data : Origin → Packet → Router → Packet × Router
  encrypt_packet_data o p r =
      if p.topic == include_open
      then (p, r)
      else if is_empty p.packet_data
      then (p, r)
      else if not r.encryption_set
      then (p, r)
      else let out =
          encrypt_payload prim p.packet_data p.topic o.device_type o.inclusion_state o.service
            r.aes_params in
        (record p { packet_data = out.0 }, record r { aes_params = out.1 })

  -- computeAndAppendMIC
  unfoldable pub compute_and_append_mic : Origin → Packet → Router → ReturnCode × Packet
  compute_and_append_mic o p r =
      if not r.mic_set
      then (e_device_initialization_failed, p)
      else if p.topic == include_open || p.topic == include_request
      then (e_none, p)
      else let mic =
          compute_packet_mic prim (header_bytes p) p.packet_data p.topic o.device_type
            o.inclusion_state (some o.service) in
        if is_empty mic then (e_auth_failed, p) else (e_none, append_mic p mic)

  -- The packet up to its MIC: the hop, the next hop, the reserved bytes, the encryption and the CRC.
  unfoldable pub prepare : Origin → ℕ → Packet → Router → Packet × Router
  prepare o now packet r =
      let hop = route_to_next_hop now (update_last_hop_id o.device_id packet) r.routes in
      let (p, r') =
        encrypt_packet_data o (record hop.0 { reserved = zero_reserved })
          (record r { routes = hop.1 }) in
      (calculate_packet_crc p, r')

  -- The end of routePacket: the packet is sent, and tracked if that went well.
  unfoldable pub send_and_track : TransmitStatus → ℕ → Packet → Router → Routed
  send_and_track status key p r = elim (send_code status) [
    | e_none ↦ record {
      code = e_none;
      sent = to_byte_buffer p ∷ [];
      router = track_packet key p.packet_crc r;
    }
    | error n ↦ record { code = error n; sent = to_byte_buffer p ∷ []; router = r }
  ]

  unfoldable pub finish : TransmitStatus → ℕ → ReturnCode × Packet → Router → Routed
  finish status key (e_none, p) r = send_and_track status key p r
  finish status key (error n, p) r = record { code = error n; sent = []; router = r }

  -- routePacket
  unfoldable pub route_packet : Origin → ℕ → TransmitStatus → Packet → Router → Routed
  route_packet o now status packet r =
      if check_max_hops packet
      then record { code = e_max_hops; sent = []; router = r }
      else let (p, r') = prepare o now packet r in
        finish status (to_uint32 packet.packet_id) (compute_and_append_mic o p r') r'
