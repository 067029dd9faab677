-- ===== src/PacketRouter/Outcome.antt =====
-- The outcomes of routePacket, by what its steps return.
use radio_mesh.Base.{ℕ, ◌+◌, ◌%◌, ◌<◌, ◌≡◌, [], ◌∷◌, arith, ◌⊎◌}
use radio_mesh.Codes.{ReturnCode, e_none}
use radio_mesh.Packet.{Packet, to_byte_buffer, append_mic}
use radio_mesh.Utils.{to_uint32}
use radio_mesh.Crypto.Primitives.{Primitives}
use radio_mesh.LoraRadio.{TransmitStatus}
use radio_mesh.RoutingTable.{max_hops}
use radio_mesh.PacketRouter.{
  Router, Origin, Routed, route_packet, prepare, finish, send_and_track, track_packet,
  compute_and_append_mic, check_max_hops,
}
use radio_mesh.PacketRouter.Steps.{ready, prepare-IsPrepared}

module _ (prim : Primitives) (o : Origin) (now : ℕ) (packet : Packet) (r : Router) where
  -- The packet with its MIC, and the code of that step.
  abbrev pub signed : ReturnCode × Packet
  signed = compute_and_append_mic prim o (ready prim o now packet r) (prepare prim o now packet r).1

  abbrev pub final : Packet
  final = signed.1

  -- The MIC changes the payload alone.
  pub record IsSigned : Type 0 where
    pub topic : final.topic ≡ packet.topic
    pub source : final.source_dev_id ≡ packet.source_dev_id
    pub dest : final.dest_dev_id ≡ packet.dest_dev_id
    pub packet_id : final.packet_id ≡ packet.packet_id
    pub hop_count : final.hop_count ≡ (packet.hop_count + 1) % 256
    pub last_hop : final.last_hop_id ≡ o.device_id
    pub crc : final.packet_crc ≡ (ready prim o now packet r).packet_crc
    pub fcounter : final.fcounter ≡ packet.fcounter

  pub final-IsSigned : IsSigned
  unfolding compute_and_append_mic append_mic
  final-IsSigned = ground (arith, prepare-IsPrepared prim o now packet r)

  module _ (status : TransmitStatus) where
    abbrev pub routed : Routed
    routed = route_packet prim o now status packet r

    -- Something is sent only below the hop limit and with the MIC step passed, and then it is one
    -- buffer, that of the signed packet.
    pub route_packet-sent :
        (routed.sent ≡ [])
        ⊎ ((packet.hop_count < max_hops)
            × (signed.0 ≡ e_none)
            × (routed.sent ≡ to_byte_buffer final ∷ []))
    unfolding route_packet finish send_and_track check_max_hops
    route_packet-sent = ground arith

    -- A packet that was routed was sent, and its CRC is tracked under its id.
    pub route_packet-e_none :
        routed.code ≡ e_none
        → (packet.hop_count < max_hops)
          × (routed.sent ≡ to_byte_buffer final ∷ [])
          × (routed.router
              ≡ track_packet
                  (to_uint32 packet.packet_id)
                  final.packet_crc
                  (prepare prim o now packet r).1)
    unfolding route_packet finish send_and_track check_max_hops
    route_packet-e_none h = ground arith
