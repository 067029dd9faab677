-- ===== src/PacketRouter/Tracking.antt =====
-- Duplicate suppression: a packet that was routed is found in the tracker when it is heard again.
use radio_mesh.Base.{
  ℕ, ◌+◌, ◌<◌, ◌≡◌, true, List, [], ◌∷◌, arith, u32_mod, length, some, ==_refl, ◌⊎◌, inl, inr,
}
use radio_mesh.Codes.{e_none}
use radio_mesh.Packet.{Packet, InRange, to_byte_buffer, from_byte_buffer}
use radio_mesh.Packet.Wire.{from_byte_buffer-to_byte_buffer}
use radio_mesh.Utils.{to_uint32}
use radio_mesh.Crypto.Primitives.{Primitives}
use radio_mesh.LoraRadio.{TransmitStatus}
use radio_mesh.RoutingTable.{max_hops}
use radio_mesh.PacketTracker.Nodes.{IsLinked}
use radio_mesh.PacketTracker.Recency.{add_all, Lacks, find_or_default-add_all}
use radio_mesh.PacketRouter.{Router, Origin, is_packet_found_in_tracker, track_packet}
use radio_mesh.PacketRouter.Steps.{prepare-IsPrepared, prepare-InRange}
use radio_mesh.PacketRouter.Outcome.{
  final, final-IsSigned, routed, route_packet-e_none, route_packet-sent,
}

module _ (prim : Primitives) (o : Origin) (now : ℕ) (packet : Packet) (r : Router)
    (status : TransmitStatus) where
  pub final-InRange : packet.fcounter < u32_mod → InRange (final prim o now packet r)
  final-InRange h =
      let s = final-IsSigned prim o now packet r in
      let fits = prepare-InRange prim o now packet r h in
      record { crc_fits = rw s.crc fits.crc_fits; counter_fits = rw s.fcounter h }

  -- The buffer that a successful routePacket sends reads back as a packet with the id of the one that
  -- came in. Every packet with the id and the CRC of that one is then found in the tracker, also after
  -- other packets were tracked, as long as these are fewer than the tracker's capacity and have
  -- other ids.
  pub is_packet_found_in_tracker-route_packet :
      (echo : Packet) (others : List (ℕ × ℕ))
      → IsLinked r.tracker
      → packet.fcounter < u32_mod
      → (routed prim o now packet r status).code ≡ e_none
      → echo.packet_id ≡ packet.packet_id
      → echo.packet_crc ≡ (final prim o now packet r).packet_crc
      → Lacks (to_uint32 packet.packet_id) others
      → length others < r.tracker.capacity
      → ((routed prim o now packet r status).sent ≡ to_byte_buffer (final prim o now packet r) ∷ [])
        × (from_byte_buffer (to_byte_buffer (final prim o now packet r))
            ≡ some (final prim o now packet r))
        × ((final prim o now packet r).packet_id ≡ packet.packet_id)
        × ((is_packet_found_in_tracker echo (record (routed prim o now packet r status).router {
          tracker = add_all others (routed prim o now packet r status).router.tracker;
        })).0
            ≡ true)
  unfolding is_packet_found_in_tracker track_packet
  is_packet_found_in_tracker-route_packet echo others l h ok id crc lacks room =
      let e = route_packet-e_none prim o now packet r status ok in
      let same = (prepare-IsPrepared prim o now packet r).tracker in
      (
        e.1,
        from_byte_buffer-to_byte_buffer (final prim o now packet r) (final-InRange h),
        (final-IsSigned prim o now packet r).packet_id,
        rw
            (
              e.2,
              same,
              id,
              find_or_default-add_all (to_uint32 packet.packet_id)
                  (final prim o now packet r).packet_crc 0 others r.tracker l lacks room,
              crc,
            )
            (==_refl (final prim o now packet r).packet_crc),
      )

  -- A packet at or past the hop limit is never sent, and what is sent has gone one hop further, within
  -- the limit, with this device as its last hop.
  pub route_packet_hops :
      ((routed prim o now packet r status).sent ≡ [])
      ⊎ ((packet.hop_count < max_hops)
          × ((routed prim o now packet r status).sent
              ≡ to_byte_buffer (final prim o now packet r) ∷ [])
          × ((final prim o now packet r).hop_count ≡ packet.hop_count + 1)
          × ((final prim o now packet r).last_hop_id ≡ o.device_id))
  route_packet_hops = elim (route_packet-sent prim o now packet r status) [
    | inl nothing ↦ inl nothing
    | inr (near, ok, sent) ↦
        let s = final-IsSigned prim o now packet r in
        inr (near, sent, omega (arith, s.hop_count), s.last_hop)
  ]
