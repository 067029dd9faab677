-- ===== src/PacketRouter/Steps.antt =====
-- What routePacket makes of a packet before it is sent, field by field.
use radio_mesh.Base.{
  ℕ, ◌+◌, ◌%◌, ◌<◌, ◌≡◌, ◌≢◌, refl, true, List, [], ◌∷◌, arith, u32_mod, is_empty,
}
use radio_mesh.Types.{include_open}
use radio_mesh.Packet.{Packet, InRange}
use radio_mesh.Crc32.{finalize-lt}
use radio_mesh.Crypto.Primitives.{Primitives}
use radio_mesh.Crypto.Service.{encrypt_payload}
use radio_mesh.Crypto.Service.RoundTrip.{encrypt_payload_nil}
use radio_mesh.PacketRouter.{
  Router, Origin, prepare, route_to_next_hop, encrypt_packet_data, calculate_packet_crc,
  payload_crc, update_last_hop_id,
}

payload_crc-lt : (fcounter : ℕ) (bytes : List ℕ) → payload_crc fcounter bytes < u32_mod
unfolding payload_crc
payload_crc-lt fcounter bytes = finalize-lt _

nil_of_empty : (xs : List ℕ) → is_empty xs ≡ true → xs ≡ []
nil_of_empty [] h = refl
nil_of_empty (x ∷ xs) h = cc

module _ (prim : Primitives) (o : Origin) (now : ℕ) (packet : Packet) (r : Router) where
  abbrev pub ready : Packet
  ready = (prepare prim o now packet r).0

  -- The fields that the steps leave alone.
  pub record IsPrepared : Type 0 where
    pub topic : ready.topic ≡ packet.topic
    pub packet_id : ready.packet_id ≡ packet.packet_id
    pub fcounter : ready.fcounter ≡ packet.fcounter
    pub source : ready.source_dev_id ≡ packet.source_dev_id
    pub dest : ready.dest_dev_id ≡ packet.dest_dev_id
    pub last_hop : ready.last_hop_id ≡ o.device_id
    pub hop_count : ready.hop_count ≡ (packet.hop_count + 1) % 256
    pub crc : ready.packet_crc ≡ payload_crc ready.fcounter ready.packet_data
    pub tracker : (prepare prim o now packet r).1.tracker ≡ r.tracker
    pub mic_set : (prepare prim o now packet r).1.mic_set ≡ r.mic_set

  pub prepare-IsPrepared : IsPrepared
  unfolding prepare route_to_next_hop encrypt_packet_data calculate_packet_crc update_last_hop_id
  prepare-IsPrepared = ground arith

  -- Once the encryption service is set, the payload of every topic but INCLUDE_OPEN is what encrypt
  -- makes of it.
  pub prepare-packet_data :
      r.encryption_set ≡ true
      → packet.topic ≢ include_open
      → ready.packet_data
        ≡ (encrypt_payload prim packet.packet_data packet.topic o.device_type o.inclusion_state
            o.service r.aes_params).0
  unfolding prepare route_to_next_hop encrypt_packet_data calculate_packet_crc update_last_hop_id
  prepare-packet_data set ne = ground (
    arith,
    encrypt_payload_nil prim packet.topic o.device_type o.inclusion_state o.service r.aes_params,
    nil_of_empty packet.packet_data,
  )

  pub prepare-InRange : packet.fcounter < u32_mod → InRange ready
  prepare-InRange h =
      let p = prepare-IsPrepared in
      record {
        crc_fits = rw p.crc (payload_crc-lt ready.fcounter ready.packet_data);
        counter_fits = rw p.fcounter h;
      }
