-- ===== src/Reception/Delivery.antt =====
-- From routePacket on one device to the receiver's checks and decryption on another.
use radio_mesh.Base.{
  ℕ, ◌<◌, ◌≤◌, ◌≡◌, refl, ap, true, List, [], ◌∷◌, length, arith, u32_mod, some, ==_refl,
}
use radio_mesh.Codes.{e_none}
use radio_mesh.Packet.{
  Packet, header_bytes, append_mic, to_byte_buffer, from_byte_buffer, max_data_length, has_mic,
  extract_mic, data_without_mic,
}
use radio_mesh.Packet.Wire.{from_byte_buffer-to_byte_buffer}
use radio_mesh.Packet.Mic.{CarriesMic, split-append_mic, append_mic-eq}
use radio_mesh.Crypto.Primitives.{Primitives, IsLawful}
use radio_mesh.Crypto.Aes.{SecurityParams}
use radio_mesh.Crypto.Service.{decrypt_payload, encrypt_payload}
use radio_mesh.Crypto.Service.Keys.{End, Paired}
use radio_mesh.Crypto.Service.RoundTrip.{decrypt_payload-encrypt_payload, length-encrypt_payload}
use radio_mesh.Crypto.MicService.{compute_packet_mic, verify_packet_mic}
use radio_mesh.Crypto.MicService.Agreement.{verify_packet_mic-compute_packet_mic, Paired-CarriesMic}
use radio_mesh.LoraRadio.{transmitted, send_code}
use radio_mesh.RoutingTable.{max_hops}
use radio_mesh.PacketRouter.{
  Router, Origin, prepare, route_packet, compute_and_append_mic, payload_crc, finish,
  send_and_track, check_max_hops,
}
use radio_mesh.PacketRouter.Steps.{ready, IsPrepared, prepare-IsPrepared, prepare-packet_data}
use radio_mesh.PacketRouter.Outcome.{signed, final, routed}
use radio_mesh.PacketRouter.Tracking.{final-InRange}
use radio_mesh.Reception.{is_received_data_crc_valid, verify_and_strip_mic}

-- The end of a link that an origin is.
abbrev pub end_of : Origin → End
end_of o = record { device_type = o.device_type; state = o.inclusion_state; service = o.service }

-- The MIC step, on a topic with a MIC, once a MIC of four bytes was computed.
signed_eq :
    (prim : Primitives) (o : Origin) (p : Packet) (r : Router) (mic : List ℕ)
    → CarriesMic p.topic
    → r.mic_set ≡ true
    → compute_packet_mic prim
        (header_bytes p)
        p.packet_data
        p.topic
        o.device_type
        o.inclusion_state
        (some o.service)
      ≡ mic
    → length mic ≡ 4
    → compute_and_append_mic prim o p r ≡ (e_none, append_mic p mic)
unfolding compute_and_append_mic
signed_eq prim o p r [] c set e h = absurd (omega arith)
signed_eq prim o p r (x ∷ mic) c set e h = rw (set, e) (ground (arith, c.ne_open, c.ne_request))

-- A packet whose MIC step passed is sent.
route_packet_passed :
    (prim : Primitives) (o : Origin) (now : ℕ) (packet : Packet) (r : Router)
    → packet.hop_count < max_hops
    → (signed prim o now packet r).0 ≡ e_none
    → ((routed prim o now packet r transmitted).code ≡ e_none)
      × ((routed prim o now packet r transmitted).sent
          ≡ to_byte_buffer (final prim o now packet r) ∷ [])
unfolding route_packet finish send_and_track check_max_hops send_code
route_packet_passed prim o now packet r near ok = ground arith

module _ (prim : Primitives) (law : IsLawful prim) (o : Origin) (receiver : End) (now : ℕ)
    (packet : Packet) (r : Router) (pair : Paired prim packet.topic (end_of o) receiver)
    (encrypts : r.encryption_set ≡ true) (signs : r.mic_set ≡ true)
    (near : packet.hop_count < max_hops) (counts : packet.fcounter < u32_mod)
    (fits : length packet.packet_data ≤ max_data_length) where
  abbrev p : Packet
  p = ready prim o now packet r

  abbrev mic : List ℕ
  mic =
      compute_packet_mic prim (header_bytes p) p.packet_data packet.topic o.device_type
        o.inclusion_state (some o.service)

  carries : CarriesMic packet.topic
  carries = Paired-CarriesMic prim packet.topic (end_of o) receiver pair

  payload :
      p.packet_data
      ≡ (encrypt_payload prim packet.packet_data packet.topic o.device_type o.inclusion_state
          o.service r.aes_params).0
  payload = prepare-packet_data prim o now packet r encrypts carries.ne_open

  abbrev prepared : IsPrepared prim o now packet r
  prepared = prepare-IsPrepared prim o now packet r

  carries_p : CarriesMic p.topic
  carries_p = rw prepared.topic carries

  fits_p : length p.packet_data ≤ max_data_length
  fits_p =
      rw
        (
          payload,
          length-encrypt_payload prim law packet.topic (end_of o) receiver packet.packet_data
              r.aes_params r.aes_params pair,
        )
        fits

  accepted :
      (length mic ≡ 4)
      × (verify_packet_mic prim
            (header_bytes p)
            p.packet_data
            mic
            packet.topic
            receiver.device_type
            receiver.state
            (some receiver.service)
          ≡ true)
  accepted =
      verify_packet_mic-compute_packet_mic prim law packet.topic (end_of o) receiver
        (header_bytes p) p.packet_data pair

  signed_step : signed prim o now packet r ≡ (e_none, append_mic p mic)
  signed_step =
      signed_eq prim o p (prepare prim o now packet r).1 mic carries_p (rw prepared.mic_set signs)
        (rw prepared.topic refl) accepted.0

  final_eq : final prim o now packet r ≡ append_mic p mic
  final_eq = ap (λ s. s.1) signed_step

  split :
      (has_mic (append_mic p mic) ≡ true)
      × (extract_mic (append_mic p mic) ≡ mic)
      × (data_without_mic (append_mic p mic) ≡ p.packet_data)
  split = split-append_mic p mic carries_p accepted.0 fits_p

  -- The header under the MIC is the header that is sent.
  header_kept : header_bytes (append_mic p mic) ≡ header_bytes p
  unfolding header_bytes
  header_kept = rw (append_mic-eq p mic accepted.0 fits_p)

  kept :
      ((append_mic p mic).topic ≡ packet.topic)
      × ((append_mic p mic).fcounter ≡ p.fcounter)
      × ((append_mic p mic).packet_crc ≡ p.packet_crc)
  kept = rw (append_mic-eq p mic accepted.0 fits_p) (prepared.topic, refl, refl)

  crc_ok : is_received_data_crc_valid (append_mic p mic) ≡ true
  unfolding is_received_data_crc_valid
  crc_ok =
      rw (split.2, kept.1, kept.2, prepared.crc) (==_refl (payload_crc p.fcounter p.packet_data))

  stripped :
      verify_and_strip_mic prim receiver.device_type receiver.state receiver.service
        (append_mic p mic)
      ≡ (true, record (append_mic p mic) { packet_data = p.packet_data })
  unfolding verify_and_strip_mic
  stripped =
      rw (split.0, split.1, split.2, header_kept, kept.0, accepted.1)
        (ground (arith, carries.ne_open, carries.ne_request))

  -- A packet below the hop limit whose payload fits, from a device whose router has its services, over a
  -- pair of ends: routePacket succeeds when the radio transmits, the one buffer that it sends reads back
  -- as the packet it signed, and on the receiver the CRC check passes, the MIC check passes, and the
  -- decryption of what remains is the payload that was given to routePacket.
  pub delivery :
      (params : SecurityParams)
      → ((routed prim o now packet r transmitted).code ≡ e_none)
        × ((routed prim o now packet r transmitted).sent
            ≡ to_byte_buffer (final prim o now packet r) ∷ [])
        × (from_byte_buffer (to_byte_buffer (final prim o now packet r))
            ≡ some (final prim o now packet r))
        × (is_received_data_crc_valid (final prim o now packet r) ≡ true)
        × ((verify_and_strip_mic prim receiver.device_type receiver.state receiver.service
              (final prim o now packet r)).0
            ≡ true)
        × ((decrypt_payload prim
              (verify_and_strip_mic prim receiver.device_type receiver.state receiver.service
                (final prim o now packet r)).1.packet_data
              packet.topic
              receiver.device_type
              receiver.state
              receiver.service
              params).0
            ≡ packet.packet_data)
  delivery params =
      let passed = route_packet_passed prim o now packet r near (ap (λ s. s.0) signed_step) in
      (
        passed.0,
        passed.1,
        from_byte_buffer-to_byte_buffer (final prim o now packet r)
            (final-InRange prim o now packet r transmitted counts),
        rw final_eq crc_ok,
        rw (final_eq, stripped) refl,
        rw (final_eq, stripped, payload)
            (decrypt_payload-encrypt_payload prim law packet.topic (end_of o) receiver
              packet.packet_data r.aes_params params pair),
      )
