-- ===== src/Device/Sending.antt =====
-- What a device hands to the radio when its application sends.
use radio_mesh.Base.{
  ℕ, ◌+◌, ◌%◌, ◌<◌, ◌≤◌, true, List, [], ◌∷◌, ◌++◌, length, ◌≡◌, refl, ◌⊎◌, inl, inr, arith,
  u32_mod, some, ap, ◌∙◌,
}
use radio_mesh.Types.{is_hub, is_included, is_inclusion_topic}
use radio_mesh.Packet.{Packet, DeviceId, to_byte_buffer, from_byte_buffer, max_data_length}
use radio_mesh.Packet.Wire.{from_byte_buffer-to_byte_buffer}
use radio_mesh.Crypto.Primitives.{Primitives}
use radio_mesh.PacketRouter.Outcome.{final, final-IsSigned, routed, route_packet-sent}
use radio_mesh.PacketRouter.Tracking.{final-InRange}
use radio_mesh.Device.{Device, World, origin, send_data, data_packet, route, can_send_message}

append_nil : (xs : List (List ℕ)) → xs ++ [] ≡ xs
append_nil [] = refl
append_nil (x ∷ xs) = ap (◌∷◌ x) (append_nil xs)

module _ (prim : Primitives) {State : Type 0} (w : World) (topic : ℕ) (bytes : List ℕ)
    (target : DeviceId) (d : Device State) where
  -- The packet that goes out, with its MIC.
  abbrev pub outgoing : Packet
  outgoing = final prim (origin prim d) w.now (data_packet prim w topic bytes target d) d.router

  counted : (data_packet prim w topic bytes target d).fcounter < u32_mod
  unfolding data_packet
  counted = omega arith

  -- What routePacket is given, and what it makes of the fields.
  fields :
      (outgoing.topic ≡ topic)
      × (outgoing.fcounter ≡ (d.packet_counter + 1) % u32_mod)
      × (outgoing.hop_count ≡ 1)
      × (outgoing.last_hop_id ≡ d.id)
      × (outgoing.source_dev_id ≡ d.id)
      × (outgoing.dest_dev_id ≡ target)
  unfolding data_packet
  fields =
      let s =
        final-IsSigned prim (origin prim d) w.now (data_packet prim w topic bytes target d)
          d.router in
      (s.topic, s.fcounter, s.hop_count, s.last_hop, s.source, s.dest)

  -- What goes to the radio if sendData gets to routePacket.
  guarded :
      ((send_data prim w topic bytes target d).1.sent ≡ d.sent)
      ⊎ (((is_hub d.controller.device_type ≡ true)
            ⊎ (is_inclusion_topic topic ≡ true)
            ⊎ (is_included d.controller.state ≡ true))
          × (length bytes ≤ max_data_length)
          × ((send_data prim w topic bytes target d).1.packet_counter
              ≡ (d.packet_counter + 1) % u32_mod)
          × ((send_data prim w topic bytes target d).1.sent
              ≡ d.sent
                ++ (routed prim
                    (origin prim d)
                    w.now
                    (data_packet prim w topic bytes target d)
                    d.router
                    w.status).sent))
  unfolding send_data route can_send_message
  guarded = ground arith

  -- sendData hands nothing to the radio, or one buffer. Then the device is a hub, or included, or the
  -- topic is one of the inclusion, the payload fits, and the buffer reads back as a packet of the
  -- topic from this device to the target, one hop old, with the successor, on 32 bits, of the frame
  -- counter, which the device then keeps.
  pub send_data_guarded :
      ((send_data prim w topic bytes target d).1.sent ≡ d.sent)
      ⊎ (((is_hub d.controller.device_type ≡ true)
            ⊎ (is_inclusion_topic topic ≡ true)
            ⊎ (is_included d.controller.state ≡ true))
          × (length bytes ≤ max_data_length)
          × ((send_data prim w topic bytes target d).1.sent
              ≡ d.sent ++ (to_byte_buffer outgoing ∷ []))
          × (from_byte_buffer (to_byte_buffer outgoing) ≡ some outgoing)
          × (outgoing.topic ≡ topic)
          × (outgoing.fcounter ≡ (d.packet_counter + 1) % u32_mod)
          × ((send_data prim w topic bytes target d).1.packet_counter
              ≡ (d.packet_counter + 1) % u32_mod)
          × (outgoing.hop_count ≡ 1)
          × (outgoing.last_hop_id ≡ d.id)
          × (outgoing.source_dev_id ≡ d.id)
          × (outgoing.dest_dev_id ≡ target))
  send_data_guarded = elim guarded [
    | inl same ↦ inl same
    | inr (allowed, fits, counter, sent) ↦
        elim (route_packet-sent prim (origin prim d) w.now (data_packet prim w topic bytes target d)
          d.router w.status) [
            | inl nothing ↦ inl (sent ∙ ap (λ x. d.sent ++ x) nothing ∙ append_nil d.sent)
            | inr (near, ok, one) ↦ inr (
              allowed,
              fits,
              sent ∙ ap (λ x. d.sent ++ x) one,
              from_byte_buffer-to_byte_buffer outgoing (
                  final-InRange prim (origin prim d) w.now (data_packet prim w topic bytes target d)
                    d.router w.status counted),
              fields.0,
              fields.1,
              counter,
              fields.2,
              fields.3,
              fields.4,
              fields.5,
            )
          ]
  ]
