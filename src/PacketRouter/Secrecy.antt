-- ===== src/PacketRouter/Secrecy.antt =====
-- encrypt returns the data as it came when it has no key. routePacket does not send such a packet,
-- since the MIC key is then missing too.
use radio_mesh.Base.{ℕ, ◌≡◌, ◌≢◌, true, List, [], ◌∷◌, arith, inl, inr, is_empty, some}
use radio_mesh.Codes.{e_none}
use radio_mesh.Types.{include_response, MeshDeviceType, is_hub, DeviceInclusionState}
use radio_mesh.Packet.{Packet, header_bytes, to_byte_buffer}
use radio_mesh.Packet.Mic.{CarriesMic}
use radio_mesh.Crypto.Primitives.{Primitives}
use radio_mesh.Crypto.Service.{EncryptionService, determine_crypto_method, get_encryption_key}
use radio_mesh.Crypto.MicService.{get_mic_key, ecies_mac_key, ecies_public_key, compute_packet_mic}
use radio_mesh.LoraRadio.{TransmitStatus}
use radio_mesh.PacketRouter.{Router, Origin, compute_and_append_mic, prepare}
use radio_mesh.PacketRouter.Steps.{ready, prepare-IsPrepared}
use radio_mesh.PacketRouter.Outcome.{signed, final, routed, route_packet-sent, route_packet-e_none}

-- Without a key for the encryption there is none for the MIC: on every topic with a MIC, where
-- INCLUDE_RESPONSE is the hub's.
no_mic_key :
    (prim : Primitives) (topic : ℕ) (d : MeshDeviceType) (st : DeviceInclusionState)
    (s : EncryptionService)
    → CarriesMic topic
    → (topic ≡ include_response → is_hub d ≡ true)
    → is_empty (get_encryption_key (determine_crypto_method topic d st) topic s) ≡ true
    → is_empty (get_mic_key prim topic d st (some s)) ≡ true
unfolding get_mic_key get_encryption_key determine_crypto_method ecies_mac_key ecies_public_key
no_mic_key prim topic d st s c response h = ground (arith, c.ne_open, c.ne_request, response)

-- No MIC key, no MIC.
no_mic :
    (prim : Primitives) (header payload : List ℕ) (topic : ℕ) (d : MeshDeviceType)
    (st : DeviceInclusionState) (s : EncryptionService)
    → is_empty (get_mic_key prim topic d st (some s)) ≡ true
    → compute_packet_mic prim header payload topic d st (some s) ≡ []
unfolding compute_packet_mic
no_mic prim header payload topic d st s h = ground arith

unsigned :
    (prim : Primitives) (o : Origin) (p : Packet) (r : Router)
    → CarriesMic p.topic
    → compute_packet_mic prim
        (header_bytes p)
        p.packet_data
        p.topic
        o.device_type
        o.inclusion_state
        (some o.service)
      ≡ []
    → (compute_and_append_mic prim o p r).0 ≢ e_none
unfolding compute_and_append_mic
unsigned prim o p r c h = ground (arith, c.ne_open, c.ne_request)

module _ (prim : Primitives) (o : Origin) (now : ℕ) (packet : Packet) (r : Router)
    (status : TransmitStatus) where
  -- On every topic but INCLUDE_OPEN and INCLUDE_REQUEST (INCLUDE_RESPONSE from a hub only), when
  -- getEncryptionKey has no key for the packet, so that its payload would go out in the clear,
  -- routePacket hands nothing to the radio, and fails.
  pub route_packet_secrecy :
      CarriesMic packet.topic
      → (packet.topic ≡ include_response → is_hub o.device_type ≡ true)
      → is_empty (
          get_encryption_key
            (determine_crypto_method packet.topic o.device_type o.inclusion_state)
            packet.topic
            o.service)
        ≡ true
      → ((routed prim o now packet r status).sent ≡ [])
        × ((routed prim o now packet r status).code ≢ e_none)
  route_packet_secrecy c response h =
      let topic = (prepare-IsPrepared prim o now packet r).topic in
      let p = ready prim o now packet r in
      let failed : (signed prim o now packet r).0 ≢ e_none =
        unsigned prim o p (prepare prim o now packet r).1 (rw topic c) (
          rw topic (
            no_mic prim (header_bytes p) p.packet_data packet.topic o.device_type o.inclusion_state
              o.service
              (no_mic_key prim packet.topic o.device_type o.inclusion_state o.service c response
                h))) in
      (nothing failed, λ ok. not_sent failed (route_packet-e_none prim o now packet r status ok).1)
    where
      nothing :
          (signed prim o now packet r).0 ≢ e_none → (routed prim o now packet r status).sent ≡ []
      nothing failed = elim (route_packet-sent prim o now packet r status) [
        | inl n ↦ n
        | inr (near, ok, sent) ↦ absurd (failed ok)
      ]

      not_sent :
          (signed prim o now packet r).0 ≢ e_none
          → (routed prim o now packet r status).sent
            ≡ to_byte_buffer (final prim o now packet r) ∷ []
          → ⊥
      not_sent failed sent = cc (nothing failed, sent)
