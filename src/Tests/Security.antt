-- ===== src/Tests/Security.antt =====
-- Encryption, authentication and routing of packets at concrete inputs, over the sample cryptography.
use radio_mesh.Base.{
  ℕ, ◌+◌, ◌<◌, List, [], ◌∷◌, ◌++◌, length, is_empty, ◌≡◌, ◌≢◌, ◌↔◌, ◌⊎◌, refl, arith, true, false,
  some, replicate,
}
use radio_mesh.Codes.{e_none}
use radio_mesh.Types.{standard, included}
use radio_mesh.Packet.{Packet, header_bytes, to_byte_buffer, from_byte_buffer}
use radio_mesh.Packet.Mic.{CarriesMic}
use radio_mesh.Crypto.Aes.{SecurityParams}
use radio_mesh.Crypto.Cmac.{compute_mic, verify_mic}
use radio_mesh.Crypto.Cmac.Verify.{verify_mic_iff}
use radio_mesh.Crypto.Service.{
  new_service, encrypt_payload, decrypt_payload, get_encryption_key, determine_crypto_method,
}
use radio_mesh.Crypto.Service.Keys.{Paired, by_network_key}
use radio_mesh.Crypto.Service.RoundTrip.{decrypt_payload-encrypt_payload}
use radio_mesh.Crypto.MicService.{compute_packet_mic, get_mic_key}
use radio_mesh.Crypto.MicService.Agreement.{
  verify_packet_mic-compute_packet_mic, verify_packet_mic_sound,
}
use radio_mesh.LoraRadio.{transmitted}
use radio_mesh.RoutingTable.{no_route, max_hops}
use radio_mesh.PacketTracker.Invariant.{new_tracker-IsLinked}
use radio_mesh.PacketTracker.Recency.{add_all}
use radio_mesh.PacketRouter.{Router, Origin, new_router, is_packet_found_in_tracker}
use radio_mesh.PacketRouter.Outcome.{final, routed}
use radio_mesh.PacketRouter.Tracking.{is_packet_found_in_tracker-route_packet, route_packet_hops}
use radio_mesh.PacketRouter.Secrecy.{route_packet_secrecy}
use radio_mesh.Reception.{is_received_data_crc_valid, verify_and_strip_mic}
use radio_mesh.Reception.Delivery.{delivery}
use radio_mesh.Tests.Samples.{
  toy, toy-IsLawful, network_key, service, reading, sensor, base, id_one,
}

abbrev params : SecurityParams
params = record { key = network_key; iv = replicate 16 0 }

abbrev payload : List ℕ
payload = 21 ∷ 22 ∷ 23 ∷ []

abbrev claimed_mic : List ℕ
claimed_mic = 1 ∷ 2 ∷ 3 ∷ 4 ∷ []

verify_mic_iff_example :
    (verify_mic toy network_key payload claimed_mic ≡ true)
    ↔ ((length claimed_mic ≡ 4) × (compute_mic toy network_key payload ≡ claimed_mic))
verify_mic_iff_example = verify_mic_iff toy network_key payload claimed_mic

link : Paired toy 16 sensor base
unfolding determine_crypto_method
link = by_network_key refl refl refl refl

reading-CarriesMic : CarriesMic 16
reading-CarriesMic = record {
  ne_open = λ e. absurd (omega arith);
  ne_request = λ e. absurd (omega arith);
}

decrypt_payload-encrypt_payload_example :
    (decrypt_payload toy
      (encrypt_payload toy payload 16 sensor.device_type sensor.state sensor.service params).0
      16
      base.device_type
      base.state
      base.service
      params).0
    ≡ payload
decrypt_payload-encrypt_payload_example =
    decrypt_payload-encrypt_payload toy toy-IsLawful 16 sensor base payload params params link

abbrev reading_mic : List ℕ
reading_mic =
    compute_packet_mic toy (header_bytes reading) payload 16 sensor.device_type sensor.state
      (some sensor.service)

verify_packet_mic_sound_example :
    (length reading_mic ≡ 4)
    × (is_empty (get_mic_key toy 16 base.device_type base.state (some base.service)) ≡ false)
    × (compute_mic toy
          (get_mic_key toy 16 base.device_type base.state (some base.service))
          (header_bytes reading ++ payload)
        ≡ reading_mic)
verify_packet_mic_sound_example =
    verify_packet_mic_sound toy toy-IsLawful (header_bytes reading) payload reading_mic 16 base
      reading-CarriesMic
      (verify_packet_mic-compute_packet_mic toy toy-IsLawful 16 sensor base (header_bytes reading)
        payload link).1

abbrev origin : Origin
origin = record {
  device_id = id_one;
  device_type = standard;
  inclusion_state = included;
  service = service;
}

abbrev keyless : Origin
keyless = record {
  device_id = id_one;
  device_type = standard;
  inclusion_state = included;
  service = new_service;
}

abbrev router : Router
router = record (new_router (no_route ∷ no_route ∷ []) params) {
  encryption_set = true;
  mic_set = true;
}

delivery_example :
    ((routed toy origin 1000 reading router transmitted).code ≡ e_none)
    × ((routed toy origin 1000 reading router transmitted).sent
        ≡ to_byte_buffer (final toy origin 1000 reading router) ∷ [])
    × (from_byte_buffer (to_byte_buffer (final toy origin 1000 reading router))
        ≡ some (final toy origin 1000 reading router))
    × (is_received_data_crc_valid (final toy origin 1000 reading router) ≡ true)
    × ((verify_and_strip_mic toy base.device_type base.state base.service
          (final toy origin 1000 reading router)).0
        ≡ true)
    × ((decrypt_payload toy
          (verify_and_strip_mic toy base.device_type base.state base.service
            (final toy origin 1000 reading router)).1.packet_data
          16
          base.device_type
          base.state
          base.service
          params).0
        ≡ payload)
delivery_example =
    delivery toy toy-IsLawful origin base 1000 reading router link refl refl (omega arith)
      (omega arith) (omega arith) params

abbrev echo : Packet
echo = record reading { packet_crc = (final toy origin 1000 reading router).packet_crc }

is_packet_found_in_tracker-route_packet_example :
    ((routed toy origin 1000 reading router transmitted).sent
      ≡ to_byte_buffer (final toy origin 1000 reading router) ∷ [])
    × (from_byte_buffer (to_byte_buffer (final toy origin 1000 reading router))
        ≡ some (final toy origin 1000 reading router))
    × ((final toy origin 1000 reading router).packet_id ≡ reading.packet_id)
    × ((is_packet_found_in_tracker echo
          (record (routed toy origin 1000 reading router transmitted).router {
            tracker =
                add_all
                  ((77, 5) ∷ [])
                  (routed toy origin 1000 reading router transmitted).router.tracker;
          })).0
        ≡ true)
is_packet_found_in_tracker-route_packet_example =
    is_packet_found_in_tracker-route_packet toy origin 1000 reading router transmitted echo
      ((77, 5) ∷ []) (new_tracker-IsLinked 50 (omega arith)) (omega arith)
      (delivery toy toy-IsLawful origin base 1000 reading router link refl refl (omega arith)
        (omega arith) (omega arith) params).0
      refl refl (λ e. absurd (omega arith), tt) (omega arith)

route_packet_hops_example :
    ((routed toy origin 1000 reading router transmitted).sent ≡ [])
    ⊎ ((reading.hop_count < max_hops)
        × ((routed toy origin 1000 reading router transmitted).sent
            ≡ to_byte_buffer (final toy origin 1000 reading router) ∷ [])
        × ((final toy origin 1000 reading router).hop_count ≡ reading.hop_count + 1)
        × ((final toy origin 1000 reading router).last_hop_id ≡ id_one))
route_packet_hops_example = route_packet_hops toy origin 1000 reading router transmitted

route_packet_secrecy_example :
    ((routed toy keyless 1000 reading router transmitted).sent ≡ [])
    × ((routed toy keyless 1000 reading router transmitted).code ≢ e_none)
unfolding get_encryption_key determine_crypto_method
route_packet_secrecy_example =
    route_packet_secrecy toy keyless 1000 reading router transmitted reading-CarriesMic
      (λ e. absurd (omega arith)) refl
