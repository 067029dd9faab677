-- ===== src/Device/Receive/Gate.antt =====
-- What gets past the checks of handleReceivedData.
use radio_mesh.Base.{◌++◌, length, ◌≡◌, ◌⊎◌, inl, inr, true, false, some, arith, Bool-cases, ◌==◌}
use radio_mesh.Base.Int.{ℤ}
use radio_mesh.Types.{include_open, include_request, MeshDeviceType, DeviceInclusionState}
use radio_mesh.Packet.{Packet, has_mic, extract_mic, data_without_mic, header_bytes}
use radio_mesh.Packet.Mic.{CarriesMic}
use radio_mesh.Crypto.Primitives.{Primitives, IsLawful}
use radio_mesh.Crypto.Cmac.{compute_mic}
use radio_mesh.Crypto.Service.{EncryptionService}
use radio_mesh.Crypto.Service.Keys.{End}
use radio_mesh.Crypto.MicService.{verify_packet_mic, get_mic_key}
use radio_mesh.Crypto.MicService.Agreement.{verify_packet_mic_sound}
use radio_mesh.PacketRouter.{is_packet_found_in_tracker}
use radio_mesh.Reception.{is_received_data_crc_valid, verify_and_strip_mic}
use radio_mesh.Storage.{ByteStorage}
use radio_mesh.Device.{Device, World}
use radio_mesh.Device.Receive.{handle_packet}

-- A packet that verifyAndStripReceivedPacketMIC accepts is on one of the two topics without a MIC, or its
-- MIC is accepted.
accepted_mic :
    (prim : Primitives) (k : MeshDeviceType) (st : DeviceInclusionState) (s : EncryptionService)
    (p : Packet)
    → (verify_and_strip_mic prim k st s p).0 ≡ true
    → ((p.topic ≡ include_open) ⊎ (p.topic ≡ include_request))
      ⊎ (CarriesMic p.topic
          × (has_mic p ≡ true)
          × (verify_packet_mic prim
                (header_bytes p)
                (data_without_mic p)
                (extract_mic p)
                p.topic
                k
                st
                (some s)
              ≡ true))
unfolding verify_and_strip_mic
accepted_mic prim k st s p h = elim (Bool-cases (p.topic == include_open)) [
  | inl o ↦ inl (inl (ground (arith, o)))
  | inr not_open ↦ elim (Bool-cases (p.topic == include_request)) [
    | inl r ↦ inl (inr (ground (arith, r)))
    | inr not_request ↦
        let carries : CarriesMic p.topic = record {
          ne_open = ground (arith, not_open);
          ne_request = ground (arith, not_request);
        } in
        inr (
          carries,
          ground (arith, h, not_open, not_request),
          ground (arith, h, not_open, not_request),
        )
  ]
]

module _ (prim : Primitives) (law : IsLawful prim) (store : ByteStorage) (w : World) (rssi : ℤ)
    (p : Packet) (d : Device store.State) where
  passed :
      ((handle_packet prim store w rssi p d).1
        ≡ record d { router = (is_packet_found_in_tracker p d.router).1 })
      ⊎ (((is_packet_found_in_tracker p d.router).0 ≡ false)
          × (is_received_data_crc_valid p ≡ true)
          × ((verify_and_strip_mic prim d.device_type d.controller.state d.service p).0 ≡ true))
  unfolding handle_packet
  passed = ground arith

  -- A received packet changes nothing but the order of the tracker, unless it is new, its CRC is right, and
  -- it is on INCLUDE_OPEN or INCLUDE_REQUEST or ends in the four bytes of the CMAC, under the device's
  -- own key for the topic, over its header and the rest of its payload.
  pub handle_packet_gate :
      ((handle_packet prim store w rssi p d).1
        ≡ record d { router = (is_packet_found_in_tracker p d.router).1 })
      ⊎ (((is_packet_found_in_tracker p d.router).0 ≡ false)
          × (is_received_data_crc_valid p ≡ true)
          × (((p.topic ≡ include_open) ⊎ (p.topic ≡ include_request))
              ⊎ ((has_mic p ≡ true)
                  × (length (extract_mic p) ≡ 4)
                  × (compute_mic prim
                        (get_mic_key prim p.topic d.device_type d.controller.state (some d.service))
                        (header_bytes p ++ data_without_mic p)
                      ≡ extract_mic p))))
  handle_packet_gate = elim passed [
    | inl same ↦ inl same
    | inr (new, crc, ok) ↦ inr (
      new,
      crc,
      elim (accepted_mic prim d.device_type d.controller.state d.service p ok) [
        | inl exempt ↦ inl exempt
        | inr (carries, has, good) ↦
            let device : End = record {
              device_type = d.device_type;
              state = d.controller.state;
              service = d.service;
            } in
            let sound =
              verify_packet_mic_sound prim law (header_bytes p) (data_without_mic p) (extract_mic p)
                p.topic device carries good in
            inr (has, sound.0, sound.2)
      ],
    )
  ]
