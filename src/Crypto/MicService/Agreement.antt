-- ===== src/Crypto/MicService/Agreement.antt =====
-- The MICs of MicService: the two ends of a pair derive the same key, so that the receiver accepts
-- what the sender computes; and a MIC that is accepted is the one that the receiver would compute.
use radio_mesh.Base.{
  ℕ, ◌≡◌, refl, sym, ◌∙◌, true, false, inr, some, List, ◌++◌, length, is_empty, arith,
}
use radio_mesh.Types.{MeshDeviceType, hub, standard, include_response}
use radio_mesh.Packet.Mic.{CarriesMic}
use radio_mesh.Crypto.Primitives.{Primitives, IsLawful}
use radio_mesh.Crypto.Cmac.{compute_mic, verify_mic}
use radio_mesh.Crypto.Cmac.Length.{length-compute_mic}
use radio_mesh.Crypto.Cmac.Verify.{verify_mic_iff}
use radio_mesh.Crypto.Service.{EncryptionService, aes, determine_crypto_method}
use radio_mesh.Crypto.Service.RoundTrip.{nonempty_of_length}
use radio_mesh.Crypto.Service.Keys.{End, Paired, by_network_key, by_exchange}
use radio_mesh.Crypto.MicService.{
  requires_mic, ecies_mac_key, ecies_public_key, get_mic_key, compute_packet_mic, verify_packet_mic,
}

requires_mic_of : (topic : ℕ) → CarriesMic topic → requires_mic topic ≡ true
unfolding requires_mic
requires_mic_of topic c = ground (arith, c.ne_open, c.ne_request)

-- Where the method is AES, the MIC key is the network key.
pub get_mic_key-network :
    (prim : Primitives) (topic : ℕ) (end : End)
    → determine_crypto_method topic end.device_type end.state ≡ aes
    → get_mic_key prim topic end.device_type end.state (some end.service) ≡ end.service.network_key
unfolding determine_crypto_method get_mic_key
get_mic_key-network prim topic end h = ground arith

pub Paired-CarriesMic :
    (prim : Primitives) (topic : ℕ) (sender receiver : End)
    → Paired prim topic sender receiver
    → CarriesMic topic
unfolding determine_crypto_method
Paired-CarriesMic prim topic sender receiver (by_network_key s r same size) = ground arith
Paired-CarriesMic prim topic sender receiver (by_exchange secret t h st a b c d e f g) = omega arith

hub_public_key :
    (s : EncryptionService) → ecies_public_key include_response hub s ≡ s.temp_device_public_key
unfolding ecies_public_key
hub_public_key s = refl

standard_public_key :
    (s : EncryptionService) → ecies_public_key include_response standard s ≡ s.hub_public_key
unfolding ecies_public_key
standard_public_key s = refl

module _ (prim : Primitives) (law : IsLawful prim) where
  ecies_mac_key_eq :
      (d : MeshDeviceType) (s : EncryptionService) (public_key secret : List ℕ)
      → ecies_public_key include_response d s ≡ public_key
      → length s.device_private_key ≡ 32
      → length public_key ≡ 32
      → prim.curve_eval s.device_private_key (some public_key) ≡ some secret
      → ecies_mac_key prim include_response d s ≡ prim.sha256 secret
  unfolding ecies_mac_key
  ecies_mac_key_eq d s public_key secret k a b e =
      rw (k, nonempty_of_length s.device_private_key a, nonempty_of_length public_key b, a, b, e)

  module _ (topic : ℕ) (sender receiver : End) where
    abbrev sender_key : List ℕ
    sender_key = get_mic_key prim topic sender.device_type sender.state (some sender.service)

    abbrev receiver_key : List ℕ
    receiver_key =
        get_mic_key prim topic receiver.device_type receiver.state (some receiver.service)

    -- The two ends of a pair derive the same MIC key, and it has 32 bytes.
    pub get_mic_key_agree :
        Paired prim topic sender receiver → (sender_key ≡ receiver_key) × (length sender_key ≡ 32)
    unfolding get_mic_key
    get_mic_key_agree (by_network_key s r same size) =
        rw (get_mic_key-network prim topic sender s, get_mic_key-network prim topic receiver r)
          (same, size)
    get_mic_key_agree (by_exchange secret t h st a b c d e f g) =
        let same =
          law.exchange sender.service.device_private_key receiver.service.device_private_key
            receiver.service.hub_public_key sender.service.temp_device_public_key e f in
        rw
          (
            t,
            h,
            st,
            ecies_mac_key_eq hub sender.service sender.service.temp_device_public_key secret
                (hub_public_key sender.service) a b g,
            ecies_mac_key_eq standard receiver.service receiver.service.hub_public_key secret
                (standard_public_key receiver.service) c d (sym same ∙ g),
          )
          (refl, law.digest_length secret)

    module _ (header payload : List ℕ) where
      -- The sender of a pair gets a MIC of four bytes, and the receiver accepts it over the same header
      -- and payload.
      pub verify_packet_mic-compute_packet_mic :
          Paired prim topic sender receiver
          → (length (
                compute_packet_mic prim header payload topic sender.device_type sender.state
                  (some sender.service))
              ≡ 4)
            × (verify_packet_mic prim header payload
                  (compute_packet_mic prim header payload topic sender.device_type sender.state
                    (some sender.service))
                  topic
                  receiver.device_type
                  receiver.state
                  (some receiver.service)
                ≡ true)
      unfolding compute_packet_mic verify_packet_mic
      verify_packet_mic-compute_packet_mic pair =
          let agree = get_mic_key_agree pair in
          let size =
            length-compute_mic prim law receiver_key (inr (rw (← agree.0) agree.1))
              (header ++ payload) in
          rw
            (
              requires_mic_of topic (Paired-CarriesMic prim topic sender receiver pair),
              agree.0,
              nonempty_of_length receiver_key (rw (← agree.0) agree.1),
              size,
            )
            (
              size,
              rw size (
                  (verify_mic_iff prim receiver_key (header ++ payload)
                      (compute_mic prim receiver_key (header ++ payload))).1
                    (size, refl)),
            )

  -- On a topic with a MIC, verifyPacketMIC accepts only the four bytes of the CMAC, under the receiver's
  -- own key, over the header and the payload.
  pub verify_packet_mic_sound :
      (header payload mic : List ℕ) (topic : ℕ) (receiver : End)
      → CarriesMic topic
      → verify_packet_mic prim header payload mic topic receiver.device_type receiver.state
          (some receiver.service)
        ≡ true
      → (length mic ≡ 4)
        × (is_empty (receiver_key topic receiver receiver) ≡ false)
        × (compute_mic prim (receiver_key topic receiver receiver) (header ++ payload) ≡ mic)
  unfolding verify_packet_mic
  verify_packet_mic_sound header payload mic topic receiver c h =
      let valid : verify_mic prim (receiver_key topic receiver receiver) (header ++ payload) mic
          ≡ true =
        ground (arith, requires_mic_of topic c) in
      let same =
        (verify_mic_iff prim (receiver_key topic receiver receiver) (header ++ payload) mic).0
          valid in
      (same.0, ground (arith, requires_mic_of topic c), same.1)
