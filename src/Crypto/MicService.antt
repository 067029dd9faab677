-- ===== src/Crypto/MicService.antt =====
-- core/protocol/inc/crypto/MicService.h and src/crypto/MicService.cpp: the MIC of a packet, by topic.
-- The service holds a pointer to an EncryptionService, which may be null: `none`.
pub mod Agreement
use radio_mesh.Base.{
  ℕ, ◌-◌, Bool, true, false, not, ◌||◌, ◌&&◌, Option, none, some, List, [], ◌++◌, length, take,
  drop, is_empty, ltb, ◌==◌, ◌!=◌, if◌then◌else◌,
}
use radio_mesh.Types.{
  MeshDeviceType, DeviceInclusionState, is_hub, is_included, include_open, include_request,
  include_response, include_confirm, include_success,
}
use radio_mesh.Crypto.Primitives.{Primitives}
use radio_mesh.Crypto.Cmac.{compute_mic, verify_mic}
use radio_mesh.Crypto.Service.{EncryptionService}

-- requiresMIC
unfoldable pub requires_mic : ℕ → Bool
requires_mic topic = topic != include_open && topic != include_request

-- extractMIC of a payload
unfoldable pub extract_mic : List ℕ → List ℕ
extract_mic payload = if ltb (length payload) 4 then [] else drop (length payload - 4) payload

-- getPayloadWithoutMIC
unfoldable pub payload_without_mic : List ℕ → List ℕ
payload_without_mic payload =
    if ltb (length payload) 4 then payload else take (length payload - 4) payload

-- appendMIC to a payload
unfoldable pub append_mic : List ℕ → List ℕ → List ℕ
append_mic payload mic = if length mic != 4 then payload else payload ++ mic

-- The private key of getECIESMacKey, and the public key of the other side.
unfoldable pub ecies_public_key : ℕ → MeshDeviceType → EncryptionService → List ℕ
ecies_public_key topic device_type s =
    if topic == include_request
    then s.hub_public_key
    else if topic == include_response
    then (if is_hub device_type then s.temp_device_public_key else s.hub_public_key)
    else []

module _ (prim : Primitives) where
  -- getECIESMacKey of a service that is there
  unfoldable pub ecies_mac_key : ℕ → MeshDeviceType → EncryptionService → List ℕ
  ecies_mac_key topic device_type s =
      if topic != include_request && topic != include_response
      then []
      else if is_empty s.device_private_key || is_empty (ecies_public_key topic device_type s)
      then []
      else if length s.device_private_key != 32
          || length (ecies_public_key topic device_type s) != 32
      then []
      else elim (prim.curve_eval s.device_private_key
          (some (ecies_public_key topic device_type s))) [
            | none ↦ []
            | some shared_secret ↦ prim.sha256 shared_secret
          ]

  -- getMICKey
  unfoldable pub get_mic_key :
      ℕ → MeshDeviceType → DeviceInclusionState → Option EncryptionService → List ℕ
  get_mic_key topic device_type inclusion_state none = []
  get_mic_key topic device_type inclusion_state (some s) =
      if topic == include_open
      then []
      else if topic == include_request
      then []
      else if topic == include_response
      then ecies_mac_key topic device_type s
      else if topic == include_confirm
      then s.network_key
      else if topic == include_success
      then s.network_key
      else if is_included inclusion_state || is_hub device_type
      then s.network_key
      else []

  -- computePacketMIC
  unfoldable pub compute_packet_mic :
      List ℕ
      → List ℕ
      → ℕ
      → MeshDeviceType
      → DeviceInclusionState
      → Option EncryptionService
      → List ℕ
  compute_packet_mic header encrypted_payload topic device_type inclusion_state s =
      if not (requires_mic topic)
      then []
      else if is_empty (get_mic_key topic device_type inclusion_state s)
      then []
      else if length (
            compute_mic prim (get_mic_key topic device_type inclusion_state s)
              (header ++ encrypted_payload))
          != 4
      then []
      else compute_mic prim (get_mic_key topic device_type inclusion_state s)
          (header ++ encrypted_payload)

  -- verifyPacketMIC
  unfoldable pub verify_packet_mic :
      List ℕ
      → List ℕ
      → List ℕ
      → ℕ
      → MeshDeviceType
      → DeviceInclusionState
      → Option EncryptionService
      → Bool
  verify_packet_mic header encrypted_payload received_mic topic device_type inclusion_state s =
      if not (requires_mic topic)
      then true
      else if length received_mic != 4
      then false
      else if is_empty (get_mic_key topic device_type inclusion_state s)
      then false
      else verify_mic prim (get_mic_key topic device_type inclusion_state s)
          (header ++ encrypted_payload) received_mic
