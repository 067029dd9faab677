-- ===== src/Crypto/Service/Keys.antt =====
-- The keys of two devices that talk on a topic: when the receiver can read what the sender wrote.
use radio_mesh.Base.{ℕ, ◌≡◌, none, some, List, length}
use radio_mesh.Types.{MeshDeviceType, hub, standard, DeviceInclusionState, include_response}
use radio_mesh.Crypto.Primitives.{Primitives}
use radio_mesh.Crypto.Service.{EncryptionService, aes, determine_crypto_method}

-- One end of a link.
pub record End : Type 0 where
  pub device_type : MeshDeviceType
  pub state : DeviceInclusionState
  pub service : EncryptionService

-- Either both ends use the network key on the topic and hold the same one, or the topic is
-- INCLUDE_RESPONSE, from a hub to a standard device, and each end holds the other's public key.
pub data Paired (prim : Primitives) (topic : ℕ) (sender receiver : End) : Type 0 where
  by_network_key :
      determine_crypto_method topic sender.device_type sender.state ≡ aes
      → determine_crypto_method topic receiver.device_type receiver.state ≡ aes
      → sender.service.network_key ≡ receiver.service.network_key
      → length sender.service.network_key ≡ 32
      → Paired prim topic sender receiver
  by_exchange :
      (secret : List ℕ)
      → topic ≡ include_response
      → sender.device_type ≡ hub
      → receiver.device_type ≡ standard
      → length sender.service.device_private_key ≡ 32
      → length sender.service.temp_device_public_key ≡ 32
      → length receiver.service.device_private_key ≡ 32
      → length receiver.service.hub_public_key ≡ 32
      → prim.curve_eval sender.service.device_private_key none
        ≡ some receiver.service.hub_public_key
      → prim.curve_eval receiver.service.device_private_key none
        ≡ some sender.service.temp_device_public_key
      → prim.curve_eval sender.service.device_private_key
          (some sender.service.temp_device_public_key)
        ≡ some secret
      → Paired prim topic sender receiver
