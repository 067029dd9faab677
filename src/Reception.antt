-- ===== src/Reception.antt =====
-- The checks that framework/device/src/Device.cpp makes of a received packet: isReceivedDataCrcValid and
-- verifyAndStripReceivedPacketMIC.
pub mod Delivery
pub mod Corruption
use radio_mesh.Base.{ℕ, Bool, true, false, not, ◌||◌, some, List, ◌==◌, if◌then◌else◌}
use radio_mesh.Types.{MeshDeviceType, DeviceInclusionState, include_open, include_request}
use radio_mesh.Packet.{Packet, has_mic, extract_mic, data_without_mic, header_bytes}
use radio_mesh.Crypto.Primitives.{Primitives}
use radio_mesh.Crypto.Service.{EncryptionService}
use radio_mesh.Crypto.MicService.{verify_packet_mic}
use radio_mesh.PacketRouter.{payload_crc}

-- isReceivedDataCrcValid
unfoldable pub is_received_data_crc_valid : Packet → Bool
is_received_data_crc_valid p = payload_crc p.fcounter (data_without_mic p) == p.packet_crc

-- verifyAndStripReceivedPacketMIC: the verdict, and the packet, which loses its MIC if that is good.
unfoldable pub verify_and_strip_mic :
    Primitives → MeshDeviceType → DeviceInclusionState → EncryptionService → Packet → Bool × Packet
verify_and_strip_mic prim device_type state s p =
    if p.topic == include_open || p.topic == include_request
    then (true, p)
    else if not (has_mic p)
    then (false, p)
    else if not (
        verify_packet_mic prim (header_bytes p) (data_without_mic p) (extract_mic p) p.topic
          device_type state (some s))
    then (false, p)
    else (true, record p { packet_data = data_without_mic p })
