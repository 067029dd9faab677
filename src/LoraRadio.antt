-- ===== src/LoraRadio.antt =====
-- hardware/src/radio/LoraRadio.cpp: the codes that a transmission gives. The radio itself is RadioLib,
-- whose result is an input.
pub mod Driver
pub mod SetUp
pub mod Flags
use radio_mesh.Codes.{ReturnCode, e_none, e_packet_too_long, e_radio_tx_timeout, e_radio_tx}

-- What `radio->startTransmit` returns: RADIOLIB_ERR_NONE, _PACKET_TOO_LONG, _TX_TIMEOUT or another.
pub data TransmitStatus : Type 0 where
  transmitted packet_too_long tx_timeout other_error : TransmitStatus

-- startTransmitPacket and sendPacket
unfoldable pub send_code : TransmitStatus → ReturnCode
send_code transmitted = e_none
send_code packet_too_long = e_packet_too_long
send_code tx_timeout = e_radio_tx_timeout
send_code other_error = e_radio_tx
