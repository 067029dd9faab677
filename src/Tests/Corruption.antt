-- ===== src/Tests/Corruption.antt =====
-- A corrupted packet, the rounds of a cipher and a lost connection at concrete inputs.
use radio_mesh.Base.{ℕ, suc, ◌≡◌, refl, true, false, some, List, [], ◌∷◌, replicate, arith, ==_refl}
use radio_mesh.Codes.{e_none}
use radio_mesh.Packet.{Packet, data_without_mic, has_mic}
use radio_mesh.PacketRouter.{payload_crc}
use radio_mesh.Reception.{is_received_data_crc_valid}
use radio_mesh.Reception.Corruption.{is_received_data_crc_valid-one_byte}
use radio_mesh.Crypto.Aes.{block_loop}
use radio_mesh.Crypto.Aes.Rounds.{each_block, block_loop-terminates}
use radio_mesh.Wifi.{
  WifiParams, WifiConnector, WifiAnswers, connect, connect_to, reconnect, ssid_available, is_among,
  good,
}
use radio_mesh.Wifi.Connector.{reconnect-failed_connect}
use radio_mesh.Tests.Samples.{reading, swap}

abbrev intact : Packet
intact = record reading { packet_crc = payload_crc 5 (21 ∷ 22 ∷ 23 ∷ []) }

abbrev corrupted : Packet
corrupted = record intact { packet_data = 21 ∷ 254 ∷ 23 ∷ [] }

intact_lem : is_received_data_crc_valid intact ≡ true
unfolding is_received_data_crc_valid data_without_mic has_mic
intact_lem = ==_refl (payload_crc 5 (21 ∷ 22 ∷ 23 ∷ []))

is_received_data_crc_valid-one_byte_example : is_received_data_crc_valid corrupted ≡ false
unfolding data_without_mic has_mic
is_received_data_crc_valid-one_byte_example =
    is_received_data_crc_valid-one_byte intact corrupted (21 ∷ []) (23 ∷ []) 22 254 (omega arith)
      (omega arith) (omega arith) refl refl refl refl intact_lem

abbrev exchange : ℕ → List ℕ → List ℕ × ℕ
exchange s block = (swap block, suc s)

block_loop-terminates_example :
    (block_loop exchange 5 0 (replicate 33 7) ≡ each_block exchange 3 0 0 (replicate 33 7))
    × (block_loop exchange 33 0 (replicate 33 7) ≡ each_block exchange 3 0 0 (replicate 33 7))
block_loop-terminates_example = block_loop-terminates exchange 5 0 (replicate 33 7) (omega arith)

abbrev at_home : WifiConnector
at_home = record {
  params = record { ssid = b'h' ∷ []; password = b'p' ∷ [] };
  connected = true;
  ip_address = [];
  mac_address = [];
  signal_indicator = good;
}

abbrev elsewhere : WifiParams
elsewhere = record { ssid = b'x' ∷ []; password = b'y' ∷ [] }

abbrev refusing : WifiAnswers
refusing = record {
  networks = some ((b'x' ∷ []) ∷ []);
  is_connected = false;
  local_ip = [];
  mac = [];
}

reconnect-failed_connect_example :
    ((connect elsewhere refusing at_home).1 ≡ at_home)
    × (reconnect refusing (connect elsewhere refusing at_home).1 ≡ (e_none, at_home))
unfolding connect connect_to ssid_available is_among
reconnect-failed_connect_example =
    reconnect-failed_connect elsewhere refusing refusing at_home refl
      (refl, refl, omega arith, omega arith) refl
