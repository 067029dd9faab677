-- ===== src/Device/Receive.antt =====
-- framework/device/src/Device.cpp: handleReceivedData and run. The application's callback is set, and only
-- looks at what it is given.
pub mod Gate
pub mod Packets
pub mod Steps
pub mod Progress
pub mod Initialized
pub mod Restart
use mathlib.Core.Option
use radio_mesh.Base.{
  ℕ, Bool, true, false, not, ◌&&◌, ◌||◌, Option, none, some, List, [], ◌∷◌, ◌++◌, leb, ltb,
  if◌then◌else◌,
}
use radio_mesh.Base.Int.{ℤ}
use radio_mesh.Codes.{ReturnCode, e_none, error, e_packet_corrupted, e_auth_failed}
use radio_mesh.Types.{is_hub, is_standard, include_request, include_success, max_reserved}
use radio_mesh.Packet.{Packet, id_eq, from_byte_buffer}
use radio_mesh.Crypto.Primitives.{Primitives}
use radio_mesh.Crypto.Service.{decrypt_payload}
use radio_mesh.RoutingTable.{update_route}
use radio_mesh.PacketRouter.{is_packet_found_in_tracker}
use radio_mesh.Reception.{is_received_data_crc_valid, verify_and_strip_mic}
use radio_mesh.Storage.{ByteStorage}
use radio_mesh.Device.{Device, World, route}
use radio_mesh.Device.Protocol.{check_protocol_timeouts}
use radio_mesh.Device.Inclusion.{handle_inclusion_message}

-- isInclusionMessage
unfoldable pub is_inclusion_message : ℕ → Bool
is_inclusion_message topic = leb include_request topic && leb topic include_success

-- isApplicationMessage
unfoldable pub is_application_message : ℕ → Bool
is_application_message topic = ltb max_reserved topic

-- What run calls besides: onPacketSent, onPacketReceived with no packet, and startReceive of the radio
pub data RunCall : Type 0 where
  packet_sent : Packet → ReturnCode → RunCall
  receive_failed : ReturnCode → RunCall
  receive_again : RunCall

module _ (prim : Primitives) (store : ByteStorage) where
  -- The packet with its payload decrypted, and the device, whose AES parameters the decryption sets
  unfoldable pub decrypt_received : Packet → Device store.State → Packet × Device store.State
  decrypt_received p d =
      let out =
        decrypt_payload prim p.packet_data p.topic d.device_type d.controller.state d.service
          d.router.aes_params in
      (
        record p { packet_data = out.0 },
        record d { router = record d.router { aes_params = out.1 } },
      )

  unfoldable pub notify : Packet → Device store.State → Device store.State
  notify p d = record d { notified = d.notified ++ (p ∷ []) }

  -- The branch of an inclusion message
  unfoldable pub receive_inclusion :
      World → Packet → Device store.State → ReturnCode × Device store.State
  receive_inclusion w p d =
      let opened = decrypt_received p d in
      let out = handle_inclusion_message prim store w opened.0 opened.1 in
      (out.0, notify opened.0 out.1)

  -- A packet that is not for this device goes on from a standard device that relays.
  unfoldable pub relay : World → Packet → Device store.State → ReturnCode × Device store.State
  relay w p d =
      if is_hub d.device_type || id_eq p.dest_dev_id d.id
      then (e_none, d)
      else if is_standard d.device_type && d.relay_enabled
      then route prim w p d
      else (e_none, d)

  -- The branch of the other messages
  unfoldable pub receive_data :
      World → Packet → Device store.State → ReturnCode × Device store.State
  receive_data w p d =
      let opened = if is_application_message p.topic then decrypt_received p d else (p, d) in
      relay w opened.0 (notify opened.0 opened.1)

  -- What handleReceivedData does with a packet that passed its checks
  unfoldable pub accept : World → ℤ → Packet → Device store.State → ReturnCode × Device store.State
  accept w rssi p d =
      let heard = record d {
        router = record d.router { routes = update_route p rssi w.now d.router.routes };
      } in
      if is_inclusion_message p.topic then receive_inclusion w p heard else receive_data w p heard

  -- handleReceivedData, from the packet on
  unfoldable pub handle_packet :
      World → ℤ → Packet → Device store.State → ReturnCode × Device store.State
  handle_packet w rssi p d =
      let seen = is_packet_found_in_tracker p d.router in
      let looked = record d { router = seen.1 } in
      if seen.0
      then (e_none, looked)
      else if not (is_received_data_crc_valid p)
      then (e_packet_corrupted, looked)
      else let checked = verify_and_strip_mic prim d.device_type d.controller.state d.service p in
        if not checked.0 then (e_auth_failed, looked) else accept w rssi checked.1 looked

  -- handleReceivedData: what readReceivedData gave, and `none` where the constructor of the packet reads
  -- past the end of a buffer.
  unfoldable pub handle_received_data :
      World
      → ReturnCode × List ℕ
      → ℤ
      → Device store.State
      → Option (ReturnCode × Device store.State)
  handle_received_data w (error n, buffer) rssi d = some (error n, d)
  handle_received_data w (e_none, buffer) rssi d = elim (from_byte_buffer buffer) [
    | none ↦ none
    | some p ↦ some (handle_packet w rssi p d)
  ]

  -- The second half of run: the end of a transmission, if the flag of the sender is set, as the radio's
  -- error. `onPacketSent` is set, and its call and that of startReceive are values.
  unfoldable pub finish_run :
      Option ReturnCode → Device store.State → ReturnCode × List RunCall × Device store.State
  finish_run none d = (e_none, [], d)
  finish_run (some rc) d = (e_none, packet_sent d.tx_packet rc ∷ receive_again ∷ [], d)

  -- The first half: an error ends run, and goes to the callback with no packet.
  unfoldable pub after_receive :
      Option ReturnCode
      → ReturnCode × Device store.State
      → ReturnCode × List RunCall × Device store.State
  unfolding finish_run
  after_receive tx (error n, d) = (error n, receive_failed (error n) ∷ [], d)
  after_receive tx (e_none, d) = finish_run tx d

  -- run: what the radio has received, if its flag is set, as the radio's error and what can be read, and
  -- what checkAndClearTxFlag then says. `none` is as in handleReceivedData.
  unfoldable pub run :
      World
      → Option (ReturnCode × (ReturnCode × List ℕ) × ℤ)
      → Option ReturnCode
      → Device store.State
      → Option (ReturnCode × List RunCall × Device store.State)
  unfolding after_receive finish_run
  run w none tx d = some (finish_run tx (check_protocol_timeouts store w.now d))
  run w (some (error n, read, rssi)) tx d =
      some (after_receive tx (error n, check_protocol_timeouts store w.now d))
  run w (some (e_none, read, rssi)) tx d =
      Option.map (after_receive tx)
        (handle_received_data w read rssi (check_protocol_timeouts store w.now d))
