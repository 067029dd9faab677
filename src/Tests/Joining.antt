-- ===== src/Tests/Joining.antt =====
-- The device and its inclusion at concrete inputs.
use radio_mesh.Base.{
  ℕ, ◌+◌, ◌%◌, ◌≤◌, ◌<◌, List, [], ◌∷◌, ◌++◌, length, ◌≡◌, ◌≢◌, ◌⊎◌, refl, arith, Bool, true, false,
  some, inl, inr, replicate, u32_mod,
}
use radio_mesh.Base.Int.{pos}
use radio_mesh.Codes.{e_invalid_state}
use radio_mesh.Types.{
  MeshDeviceType, DeviceInclusionState, standard, hub, included, not_included, inclusion_pending,
  include_request, include_confirm, is_hub, is_included, is_pending, is_standard,
  is_inclusion_topic, state_byte,
}
use radio_mesh.Packet.{Packet, empty_packet, to_byte_buffer, from_byte_buffer, max_data_length}
use radio_mesh.Utils.{bytes_to_number}
use radio_mesh.Storage.{
  persist_state, network_key_key, private_key_key, state_key, load_private_key,
}
use radio_mesh.KeyManager.{derive_public_key}
use radio_mesh.LoraRadio.{transmitted}
use radio_mesh.RoutingTable.{no_route}
use radio_mesh.PacketRouter.{Router, new_router}
use radio_mesh.Device.{
  Device, Controller, World, ProtocolState, protocol_idle, waiting_for_request,
  waiting_for_response, waiting_for_confirmation, send_data,
}
use radio_mesh.Device.Protocol.{base_timeout_ms}
use radio_mesh.Device.Protocol.Timeout.{check_protocol_timeouts_lem, checked}
use radio_mesh.Device.Inclusion.{handle_inclusion_message}
use radio_mesh.Device.Inclusion.Release.{
  handle_inclusion_message_sent, handle_inclusion_message_once,
}
use radio_mesh.Device.Receive.{handle_packet}
use radio_mesh.Types.{include_open}
use radio_mesh.Packet.{has_mic, extract_mic, data_without_mic, header_bytes}
use radio_mesh.Crypto.Cmac.{compute_mic}
use radio_mesh.Crypto.MicService.{get_mic_key}
use radio_mesh.PacketRouter.{is_packet_found_in_tracker}
use radio_mesh.Reception.{is_received_data_crc_valid}
use radio_mesh.Tests.Samples.{toy-IsLawful}
use radio_mesh.Device.Receive.Gate.{handle_packet_gate}
use radio_mesh.Device.Receive.Steps.{IsReset, IsReset, IsJoining, here, step, sent, received}
use radio_mesh.Device.Receive.Progress.{Step-JoinMove, JoinMove, IsAnew}
use radio_mesh.Device.Receive.Initialized.{initialize-Reachable}
use radio_mesh.Device.Receive.Restart.{restart_pending}
use radio_mesh.Device.Startup.{initialize}
use radio_mesh.Device.Sending.{send_data_guarded, outgoing}
use radio_mesh.Tests.Samples.{
  toy, shelf, network_key, service, id_one, id_two, id_packet, lookup, eval_point,
}

abbrev pub router : Router
router =
    record (new_router (no_route ∷ no_route ∷ [])
      (record { key = network_key; iv = replicate 16 0 })) { encryption_set = true; mic_set = true }

abbrev pub world : World
world = record {
  now = 1000;
  status = transmitted;
  random_id = id_packet;
  random_nonce = 255 ∷ 255 ∷ 255 ∷ 255 ∷ [];
}

abbrev pub controller : MeshDeviceType → DeviceInclusionState → Bool → ProtocolState → Controller
controller device_type state mode protocol_state = record {
  state = state;
  device_type = device_type;
  inclusion_mode_enabled = mode;
  protocol_state = protocol_state;
  state_start_time = 4294967000;
  retry_count = 0;
  current_nonce = [];
  temp_hub_public_key = [];
}

abbrev device : Controller → List (List ℕ × List ℕ) → Device (List (List ℕ × List ℕ))
device c stored = record {
  id = id_one;
  device_type = c.device_type;
  packet_counter = 4294967295;
  relay_enabled = false;
  controller = c;
  stored = stored;
  service = record service {
    device_private_key = replicate 32 3;
    device_public_key = replicate 32 3;
  };
  router = router;
  tx_packet = empty_packet;
  sent = [];
  notified = [];
}

abbrev pub the_hub : Device (List (List ℕ × List ℕ))
the_hub =
    device (controller hub included true waiting_for_request) ((network_key_key, network_key) ∷ [])

abbrev joiner : Device (List (List ℕ × List ℕ))
joiner = device (controller standard inclusion_pending false waiting_for_response) []

abbrev pub message : ℕ → List ℕ → Packet
message topic bytes = record empty_packet { topic = topic; packet_data = bytes }

abbrev pub request : Packet
request = message include_request (replicate 32 5)

-- What each side gets is what the other has sent.
abbrev response : Packet
response =
    let d = (handle_inclusion_message toy shelf world request the_hub).1 in
    message d.tx_packet.topic d.tx_packet.packet_data

abbrev confirm : Packet
confirm =
    let d = (handle_inclusion_message toy shelf world response joiner).1 in
    message d.tx_packet.topic d.tx_packet.packet_data

abbrev success : Packet
success =
    let h = (handle_inclusion_message toy shelf world request the_hub).1 in
    let d = (handle_inclusion_message toy shelf world confirm h).1 in
    message d.tx_packet.topic d.tx_packet.packet_data

abbrev joiner_store : List (List ℕ × List ℕ)
joiner_store = (network_key_key, network_key) ∷ []

handle_inclusion_message_sent_example :
    ((handle_inclusion_message toy shelf world request the_hub).1.sent ≡ [])
    ⊎ ((include_request ≡ include_request)
        × (true ≡ true)
        × (waiting_for_request ≡ waiting_for_request)
        × (length request.packet_data ≡ 32))
    ⊎ ((include_request ≡ include_confirm)
        × (waiting_for_request ≡ waiting_for_confirmation)
        × (bytes_to_number 4 request.packet_data ≡ (bytes_to_number 4 [] + 1) % u32_mod))
handle_inclusion_message_sent_example =
    handle_inclusion_message_sent toy shelf world request the_hub refl

handle_inclusion_message_once_example :
    handle_inclusion_message toy shelf world request
      (handle_inclusion_message toy shelf world request the_hub).1
    ≡ (e_invalid_state, (handle_inclusion_message toy shelf world request the_hub).1)
handle_inclusion_message_once_example =
    handle_inclusion_message_once toy shelf world world request request the_hub refl refl refl refl
      refl

-- Two seconds on, the session of the joiner goes on; its clock has wrapped.
check_protocol_timeouts_lem_example :
    (((joiner.controller.protocol_state ≡ protocol_idle) ⊎ (2000 ≤ base_timeout_ms))
      × (checked shelf joiner 2000 (omega arith) (omega arith) ≡ joiner))
    ⊎ ((joiner.controller.protocol_state ≢ protocol_idle)
        × (base_timeout_ms < 2000)
        × ((checked shelf joiner 2000 (omega arith) (omega arith)).controller.protocol_state
            ≡ protocol_idle)
        × ((checked shelf joiner 2000 (omega arith) (omega arith)).controller.inclusion_mode_enabled
            ≡ false)
        × (((joiner.controller.state ≡ inclusion_pending)
              × (is_standard joiner.controller.device_type ≡ true)
              × ((checked shelf joiner 2000 (omega arith) (omega arith)).controller.state
                  ≡ not_included)
              × ((checked shelf joiner 2000 (omega arith) (omega arith)).stored
                  ≡ (persist_state shelf not_included joiner.stored).1))
            ⊎ (((is_standard joiner.controller.device_type ≡ false)
                  ⊎ (is_pending joiner.controller.state ≡ false))
                × ((checked shelf joiner 2000 (omega arith) (omega arith)).controller.state
                    ≡ joiner.controller.state)
                × ((checked shelf joiner 2000 (omega arith) (omega arith)).stored
                    ≡ joiner.stored))))
check_protocol_timeouts_lem_example =
    check_protocol_timeouts_lem shelf joiner 2000 (omega arith) (omega arith)

-- The counter wraps around.
send_data_guarded_example :
    ((send_data toy world 16 (1 ∷ []) id_two the_hub).1.sent ≡ [])
    ⊎ (((is_hub hub ≡ true) ⊎ (is_inclusion_topic 16 ≡ true) ⊎ (is_included included ≡ true))
        × (length {A = ℕ} (1 ∷ []) ≤ max_data_length)
        × ((send_data toy world 16 (1 ∷ []) id_two the_hub).1.sent
            ≡ [] ++ (to_byte_buffer (outgoing toy world 16 (1 ∷ []) id_two the_hub) ∷ []))
        × (from_byte_buffer (to_byte_buffer (outgoing toy world 16 (1 ∷ []) id_two the_hub))
            ≡ some (outgoing toy world 16 (1 ∷ []) id_two the_hub))
        × ((outgoing toy world 16 (1 ∷ []) id_two the_hub).topic ≡ 16)
        × ((outgoing toy world 16 (1 ∷ []) id_two the_hub).fcounter
            ≡ (the_hub.packet_counter + 1) % u32_mod)
        × ((send_data toy world 16 (1 ∷ []) id_two the_hub).1.packet_counter
            ≡ (the_hub.packet_counter + 1) % u32_mod)
        × ((outgoing toy world 16 (1 ∷ []) id_two the_hub).hop_count ≡ 1)
        × ((outgoing toy world 16 (1 ∷ []) id_two the_hub).last_hop_id ≡ id_one)
        × ((outgoing toy world 16 (1 ∷ []) id_two the_hub).source_dev_id ≡ id_one)
        × ((outgoing toy world 16 (1 ∷ []) id_two the_hub).dest_dev_id ≡ id_two))
send_data_guarded_example = send_data_guarded toy world 16 (1 ∷ []) id_two the_hub

-- A storage with a private key and the state pending.
abbrev interrupted : List (List ℕ × List ℕ)
interrupted =
    (private_key_key, replicate 32 3) ∷ (state_key, state_byte inclusion_pending ∷ []) ∷ []

abbrev restarted : Device (List (List ℕ × List ℕ))
restarted = device (controller standard not_included false protocol_idle) interrupted

abbrev started : Device (List (List ℕ × List ℕ))
started = initialize toy shelf not_included 9 network_key restarted

restart_pending_example :
    ((send_data toy world 16 [] id_two started).1.controller.state ≡ inclusion_pending)
    × ((send_data toy world 16 [] id_two started).1.controller.protocol_state ≡ protocol_idle)
unfolding load_private_key derive_public_key lookup eval_point
restart_pending_example =
    restart_pending toy shelf not_included 9 (replicate 32 3) network_key restarted
      (send_data toy world 16 [] id_two started).1 refl refl refl refl
      (step here (sent world 16 [] id_two)) ((λ r. r), tt)

initialize-Reachable_example : IsJoining toy shelf (send_data toy world 16 [] id_two started).1
initialize-Reachable_example =
    initialize-Reachable toy shelf not_included 9 network_key restarted
      (send_data toy world 16 [] id_two started).1 (step here (sent world 16 [] id_two))

Step-JoinMove_example :
    JoinMove joiner.controller (handle_packet toy shelf world (pos 40) response joiner).1.controller
    ⊎ (IsReset toy shelf (received {d = joiner} world (pos 40) response)
        × IsAnew toy shelf (handle_packet toy shelf world (pos 40) response joiner).1.controller)
Step-JoinMove_example =
    Step-JoinMove toy shelf joiner (handle_packet toy shelf world (pos 40) response joiner).1
      (refl, inr (refl, (refl, inr (inl (refl, refl))))) refl (received world (pos 40) response)

handle_packet_gate_example :
    ((handle_packet toy shelf world (pos 40) request the_hub).1
      ≡ record the_hub { router = (is_packet_found_in_tracker request the_hub.router).1 })
    ⊎ (((is_packet_found_in_tracker request the_hub.router).0 ≡ false)
        × (is_received_data_crc_valid request ≡ true)
        × (((include_request ≡ include_open) ⊎ (include_request ≡ include_request))
            ⊎ ((has_mic request ≡ true)
                × (length (extract_mic request) ≡ 4)
                × (compute_mic toy
                      (get_mic_key toy include_request hub included (some the_hub.service))
                      (header_bytes request ++ data_without_mic request)
                    ≡ extract_mic request))))
handle_packet_gate_example =
    handle_packet_gate toy toy-IsLawful shelf world (pos 40) request the_hub
