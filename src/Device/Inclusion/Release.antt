-- ===== src/Device/Inclusion/Release.antt =====
-- When a hub sends anything in answer to an inclusion message, and with it the network key.
use radio_mesh.Base.{
  ◌+◌, ◌%◌, true, false, ◌++◌, length, ◌≡◌, refl, ◌⊎◌, inl, arith, ◌!=◌, if◌then◌else◌, u32_mod,
}
use radio_mesh.Codes.{e_invalid_length, e_invalid_state}
use radio_mesh.Types.{is_hub, include_request, include_response, include_confirm}
use radio_mesh.Packet.{Packet, broadcast_addr}
use radio_mesh.Utils.{bytes_to_number}
use radio_mesh.Crypto.Primitives.{Primitives}
use radio_mesh.Storage.{ByteStorage}
use radio_mesh.KeyManager
use radio_mesh.Device.{Device, World, waiting_for_request, waiting_for_confirmation, send_data}
use radio_mesh.Device.Protocol.{in_state}
use radio_mesh.Device.Protocol.Timeout.{in_state_lem, transition_to_state_lem}
use radio_mesh.Device.Inclusion.{
  handle_inclusion_message, handle_request, handle_confirm, send_inclusion_response,
  prepare_response,
}
use radio_mesh.Device.Inclusion.Kept.{handle_inclusion_message-kind}
use radio_mesh.Device.Inclusion.Moves.{on_success_lem, send_inclusion_response-session}

module _ (prim : Primitives) (store : ByteStorage) (w : World) where
  response_length :
      (p : Packet) (d : Device store.State)
      → ((send_inclusion_response prim store w p d).1.sent ≡ d.sent) ⊎ (length p.packet_data ≡ 32)
  unfolding send_inclusion_response
  response_length p d =
      let keyed =
        on_success_lem (λ d'. (d'.sent ≡ d.sent) ⊎ (length p.packet_data ≡ 32))
          (KeyManager.get_current_network_key store d.stored) d
          (λ network_key.
            if length p.packet_data != 32
            then (e_invalid_length, d)
            else send_data prim w include_response (network_key ++ w.random_nonce) broadcast_addr
                (prepare_response prim store w network_key p d))
          (inl refl) (λ network_key. ground arith) in
      ground (arith, keyed)

  -- A hub hands nothing to the radio in answer to an inclusion message, unless it was in inclusion mode
  -- and waiting for a request, which came with a key of 32 bytes, or was waiting for the
  -- confirmation, which came with the successor of its nonce.
  pub handle_inclusion_message_sent :
      (p : Packet) (d : Device store.State)
      → is_hub d.controller.device_type ≡ true
      → ((handle_inclusion_message prim store w p d).1.sent ≡ d.sent)
        ⊎ ((p.topic ≡ include_request)
            × (d.controller.inclusion_mode_enabled ≡ true)
            × (d.controller.protocol_state ≡ waiting_for_request)
            × (length p.packet_data ≡ 32))
        ⊎ ((p.topic ≡ include_confirm)
            × (d.controller.protocol_state ≡ waiting_for_confirmation)
            × (bytes_to_number 4 p.packet_data
                ≡ (bytes_to_number 4 d.controller.current_nonce + 1) % u32_mod))
  unfolding handle_inclusion_message handle_request handle_confirm
  handle_inclusion_message_sent p d h = grind (
    arith,
    response_length,
    in_state_lem waiting_for_request d.controller,
    in_state_lem waiting_for_confirmation d.controller,
  )

  in_confirmation :
      (d : Device store.State)
      → d.controller.protocol_state ≡ waiting_for_confirmation
      → in_state waiting_for_request d.controller ≡ false
  in_confirmation d h = rw h refl

  refused :
      (later : World) (q : Packet) (e : Device store.State)
      → q.topic ≡ include_request
      → is_hub e.controller.device_type ≡ true
      → in_state waiting_for_request e.controller ≡ false
      → handle_inclusion_message prim store later q e ≡ (e_invalid_state, e)
  unfolding handle_inclusion_message handle_request
  refused later q e tq hub not_waiting = ground (arith, tq, hub, not_waiting)

  hub_kept :
      (p : Packet) (d : Device store.State)
      → is_hub d.controller.device_type ≡ true
      → is_hub (handle_inclusion_message prim store w p d).1.controller.device_type ≡ true
  hub_kept p d h = rw (handle_inclusion_message-kind prim store w p d).1 h

  confirming :
      (p : Packet) (d : Device store.State)
      → is_hub d.controller.device_type ≡ true
      → d.controller.inclusion_mode_enabled ≡ true
      → d.controller.protocol_state ≡ waiting_for_request
      → p.topic ≡ include_request
      → (handle_inclusion_message prim store w p d).1.controller.protocol_state
        ≡ waiting_for_confirmation
  unfolding handle_inclusion_message handle_request
  confirming p d h mode waits tp =
      let ready : in_state waiting_for_request d.controller ≡ true = rw waits refl in
      grind (arith, h, mode, ready, tp, send_inclusion_response-session, transition_to_state_lem)

  -- The session of a request is over for every other request: whatever a hub in inclusion mode that waits
  -- for a request makes of one, it answers the next one with RM_E_INVALID_STATE and changes nothing.
  pub handle_inclusion_message_once :
      (later : World) (p q : Packet) (d : Device store.State)
      → is_hub d.controller.device_type ≡ true
      → d.controller.inclusion_mode_enabled ≡ true
      → d.controller.protocol_state ≡ waiting_for_request
      → p.topic ≡ include_request
      → q.topic ≡ include_request
      → handle_inclusion_message prim store later q (handle_inclusion_message prim store w p d).1
        ≡ (e_invalid_state, (handle_inclusion_message prim store w p d).1)
  handle_inclusion_message_once later p q d h mode waits tp tq =
      let d' = (handle_inclusion_message prim store w p d).1 in
      refused later q d' tq (hub_kept p d h) (in_confirmation d' (confirming p d h mode waits tp))
