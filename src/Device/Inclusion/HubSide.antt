-- ===== src/Device/Inclusion/HubSide.antt =====
-- What a hub makes of the messages of an inclusion that succeeds.
use radio_mesh.Base.{
  ℕ, ◌+◌, ◌%◌, ◌≤◌, true, List, [], ◌++◌, length, ◌≡◌, refl, ◌∙◌, ap, arith, u32_mod, length-append,
}
use radio_mesh.Codes.{e_none}
use radio_mesh.Types.{is_hub, include_request, include_response, include_confirm, include_success}
use radio_mesh.Packet.{Packet, DeviceId, broadcast_addr, max_data_length}
use radio_mesh.Utils.{bytes_to_number}
use radio_mesh.Utils.Numbers.{bytes_to_number-number_to_bytes}
use radio_mesh.Crypto.Primitives.{Primitives}
use radio_mesh.Crypto.Service
use radio_mesh.Storage.{ByteStorage}
use radio_mesh.KeyManager
use radio_mesh.Device.{
  Device, Controller, World, protocol_idle, waiting_for_request, waiting_for_confirmation,
  send_data, data_packet, route, can_send_message,
}
use radio_mesh.Device.Protocol.{in_state, transition_to_state}
use radio_mesh.Device.Protocol.Timeout.{transition_to_state_lem}
use radio_mesh.Device.Inclusion.{
  handle_inclusion_message, handle_request, handle_confirm, send_inclusion_response,
  incremented_nonce, send_inclusion_success, prepare_response,
}

-- A message that may be sent and fits is put into the device's packet, and the service is kept.
pub send_data_sent :
    (prim : Primitives) {State : Type 0} (w : World) (topic : ℕ) (bytes : List ℕ)
    (target : DeviceId) (d : Device State)
    → can_send_message topic d.controller ≡ true
    → length bytes ≤ max_data_length
    → ((send_data prim w topic bytes target d).1.tx_packet.topic ≡ topic)
      × ((send_data prim w topic bytes target d).1.tx_packet.packet_data ≡ bytes)
      × ((send_data prim w topic bytes target d).1.service ≡ d.service)
      × ((send_data prim w topic bytes target d).1.controller ≡ d.controller)
      × ((send_data prim w topic bytes target d).1.stored ≡ d.stored)
unfolding send_data route data_packet
send_data_sent prim w topic bytes target d can fits = ground (arith, can)

hub_can :
    (topic : ℕ) (c : Controller) → is_hub c.device_type ≡ true → can_send_message topic c ≡ true
unfolding can_send_message
hub_can topic c h = rw h refl

module _ (prim : Primitives) (store : ByteStorage) where
  -- The request that a waiting hub answers.
  request_eq :
      (w : World) (p : Packet) (h : Device store.State)
      → is_hub h.controller.device_type ≡ true
      → h.controller.inclusion_mode_enabled ≡ true
      → in_state waiting_for_request h.controller ≡ true
      → p.topic ≡ include_request
      → handle_inclusion_message prim store w p h
        ≡ send_inclusion_response prim store w p (record h {
          controller = transition_to_state w.now waiting_for_confirmation h.controller;
        })
  unfolding handle_inclusion_message handle_request
  request_eq w p h hub mode waits topic = ground (arith, hub, mode, waits, topic)

  response_eq :
      (w : World) (p : Packet) (d : Device store.State) (key : List ℕ)
      → is_hub d.controller.device_type ≡ true
      → length p.packet_data ≡ 32
      → KeyManager.get_current_network_key store d.stored ≡ (e_none, key)
      → send_inclusion_response prim store w p d
        ≡ send_data prim w include_response
            (key ++ w.random_nonce)
            broadcast_addr
            (prepare_response prim store w key p d)
  unfolding send_inclusion_response
  response_eq w p d key hub size stored = rw (hub, stored, size) refl

  prepare_response_lem :
      (w : World) (key : List ℕ) (p : Packet) (d : Device store.State)
      → length p.packet_data ≡ 32
      → ((prepare_response prim store w key p d).service.network_key ≡ key)
        × ((prepare_response prim store w key p d).service.temp_device_public_key ≡ p.packet_data)
        × ((prepare_response prim store w key p d).controller
            ≡ record d.controller { current_nonce = w.random_nonce })
  unfolding prepare_response Service.set_network_key Service.set_temp_device_public_key
  prepare_response_lem w key p d size = ground arith

  -- What the hub makes of a request.
  pub answered :
      (w : World) (p : Packet) (h : Device store.State) (key : List ℕ)
      → is_hub h.controller.device_type ≡ true
      → h.controller.inclusion_mode_enabled ≡ true
      → h.controller.protocol_state ≡ waiting_for_request
      → p.topic ≡ include_request
      → length p.packet_data ≡ 32
      → length w.random_nonce ≡ 4
      → length key ≡ 32
      → KeyManager.get_current_network_key store h.stored ≡ (e_none, key)
      → ((handle_inclusion_message prim store w p h).1.tx_packet.topic ≡ include_response)
        × ((handle_inclusion_message prim store w p h).1.tx_packet.packet_data
            ≡ key ++ w.random_nonce)
        × ((handle_inclusion_message prim store w p h).1.service.network_key ≡ key)
        × ((handle_inclusion_message prim store w p h).1.service.temp_device_public_key
            ≡ p.packet_data)
        × ((handle_inclusion_message prim store w p h).1.controller.current_nonce ≡ w.random_nonce)
        × ((handle_inclusion_message prim store w p h).1.controller.protocol_state
            ≡ waiting_for_confirmation)
        × (is_hub (handle_inclusion_message prim store w p h).1.controller.device_type ≡ true)
  answered w p h key hub mode waits topic size nonce k stored =
      let ready : in_state waiting_for_request h.controller ≡ true = rw waits refl in
      let moved : Device store.State = record h {
        controller = transition_to_state w.now waiting_for_confirmation h.controller;
      } in
      let kind = transition_to_state_lem w.now waiting_for_confirmation h.controller in
      let is : is_hub moved.controller.device_type ≡ true = rw kind.2 hub in
      let after : Device store.State = prepare_response prim store w key p moved in
      let prepared = prepare_response_lem w key p moved size in
      let fits : length (key ++ w.random_nonce) ≤ max_data_length =
        rw (length-append key w.random_nonce, k, nonce) (omega arith) in
      let can : can_send_message include_response after.controller ≡ true =
        hub_can include_response after.controller (rw (prepared.2, kind.2) hub) in
      let sent =
        send_data_sent prim w include_response (key ++ w.random_nonce) broadcast_addr after can
          fits in
      let eq = request_eq w p h hub mode ready topic ∙ response_eq w p moved key is size stored in
      let c = sent.3 ∙ prepared.2 in
      rw eq (
        sent.0,
        sent.1,
        ap (λ s. s.network_key) sent.2 ∙ prepared.0,
        ap (λ s. s.temp_device_public_key) sent.2 ∙ prepared.1,
        ap (λ x. x.current_nonce) c,
        ap (λ x. x.protocol_state) c ∙ kind.0,
        ap (λ x. is_hub x.device_type) c ∙ is,
      )

  -- What a hub makes of the confirmation of its nonce.
  pub confirmed :
      (w : World) (p : Packet) (h : Device store.State) (nonce : List ℕ)
      → is_hub h.controller.device_type ≡ true
      → h.controller.protocol_state ≡ waiting_for_confirmation
      → h.controller.current_nonce ≡ nonce
      → p.topic ≡ include_confirm
      → p.packet_data ≡ incremented_nonce nonce
      → ((handle_inclusion_message prim store w p h).1.tx_packet.topic ≡ include_success)
        × ((handle_inclusion_message prim store w p h).1.controller.protocol_state ≡ protocol_idle)
        × ((handle_inclusion_message prim store w p h).1.service ≡ h.service)
  unfolding handle_inclusion_message handle_confirm send_inclusion_success incremented_nonce
  confirmed w p h nonce hub waits same topic payload =
      let ready : in_state waiting_for_confirmation h.controller ≡ true = rw waits refl in
      let next : ℕ = (bytes_to_number 4 nonce + 1) % u32_mod in
      let value : bytes_to_number 4 p.packet_data ≡ next =
        rw payload (bytes_to_number-number_to_bytes next (omega arith)) in
      let after : Device store.State = record h {
        controller = transition_to_state w.now protocol_idle h.controller;
      } in
      let kind = transition_to_state_lem w.now protocol_idle h.controller in
      let is : is_hub after.controller.device_type ≡ true = rw kind.2 hub in
      let sent =
        send_data_sent prim w include_success [] broadcast_addr after
          (hub_can include_success after.controller is) (omega arith) in
      grind (arith, hub, ready, topic, value, same, is, sent, kind)
