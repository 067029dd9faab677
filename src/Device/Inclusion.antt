-- ===== src/Device/Inclusion.antt =====
-- framework/device/src/InclusionController.cpp: the messages of the inclusion protocol, sent and handled,
-- with updateSecurityParams of framework/device/src/Device.cpp.
pub mod Moves
pub mod Kept
pub mod Release
pub mod HubSide
pub mod DeviceSide
pub mod Agreement
pub mod Keys
use radio_mesh.Base.{
  ℕ, ◌+◌, ◌%◌, Bool, true, false, not, ◌&&◌, ◌||◌, List, [], ◌∷◌, ◌++◌, length, take, drop,
  is_empty, replicate, ltb, ◌==◌, ◌!=◌, if◌then◌else◌, u32_mod,
}
use radio_mesh.Codes.{
  ReturnCode, e_none, error, e_invalid_device_type, e_invalid_state, e_invalid_length,
  e_invalid_param,
}
use radio_mesh.Types.{
  included, inclusion_pending, is_hub, is_included, is_pending, is_not_included, include_open,
  include_request, include_response, include_confirm, include_success,
}
use radio_mesh.Packet.{Packet, broadcast_addr}
use radio_mesh.Utils.{bytes_to_number, number_to_bytes}
use radio_mesh.Crypto.Primitives.{Primitives}
use radio_mesh.Crypto.Aes.{SecurityParams, set_params}
use radio_mesh.Crypto.Service
use radio_mesh.Storage.{ByteStorage, persist_state, load_private_key}
use radio_mesh.KeyManager
use radio_mesh.Device.{
  Device, World, protocol_idle, waiting_for_request, waiting_for_response, waiting_for_confirmation,
  waiting_for_success, send_data,
}
use radio_mesh.Device.Protocol.{in_state, transition_to_state}

-- The code of a step, and what the next one does when it is RM_E_NONE.
abbrev pub on_success {ℓ} :
    {A : Type ℓ} {D : Type 0} → ReturnCode × A → D → (A → ReturnCode × D) → ReturnCode × D
on_success (error n, value) d next = (error n, d)
on_success (e_none, value) d next = next value

-- updateSecurityParams with the method AES
unfoldable pub update_security_params :
    {State : Type 0} → SecurityParams → Device State → Device State
update_security_params params d = record d {
  service = Service.set_network_key params.key d.service;
  router = record d.router { aes_params = (set_params params d.router.aes_params).1 };
}

-- The parameters of a network key
abbrev pub network_params : List ℕ → SecurityParams
network_params network_key = record { key = network_key; iv = replicate 16 0 }

-- The nonce that sendInclusionConfirm sends
unfoldable pub incremented_nonce : List ℕ → List ℕ
incremented_nonce nonce = number_to_bytes 4 ((bytes_to_number 4 nonce + 1) % u32_mod)

module _ (prim : Primitives) (store : ByteStorage) where
  -- getPublicKey
  unfoldable pub get_public_key : store.State → ReturnCode × List ℕ
  get_public_key s =
      on_success {A = List ℕ} (load_private_key store s) []
        (λ key. KeyManager.derive_public_key prim key)

  -- The end of sendInclusionOpen and of sendInclusionRequest: the device's public key is sent.
  unfoldable pub send_public_key : World → ℕ → Device store.State → ReturnCode × Device store.State
  send_public_key w topic d =
      on_success (get_public_key d.stored) d (λ key. send_data prim w topic key broadcast_addr d)

  -- sendInclusionOpen
  unfoldable pub send_inclusion_open : World → Device store.State → ReturnCode × Device store.State
  send_inclusion_open w d =
      if not d.controller.inclusion_mode_enabled
      then (e_invalid_state, d)
      else send_public_key w include_open
          (record d { controller = transition_to_state w.now waiting_for_request d.controller })

  -- sendInclusionRequest
  unfoldable pub send_inclusion_request :
      World → Device store.State → ReturnCode × Device store.State
  send_inclusion_request w d =
      if is_hub d.controller.device_type
      then (e_invalid_device_type, d)
      else if is_empty d.controller.temp_hub_public_key
      then (e_invalid_state, d)
      else send_public_key w include_request d

  -- What sendInclusionResponse sets before it sends
  unfoldable pub prepare_response :
      World → List ℕ → Packet → Device store.State → Device store.State
  prepare_response w network_key p d = record d {
    service =
        Service.set_network_key network_key
          (Service.set_temp_device_public_key p.packet_data d.service);
    controller = record d.controller { current_nonce = w.random_nonce };
  }

  -- sendInclusionResponse
  unfoldable pub send_inclusion_response :
      World → Packet → Device store.State → ReturnCode × Device store.State
  send_inclusion_response w p d =
      if not (is_hub d.controller.device_type)
      then (e_invalid_device_type, d)
      else on_success (KeyManager.get_current_network_key store d.stored) d (λ network_key.
        if length p.packet_data != 32
        then (e_invalid_length, d)
        else send_data prim w include_response (network_key ++ w.random_nonce) broadcast_addr
            (prepare_response w network_key p d))

  -- sendInclusionConfirm
  unfoldable pub send_inclusion_confirm :
      World → Device store.State → ReturnCode × Device store.State
  send_inclusion_confirm w d =
      if is_hub d.controller.device_type
      then (e_invalid_device_type, d)
      else send_data prim w include_confirm (incremented_nonce d.controller.current_nonce)
          broadcast_addr d

  -- sendInclusionSuccess
  unfoldable pub send_inclusion_success :
      World → Device store.State → ReturnCode × Device store.State
  send_inclusion_success w d =
      if not (is_hub d.controller.device_type)
      then (e_invalid_device_type, d)
      else send_data prim w include_success [] broadcast_addr d

  -- The case INCLUDE_REQUEST of a hub
  unfoldable pub handle_request :
      World → Packet → Device store.State → ReturnCode × Device store.State
  handle_request w p d =
      if d.controller.inclusion_mode_enabled && in_state waiting_for_request d.controller
      then send_inclusion_response w p (record d {
        controller = transition_to_state w.now waiting_for_confirmation d.controller;
      })
      else (e_invalid_state, d)

  -- The case INCLUDE_CONFIRM of a hub: `originalNonceValue + 1` is on a uint32_t.
  unfoldable pub handle_confirm :
      World → Packet → Device store.State → ReturnCode × Device store.State
  handle_confirm w p d =
      if in_state waiting_for_confirmation d.controller
      then (if bytes_to_number 4 p.packet_data
            != (bytes_to_number 4 d.controller.current_nonce + 1) % u32_mod
          then (e_invalid_param, d)
          else send_inclusion_success w
              (record d { controller = transition_to_state w.now protocol_idle d.controller }))
      else (e_invalid_state, d)

  -- The case INCLUDE_OPEN of a device
  unfoldable pub handle_open : World → Packet → Device store.State → ReturnCode × Device store.State
  handle_open w p d =
      if is_not_included d.controller.state && in_state protocol_idle d.controller
      then (if length p.packet_data != 32
          then (e_invalid_length, d)
          else send_inclusion_request w (record d {
            service = Service.set_hub_public_key p.packet_data d.service;
            stored = (persist_state store inclusion_pending d.stored).1;
            controller = transition_to_state w.now waiting_for_response (record d.controller {
              temp_hub_public_key = p.packet_data;
              state = inclusion_pending;
            });
          }))
      else (e_none, d)

  -- The rest of the case INCLUDE_RESPONSE, once setNetworkKey has answered
  unfoldable pub accept_key :
      World
      → List ℕ
      → ReturnCode × store.State
      → Device store.State
      → ReturnCode × Device store.State
  accept_key w key (error n, stored) d = (error n, record d { stored = stored })
  accept_key w key (e_none, stored) d = send_inclusion_confirm w (record d {
    stored = stored;
    service = Service.set_network_key key d.service;
    controller = transition_to_state w.now waiting_for_success d.controller;
  })

  -- The case INCLUDE_RESPONSE of a device: the key and the nonce are the payload's first 36 bytes.
  unfoldable pub handle_response :
      World → Packet → Device store.State → ReturnCode × Device store.State
  handle_response w p d =
      if is_pending d.controller.state && in_state waiting_for_response d.controller
      then (if ltb (length p.packet_data) 36
          then (e_invalid_length, d)
          else accept_key w (take 32 p.packet_data)
              (KeyManager.set_network_key store (take 32 p.packet_data) d.stored)
              (record d {
                controller = record d.controller { current_nonce = take 4 (drop 32 p.packet_data) };
              }))
      else (e_none, d)

  -- The network key is applied if it can be read.
  unfoldable pub apply_key : ReturnCode × List ℕ → Device store.State → Device store.State
  apply_key (error n, key) d = d
  apply_key (e_none, key) d = update_security_params (network_params key) d

  -- The case INCLUDE_SUCCESS of a device
  unfoldable pub handle_success : World → Device store.State → ReturnCode × Device store.State
  handle_success w d =
      if is_pending d.controller.state && in_state waiting_for_success d.controller
      then (let joined : Device store.State = record d {
        stored = (persist_state store included d.stored).1;
        controller =
            transition_to_state w.now protocol_idle (record d.controller { state = included });
      } in
          (e_none, apply_key (KeyManager.get_current_network_key store joined.stored) joined))
      else (e_none, d)

  -- handleInclusionMessage
  unfoldable pub handle_inclusion_message :
      World → Packet → Device store.State → ReturnCode × Device store.State
  handle_inclusion_message w p d =
      if is_hub d.controller.device_type
      then (if p.topic == include_request
          then handle_request w p d
          else if p.topic == include_confirm
          then handle_confirm w p d
          else (e_none, d))
      else if p.topic == include_open
      then handle_open w p d
      else if p.topic == include_response
      then handle_response w p d
      else if p.topic == include_success
      then handle_success w d
      else (e_none, d)
