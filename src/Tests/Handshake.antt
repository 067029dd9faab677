-- ===== src/Tests/Handshake.antt =====
-- A whole inclusion of a device that keeps what it is given in an EEPROM.
use radio_mesh.Base.{ℕ, ◌≡◌, refl, false, some, List, [], ◌∷◌, replicate, length, arith}
use radio_mesh.Codes.{e_none}
use radio_mesh.Types.{included, inclusion_pending, standard, state_byte}
use radio_mesh.Packet.{Packet, empty_packet}
use radio_mesh.Storage.{
  network_key_key, state_key, persist_state, load_state, persist_network_key, load_network_key,
}
use radio_mesh.KeyManager.{get_current_network_key, set_network_key, save_network_key, validate_key}
use radio_mesh.Device.{Device, waiting_for_response, protocol_idle}
use radio_mesh.Device.Inclusion.{handle_inclusion_message}
use radio_mesh.Device.Inclusion.Agreement.{h1, h2, v1, v2, handshake}
use radio_mesh.EepromStorage.{
  put_header, write_bytes, fill_bytes, header_at, read_bytes, used_loop, entry_header_at,
  find_entry, next_entry, stored_key, stored_value,
}
use radio_mesh.EepromStorage.Operations.{
  EepromStorage, clear, commit, write, initialize_storage_header, available, search, write_found,
  write_entry, invalidate_at, put_count, write_and_commit,
}
use radio_mesh.EepromStorage.RoundTrip.{eeprom_store}
use radio_mesh.EepromStorage.Lawful.{HasPlace, HasPlace-fits, eeprom_store-IsStore}
use radio_mesh.Tests.Samples.{toy, shelf, lookup, network_key, service, id_two}
use radio_mesh.Tests.Eeprom.{cells, cells-IsEeprom, empty, empty_lem, no_value, nonempty}
use radio_mesh.Tests.Joining.{router, world, controller, the_hub, request, message}

-- The device, pending, with nothing in its EEPROM
abbrev joiner : Device (EepromStorage cells)
joiner = record {
  id = id_two;
  device_type = standard;
  packet_counter = 4294967295;
  relay_enabled = false;
  controller = controller standard inclusion_pending false waiting_for_response;
  stored = empty;
  service = record service {
    device_private_key = replicate 32 3;
    device_public_key = replicate 32 3;
  };
  router = router;
  tx_packet = empty_packet;
  sent = [];
  notified = [];
}

-- What each side gets is what the other has sent.
abbrev response : Packet
response =
    let d = (handle_inclusion_message toy shelf world request the_hub).1 in
    message d.tx_packet.topic d.tx_packet.packet_data

abbrev confirm : Packet
confirm =
    let d = (handle_inclusion_message toy (eeprom_store cells 7) world response joiner).1 in
    message d.tx_packet.topic d.tx_packet.packet_data

abbrev success : Packet
success =
    let h = (handle_inclusion_message toy shelf world request the_hub).1 in
    let d = (handle_inclusion_message toy shelf world confirm h).1 in
    message d.tx_packet.topic d.tx_packet.packet_data

-- The EEPROM with the key in it
keyed : EepromStorage cells
keyed = (set_network_key (eeprom_store cells 7) network_key empty).1

keyed_lem :
    (set_network_key (eeprom_store cells 7) network_key empty ≡ (e_none, keyed))
    × ((persist_state (eeprom_store cells 7) included keyed).0 ≡ e_none)
unfolding keyed set_network_key save_network_key validate_key persist_network_key persist_state
    empty clear commit write initialize_storage_header put_header write_bytes fill_bytes available
    header_at read_bytes used_loop entry_header_at search find_entry next_entry stored_key
    stored_value write_found write_entry invalidate_at put_count write_and_commit
keyed_lem = (refl, refl)

key_place : HasPlace cells cells-IsEeprom network_key_key network_key empty
key_place = (
  empty_lem.1,
  omega arith,
  omega arith,
  nonempty b'n' (b'k' ∷ []),
  no_value network_key_key (length network_key),
)

state_place : HasPlace cells cells-IsEeprom state_key (state_byte included ∷ []) empty
state_place =
    (empty_lem.1, omega arith, omega arith, nonempty b'i' (b's' ∷ []), no_value state_key 1)

hub_key_lem : get_current_network_key shelf the_hub.stored ≡ (e_none, network_key)
unfolding get_current_network_key load_network_key lookup
hub_key_lem = refl

-- The hub and the device at the end
abbrev hub_then : Device (List (List ℕ × List ℕ))
hub_then =
    h2 toy shelf (eeprom_store cells 7) world world world world request response confirm success
      the_hub joiner

abbrev device_then : Device (EepromStorage cells)
device_then =
    v2 toy shelf (eeprom_store cells 7) world world world world request response confirm success
      the_hub joiner

handshake_example :
    ((h1 toy shelf
        (eeprom_store cells 7)
        world
        world
        world
        world
        request
        response
        confirm
        success
        the_hub
        joiner).service.network_key
      ≡ network_key)
    × ((v1 toy shelf
          (eeprom_store cells 7)
          world
          world
          world
          world
          request
          response
          confirm
          success
          the_hub
          joiner).service.network_key
        ≡ network_key)
    × (hub_then.controller.protocol_state ≡ protocol_idle)
    × (device_then.controller.state ≡ included)
    × (device_then.controller.protocol_state ≡ protocol_idle)
    × (hub_then.service.network_key ≡ network_key)
    × (device_then.service.network_key ≡ network_key)
    × (load_state (eeprom_store cells 7) device_then.stored ≡ (e_none, some included))
    × (get_current_network_key (eeprom_store cells 7) device_then.stored ≡ (e_none, network_key))
handshake_example =
    handshake toy shelf (eeprom_store cells 7) world world world world request response confirm
      success the_hub joiner (eeprom_store-IsStore cells cells-IsEeprom 7 (omega arith)) network_key
      keyed refl refl refl hub_key_lem refl refl refl refl refl
      (HasPlace-fits cells cells-IsEeprom 7 (omega arith) network_key_key network_key empty
        key_place)
      keyed_lem.0
      (HasPlace-fits cells cells-IsEeprom 7 (omega arith) state_key (state_byte included ∷ []) empty
        state_place)
      keyed_lem.1 refl refl refl refl refl refl refl
