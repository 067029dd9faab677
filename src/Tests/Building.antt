-- ===== src/Tests/Building.antt =====
-- The radio, WiFi and the builder at concrete inputs.
use radio_mesh.Base.{◌≤◌, ◌+◌, ℕ, ◌≡◌, ◌≢◌, refl, ◌⊎◌, Bool, true, false, List, [], ◌∷◌, replicate}
use radio_mesh.Base.Int.{pos}
use radio_mesh.Codes.{e_none}
use radio_mesh.Types.{standard, hub, not_included}
use radio_mesh.LoraRadio.Driver.{
  LoraRadio, LoraRadioParams, PinConfig, SetupAnswers, IrqStatus, done, other_error, no_driver,
  started, setup, create_module, check_lora_parameters, set_radio_params, configure, finish_setup,
  start_receive,
}
use radio_mesh.LoraRadio.SetUp.{InRange, setup_sound}
use radio_mesh.LoraRadio.Flags.{
  interrupt, check_rx, check_tx, transmit, reports, arrivals, reports-le_arrivals,
}
use radio_mesh.Packet.{empty_packet}
use radio_mesh.Crypto.Service.{new_service}
use radio_mesh.RoutingTable.{no_route}
use radio_mesh.PacketRouter.{new_router}
use radio_mesh.Device.{Device, protocol_idle}
use radio_mesh.EepromStorage.{header_at, read_bytes}
use radio_mesh.EepromStorage.Operations.{
  EepromStorage, set_params, begin, open_storage, is_storage_valid,
}
use radio_mesh.EepromStorage.Sound.{IsSound}
use radio_mesh.Wifi.{WifiParams, WifiAccessPointParams, no_signal, set_wifi_params}
use radio_mesh.Wifi.Connector.{IsUsable}
use radio_mesh.Wifi.AccessPoint.{IsValid}
use radio_mesh.DeviceBuilder.{DeviceBuilder, OledDisplayParams, DevicePortalParams, empty_blueprint}
use radio_mesh.DeviceBuilder.SetUp.{
  Board, Site, StartInputs, initialize_device, open_device_storage, initialize_radio,
  initialize_wifi,
}
use radio_mesh.DeviceBuilder.Build.{
  build, site_of, features, rx_step, tx_step, radio_step, relay_step, crypto_step, display_step,
  wifi_step, access_point_step, portal_step,
}
use radio_mesh.DeviceBuilder.Requirements.{Wanted, PortalFits, is_went, build_requirements}
use radio_mesh.DeviceBuilder.FirstStart.{build_fresh, tried, untried}
use radio_mesh.Tests.Samples.{toy, id_one}
use radio_mesh.Tests.Eeprom.{cells, cells-IsEeprom}

abbrev pins : PinConfig
pins = record { ss = 10; rst = 9; di0 = 2; di1 = 3 }

abbrev params : LoraRadioParams
params = record {
  pin_config = pins;
  band = 915000;
  tx_power = pos 14;
  bw = 125000;
  sf = 7;
  gain = 0;
  private_network = true;
}

abbrev radio : LoraRadio
radio = record {
  rx_done = false;
  tx_done = false;
  is_setup = false;
  radio_state_error = e_none;
  radio_params = params;
  driver = no_driver;
}

abbrev all_done : SetupAnswers
all_done = record {
  begun = done;
  frequency = done;
  bandwidth = done;
  spreading_factor = other_error;
  output_power = done;
  sync_word = done;
  receive = done;
}

setup_sound_example :
    InRange params
    × (params.pin_config.ss ≢ 0)
    × ((setup params all_done radio).1
        ≡ record radio { is_setup = true; driver = started; radio_params = params })
unfolding setup create_module check_lora_parameters configure finish_setup start_receive
setup_sound_example = setup_sound params all_done radio refl

abbrev arrival : IrqStatus
arrival = record {
  irq_rx_done = true;
  irq_tx_done = false;
  irq_timeout = false;
  irq_crc_err = false;
  irq_header_err = false;
}

reports-le_arrivals_example :
    reports (interrupt arrival ∷ check_tx ∷ check_rx ∷ transmit ∷ check_rx ∷ []) radio
    ≤ arrivals (interrupt arrival ∷ check_tx ∷ check_rx ∷ transmit ∷ check_rx ∷ []) + 0
reports-le_arrivals_example =
    reports-le_arrivals (interrupt arrival ∷ check_tx ∷ check_rx ∷ transmit ∷ check_rx ∷ []) radio

abbrev a_device : EepromStorage cells → Device (EepromStorage cells)
a_device stored = record {
  id = id_one;
  device_type = standard;
  packet_counter = 0;
  relay_enabled = false;
  controller = record {
    state = not_included;
    device_type = standard;
    inclusion_mode_enabled = false;
    protocol_state = protocol_idle;
    state_start_time = 0;
    retry_count = 0;
    current_nonce = [];
    temp_hub_public_key = [];
  };
  stored = stored;
  service = new_service;
  router = new_router (no_route ∷ []) (record { key = []; iv = [] });
  tx_packet = empty_packet;
  sent = [];
  notified = [];
}

abbrev no_wifi : WifiParams
no_wifi = record { ssid = []; password = [] }

abbrev home : WifiParams
home = record { ssid = b'h' ∷ []; password = b'p' ∷ [] }

abbrev no_access_point : WifiAccessPointParams
no_access_point = record { ap_ssid = []; ap_password = []; ip_address = [] }

abbrev no_portal : DevicePortalParams
no_portal = record { title = []; index_html = []; web_port = 0; dns_port = 0 }

abbrev display : OledDisplayParams
display = record { clock_pin = 15; data_pin = 4; reset_pin = 16; font_id = 0 }

abbrev board : Board
board = record {
  radio = radio;
  oled_params = display;
  wifi = record {
    params = no_wifi;
    connected = false;
    ip_address = [];
    mac_address = [];
    signal_indicator = no_signal;
  };
  access_point = record { ap_params = no_access_point; is_started = false };
  portal_params = no_portal;
}

abbrev site : EepromStorage cells → Site cells
site stored = record {
  device = a_device stored;
  board = board;
  on_packet_received = 0;
  on_packet_sent = 0;
  custom_display = 0;
  has_radio = false;
  has_crypto = false;
  has_oled_display = false;
  has_wifi_connector = false;
  has_wifi_access_point = false;
  has_device_portal = false;
}

abbrev builder : DeviceBuilder
builder = record {
  is_builder_started = true;
  blueprint = record empty_blueprint { has_radio = true; has_rx_callback = true; has_wifi = true };
  radio_params = params;
  security_params = record { key = []; iv = [] };
  oled_display_params = display;
  wifi_params = home;
  wifi_ap_params = no_access_point;
  device_portal_params = no_portal;
  relay_enabled = false;
  rx_callback = 4096;
  tx_callback = 0;
  custom_display = 0;
  use_custom_display = false;
}

-- An EEPROM with a header and no entries
abbrev written : EepromStorage cells
written = record {
  initialized = false;
  size = 0;
  memory = 0x54 ∷ 0x53 ∷ 0x4D ∷ 0x52 ∷ 1 ∷ 0 ∷ 0 ∷ 0 ∷ [];
}

abbrev inputs : StartInputs
inputs = record { memory = not_included; seed = 5; random_key = replicate 32 1 }

abbrev any_address : List ℕ → Bool
any_address ip = true

build_requirements_example :
    (builder.is_builder_started ≡ true)
    × ((build toy cells 0 any_address standard inputs builder (site written)).1.is_builder_started
        ≡ false)
    × Wanted builder.blueprint.has_rx_callback (builder.rx_callback ≢ 0)
    × Wanted builder.blueprint.has_tx_callback (builder.tx_callback ≢ 0)
    × Wanted builder.blueprint.has_radio (InRange builder.radio_params)
    × Wanted builder.blueprint.has_display
        ((builder.use_custom_display ≡ false) ⊎ (builder.custom_display ≢ 0))
    × Wanted builder.blueprint.has_wifi (IsUsable builder.wifi_params)
    × Wanted builder.blueprint.has_wifi_access_point (IsValid any_address builder.wifi_ap_params)
    × Wanted builder.blueprint.has_device_portal (PortalFits builder)
unfolding build features rx_step tx_step radio_step relay_step crypto_step display_step wifi_step
    access_point_step portal_step initialize_device open_device_storage begin open_storage
    is_storage_valid header_at read_bytes initialize_radio initialize_wifi set_radio_params
    check_lora_parameters set_wifi_params set_params
build_requirements_example =
    build_requirements toy cells 0 any_address standard inputs builder (site written) refl

-- An EEPROM that was never written
abbrev blank : EepromStorage cells
blank = record { initialized = false; size = 0; memory = [] }

-- What the first build leaves, for the next one
left_over : Site cells
left_over = site_of (build toy cells 0 any_address standard inputs builder (site blank)).0

-- What a second build leaves, for a third
left_then : Site cells
left_then = site_of (build toy cells 0 any_address standard inputs builder left_over).0

build_fresh_example :
    (is_went (build toy cells 0 any_address standard inputs builder (site blank)).0 ≡ false)
    × IsSound cells cells-IsEeprom
        (site_of
          (build toy cells 0 any_address standard inputs builder (site blank)).0).device.stored
    × (is_went (build toy cells 0 any_address hub inputs builder left_then).0 ≡ false)
unfolding left_over left_then is_storage_valid header_at read_bytes
build_fresh_example =
    build_fresh toy cells cells-IsEeprom 0 any_address standard hub inputs inputs builder builder
      (site blank) left_then refl refl refl refl refl
      (tried left_over standard inputs builder untried)
