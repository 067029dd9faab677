-- ===== src/DeviceBuilder/SetUp.antt =====
-- The set-up methods of framework/device/src/Device.cpp, on a board with a display and WiFi, with setParams
-- of hardware/src/display/oled/OledDisplay.cpp and of framework/device_portal/src/AsyncDevicePortal.cpp.
use radio_mesh.Base.{ℕ, Bool, true, false, ◌||◌, List, is_empty, ◌==◌, if◌then◌else◌}
use radio_mesh.Codes.{ReturnCode, e_none, failed, e_invalid_param}
use radio_mesh.Types.{MeshDeviceType, DeviceInclusionState}
use radio_mesh.Crypto.Primitives.{Primitives}
use radio_mesh.Crypto.Aes
use radio_mesh.Crypto.Aes.{SecurityParams}
use radio_mesh.LoraRadio.Driver.{LoraRadio, LoraRadioParams, set_radio_params}
use radio_mesh.Wifi.{
  WifiParams, WifiAccessPointParams, WifiConnector, WifiAccessPoint, set_wifi_params, set_ap_params,
}
use radio_mesh.EepromStorage.{Eeprom, eeprom_storage_max_size}
use radio_mesh.EepromStorage.Operations
use radio_mesh.EepromStorage.Operations.{EepromStorage, begin}
use radio_mesh.EepromStorage.RoundTrip.{eeprom_store}
use radio_mesh.Device.{Device}
use radio_mesh.Device.Startup.{initialize}
use radio_mesh.DeviceBuilder.{OledDisplayParams, DevicePortalParams}

-- The objects that getInstance gives out, which outlive a device
pub record Board : Type 0 where
  pub radio : LoraRadio
  pub oled_params : OledDisplayParams
  pub wifi : WifiConnector
  pub access_point : WifiAccessPoint
  pub portal_params : DevicePortalParams

-- A device with its pointers: to the callbacks and the display that it was given, and whether those to the
-- objects of the board are set. `device.stored` is the EEPROMStorage of the board.
pub record Site (lib : Eeprom) : Type 0 where
  pub device : Device (EepromStorage lib)
  pub board : Board
  pub on_packet_received : ℕ
  pub on_packet_sent : ℕ
  pub custom_display : ℕ
  pub has_radio : Bool
  pub has_crypto : Bool
  pub has_oled_display : Bool
  pub has_wifi_connector : Bool
  pub has_wifi_access_point : Bool
  pub has_device_portal : Bool

unfoldable pub set_portal_params :
    DevicePortalParams → DevicePortalParams → ReturnCode × DevicePortalParams
set_portal_params p old =
    if p.web_port == 0 || (p.dns_port == 0 || is_empty p.index_html)
    then (e_invalid_param, old)
    else (e_none, p)

module _ {lib : Eeprom} where
  unfoldable pub set_device_type : MeshDeviceType → Site lib → Site lib
  set_device_type t s = record s { device = record s.device { device_type = t } }

  unfoldable pub register_callback : ℕ → Site lib → Site lib
  register_callback callback s = record s { on_packet_received = callback }

  unfoldable pub register_tx_callback : ℕ → Site lib → Site lib
  register_tx_callback callback s = record s { on_packet_sent = callback }

  unfoldable pub enable_relay : Bool → Site lib → Site lib
  enable_relay enabled s = record s { device = record s.device { relay_enabled = enabled } }

  unfoldable pub initialize_radio : LoraRadioParams → Site lib → ReturnCode × Site lib
  initialize_radio p s =
      let r = set_radio_params p s.board.radio in
      (
        r.0,
        record s {
          board = record s.board { radio = r.1 };
          has_radio = if failed r.0 then false else true;
        },
      )

  -- initializeAesCrypto: the code of setParams is not looked at.
  unfoldable pub initialize_aes_crypto : SecurityParams → Site lib → ReturnCode × Site lib
  initialize_aes_crypto p s =
      let d = s.device in
      (
        e_none,
        record s {
          device = record d {
            router = record d.router { aes_params = (Aes.set_params p d.router.aes_params).1 };
          };
          has_crypto = true;
        },
      )

  unfoldable pub set_custom_display : ℕ → Site lib → ReturnCode × Site lib
  set_custom_display display s =
      if display == 0 then (e_invalid_param, s) else (e_none, record s { custom_display = display })

  -- OledDisplay::setParams never refuses.
  unfoldable pub initialize_oled_display : OledDisplayParams → Site lib → ReturnCode × Site lib
  initialize_oled_display p s =
      (e_none, record s { board = record s.board { oled_params = p }; has_oled_display = true })

  unfoldable pub initialize_wifi : WifiParams → Site lib → ReturnCode × Site lib
  initialize_wifi p s =
      let r = set_wifi_params p s.board.wifi in
      (
        r.0,
        record s {
          board = record s.board { wifi = r.1 };
          has_wifi_connector = if failed r.0 then false else true;
        },
      )

  unfoldable pub initialize_wifi_access_point :
      (List ℕ → Bool) → WifiAccessPointParams → Site lib → ReturnCode × Site lib
  initialize_wifi_access_point parses p s =
      let r = set_ap_params parses p s.board.access_point in
      (
        r.0,
        record s {
          board = record s.board { access_point = r.1 };
          has_wifi_access_point = if failed r.0 then false else true;
        },
      )

  unfoldable pub initialize_device_portal : DevicePortalParams → Site lib → ReturnCode × Site lib
  initialize_device_portal p s =
      let r = set_portal_params p s.board.portal_params in
      (
        r.0,
        record s {
          board = record s.board { portal_params = r.1 };
          has_device_portal = if failed r.0 then false else true;
        },
      )

-- What the controller's constructor finds: its memory, the chip's id as a seed, and random bytes
pub record StartInputs : Type 0 where
  pub memory : DeviceInclusionState
  pub seed : ℕ
  pub random_key : List ℕ

-- The storage as initialize opens it: the code of setParams is not looked at.
unfoldable pub open_device_storage :
    (lib : Eeprom) → EepromStorage lib → ReturnCode × EepromStorage lib
open_device_storage lib s = begin lib (Operations.set_params lib eeprom_storage_max_size s).1

module _ (prim : Primitives) (lib : Eeprom) (pad : ℕ) where
  -- initialize, with the opening of the storage
  unfoldable pub initialize_device : StartInputs → Site lib → ReturnCode × Site lib
  initialize_device w s =
      let r = open_device_storage lib s.device.stored in
      let d : Device (EepromStorage lib) = record s.device { stored = r.1 } in
      if failed r.0 then (r.0, record s { device = d }) else (
        e_none,
        record s { device = initialize prim (eeprom_store lib pad) w.memory w.seed w.random_key d },
      )
