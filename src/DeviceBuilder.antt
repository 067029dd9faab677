-- ===== src/DeviceBuilder.antt =====
-- framework/builder/src/DeviceBuilder.cpp and framework/builder/inc/DeviceBuilder.h: what a program asks for
-- before it builds a device. A pointer is a number, and 0 where it is null.
pub mod SetUp
pub mod Build
pub mod Requirements
pub mod FirstStart
use radio_mesh.Base.{ℕ, Bool, true, false, List, []}
use radio_mesh.Crypto.Aes.{SecurityParams}
use radio_mesh.LoraRadio.Driver.{LoraRadioParams}
use radio_mesh.Wifi.{WifiParams, WifiAccessPointParams}

-- DeviceBlueprint
pub record Blueprint : Type 0 where
  pub has_radio : Bool
  pub can_relay : Bool
  pub has_display : Bool
  pub uses_crypto : Bool
  pub has_rx_callback : Bool
  pub has_tx_callback : Bool
  pub has_wifi : Bool
  pub has_wifi_access_point : Bool
  pub has_device_portal : Bool

-- The pins and the font of a display
pub record OledDisplayParams : Type 0 where
  pub clock_pin : ℕ
  pub data_pin : ℕ
  pub reset_pin : ℕ
  pub font_id : ℕ

-- The handlers of a portal's events are not looked at here.
pub record DevicePortalParams : Type 0 where
  pub title : List ℕ
  pub index_html : List ℕ
  pub web_port : ℕ
  pub dns_port : ℕ

pub record DeviceBuilder : Type 0 where
  pub is_builder_started : Bool
  pub blueprint : Blueprint
  pub radio_params : LoraRadioParams
  pub security_params : SecurityParams
  pub oled_display_params : OledDisplayParams
  pub wifi_params : WifiParams
  pub wifi_ap_params : WifiAccessPointParams
  pub device_portal_params : DevicePortalParams
  pub relay_enabled : Bool
  pub rx_callback : ℕ
  pub tx_callback : ℕ
  pub custom_display : ℕ
  pub use_custom_display : Bool

abbrev pub empty_blueprint : Blueprint
empty_blueprint = record {
  has_radio = false;
  can_relay = false;
  has_display = false;
  uses_crypto = false;
  has_rx_callback = false;
  has_tx_callback = false;
  has_wifi = false;
  has_wifi_access_point = false;
  has_device_portal = false;
}

-- start: the parameters of an earlier build stay, but nothing is asked for.
unfoldable pub start : DeviceBuilder → DeviceBuilder
start b = record b { blueprint = empty_blueprint; relay_enabled = false; is_builder_started = true }

unfoldable pub with_rx_packet_callback : ℕ → DeviceBuilder → DeviceBuilder
with_rx_packet_callback callback b = record b {
  blueprint = record b.blueprint { has_rx_callback = true };
  rx_callback = callback;
}

unfoldable pub with_tx_packet_callback : ℕ → DeviceBuilder → DeviceBuilder
with_tx_packet_callback callback b = record b {
  blueprint = record b.blueprint { has_tx_callback = true };
  tx_callback = callback;
}

unfoldable pub with_lora_radio : LoraRadioParams → DeviceBuilder → DeviceBuilder
with_lora_radio params b = record b {
  blueprint = record b.blueprint { has_radio = true };
  radio_params = params;
}

unfoldable pub with_relay_enabled : Bool → DeviceBuilder → DeviceBuilder
with_relay_enabled enabled b = record b {
  blueprint = record b.blueprint { can_relay = true };
  relay_enabled = enabled;
}

unfoldable pub with_secure_messaging : SecurityParams → DeviceBuilder → DeviceBuilder
with_secure_messaging params b = record b {
  blueprint = record b.blueprint { uses_crypto = true };
  security_params = params;
}

unfoldable pub with_oled_display : OledDisplayParams → DeviceBuilder → DeviceBuilder
with_oled_display params b = record b {
  blueprint = record b.blueprint { has_display = true };
  oled_display_params = params;
  use_custom_display = false;
}

unfoldable pub with_custom_display : ℕ → DeviceBuilder → DeviceBuilder
with_custom_display display b = record b {
  blueprint = record b.blueprint { has_display = true };
  use_custom_display = true;
  custom_display = display;
}

unfoldable pub with_wifi : WifiParams → DeviceBuilder → DeviceBuilder
with_wifi params b = record b {
  blueprint = record b.blueprint { has_wifi = true };
  wifi_params = params;
}

unfoldable pub with_wifi_access_point : WifiAccessPointParams → DeviceBuilder → DeviceBuilder
with_wifi_access_point params b = record b {
  blueprint = record b.blueprint { has_wifi_access_point = true };
  wifi_ap_params = params;
}

unfoldable pub with_device_portal : DevicePortalParams → DeviceBuilder → DeviceBuilder
with_device_portal params b = record b {
  blueprint = record b.blueprint { has_device_portal = true };
  device_portal_params = params;
}
