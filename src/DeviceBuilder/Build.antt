-- ===== src/DeviceBuilder/Build.antt =====
-- build of framework/builder/src/DeviceBuilder.cpp: its steps, in their order.
use radio_mesh.Base.{ℕ, Bool, false, List, ◌==◌, if◌then◌else◌}
use radio_mesh.Codes.{ReturnCode, failed}
use radio_mesh.Types.{MeshDeviceType}
use radio_mesh.Crypto.Primitives.{Primitives}
use radio_mesh.EepromStorage.{Eeprom}
use radio_mesh.DeviceBuilder.{DeviceBuilder}
use radio_mesh.DeviceBuilder.SetUp.{
  Site, StartInputs, initialize_device, set_device_type, register_callback, register_tx_callback,
  enable_relay, initialize_radio, initialize_aes_crypto, set_custom_display,
  initialize_oled_display, initialize_wifi, initialize_wifi_access_point, initialize_device_portal,
}

-- A step went well, or ended the build; either way it leaves a board and a storage.
pub data Outcome (lib : Eeprom) : Type 0 where
  went : Site lib → Outcome lib
  ended : Site lib → Outcome lib

module _ {lib : Eeprom} where
  abbrev pub site_of : Outcome lib → Site lib
  site_of (went s) = s
  site_of (ended s) = s

  abbrev pub and_then : Outcome lib → (Site lib → Outcome lib) → Outcome lib
  and_then (went s) f = f s
  and_then (ended s) f = ended s

  -- `if (build_error != RM_E_NONE) … return nullptr`
  abbrev pub unless_failed : ReturnCode × Site lib → Outcome lib
  unless_failed r = if failed r.0 then ended r.1 else went r.1

  unfoldable pub rx_step : DeviceBuilder → Site lib → Outcome lib
  rx_step b s =
      if b.blueprint.has_rx_callback
      then (if b.rx_callback == 0 then ended s else went (register_callback b.rx_callback s))
      else went s

  unfoldable pub tx_step : DeviceBuilder → Site lib → Outcome lib
  tx_step b s =
      if b.blueprint.has_tx_callback
      then (if b.tx_callback == 0 then ended s else went (register_tx_callback b.tx_callback s))
      else went s

  unfoldable pub radio_step : DeviceBuilder → Site lib → Outcome lib
  radio_step b s =
      if b.blueprint.has_radio then unless_failed (initialize_radio b.radio_params s) else went s

  unfoldable pub relay_step : DeviceBuilder → Site lib → Outcome lib
  relay_step b s = if b.blueprint.can_relay then went (enable_relay b.relay_enabled s) else went s

  unfoldable pub crypto_step : DeviceBuilder → Site lib → Outcome lib
  crypto_step b s =
      if b.blueprint.uses_crypto
      then unless_failed (initialize_aes_crypto b.security_params s)
      else went s

  -- The code of setCustomDisplay is not looked at, after the test for null.
  unfoldable pub display_step : DeviceBuilder → Site lib → Outcome lib
  display_step b s =
      if b.blueprint.has_display
      then (if b.use_custom_display
          then (if b.custom_display == 0
              then ended s
              else went (set_custom_display b.custom_display s).1)
          else unless_failed (initialize_oled_display b.oled_display_params s))
      else went s

  unfoldable pub wifi_step : DeviceBuilder → Site lib → Outcome lib
  wifi_step b s =
      if b.blueprint.has_wifi then unless_failed (initialize_wifi b.wifi_params s) else went s

  unfoldable pub access_point_step : (List ℕ → Bool) → DeviceBuilder → Site lib → Outcome lib
  access_point_step parses b s =
      if b.blueprint.has_wifi_access_point
      then unless_failed (initialize_wifi_access_point parses b.wifi_ap_params s)
      else went s

  unfoldable pub portal_step : DeviceBuilder → Site lib → Outcome lib
  portal_step b s =
      if b.blueprint.has_device_portal
      then (if b.blueprint.has_wifi_access_point
          then unless_failed (initialize_device_portal b.device_portal_params s)
          else ended s)
      else went s

  -- The steps after the device's type is set
  unfoldable pub features : (List ℕ → Bool) → DeviceBuilder → Site lib → Outcome lib
  features parses b s =
      let o1 = rx_step b s in
      let o2 = and_then o1 (tx_step b) in
      let o3 = and_then o2 (radio_step b) in
      let o4 = and_then o3 (relay_step b) in
      let o5 = and_then o4 (crypto_step b) in
      let o6 = and_then o5 (display_step b) in
      let o7 = and_then o6 (wifi_step b) in
      let o8 = and_then o7 (access_point_step parses b) in and_then o8 (portal_step b)

  -- `isBuilderStarted = false` is reached only by a build that goes well.
  unfoldable pub builder_after : Outcome lib → DeviceBuilder → DeviceBuilder
  builder_after (went t) b = record b { is_builder_started = false }
  builder_after (ended t) b = b

module _ (prim : Primitives) (lib : Eeprom) (pad : ℕ) (parses : List ℕ → Bool) where
  -- build, from the device that the constructor makes on the board: whether it returns that device or a
  -- null pointer, what it leaves, and the builder
  unfoldable pub build :
      MeshDeviceType → StartInputs → DeviceBuilder → Site lib → Outcome lib × DeviceBuilder
  build device_type w b s =
      let made = unless_failed (initialize_device prim lib pad w s) in
      let result = and_then made (λ t. features parses b (set_device_type device_type t)) in
      if b.is_builder_started then (result, builder_after result b) else (ended s, b)
