-- ===== src/Wifi.antt =====
-- hardware/src/wifi/WifiConnector.cpp and WifiAccessPoint.cpp on a board with WiFi. What the WiFi library
-- answers is an input.
pub mod Connector
pub mod AccessPoint
use radio_mesh.Base.{
  ℕ, Bool, true, false, ◌&&◌, ◌||◌, Option, none, some, List, [], ◌∷◌, length, is_empty, bytes_eq,
  ltb, if◌then◌else◌,
}
use radio_mesh.Base.Int.{ℤ, negsuc, ltb_ℤ}
use radio_mesh.Codes.{
  ReturnCode, e_none, e_invalid_param, e_invalid_wifi_params, e_invalid_ap_params,
  e_wifi_ssid_not_available, e_wifi_connection_failed, e_wifi_disconnect_failed,
  e_wifi_ap_already_started, e_wifi_ap_start_failed, e_wifi_ap_stop_failed,
}

pub record WifiParams : Type 0 where
  pub ssid : List ℕ
  pub password : List ℕ

pub data SignalIndicator : Type 0 where
  no_signal weak fair good excellent : SignalIndicator

pub record WifiConnector : Type 0 where
  pub params : WifiParams
  pub connected : Bool
  pub ip_address : List ℕ
  pub mac_address : List ℕ
  pub signal_indicator : SignalIndicator

-- What the library answers: the names that a scan finds, or `none` where it fails, whether the status
-- after the wait is WL_CONNECTED, and the addresses.
pub record WifiAnswers : Type 0 where
  pub networks : Option (List (List ℕ))
  pub is_connected : Bool
  pub local_ip : List ℕ
  pub mac : List ℕ

unfoldable pub set_wifi_params : WifiParams → WifiConnector → ReturnCode × WifiConnector
set_wifi_params p s =
    if is_empty p.ssid || is_empty p.password
    then (e_invalid_wifi_params, s)
    else (if ltb 32 (length p.ssid)
        then (e_invalid_wifi_params, s)
        else (if ltb 64 (length p.password)
            then (e_invalid_wifi_params, s)
            else (e_none, record s { params = p })))

unfoldable pub is_among : List ℕ → List (List ℕ) → Bool
is_among ssid [] = false
is_among ssid (name ∷ names) = bytes_eq name ssid || is_among ssid names

-- ssidAvailable
unfoldable pub ssid_available : List ℕ → Option (List (List ℕ)) → Bool
ssid_available ssid none = false
ssid_available ssid (some names) = is_among ssid names

-- getAvailableNetworks
unfoldable pub available_networks : Option (List (List ℕ)) → List (List ℕ)
available_networks none = []
available_networks (some names) = names

unfoldable pub update_connection_details : WifiParams → WifiAnswers → WifiConnector → WifiConnector
update_connection_details p a s =
    if s.connected then record s { params = p; ip_address = a.local_ip; mac_address = a.mac } else s

unfoldable pub reset_connection_details : WifiConnector → WifiConnector
reset_connection_details s = record s {
  ip_address = [];
  mac_address = [];
  signal_indicator = no_signal;
  params = record { ssid = []; password = [] };
}

-- The end of connect, from the name and password that it goes by
unfoldable pub connect_to : WifiParams → WifiAnswers → WifiConnector → ReturnCode × WifiConnector
connect_to p a s =
    if ltb 32 (length p.ssid)
    then (e_invalid_param, s)
    else (if ltb 64 (length p.password)
        then (e_invalid_param, s)
        else (if bytes_eq p.ssid s.params.ssid && s.connected
            then (e_none, s)
            else (if ssid_available p.ssid a.networks
                then (if a.is_connected
                    then (e_none, update_connection_details p a (record s { connected = true }))
                    else (e_wifi_connection_failed, s))
                else (e_wifi_ssid_not_available, s))))

unfoldable pub connect : WifiParams → WifiAnswers → WifiConnector → ReturnCode × WifiConnector
connect p a s =
    if is_empty p.ssid || is_empty p.password
    then (if is_empty s.params.ssid || is_empty s.params.password
        then (e_invalid_param, s)
        else connect_to s.params a s)
    else connect_to p a s

unfoldable pub reconnect : WifiAnswers → WifiConnector → ReturnCode × WifiConnector
reconnect a s = connect s.params a s

-- getSignalIndicator, from the RSSI in dBm
unfoldable pub indicator_of : ℤ → SignalIndicator
indicator_of rssi =
    if ltb_ℤ (negsuc 59) rssi
    then excellent
    else (if ltb_ℤ (negsuc 69) rssi
        then good
        else (if ltb_ℤ (negsuc 79) rssi
            then fair
            else (if ltb_ℤ (negsuc 89) rssi then weak else no_signal)))

unfoldable pub get_signal_indicator : ℤ → WifiConnector → SignalIndicator × WifiConnector
get_signal_indicator rssi s =
    let i = if s.connected then indicator_of rssi else no_signal in
    (i, record s { signal_indicator = i })

-- disconnect, with what the library's disconnect answers
unfoldable pub disconnect : Bool → WifiConnector → ReturnCode × WifiConnector
disconnect answer s =
    if answer
    then (e_none, reset_connection_details (record s { connected = false }))
    else (e_wifi_disconnect_failed, s)

pub record WifiAccessPointParams : Type 0 where
  pub ap_ssid : List ℕ
  pub ap_password : List ℕ
  pub ip_address : List ℕ

pub record WifiAccessPoint : Type 0 where
  pub ap_params : WifiAccessPointParams
  pub is_started : Bool

-- "0.0.0.0"
abbrev pub no_address : List ℕ
no_address = b'0' ∷ b'.' ∷ b'0' ∷ b'.' ∷ b'0' ∷ b'.' ∷ b'0' ∷ []

-- `parses` is the answer of IPAddress::fromString to the address.
module _ (parses : List ℕ → Bool) where
  unfoldable pub set_ap_params :
      WifiAccessPointParams → WifiAccessPoint → ReturnCode × WifiAccessPoint
  set_ap_params p s =
      if is_empty p.ap_ssid || (is_empty p.ap_password || is_empty p.ip_address)
      then (e_invalid_ap_params, s)
      else (if ltb 64 (length p.ap_ssid)
          then (e_invalid_ap_params, s)
          else (if ltb (length p.ap_password) 8
              then (e_invalid_ap_params, s)
              else (if parses p.ip_address
                  then (e_none, record s { ap_params = p })
                  else (e_invalid_ap_params, s))))

  unfoldable pub setup_ap : WifiAccessPointParams → WifiAccessPoint → ReturnCode × WifiAccessPoint
  setup_ap p s =
      if s.is_started
      then (e_wifi_ap_already_started, s)
      else (if is_empty p.ap_ssid || (is_empty p.ap_password || bytes_eq p.ip_address no_address)
          then (e_invalid_param, s)
          else (if ltb 64 (length p.ap_ssid)
              then (e_invalid_param, s)
              else (if ltb (length p.ap_password) 8
                  then (e_invalid_param, s)
                  else (if parses p.ip_address
                      then (e_none, record s { ap_params = p })
                      else (e_invalid_ap_params, s)))))

  -- start, with the answers of WiFi.mode, softAP and softAPConfig
  unfoldable pub start_ap : Bool → Bool → Bool → WifiAccessPoint → ReturnCode × WifiAccessPoint
  start_ap mode_set ap_set config_set s =
      if s.is_started
      then (e_wifi_ap_already_started, s)
      else (if parses s.ap_params.ip_address && (mode_set && (ap_set && config_set))
          then (e_none, record s { is_started = true })
          else (e_wifi_ap_start_failed, s))

-- stop, with the answer of softAPdisconnect
unfoldable pub stop_ap : Bool → WifiAccessPoint → ReturnCode × WifiAccessPoint
stop_ap answer s =
    if s.is_started
    then (if answer
        then (
          e_none,
          record s {
            is_started = false;
            ap_params = record { ap_ssid = []; ap_password = []; ip_address = no_address };
          },
        )
        else (e_wifi_ap_stop_failed, s))
    else (e_none, s)
