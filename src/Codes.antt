-- ===== src/Codes.antt =====
-- The return codes of common/inc/Errors.h. A negative code -n is `error n`; RM_E_NONE is 0.
use radio_mesh.Base.{ℕ, Bool, true, false}

pub data ReturnCode : Type 0 where
  e_none : ReturnCode
  error : ℕ → ReturnCode

-- `rc != RM_E_NONE`
abbrev pub failed : ReturnCode → Bool
failed e_none = false
failed (error n) = true

abbrev pub e_unknown : ReturnCode
e_unknown = error 1

abbrev pub e_invalid_param : ReturnCode
e_invalid_param = error 2

abbrev pub e_packet_too_long : ReturnCode
e_packet_too_long = error 3

abbrev pub e_invalid_length : ReturnCode
e_invalid_length = error 4

abbrev pub e_not_implemented : ReturnCode
e_not_implemented = error 5

abbrev pub e_not_supported : ReturnCode
e_not_supported = error 6

abbrev pub e_packet_corrupted : ReturnCode
e_packet_corrupted = error 7

abbrev pub e_max_hops : ReturnCode
e_max_hops = error 8

abbrev pub e_invalid_device_type : ReturnCode
e_invalid_device_type = error 9

abbrev pub e_device_initialization_failed : ReturnCode
e_device_initialization_failed = error 10

abbrev pub e_radio_setup : ReturnCode
e_radio_setup = error 101

abbrev pub e_radio_tx : ReturnCode
e_radio_tx = error 102

abbrev pub e_radio_rx : ReturnCode
e_radio_rx = error 103

abbrev pub e_radio_tx_timeout : ReturnCode
e_radio_tx_timeout = error 104

abbrev pub e_radio_rx_timeout : ReturnCode
e_radio_rx_timeout = error 105

abbrev pub e_radio_not_initialized : ReturnCode
e_radio_not_initialized = error 106

abbrev pub e_radio_already_setup : ReturnCode
e_radio_already_setup = error 107

abbrev pub e_radio_crc_mismatch : ReturnCode
e_radio_crc_mismatch = error 108

abbrev pub e_radio_failure : ReturnCode
e_radio_failure = error 109

abbrev pub e_invalid_radio_params : ReturnCode
e_invalid_radio_params = error 110

abbrev pub e_radio_header_crc_mismatch : ReturnCode
e_radio_header_crc_mismatch = error 111

abbrev pub e_display_setup : ReturnCode
e_display_setup = error 201

abbrev pub e_display_failure : ReturnCode
e_display_failure = error 202

abbrev pub e_display_not_setup : ReturnCode
e_display_not_setup = error 203

abbrev pub e_display_invalid_font : ReturnCode
e_display_invalid_font = error 204

abbrev pub e_display_draw_string : ReturnCode
e_display_draw_string = error 205

abbrev pub e_display_draw_number : ReturnCode
e_display_draw_number = error 206

abbrev pub e_display_invalid_coords : ReturnCode
e_display_invalid_coords = error 207

abbrev pub e_display_invalid_rotation : ReturnCode
e_display_invalid_rotation = error 208

abbrev pub e_display_invalid_brightness : ReturnCode
e_display_invalid_brightness = error 209

abbrev pub e_wifi_ssid_not_available : ReturnCode
e_wifi_ssid_not_available = error 301

abbrev pub e_wifi_connection_failed : ReturnCode
e_wifi_connection_failed = error 302

abbrev pub e_wifi_disconnect_failed : ReturnCode
e_wifi_disconnect_failed = error 303

abbrev pub e_wifi_ssid_not_set : ReturnCode
e_wifi_ssid_not_set = error 304

abbrev pub e_wifi_ap_already_started : ReturnCode
e_wifi_ap_already_started = error 305

abbrev pub e_wifi_ap_start_failed : ReturnCode
e_wifi_ap_start_failed = error 306

abbrev pub e_wifi_ap_stop_failed : ReturnCode
e_wifi_ap_stop_failed = error 307

abbrev pub e_wifi_ap_setup : ReturnCode
e_wifi_ap_setup = error 308

abbrev pub e_invalid_wifi_params : ReturnCode
e_invalid_wifi_params = error 309

abbrev pub e_invalid_ap_params : ReturnCode
e_invalid_ap_params = error 310

abbrev pub e_crypto_setup : ReturnCode
e_crypto_setup = error 401

abbrev pub e_invalid_crypto_params : ReturnCode
e_invalid_crypto_params = error 402

abbrev pub e_auth_failed : ReturnCode
e_auth_failed = error 403

abbrev pub e_storage_setup : ReturnCode
e_storage_setup = error 501

abbrev pub e_storage_not_init : ReturnCode
e_storage_not_init = error 502

abbrev pub e_storage_key_not_found : ReturnCode
e_storage_key_not_found = error 503

abbrev pub e_storage_read_failed : ReturnCode
e_storage_read_failed = error 504

abbrev pub e_storage_write_failed : ReturnCode
e_storage_write_failed = error 505

abbrev pub e_storage_not_enough_space : ReturnCode
e_storage_not_enough_space = error 506

abbrev pub e_storage_invalid_size : ReturnCode
e_storage_invalid_size = error 507

abbrev pub e_invalid_state : ReturnCode
e_invalid_state = error 601

abbrev pub e_inclusion_failed : ReturnCode
e_inclusion_failed = error 602

abbrev pub e_device_not_included : ReturnCode
e_device_not_included = error 603
