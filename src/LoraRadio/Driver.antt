-- ===== src/LoraRadio/Driver.antt =====
-- hardware/src/radio/LoraRadio.cpp and hardware/inc/radio/LoraRadio.h over RadioLib, with the parameters of
-- common/inc/RadioConfigs.h. What RadioLib answers is an input. A call on a radio whose driver was never
-- made reads a null pointer, and is `none` here.
use radio_mesh.Base.{
  ℕ, Bool, true, false, ◌||◌, Option, none, some, List, [], ltb, ◌==◌, if◌then◌else◌,
}
use radio_mesh.Base.Int.{ℤ, pos, negsuc, ltb_ℤ}
use radio_mesh.Codes.{
  ReturnCode, e_none, failed, e_invalid_param, e_invalid_radio_params, e_radio_setup,
  e_radio_failure, e_radio_not_initialized, e_radio_rx_timeout, e_radio_tx_timeout,
  e_radio_crc_mismatch, e_radio_header_crc_mismatch,
}
use radio_mesh.LoraRadio.{TransmitStatus, send_code}

pub record PinConfig : Type 0 where
  pub ss : ℕ
  pub rst : ℕ
  pub di0 : ℕ
  pub di1 : ℕ

abbrev pub pin_undefined : ℕ
pin_undefined = 0

-- The band in kHz and the bandwidth in Hz: each setting of a radio is a whole number of these.
pub record LoraRadioParams : Type 0 where
  pub pin_config : PinConfig
  pub band : ℕ
  pub tx_power : ℤ
  pub bw : ℕ
  pub sf : ℕ
  pub gain : ℕ
  pub private_network : Bool

-- The codes of RadioLib that the source tells apart
pub data DriverStatus : Type 0 where
  done invalid_frequency invalid_bandwidth invalid_spreading_factor invalid_output_power
        other_error :
      DriverStatus

abbrev pub is_done : DriverStatus → Bool
is_done done = true
is_done _ = false

-- The driver object behind `radio`: none yet, made, or made and begun
pub data Driver : Type 0 where
  no_driver created started : Driver

abbrev pub has_driver : Driver → Bool
has_driver no_driver = false
has_driver _ = true

pub record LoraRadio : Type 0 where
  pub rx_done : Bool
  pub tx_done : Bool
  pub is_setup : Bool
  pub radio_state_error : ReturnCode
  pub radio_params : LoraRadioParams
  pub driver : Driver

-- The arguments RX_TX_STATE, RX_STATE and TX_STATE of resetRadioState
pub data ResetFlag : Type 0 where
  rx_tx_state rx_state tx_state : ResetFlag

unfoldable pub reset_radio_state : ResetFlag → LoraRadio → LoraRadio
reset_radio_state rx_tx_state s = record s {
  rx_done = false;
  tx_done = false;
  radio_state_error = e_none;
}
reset_radio_state rx_state s = record s { rx_done = false; radio_state_error = e_none }
reset_radio_state tx_state s = record s { tx_done = false; radio_state_error = e_none }

-- checkLoraParameters; a uint8_t is never below 0.
unfoldable pub check_lora_parameters : LoraRadioParams → ReturnCode
check_lora_parameters p =
    if ltb p.sf 6 || ltb 12 p.sf
    then e_invalid_param
    else (if ltb p.band 150000 || ltb 960000 p.band
        then e_invalid_param
        else (if ltb_ℤ p.tx_power (negsuc 8) || ltb_ℤ (pos 22) p.tx_power
            then e_invalid_param
            else (if ltb p.bw 7800 || ltb 500000 p.bw
                then e_invalid_param
                else (if ltb 3 p.gain then e_invalid_param else e_none))))

unfoldable pub set_radio_params : LoraRadioParams → LoraRadio → ReturnCode × LoraRadio
set_radio_params p s =
    if failed (check_lora_parameters p)
    then (e_invalid_radio_params, s)
    else (e_none, record s { radio_params = p })

-- createModule: a new driver takes the place of the one before, and the parameters are kept.
unfoldable pub create_module : LoraRadioParams → LoraRadio → ReturnCode × LoraRadio
create_module p s =
    if p.pin_config.ss == pin_undefined
    then (e_invalid_radio_params, s)
    else (e_none, record s { driver = created; radio_params = p })

unfoldable pub start_receive : DriverStatus → LoraRadio → ReturnCode
start_receive answer s =
    if s.is_setup
    then (if is_done answer then e_none else e_radio_not_initialized)
    else e_radio_not_initialized

-- What RadioLib answers to the calls of setup
pub record SetupAnswers : Type 0 where
  pub begun : DriverStatus
  pub frequency : DriverStatus
  pub bandwidth : DriverStatus
  pub spreading_factor : DriverStatus
  pub output_power : DriverStatus
  pub sync_word : DriverStatus
  pub receive : DriverStatus

abbrev pub is_invalid_frequency : DriverStatus → Bool
is_invalid_frequency invalid_frequency = true
is_invalid_frequency _ = false

abbrev pub is_invalid_bandwidth : DriverStatus → Bool
is_invalid_bandwidth invalid_bandwidth = true
is_invalid_bandwidth _ = false

abbrev pub is_invalid_spreading_factor : DriverStatus → Bool
is_invalid_spreading_factor invalid_spreading_factor = true
is_invalid_spreading_factor _ = false

abbrev pub is_invalid_output_power : DriverStatus → Bool
is_invalid_output_power invalid_output_power = true
is_invalid_output_power _ = false

-- The end of setup, once the radio has its interrupt handler
unfoldable pub finish_setup : LoraRadioParams → DriverStatus → LoraRadio → ReturnCode × LoraRadio
finish_setup p answer s =
    if failed (start_receive answer s)
    then (start_receive answer s, s)
    else (e_none, record s { radio_params = p })

-- The middle of setup: each parameter is set unless RadioLib calls it invalid.
unfoldable pub configure : LoraRadioParams → SetupAnswers → LoraRadio → ReturnCode × LoraRadio
configure p r s =
    if is_invalid_frequency r.frequency
    then (e_radio_setup, s)
    else (if is_invalid_bandwidth r.bandwidth
        then (e_radio_setup, s)
        else (if is_invalid_spreading_factor r.spreading_factor
            then (e_radio_setup, s)
            else (if is_invalid_output_power r.output_power
                then (e_radio_setup, s)
                else (if is_done r.sync_word
                    then finish_setup p r.receive (record s { is_setup = true })
                    else (e_radio_setup, s)))))

unfoldable pub setup : LoraRadioParams → SetupAnswers → LoraRadio → ReturnCode × LoraRadio
setup p r s =
    let made = create_module p s in
    if failed made.0
    then made
    else (if failed (check_lora_parameters p)
        then (check_lora_parameters p, made.1)
        else (if is_done r.begun
            then configure p r (record made.1 { driver = started })
            else (e_radio_setup, made.1)))

-- setup()
unfoldable pub setup_again : SetupAnswers → LoraRadio → ReturnCode × LoraRadio
setup_again r s = setup s.radio_params r s

-- startTransmitPacket and sendPacket
unfoldable pub send_packet : TransmitStatus → LoraRadio → Option (ReturnCode × LoraRadio)
send_packet answer s =
    if has_driver s.driver then some (send_code answer, reset_radio_state tx_state s) else none

-- standBy and sleep
unfoldable pub stand_by : DriverStatus → LoraRadio → Option ReturnCode
stand_by answer s =
    if has_driver s.driver then some (if is_done answer then e_none else e_radio_failure) else none

-- What RadioLib holds of a packet: a length, `none` where it is negative, and the bytes it reads with
-- the code of that.
pub record ReceiveAnswer : Type 0 where
  pub packet_length : Option ℕ
  pub packet_bytes : List ℕ
  pub read : DriverStatus

unfoldable pub read_of_length :
    Option ℕ → ReceiveAnswer → LoraRadio → ReturnCode × List ℕ × LoraRadio
read_of_length none r s = (e_radio_failure, [], s)
read_of_length (some n) r s =
    if is_done r.read
    then (e_none, r.packet_bytes, reset_radio_state rx_tx_state s)
    else (e_radio_failure, r.packet_bytes, s)

-- readReceivedData into an empty vector
unfoldable pub read_received_data : ReceiveAnswer → LoraRadio → ReturnCode × List ℕ × LoraRadio
read_received_data r s =
    if s.is_setup then read_of_length r.packet_length r s else (e_radio_not_initialized, [], s)

-- The bits of `getIrqFlags` that the handler looks at
pub record IrqStatus : Type 0 where
  pub irq_rx_done : Bool
  pub irq_tx_done : Bool
  pub irq_timeout : Bool
  pub irq_crc_err : Bool
  pub irq_header_err : Bool

-- The error of a timeout, by the flags, else the one before: the sender's comes last.
unfoldable pub timeout_error : LoraRadio → ReturnCode
timeout_error s =
    if s.tx_done
    then e_radio_tx_timeout
    else (if s.rx_done then e_radio_rx_timeout else s.radio_state_error)

unfoldable pub on_interrupt : IrqStatus → LoraRadio → LoraRadio
on_interrupt irq s =
    let marked : LoraRadio = record s {
      rx_done = irq.irq_rx_done || s.rx_done;
      tx_done = irq.irq_tx_done || s.tx_done;
    } in
    let timed = if irq.irq_timeout then timeout_error marked else s.radio_state_error in
    let checked = if irq.irq_crc_err then e_radio_crc_mismatch else timed in
    record marked {
      radio_state_error = if irq.irq_header_err then e_radio_header_crc_mismatch else checked;
    }

unfoldable pub check_and_clear_rx_flag : LoraRadio → Bool × LoraRadio
check_and_clear_rx_flag s = if s.rx_done then (true, record s { rx_done = false }) else (false, s)

unfoldable pub check_and_clear_tx_flag : LoraRadio → Bool × LoraRadio
check_and_clear_tx_flag s = if s.tx_done then (true, record s { tx_done = false }) else (false, s)

unfoldable pub switch_to_receive_mode : DriverStatus → LoraRadio → ReturnCode × LoraRadio
switch_to_receive_mode answer s =
    if s.is_setup
    then (start_receive answer s, reset_radio_state rx_tx_state s)
    else (e_radio_not_initialized, s)

-- getRadioStateError
unfoldable pub get_radio_state_error : DriverStatus → LoraRadio → ReturnCode × LoraRadio
get_radio_state_error answer s =
    let s' =
      if failed s.radio_state_error
      then (switch_to_receive_mode answer (reset_radio_state rx_tx_state s)).1
      else s in
    (s'.radio_state_error, s')
