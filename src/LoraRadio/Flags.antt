-- ===== src/LoraRadio/Flags.antt =====
-- The interrupt flags of hardware/src/radio/LoraRadio.cpp over any sequence of interrupts and calls.
use radio_mesh.Base.{
  ℕ, ◌+◌, ◌≤◌, ◌≡◌, refl, inl, inr, Bool, true, false, List, [], ◌∷◌, Bool-cases, arith,
}
use radio_mesh.Codes.{ReturnCode, e_none, error, failed}
use radio_mesh.LoraRadio.Driver.{
  LoraRadio, DriverStatus, IrqStatus, ReceiveAnswer, rx_tx_state, tx_state, reset_radio_state,
  on_interrupt, check_and_clear_rx_flag, check_and_clear_tx_flag, read_received_data,
  read_of_length, get_radio_state_error, switch_to_receive_mode,
}

-- An interrupt, or a call of the device's loop. A transmission clears the flag of the sender.
pub data Event : Type 0 where
  interrupt : IrqStatus → Event
  check_rx : Event
  check_tx : Event
  transmit : Event
  read_packet : ReceiveAnswer → Event
  ask_error : DriverStatus → Event

-- What an event leaves
unfoldable pub after : Event → LoraRadio → LoraRadio
after (interrupt irq) s = on_interrupt irq s
after check_rx s = (check_and_clear_rx_flag s).1
after check_tx s = (check_and_clear_tx_flag s).1
after transmit s = reset_radio_state tx_state s
after (read_packet r) s = (read_received_data r s).2
after (ask_error answer) s = (get_radio_state_error answer s).1

abbrev pub number_of : Bool → ℕ
number_of true = 1
number_of false = 0

-- Whether an event reports a received packet, and whether it is the arrival of one
unfoldable pub reported : Event → LoraRadio → ℕ
reported check_rx s = number_of (check_and_clear_rx_flag s).0
reported _ s = 0

unfoldable pub arrived : Event → ℕ
arrived (interrupt irq) = number_of irq.irq_rx_done
arrived _ = 0

unfoldable pub run_all : List Event → LoraRadio → LoraRadio
run_all [] s = s
run_all (e ∷ es) s = run_all es (after e s)

unfoldable pub reports : List Event → LoraRadio → ℕ
reports [] s = 0
reports (e ∷ es) s = reported e s + reports es (after e s)

unfoldable pub arrivals : List Event → ℕ
arrivals [] = 0
arrivals (e ∷ es) = arrived e + arrivals es

rx_of_switch :
    (answer : DriverStatus) (s : LoraRadio)
    → s.rx_done ≡ false
    → (switch_to_receive_mode answer s).1.rx_done ≡ false
unfolding switch_to_receive_mode reset_radio_state
rx_of_switch answer s h = elim (Bool-cases s.is_setup) [
  | inl e ↦ ground (arith, e)
  | inr e ↦ ground (arith, e, h)
]

rx_of_read :
    (r : ReceiveAnswer) (s : LoraRadio)
    → number_of (read_received_data r s).2.rx_done ≤ number_of s.rx_done
unfolding read_received_data read_of_length reset_radio_state
rx_of_read r s = ground arith

rx_of_error :
    (answer : DriverStatus) (s : LoraRadio)
    → number_of (get_radio_state_error answer s).1.rx_done ≤ number_of s.rx_done
unfolding get_radio_state_error reset_radio_state
rx_of_error answer s = elim (Bool-cases (failed s.radio_state_error)) [
  | inl bad ↦
      let e = rx_of_switch answer (reset_radio_state rx_tx_state s) refl in ground (arith, bad, e)
  | inr good ↦ ground (arith, good)
]

one_step :
    (e : Event) (s : LoraRadio)
    → reported e s + number_of (after e s).rx_done ≤ arrived e + number_of s.rx_done
unfolding reported after arrived on_interrupt check_and_clear_rx_flag check_and_clear_tx_flag
    reset_radio_state
one_step (interrupt irq) s = ground arith
one_step check_rx s = ground arith
one_step check_tx s = ground arith
one_step transmit s = ground arith
one_step (read_packet r) s = omega (arith, rx_of_read r s)
one_step (ask_error answer) s = omega (arith, rx_of_error answer s)

-- Over any sequence of interrupts, checks of both flags, transmissions, reads of a packet and questions for the
-- error, checkAndClearRxFlag reports at most as many packets as have arrived, and one more if one was pending
-- at the start: no packet is reported twice.
pub reports-le_arrivals :
    (es : List Event) (s : LoraRadio) → reports es s ≤ arrivals es + number_of s.rx_done
unfolding reports arrivals
reports-le_arrivals [] s = omega arith
reports-le_arrivals (e ∷ es) s = omega (arith, one_step e s, reports-le_arrivals es (after e s))

-- getRadioStateError answers RM_E_NONE whatever error an interrupt has left.
pub get_radio_state_error-e_none :
    (answer : DriverStatus) (s : LoraRadio) → (get_radio_state_error answer s).0 ≡ e_none
unfolding get_radio_state_error switch_to_receive_mode reset_radio_state
get_radio_state_error-e_none answer s = none_left s.radio_state_error refl
  where
    none_left :
        (rc : ReturnCode) → s.radio_state_error ≡ rc → (get_radio_state_error answer s).0 ≡ e_none
    none_left e_none e = ground (arith, e)
    none_left (error n) e = elim (Bool-cases s.is_setup) [
      | inl on ↦ ground (arith, e, on)
      | inr off ↦ ground (arith, e, off)
    ]

-- Where a packet was read, the sender's flag is gone with the receiver's: a transmission that ended
-- before is not reported.
pub read_received_data-lost_tx :
    (r : ReceiveAnswer) (s : LoraRadio)
    → (read_received_data r s).0 ≡ e_none
    → (check_and_clear_tx_flag (read_received_data r s).2).0 ≡ false
unfolding read_received_data read_of_length reset_radio_state check_and_clear_tx_flag
read_received_data-lost_tx r s done = ground (arith, done)
