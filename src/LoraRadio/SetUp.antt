-- ===== src/LoraRadio/SetUp.antt =====
-- setParams and setup of hardware/src/radio/LoraRadio.cpp: what is accepted, and what is left behind.
use radio_mesh.Base.{
  ℕ, ◌≤◌, ◌≡◌, ◌≢◌, ◌↔◌, refl, subst, ◌⊎◌, inl, inr, Bool, true, false, ◌==◌, Bool-cases, arith,
  if◌then◌else◌,
}
use radio_mesh.Base.Int.{pos, negsuc, ◌≤ℤ◌}
use radio_mesh.Codes.{ReturnCode, e_none, error, failed, e_radio_setup}
use radio_mesh.LoraRadio.Driver.{
  LoraRadioParams, LoraRadio, DriverStatus, SetupAnswers, created, started, is_done,
  check_lora_parameters, set_radio_params, create_module, start_receive, finish_setup, configure,
  setup, is_invalid_frequency, is_invalid_bandwidth, is_invalid_spreading_factor,
  is_invalid_output_power,
}

failed_ne : (rc : ReturnCode) → failed rc ≡ true → rc ≢ e_none
failed_ne e_none h e = absurd (ground (arith, h))
failed_ne (error n) h e = absurd (ground (arith, e))

-- The ranges of an SX1262
abbrev pub InRange : LoraRadioParams → Type 0
InRange p =
    (6 ≤ p.sf)
    × (p.sf ≤ 12)
    × (150000 ≤ p.band)
    × (p.band ≤ 960000)
    × (negsuc 8 ≤ℤ p.tx_power)
    × (p.tx_power ≤ℤ pos 22)
    × (7800 ≤ p.bw)
    × (p.bw ≤ 500000)
    × (p.gain ≤ 3)

check_lora_parameters_sound :
    (p : LoraRadioParams) → failed (check_lora_parameters p) ≡ false → InRange p
unfolding check_lora_parameters
check_lora_parameters_sound p h = (
  ground (arith, h),
  ground (arith, h),
  ground (arith, h),
  ground (arith, h),
  ground (arith, h),
  ground (arith, h),
  ground (arith, h),
  ground (arith, h),
  ground (arith, h),
)

check_lora_parameters_complete :
    (p : LoraRadioParams) → InRange p → check_lora_parameters p ≡ e_none
unfolding check_lora_parameters
check_lora_parameters_complete p h = ground (arith, h)

-- setParams accepts exactly the parameters in the ranges of the radio, keeps them, and changes nothing
-- where it refuses.
pub set_radio_params_iff :
    (p : LoraRadioParams) (s : LoraRadio)
    → (((set_radio_params p s).0 ≡ e_none) ↔ InRange p)
      × ((set_radio_params p s ≡ (e_none, record s { radio_params = p }))
          ⊎ ((set_radio_params p s).1 ≡ s))
unfolding set_radio_params
set_radio_params_iff p s = elim (Bool-cases (failed (check_lora_parameters p))) [
  | inl bad ↦ (
    (
      λ e. absurd (ground (arith, bad, e)),
      λ h. absurd (ground (arith, bad, check_lora_parameters_complete p h)),
    ),
    inr (ground (arith, bad)),
  )
  | inr good ↦ (
    (λ e. check_lora_parameters_sound p good, λ h. ground (arith, good)),
    inl (ground (arith, good)),
  )
]

-- What a set-up that succeeds leaves
abbrev pub Ready : LoraRadioParams → LoraRadio → LoraRadio → Type 0
Ready p s s' = s' ≡ record s { is_setup = true; driver = started; radio_params = p }

finish_setup_sound :
    (p : LoraRadioParams) (answer : DriverStatus) (s : LoraRadio)
    → (finish_setup p answer s).0 ≡ e_none
    → (finish_setup p answer s).1 ≡ record s { radio_params = p }
unfolding finish_setup
finish_setup_sound p answer s done = elim (Bool-cases (failed (start_receive answer s))) [
  | inl bad ↦ absurd (failed_ne (start_receive answer s) bad (ground (arith, bad, done)))
  | inr good ↦ rw good refl
]

-- A refusal inside an `if` is not a success.
refused :
    {A : Type 0} (b : Bool) (n : ℕ) (x : A) (y : ReturnCode × A)
    → (if b then (error n, x) else y).0 ≡ e_none
    → (b ≡ false) × (y.0 ≡ e_none)
refused true n x y h = absurd (failed_ne (error n) refl h)
refused false n x y h = (refl, h)

configure_sound :
    (p : LoraRadioParams) (r : SetupAnswers) (s : LoraRadio)
    → (configure p r s).0 ≡ e_none
    → (configure p r s).1 ≡ record s { is_setup = true; radio_params = p }
unfolding configure
configure_sound p r s done =
    let last : ReturnCode × LoraRadio =
      if is_done r.sync_word
      then finish_setup p r.receive (record s { is_setup = true })
      else (e_radio_setup, s) in
    let d : ReturnCode × LoraRadio =
      if is_invalid_output_power r.output_power then (e_radio_setup, s) else last in
    let c : ReturnCode × LoraRadio =
      if is_invalid_spreading_factor r.spreading_factor then (e_radio_setup, s) else d in
    let b : ReturnCode × LoraRadio =
      if is_invalid_bandwidth r.bandwidth then (e_radio_setup, s) else c in
    let t1 = refused (is_invalid_frequency r.frequency) 101 s b done in
    let t2 = refused (is_invalid_bandwidth r.bandwidth) 101 s c t1.1 in
    let t3 = refused (is_invalid_spreading_factor r.spreading_factor) 101 s d t2.1 in
    let t4 = refused (is_invalid_output_power r.output_power) 101 s last t3.1 in
    elim (Bool-cases (is_done r.sync_word)) [
      | inl good ↦
          rw (t1.0, t2.0, t3.0, t4.0, good)
            (finish_setup_sound p r.receive (record s { is_setup = true })
              (subst
                (λ x.
                  (if x
                    then finish_setup p r.receive (record s { is_setup = true })
                    else (e_radio_setup, s)).0
                  ≡ e_none)
                good t4.1))
      | inr bad ↦ absurd (
          failed_ne e_radio_setup refl (
            subst
              (λ x.
                (if x
                  then finish_setup p r.receive (record s { is_setup = true })
                  else (e_radio_setup, s)).0
                ≡ e_none)
              bad t4.1))
    ]

-- setup succeeds only with parameters in the ranges of the radio and a slave select pin, and then the
-- driver has begun, the radio is set up and keeps the parameters, and its flags are as they were.
pub setup_sound :
    (p : LoraRadioParams) (r : SetupAnswers) (s : LoraRadio)
    → (setup p r s).0 ≡ e_none
    → InRange p
      × (p.pin_config.ss ≢ 0)
      × ((setup p r s).1 ≡ record s { is_setup = true; driver = started; radio_params = p })
unfolding setup create_module
setup_sound p r s done = elim (Bool-cases (p.pin_config.ss == 0)) [
  | inl bad ↦ absurd (ground (arith, bad, done))
  | inr pin ↦ elim (Bool-cases (failed (check_lora_parameters p))) [
    | inl bad ↦ absurd (ground (arith, pin, bad, done))
    | inr good ↦ elim (Bool-cases (is_done r.begun)) [
      | inl begun ↦
          let s' : LoraRadio = record s { driver = started; radio_params = p } in
          (
            check_lora_parameters_sound p good,
            ground (arith, pin),
            rw (pin, good, begun) (configure_sound p r s' (ground (arith, pin, good, begun, done))),
          )
      | inr bad ↦ absurd (ground (arith, pin, good, bad, done))
    ]
  ]
]

-- setup with parameters out of range fails after it has replaced the driver by one that has not begun,
-- and keeps those parameters; a radio that was set up still says so.
pub setup_out_of_range :
    (p : LoraRadioParams) (r : SetupAnswers) (s : LoraRadio)
    → p.pin_config.ss ≢ 0
    → check_lora_parameters p ≢ e_none
    → (failed (setup p r s).0 ≡ true)
      × ((setup p r s).1 ≡ record s { driver = created; radio_params = p })
unfolding setup create_module
setup_out_of_range p r s pin bad =
    let f = failed_of (check_lora_parameters p) bad in
    (ground (arith, pin, f), ground (arith, pin, f))
  where
    failed_of : (rc : ReturnCode) → rc ≢ e_none → failed rc ≡ true
    failed_of e_none h = absurd (h refl)
    failed_of (error n) h = refl
