-- ===== src/Wifi/AccessPoint.antt =====
-- The states of a WifiAccessPoint.
use radio_mesh.Base.{
  ℕ, ◌≤◌, ◌≡◌, ◌⊎◌, inl, inr, Bool, true, false, ◌||◌, List, length, is_empty, bytes_eq, ltb,
  Bool-cases, arith,
}
use radio_mesh.Codes.{e_none}
use radio_mesh.Wifi.{
  WifiAccessPoint, WifiAccessPointParams, no_address, set_ap_params, setup_ap, start_ap, stop_ap,
}

module _ (parses : List ℕ → Bool) where
  -- A name of at most 64 bytes, a passphrase of at least 8, and an address that parses
  abbrev pub IsValid : WifiAccessPointParams → Type 0
  IsValid p =
      (is_empty p.ap_ssid ≡ false)
      × (length p.ap_ssid ≤ 64)
      × (8 ≤ length p.ap_password)
      × (parses p.ip_address ≡ true)

  set_ap_params_lem :
      (p : WifiAccessPointParams) (s : WifiAccessPoint)
      → ((set_ap_params parses p s ≡ (e_none, record s { ap_params = p })) × IsValid p)
        ⊎ ((set_ap_params parses p s).1 ≡ s)
  unfolding set_ap_params
  set_ap_params_lem p s =
      elim (Bool-cases (is_empty p.ap_ssid || (is_empty p.ap_password || is_empty p.ip_address))) [
        | inl e ↦ inr (ground (arith, e))
        | inr e1 ↦ elim (Bool-cases (ltb 64 (length p.ap_ssid))) [
          | inl e ↦ inr (ground (arith, e, e1))
          | inr e2 ↦ elim (Bool-cases (ltb (length p.ap_password) 8)) [
            | inl e ↦ inr (ground (arith, e, e1, e2))
            | inr e3 ↦ elim (Bool-cases (parses p.ip_address)) [
              | inr e ↦ inr (ground (arith, e, e1, e2, e3))
              | inl e4 ↦ inl (
                ground (arith, e1, e2, e3, e4),
                (ground (arith, e1), ground (arith, e2), ground (arith, e3), e4),
              )
            ]
          ]
        ]
      ]

  setup_ap_stopped :
      (p : WifiAccessPointParams) (s : WifiAccessPoint)
      → s.is_started ≡ false
      → ((setup_ap parses p s ≡ (e_none, record s { ap_params = p }))
          × IsValid p
          × (s.is_started ≡ false))
        ⊎ ((setup_ap parses p s).1 ≡ s)
  unfolding setup_ap
  setup_ap_stopped p s off =
      elim (Bool-cases
        (is_empty p.ap_ssid || (is_empty p.ap_password || bytes_eq p.ip_address no_address))) [
          | inl e ↦ inr (ground (arith, off, e))
          | inr e1 ↦ elim (Bool-cases (ltb 64 (length p.ap_ssid))) [
            | inl e ↦ inr (ground (arith, off, e, e1))
            | inr e2 ↦ elim (Bool-cases (ltb (length p.ap_password) 8)) [
              | inl e ↦ inr (ground (arith, off, e, e1, e2))
              | inr e3 ↦ elim (Bool-cases (parses p.ip_address)) [
                | inr e ↦ inr (ground (arith, off, e, e1, e2, e3))
                | inl e4 ↦ inl (
                  ground (arith, off, e1, e2, e3, e4),
                  (ground (arith, e1), ground (arith, e2), ground (arith, e3), e4),
                  off,
                )
              ]
            ]
          ]
        ]

  -- setParams and setup keep the parameters only where they are valid, and setup only while the access
  -- point is stopped; else nothing changes.
  pub setup_ap_lem :
      (p : WifiAccessPointParams) (s : WifiAccessPoint)
      → (((set_ap_params parses p s ≡ (e_none, record s { ap_params = p })) × IsValid p)
          ⊎ ((set_ap_params parses p s).1 ≡ s))
        × (((setup_ap parses p s ≡ (e_none, record s { ap_params = p }))
              × IsValid p
              × (s.is_started ≡ false))
            ⊎ ((setup_ap parses p s).1 ≡ s))
  unfolding setup_ap
  setup_ap_lem p s = (
    set_ap_params_lem p s,
    elim (Bool-cases s.is_started) [
      | inl on ↦ inr (ground (arith, on))
      | inr off ↦ setup_ap_stopped p s off
    ],
  )

  -- An access point that was set up and started is on; a stop that the library grants turns it off and
  -- forgets its name and passphrase, and what is on cannot be set up or started again.
  pub start-stop :
      (mode_set ap_set config_set : Bool) (p : WifiAccessPointParams) (s : WifiAccessPoint)
      → (start_ap parses mode_set ap_set config_set s).0 ≡ e_none
      → let t = (start_ap parses mode_set ap_set config_set s).1 in
        (t.is_started ≡ true)
        × ((setup_ap parses p t).1 ≡ t)
        × ((start_ap parses true true true t).1 ≡ t)
        × ((stop_ap true t).1.is_started ≡ false)
        × ((stop_ap false t).1 ≡ t)
  unfolding start_ap setup_ap stop_ap
  start-stop mode_set ap_set config_set p s done =
      let t = (start_ap parses mode_set ap_set config_set s).1 in
      let on : t.is_started ≡ true = ground (arith, done) in
      (on, ground (arith, on), ground (arith, on), ground (arith, on), ground (arith, on))
