-- ===== src/DeviceBuilder/Requirements.antt =====
-- What a device that build of DeviceBuilder.cpp returns has made sure of.
use radio_mesh.Base.{
  ℕ, ◌≡◌, ◌≢◌, refl, ap, ◌∙◌, subst, ◌⊎◌, inl, inr, Bool, true, false, List, is_empty, ◌==◌,
  Bool-cases, arith, if◌then◌else◌,
}
use radio_mesh.Codes.{ReturnCode, e_none, error}
use radio_mesh.Types.{MeshDeviceType}
use radio_mesh.Crypto.Primitives.{Primitives}
use radio_mesh.LoraRadio.SetUp.{InRange, set_radio_params_iff}
use radio_mesh.Wifi.{WifiParams, WifiAccessPointParams, set_wifi_params, set_ap_params}
use radio_mesh.Wifi.Connector.{IsUsable}
use radio_mesh.Wifi.AccessPoint.{IsValid}
use radio_mesh.EepromStorage.{Eeprom}
use radio_mesh.DeviceBuilder.{DeviceBuilder, DevicePortalParams}
use radio_mesh.DeviceBuilder.SetUp.{
  Site, StartInputs, initialize_device, set_device_type, register_callback, register_tx_callback,
  set_portal_params, initialize_radio, initialize_wifi, initialize_wifi_access_point,
  initialize_device_portal,
}
use radio_mesh.DeviceBuilder.Build.{
  Outcome, went, ended, and_then, unless_failed, rx_step, tx_step, radio_step, relay_step,
  crypto_step, display_step, wifi_step, access_point_step, portal_step, features, builder_after,
  build,
}

-- A feature that was asked for satisfies P.
abbrev pub Wanted : Bool → Type 0 → Type 0
Wanted asked P = (asked ≡ false) ⊎ P

-- What a portal needs
abbrev pub PortalFits : DeviceBuilder → Type 0
PortalFits b =
    (b.blueprint.has_wifi_access_point ≡ true)
    × (b.device_portal_params.web_port ≢ 0)
    × (b.device_portal_params.dns_port ≢ 0)
    × (is_empty b.device_portal_params.index_html ≡ false)

set_portal_params_sound :
    (p old : DevicePortalParams)
    → (set_portal_params p old).0 ≡ e_none
    → (p.web_port ≢ 0) × (p.dns_port ≢ 0) × (is_empty p.index_html ≡ false)
unfolding set_portal_params
set_portal_params_sound p old h =
    (λ e. absurd (ground (arith, e, h)), λ e. absurd (ground (arith, e, h)), ground (arith, h))

chosen : {A : Type 0} (x y : A) (b : Bool) → b ≡ true → (if b then x else y) ≡ x
chosen x y true h = refl
chosen x y false h = absurd (ground (arith, h))

module _ {lib : Eeprom} where
  abbrev pub is_went : Outcome lib → Bool
  is_went (went s) = true
  is_went (ended s) = false

  -- Both parts of a sequence that went well went well.
  and_then-went :
      (o : Outcome lib) (f : Site lib → Outcome lib)
      → is_went (and_then o f) ≡ true
      → (is_went o ≡ true) × ((s : Site lib) × (is_went (f s) ≡ true))
  and_then-went (went s) f h = (refl, (s, h))
  and_then-went (ended s) f h = absurd (ground (arith, h))

  unless_failed-went : (r : ReturnCode × Site lib) → is_went (unless_failed r) ≡ true → r.0 ≡ e_none
  unless_failed-went (e_none, s) h = refl
  unless_failed-went (error n, s) h = absurd (ground (arith, h))

  -- What a feature's step wants, if it was asked for
  asked-went :
      (asked : Bool) (o : Outcome lib) (s : Site lib)
      → is_went (if asked then o else went s) ≡ true
      → Wanted asked (is_went o ≡ true)
  asked-went true o s h = inr h
  asked-went false o s h = inl refl

  pointer-went :
      (pointer : ℕ) (s t : Site lib)
      → is_went (if pointer == 0 then ended s else went t) ≡ true
      → pointer ≢ 0
  pointer-went pointer s t h e = absurd (ground (arith, e, h))

  rx_wants :
      (b : DeviceBuilder) (s : Site lib)
      → is_went (rx_step b s) ≡ true
      → Wanted b.blueprint.has_rx_callback (b.rx_callback ≢ 0)
  unfolding rx_step
  rx_wants b s h =
      elim (asked-went b.blueprint.has_rx_callback
        (if b.rx_callback == 0 then ended s else went (register_callback b.rx_callback s)) s h) [
          | inl off ↦ inl off
          | inr g ↦ inr (pointer-went b.rx_callback s (register_callback b.rx_callback s) g)
        ]

  tx_wants :
      (b : DeviceBuilder) (s : Site lib)
      → is_went (tx_step b s) ≡ true
      → Wanted b.blueprint.has_tx_callback (b.tx_callback ≢ 0)
  unfolding tx_step
  tx_wants b s h =
      elim (asked-went b.blueprint.has_tx_callback
        (if b.tx_callback == 0 then ended s else went (register_tx_callback b.tx_callback s)) s h) [
          | inl off ↦ inl off
          | inr g ↦ inr (pointer-went b.tx_callback s (register_tx_callback b.tx_callback s) g)
        ]

  radio_wants :
      (b : DeviceBuilder) (s : Site lib)
      → is_went (radio_step b s) ≡ true
      → Wanted b.blueprint.has_radio (InRange b.radio_params)
  unfolding radio_step
  radio_wants b s h =
      let r = initialize_radio b.radio_params s in
      elim (asked-went b.blueprint.has_radio (unless_failed r) s h) [
        | inl off ↦ inl off
        | inr g ↦ inr (
            (set_radio_params_iff b.radio_params s.board.radio).0.0
              (unfold initialize_radio in (unless_failed-went r g)))
      ]

  display_wants :
      (b : DeviceBuilder) (s : Site lib)
      → is_went (display_step b s) ≡ true
      → Wanted b.blueprint.has_display ((b.use_custom_display ≡ false) ⊎ (b.custom_display ≢ 0))
  unfolding display_step
  display_wants b s h = elim (Bool-cases b.blueprint.has_display) [
    | inr off ↦ inl off
    | inl on ↦ elim (Bool-cases b.use_custom_display) [
      | inr off ↦ inr (inl off)
      | inl custom ↦ inr (inr (λ e. absurd (ground (arith, on, custom, e, h))))
    ]
  ]

  set_wifi_params_sound :
      (p : WifiParams) (s : Site lib) → (set_wifi_params p s.board.wifi).0 ≡ e_none → IsUsable p
  unfolding set_wifi_params
  set_wifi_params_sound p s h =
      (ground (arith, h), ground (arith, h), ground (arith, h), ground (arith, h))

  wifi_wants :
      (b : DeviceBuilder) (s : Site lib)
      → is_went (wifi_step b s) ≡ true
      → Wanted b.blueprint.has_wifi (IsUsable b.wifi_params)
  unfolding wifi_step
  wifi_wants b s h =
      let r = initialize_wifi b.wifi_params s in
      elim (asked-went b.blueprint.has_wifi (unless_failed r) s h) [
        | inl off ↦ inl off
        | inr g ↦ inr (
            set_wifi_params_sound b.wifi_params s
              (unfold initialize_wifi in (unless_failed-went r g)))
      ]

  set_ap_params_sound :
      (parses : List ℕ → Bool) (p : WifiAccessPointParams) (s : Site lib)
      → (set_ap_params parses p s.board.access_point).0 ≡ e_none
      → IsValid parses p
  unfolding set_ap_params
  set_ap_params_sound parses p s h =
      (ground (arith, h), ground (arith, h), ground (arith, h), ground (arith, h))

  access_point_wants :
      (parses : List ℕ → Bool) (b : DeviceBuilder) (s : Site lib)
      → is_went (access_point_step parses b s) ≡ true
      → Wanted b.blueprint.has_wifi_access_point (IsValid parses b.wifi_ap_params)
  unfolding access_point_step
  access_point_wants parses b s h =
      let r = initialize_wifi_access_point parses b.wifi_ap_params s in
      elim (asked-went b.blueprint.has_wifi_access_point (unless_failed r) s h) [
        | inl off ↦ inl off
        | inr g ↦ inr (
            set_ap_params_sound parses b.wifi_ap_params s
              (unfold initialize_wifi_access_point in (unless_failed-went r g)))
      ]

  after-went :
      (o : Outcome lib) (b : DeviceBuilder)
      → is_went o ≡ true
      → (builder_after o b).is_builder_started ≡ false
  unfolding builder_after
  after-went (went s) b h = refl
  after-went (ended s) b h = absurd (ground (arith, h))

  portal_wants :
      (b : DeviceBuilder) (s : Site lib)
      → is_went (portal_step b s) ≡ true
      → Wanted b.blueprint.has_device_portal (PortalFits b)
  unfolding portal_step
  portal_wants b s h =
      let r = initialize_device_portal b.device_portal_params s in
      elim (asked-went b.blueprint.has_device_portal
        (if b.blueprint.has_wifi_access_point then unless_failed r else ended s) s h) [
          | inl off ↦ inl off
          | inr g ↦ elim (Bool-cases b.blueprint.has_wifi_access_point) [
            | inr none_there ↦ absurd (ground (arith, none_there, g))
            | inl there ↦
                let t = set_portal_params_sound b.device_portal_params s.board.portal_params (
                  unfold initialize_device_portal in
                  (unless_failed-went r (
                    subst (λ x. is_went (if x then unless_failed r else ended s) ≡ true) there
                      g))) in
                inr (there, t.0, t.1, t.2)
          ]
        ]

module _ (prim : Primitives) (lib : Eeprom) (pad : ℕ) (parses : List ℕ → Bool) where
  -- Where build returns a device, the builder had been started and is not any more; each callback and
  -- custom display that was asked for is not null, the parameters of the radio, of WiFi and of the access
  -- point are valid if they were asked for, and a portal has an access point, ports and a page.
  pub build_requirements :
      (device_type : MeshDeviceType) (w : StartInputs) (b : DeviceBuilder) (s : Site lib)
      → is_went (build prim lib pad parses device_type w b s).0 ≡ true
      → (b.is_builder_started ≡ true)
        × ((build prim lib pad parses device_type w b s).1.is_builder_started ≡ false)
        × Wanted b.blueprint.has_rx_callback (b.rx_callback ≢ 0)
        × Wanted b.blueprint.has_tx_callback (b.tx_callback ≢ 0)
        × Wanted b.blueprint.has_radio (InRange b.radio_params)
        × Wanted b.blueprint.has_display ((b.use_custom_display ≡ false) ⊎ (b.custom_display ≢ 0))
        × Wanted b.blueprint.has_wifi (IsUsable b.wifi_params)
        × Wanted b.blueprint.has_wifi_access_point (IsValid parses b.wifi_ap_params)
        × Wanted b.blueprint.has_device_portal (PortalFits b)
  unfolding build features
  build_requirements device_type w b s h =
      let made = unless_failed (initialize_device prim lib pad w s) in
      let rest = λ (t : Site lib). features parses b (set_device_type device_type t) in
      elim (Bool-cases b.is_builder_started) [
        | inr off ↦ absurd (ground (arith, off, h))
        | inl on ↦
            let h' : is_went (and_then made rest) ≡ true = ground (arith, on, h) in
            let first = and_then-went made rest h' in
            let s0 = set_device_type device_type first.1.0 in
            let o1 = rx_step b s0 in
            let o2 = and_then o1 (tx_step b) in
            let o3 = and_then o2 (radio_step b) in
            let o4 = and_then o3 (relay_step b) in
            let o5 = and_then o4 (crypto_step b) in
            let o6 = and_then o5 (display_step b) in
            let o7 = and_then o6 (wifi_step b) in
            let o8 = and_then o7 (access_point_step parses b) in
            let t8 = and_then-went o8 (portal_step b) first.1.1 in
            let t7 = and_then-went o7 (access_point_step parses b) t8.0 in
            let t6 = and_then-went o6 (wifi_step b) t7.0 in
            let t5 = and_then-went o5 (display_step b) t6.0 in
            let t4 = and_then-went o4 (crypto_step b) t5.0 in
            let t3 = and_then-went o3 (relay_step b) t4.0 in
            let t2 = and_then-went o2 (radio_step b) t3.0 in
            let t1 = and_then-went o1 (tx_step b) t2.0 in
            (
              on,
              ap (λ (r : Outcome lib × DeviceBuilder). r.1.is_builder_started)
                    (chosen (and_then made rest, builder_after (and_then made rest) b) (ended s, b)
                      b.is_builder_started on)
                  ∙ after-went (and_then made rest) b h',
              rx_wants b s0 t1.0,
              tx_wants b t1.1.0 t1.1.1,
              radio_wants b t2.1.0 t2.1.1,
              display_wants b t5.1.0 t5.1.1,
              wifi_wants b t6.1.0 t6.1.1,
              access_point_wants parses b t7.1.0 t7.1.1,
              portal_wants b t8.1.0 t8.1.1,
            )
      ]
