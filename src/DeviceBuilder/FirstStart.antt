-- ===== src/DeviceBuilder/FirstStart.antt =====
-- build of DeviceBuilder.cpp on an EEPROM that holds nothing yet, through initialize of Device.cpp and begin
-- of EEPROMStorage.cpp.
use radio_mesh.Base.{
  ℕ, ◌≡◌, refl, ap, ◌∙◌, sym, subst, inl, inr, Bool, true, false, List, Bool-cases, arith,
}
use radio_mesh.Codes.{failed}
use radio_mesh.Types.{MeshDeviceType}
use radio_mesh.Crypto.Primitives.{Primitives}
use radio_mesh.EepromStorage.{Eeprom, eeprom_storage_max_size, put_header}
use radio_mesh.EepromStorage.Operations
use radio_mesh.EepromStorage.Operations.{EepromStorage, first_header, begin, is_storage_valid}
use radio_mesh.EepromStorage.Memory.{IsEeprom}
use radio_mesh.EepromStorage.Sound.{IsSound}
use radio_mesh.EepromStorage.Beginning.{begin_fresh}
use radio_mesh.DeviceBuilder.{DeviceBuilder}
use radio_mesh.DeviceBuilder.SetUp.{Site, StartInputs, open_device_storage, initialize_device}
use radio_mesh.DeviceBuilder.Build.{site_of, build}
use radio_mesh.DeviceBuilder.Requirements.{is_went}

-- Storage that has begun does not open.
open_begun :
    (lib : Eeprom) (s : EepromStorage lib)
    → s.initialized ≡ true
    → (failed (open_device_storage lib s).0 ≡ true)
      × ((open_device_storage lib s).1.initialized ≡ true)
unfolding open_device_storage begin Operations.set_params
open_begun lib s begun = (ground (arith, begun), ground (arith, begun))

module _ (prim : Primitives) (lib : Eeprom) (law : IsEeprom lib) (pad : ℕ)
    (parses : List ℕ → Bool) where
  -- A storage that does not open ends the build.
  build_closed :
      (device_type : MeshDeviceType) (w : StartInputs) (b : DeviceBuilder) (s : Site lib)
      → failed (open_device_storage lib s.device.stored).0 ≡ true
      → b.is_builder_started ≡ true
      → (is_went (build prim lib pad parses device_type w b s).0 ≡ false)
        × ((site_of (build prim lib pad parses device_type w b s).0).device.stored
            ≡ (open_device_storage lib s.device.stored).1)
  unfolding build initialize_device
  build_closed device_type w b s bad on = (ground (arith, bad, on), ground (arith, bad, on))

  -- The storage is one object for all builds, and it does not begin twice: once it has begun, in a build
  -- that went well or not, no further build gives a device until the program restarts.
  pub build_again :
      (device_type : MeshDeviceType) (w : StartInputs) (b : DeviceBuilder) (s : Site lib)
      → s.device.stored.initialized ≡ true
      → (is_went (build prim lib pad parses device_type w b s).0 ≡ false)
        × ((site_of (build prim lib pad parses device_type w b s).0).device.stored.initialized
            ≡ true)
  unfolding build
  build_again device_type w b s begun =
      let t = open_begun lib s.device.stored begun in
      elim (Bool-cases b.is_builder_started) [
        | inl on ↦
            let r = build_closed device_type w b s t.0 on in
            unfold build in (r.0, ap (λ (x : EepromStorage lib). x.initialized) r.1 ∙ t.1)
        | inr off ↦ (ground (arith, off), ground (arith, off, begun))
      ]

  -- What builds leave of the storage, one after the other, each on whatever board and with whatever builder:
  -- nothing but them touches it in between.
  pub data Tried : EepromStorage lib → EepromStorage lib → Type 0 where
    untried : {s : EepromStorage lib} → Tried s s
    tried :
        {s : EepromStorage lib} (t : Site lib) (device_type : MeshDeviceType) (w : StartInputs)
        (b : DeviceBuilder)
        → Tried s t.device.stored
        → Tried s (site_of (build prim lib pad parses device_type w b t).0).device.stored

  Tried-initialized :
      (s s' : EepromStorage lib) → Tried s s' → s.initialized ≡ true → s'.initialized ≡ true
  Tried-initialized s s' untried on = on
  Tried-initialized s s' (tried t device_type w b r) on =
      (build_again device_type w b t (Tried-initialized s t.device.stored r on)).1

  -- With an EEPROM that begins, holds no header of this format and commits without an error, the first
  -- build gives no device, though the storage is sound after it; and then no later build does either,
  -- after any number of further builds, as long as the program runs and nothing but the builds touches
  -- the storage.
  pub build_fresh :
      (device_type later_type : MeshDeviceType) (w later_w : StartInputs) (b later : DeviceBuilder)
      (s next : Site lib)
      → b.is_builder_started ≡ true
      → s.device.stored.initialized ≡ false
      → (lib.begin s.device.stored.memory eeprom_storage_max_size).0 ≡ true
      → is_storage_valid lib (record s.device.stored {
        initialized = true;
        size = eeprom_storage_max_size;
        memory = (lib.begin s.device.stored.memory eeprom_storage_max_size).1;
      })
        ≡ false
      → (lib.commit (
          put_header lib
            (lib.begin s.device.stored.memory eeprom_storage_max_size).1
            first_header)).0
        ≡ true
      → Tried
          (site_of (build prim lib pad parses device_type w b s).0).device.stored
          next.device.stored
      → (is_went (build prim lib pad parses device_type w b s).0 ≡ false)
        × IsSound lib law (site_of (build prim lib pad parses device_type w b s).0).device.stored
        × (is_went (build prim lib pad parses later_type later_w later next).0 ≡ false)
  unfolding open_device_storage Operations.set_params
  build_fresh device_type later_type w later_w b later s next on off begun invalid commits builds =
      let s1 : EepromStorage lib = record s.device.stored { size = eeprom_storage_max_size } in
      let t = begin_fresh lib law s1 off (omega arith) (omega arith) begun invalid in
      let bad : failed (begin lib s1).0 ≡ true = rw (t.2, commits) refl in
      let r = build_closed device_type w b s bad on in
      let left = (site_of (build prim lib pad parses device_type w b s).0).device.stored in
      let sound : IsSound lib law left = subst (IsSound lib law) (sym r.1) t.1 in
      let still = Tried-initialized left next.device.stored builds sound.on in
      (r.0, sound, (build_again later_type later_w later next still).0)
