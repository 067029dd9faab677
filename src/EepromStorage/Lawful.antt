-- ===== src/EepromStorage/Lawful.antt =====
-- EEPROMStorage.cpp as the storage of DeviceStorage.h: where it has a place for a value, and that it keeps it there.
use radio_mesh.Base.{
  ℕ, ◌<◌, ◌≡◌, ◌≢◌, refl, ap, sym, ◌∙◌, some, List, [], ◌∷◌, length, AllBytes, arith,
}
use radio_mesh.Storage.Laws.{IsStore, key_filled}
use radio_mesh.EepromStorage.{Eeprom}
use radio_mesh.EepromStorage.Operations.{EepromStorage, write_and_commit}
use radio_mesh.EepromStorage.Memory.{IsEeprom}
use radio_mesh.EepromStorage.Entries.{lookup, contents}
use radio_mesh.EepromStorage.Bytes.{new_entry}
use radio_mesh.EepromStorage.Unique.{lookup-place_ne}
use radio_mesh.EepromStorage.Commit.{write_and_commit-refines}
use radio_mesh.EepromStorage.Sound.{IsSound}
use radio_mesh.EepromStorage.RoundTrip.{eeprom_store, read-write_and_commit}

module _ (lib : Eeprom) (law : IsEeprom lib) where
  -- The storage is sound, and the key is new or its value has as many bytes.
  abbrev pub HasPlace : List ℕ → List ℕ → EepromStorage lib → Type 0
  HasPlace key value s =
      IsSound lib law s
      × AllBytes key
      × AllBytes value
      × (key ≢ [])
      × ((v : List ℕ) → lookup key (contents lib s.memory) ≡ some v → length v ≡ length value)

  longer : (key : List ℕ) → key ≢ 0 ∷ key
  longer key e = absurd (omega (arith, ap length e))

  pub eeprom_store-IsStore : (pad : ℕ) → pad < 256 → IsStore (eeprom_store lib pad)
  eeprom_store-IsStore pad small = record {
    Fits = HasPlace;
    read_back = λ key value s place ok.
        (read-write_and_commit lib law pad s key (0 ∷ key) value place.0 place.1 place.2 small
          place.4 place.3 (λ e. key_filled e) (longer key) ok).0;
    kept = λ key other value s place filled ne ok.
        (read-write_and_commit lib law pad s key other value place.0 place.1 place.2 small place.4
          place.3 filled ne ok).1;
    still_fits = λ key other value next s place spare ne ok.
        let t =
          write_and_commit-refines lib law pad s key value place.0 place.1 place.2 small place.4
            ok in
        let same =
          λ (v : List ℕ)
              (e : lookup other (contents lib (write_and_commit lib pad s key value).1.memory)
                ≡ some v).
            spare.4 v (
              sym (lookup-place_ne (new_entry key value pad) other (contents lib s.memory) ne refl)
              ∙ ap (lookup other) (sym t.0)
              ∙ e) in
        (t.1, spare.1, spare.2, spare.3, same);
  }

  -- What the storage asks for is HasPlace.
  pub HasPlace-fits :
      (pad : ℕ) (small : pad < 256) (key value : List ℕ) (s : EepromStorage lib)
      → HasPlace key value s
      → (eeprom_store-IsStore pad small).Fits key value s
  unfolding eeprom_store-IsStore
  HasPlace-fits pad small key value s place = place
