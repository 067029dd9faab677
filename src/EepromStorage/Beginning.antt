-- ===== src/EepromStorage/Beginning.antt =====
-- begin of EEPROMStorage.cpp, on an EEPROM that this program has written and on a fresh one.
use radio_mesh.Base.{
  ◌≤◌, ◌≡◌, ◌≢◌, refl, ◌∙◌, sym, subst, inl, inr, true, false, [], Bool-cases, arith, if◌then◌else◌,
}
use radio_mesh.Codes.{e_none, e_storage_setup, failed}
use radio_mesh.EepromStorage.{Eeprom, storage_header_size, eeprom_storage_max_size, put_header}
use radio_mesh.EepromStorage.Operations.{
  EepromStorage, first_header, begin, open_storage, commit, is_storage_valid,
  initialize_storage_header,
}
use radio_mesh.EepromStorage.Memory.{IsEeprom}
use radio_mesh.EepromStorage.Entries.{total, entries, contents}
use radio_mesh.EepromStorage.Bytes.{capacity-put_header, header_at-put_header}
use radio_mesh.EepromStorage.Unique.{Unique}
use radio_mesh.EepromStorage.Sound.{IsSound}
use radio_mesh.EepromStorage.Commit.{commit-IsSound}

module _ (lib : Eeprom) (law : IsEeprom lib) where
  -- A storage with a fresh header is sound and empty.
  pub fresh-IsSound :
      (s : EepromStorage lib)
      → s.initialized ≡ true
      → law.capacity s.memory ≡ s.size
      → storage_header_size ≤ s.size
      → s.size ≤ eeprom_storage_max_size
      → (contents lib (initialize_storage_header lib s).memory ≡ [])
        × IsSound lib law (initialize_storage_header lib s)
  unfolding initialize_storage_header contents total Unique entries
  fresh-IsSound s on same room small =
      let m = put_header lib s.memory first_header in
      let head =
        header_at-put_header lib law s.memory first_header (omega arith) (omega (arith, same)) in
      (
        rw head refl,
        record {
          on = on;
          capacity = capacity-put_header lib law s.memory first_header ∙ same;
          small = small;
          magic = rw head refl;
          version = rw head refl;
          unique = rw head tt;
          fits = rw head (omega (arith, room));
        },
      )

  -- Where the EEPROM library begins but holds no header of this format, begin makes a sound and empty
  -- storage, and then it says RM_E_STORAGE_SETUP just when the commit of the header has succeeded, and
  -- RM_E_NONE when it has failed.
  pub begin_fresh :
      (s : EepromStorage lib)
      → s.initialized ≡ false
      → storage_header_size ≤ s.size
      → s.size ≤ eeprom_storage_max_size
      → (lib.begin s.memory s.size).0 ≡ true
      → is_storage_valid lib
          (record s { initialized = true; memory = (lib.begin s.memory s.size).1 })
        ≡ false
      → (contents lib (begin lib s).1.memory ≡ [])
        × IsSound lib law (begin lib s).1
        × ((begin lib s).0 ≡ (
            if (lib.commit (put_header lib (lib.begin s.memory s.size).1 first_header)).0
            then e_storage_setup
            else e_none))
  unfolding begin open_storage
  begin_fresh s off room small begun invalid =
      let s1 : EepromStorage lib = record s {
        initialized = true;
        memory = (lib.begin s.memory s.size).1;
      } in
      let same = law.capacity_begin s.memory s.size begun in
      let fresh = fresh-IsSound s1 refl same room small in
      let s2 = initialize_storage_header lib s1 in
      let done = commit-IsSound lib law s2 fresh.1 in
      let result : begin lib s
          ≡ (if failed (commit lib s2).0 then e_none else e_storage_setup, (commit lib s2).1) =
        ground (arith, off, room, begun, invalid) in
      subst
        (λ x.
          (contents lib x.1.memory ≡ [])
          × IsSound lib law x.1
          × (x.0 ≡ (
              if (lib.commit (put_header lib (lib.begin s.memory s.size).1 first_header)).0
              then e_storage_setup
              else e_none)))
        (sym result)
        (
          done.0 ∙ fresh.0,
          done.1,
          unfold commit initialize_storage_header in
              (elim (Bool-cases (lib.commit (put_header lib s1.memory first_header)).0) [
                | inl e ↦ ground (arith, e)
                | inr e ↦ ground (arith, e)
              ]),
        )

  -- Where the EEPROM holds a header of this format, begin succeeds and writes nothing.
  pub begin_again :
      (s : EepromStorage lib)
      → s.initialized ≡ false
      → s.size ≢ 0
      → (lib.begin s.memory s.size).0 ≡ true
      → is_storage_valid lib
          (record s { initialized = true; memory = (lib.begin s.memory s.size).1 })
        ≡ true
      → begin lib s
        ≡ (e_none, record s { initialized = true; memory = (lib.begin s.memory s.size).1 })
  unfolding begin open_storage
  begin_again s off room begun valid = ground (arith, off, room, begun, valid)
