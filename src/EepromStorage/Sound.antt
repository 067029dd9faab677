-- ===== src/EepromStorage/Sound.antt =====
-- The invariant of an initialised EEPROMStorage, and the result code of write on every branch.
use radio_mesh.Base.{
  ℕ, ◌+◌, ◌-◌, ◌*◌, ◌≤◌, ◌≡◌, true, List, length, is_empty, ◌||◌, ltb, leb, arith, if◌then◌else◌,
}
use radio_mesh.Codes.{e_none, e_invalid_param, e_invalid_length, e_storage_not_enough_space}
use radio_mesh.EepromStorage.{
  Eeprom, entry_header_size, storage_header_size, storage_magic, storage_version,
  eeprom_storage_max_size, header_at,
}
use radio_mesh.EepromStorage.Operations.{EepromStorage, available, write}
use radio_mesh.EepromStorage.Memory.{IsEeprom}
use radio_mesh.EepromStorage.Entries.{total, contents, length-entries, length-le_total}
use radio_mesh.EepromStorage.Unique.{Unique}
use radio_mesh.EepromStorage.Reading.{used_loop_lem}

-- The storage has begun, its header is that of this format, no key has two valid entries, and all
-- entries lie within the EEPROM.
pub record IsSound (lib : Eeprom) (law : IsEeprom lib) (s : EepromStorage lib) : Type 0 where
  pub on : s.initialized ≡ true
  pub capacity : law.capacity s.memory ≡ s.size
  pub small : s.size ≤ eeprom_storage_max_size
  pub magic : (header_at lib s.memory).magic ≡ storage_magic
  pub version : (header_at lib s.memory).version ≡ storage_version
  pub unique : Unique (contents lib s.memory)
  pub fits : storage_header_size + total (contents lib s.memory) ≤ s.size

module _ (lib : Eeprom) (law : IsEeprom lib) where
  pub num_entries_bound :
      (s : EepromStorage lib)
      → IsSound lib law s
      → 6 * (header_at lib s.memory).num_entries ≤ total (contents lib s.memory)
  unfolding contents
  num_entries_bound s ok =
      let n = (header_at lib s.memory).num_entries in
      omega (arith, length-entries lib s.memory n 8, length-le_total (contents lib s.memory))

  pub available-IsSound :
      (s : EepromStorage lib)
      → IsSound lib law s
      → available lib s ≡ s.size - (storage_header_size + total (contents lib s.memory))
  unfolding available contents
  available-IsSound s ok =
      let n = (header_at lib s.memory).num_entries in
      rw (ok.on, used_loop_lem lib s.memory n 8 8) (omega (arith, ok.fits, ok.small))

  -- On a sound storage write says which of its guards refuses, in their order: an empty key or value, a
  -- key of more than 255 bytes, and an entry that does not fit behind all entries that are there, even
  -- one that would replace an entry. Else it succeeds.
  pub write_code :
      (pad : ℕ) (s : EepromStorage lib) (key value : List ℕ)
      → IsSound lib law s
      → (write lib pad s key value).0 ≡ (
          if is_empty key || is_empty value
          then e_invalid_param
          else (if ltb 255 (length key)
              then e_invalid_length
              else (if leb
                    (storage_header_size
                      + total (contents lib s.memory)
                      + entry_header_size
                      + length key
                      + length value)
                    s.size
                  then e_none
                  else e_storage_not_enough_space)))
  unfolding write
  write_code pad s key value ok =
      let room = available-IsSound s ok in rw room (ground (arith, ok.on, ok.fits))
