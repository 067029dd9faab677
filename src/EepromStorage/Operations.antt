-- ===== src/EepromStorage/Operations.antt =====
-- The operations of hardware/src/storage/eeprom/EEPROMStorage.cpp.
use radio_mesh.Base.{
  ℕ, ◌+◌, ◌-◌, ◌%◌, ◌^◌, Bool, true, false, ◌&&◌, ◌||◌, List, [], length, is_empty, ltb, ◌==◌,
  sub32, if◌then◌else◌,
}
use radio_mesh.Codes.{
  ReturnCode, e_none, failed, e_storage_setup, e_storage_not_init, e_storage_key_not_found,
  e_storage_write_failed, e_storage_not_enough_space, e_storage_invalid_size, e_invalid_param,
  e_invalid_length,
}
use radio_mesh.EepromStorage.{
  Eeprom, StorageHeader, EntryHeader, Search, found, missing, storage_header_size,
  entry_header_size, eeprom_storage_max_size, storage_magic, storage_version, without_valid,
  entry_header_bytes, write_bytes, header_at, put_header, find_entry, read_loop, used_loop,
  defragment_loop, fill_bytes,
}

-- The object: `initialized`, `storageParams.size`, and the EEPROM that it alone uses.
pub record EepromStorage (lib : Eeprom) : Type 0 where
  pub initialized : Bool
  pub size : ℕ
  pub memory : lib.State

abbrev pub first_header : StorageHeader
first_header = record { magic = storage_magic; version = storage_version; num_entries = 0 }

module _ (lib : Eeprom) where
  unfoldable pub set_params : ℕ → EepromStorage lib → ReturnCode × EepromStorage lib
  set_params size s =
      if size == 0 || ltb eeprom_storage_max_size size
      then (e_storage_invalid_size, s)
      else (e_none, record s { size = size })

  unfoldable pub initialize_storage_header : EepromStorage lib → EepromStorage lib
  initialize_storage_header s = record s { memory = put_header lib s.memory first_header }

  unfoldable pub is_storage_valid : EepromStorage lib → Bool
  is_storage_valid s =
      s.initialized
      && ((header_at lib s.memory).magic == storage_magic
          && (header_at lib s.memory).version == storage_version)

  unfoldable pub commit : EepromStorage lib → ReturnCode × EepromStorage lib
  commit s =
      if s.initialized
      then (
        if (lib.commit s.memory).0 then e_none else e_storage_write_failed,
        record s { memory = (lib.commit s.memory).1 },
      )
      else (e_storage_not_init, s)

  -- The end of begin, once the library has begun: a fresh header is written where there is none, and
  -- `!commit()` holds when commit returns RM_E_NONE, that is 0.
  unfoldable pub open_storage : EepromStorage lib → ReturnCode × EepromStorage lib
  open_storage s =
      let r = commit (initialize_storage_header s) in
      if is_storage_valid s
      then (e_none, s)
      else (if failed r.0 then e_none else e_storage_setup, r.1)

  -- begin on an ESP32
  unfoldable pub begin : EepromStorage lib → ReturnCode × EepromStorage lib
  begin s =
      let r = lib.begin s.memory s.size in
      if s.initialized
      then (e_storage_setup, s)
      else (if s.size == 0
          then (e_invalid_param, s)
          else (if r.0
              then open_storage (record s { initialized = true; memory = r.1 })
              else (e_storage_setup, record s { memory = r.1 })))

  unfoldable pub end : EepromStorage lib → ReturnCode × EepromStorage lib
  end s =
      if s.initialized
      then (e_none, record s { initialized = false; memory = lib.close s.memory })
      else (e_storage_not_init, s)

  unfoldable pub available : EepromStorage lib → ℕ
  available s =
      if s.initialized
      then sub32 s.size (
          used_loop lib s.memory (header_at lib s.memory).num_entries storage_header_size
            storage_header_size)
      else 0

  unfoldable pub is_full : EepromStorage lib → Bool
  is_full s = if s.initialized then available s == 0 else true

  -- The count, or an error's code
  unfoldable pub get_entry_count : EepromStorage lib → ReturnCode × ℕ
  get_entry_count s =
      if s.initialized
      then (e_none, (header_at lib s.memory).num_entries)
      else (e_storage_not_init, 0)

  -- The search of exists, remove and write, from the header on
  unfoldable pub search : lib.State → List ℕ → Search
  search m key = find_entry lib m key (header_at lib m).num_entries storage_header_size

  unfoldable pub exists : EepromStorage lib → List ℕ → Bool
  exists s key =
      if s.initialized
      then (if is_empty key
          then false
          else elim (search s.memory key) [ found addr h ↦ true | missing addr ↦ false ])
      else false

  -- A key that is not found leaves the caller's vector, an empty one, as it is.
  unfoldable pub read : EepromStorage lib → List ℕ → ReturnCode × List ℕ
  read s key =
      if s.initialized
      then (if is_empty key
          then (e_invalid_param, [])
          else (read_loop lib s.memory key (header_at lib s.memory).num_entries
              storage_header_size))
      else (e_storage_not_init, [])

  -- `entryHeader.flags &= ~ENTRY_VALID_FLAG`, written back at the entry's address
  unfoldable pub invalidate_at : lib.State → ℕ → EntryHeader → lib.State
  invalidate_at m addr h =
      write_bytes lib m addr (entry_header_bytes (record h { flags = without_valid h.flags }))

  unfoldable pub remove_found : EepromStorage lib → Search → ReturnCode × EepromStorage lib
  remove_found s (found addr h) = (e_none, record s { memory = invalidate_at s.memory addr h })
  remove_found s (missing addr) = (e_storage_key_not_found, s)

  unfoldable pub remove : EepromStorage lib → List ℕ → ReturnCode × EepromStorage lib
  remove s key =
      if s.initialized
      then (if is_empty key then (e_invalid_param, s) else remove_found s (search s.memory key))
      else (e_storage_not_init, s)

  -- The header, key and data of a new entry; `pad` is what the stack held at the padding byte.
  unfoldable pub write_entry : lib.State → ℕ → List ℕ → List ℕ → ℕ → lib.State
  write_entry m addr key value pad =
      let h : EntryHeader = record {
        key_length = length key % 2 ^ 16;
        value_length = length value % 2 ^ 16;
        flags = 1;
        padding = pad;
      } in
      let m1 = write_bytes lib m addr (entry_header_bytes h) in
      let m2 = write_bytes lib m1 (addr + entry_header_size) key in
      write_bytes lib m2 (addr + entry_header_size + length key) value

  -- The number of entries in the header, set
  unfoldable pub put_count : lib.State → StorageHeader → ℕ → lib.State
  put_count m h count = put_header lib m (record h { num_entries = count })

  -- The rest of write, from the header and what the search found: the entry of the key is invalidated and
  -- overwritten where it stands, or a new one is put behind the last.
  unfoldable pub write_found : lib.State → StorageHeader → Search → List ℕ → List ℕ → ℕ → lib.State
  write_found m header (found addr h) key value pad =
      let fewer = (header.num_entries + 2 ^ 16 - 1) % 2 ^ 16 in
      let m1 = put_count (invalidate_at m addr h) header fewer in
      put_count (write_entry m1 addr key value pad) header ((fewer + 1) % 2 ^ 16)
  write_found m header (missing addr) key value pad =
      put_count (write_entry m addr key value pad) header ((header.num_entries + 1) % 2 ^ 16)

  unfoldable pub write : ℕ → EepromStorage lib → List ℕ → List ℕ → ReturnCode × EepromStorage lib
  write pad s key value =
      if s.initialized
      then (if is_empty key || is_empty value
          then (e_invalid_param, s)
          else (if ltb 255 (length key)
              then (e_invalid_length, s)
              else (if ltb (available s) (length key + length value + entry_header_size)
                  then (e_storage_not_enough_space, s)
                  else (
                    e_none,
                    record s {
                      memory =
                          write_found s.memory (header_at lib s.memory) (search s.memory key) key
                            value pad;
                    },
                  ))))
      else (e_storage_not_init, s)

  unfoldable pub write_and_commit :
      ℕ → EepromStorage lib → List ℕ → List ℕ → ReturnCode × EepromStorage lib
  write_and_commit pad s key value =
      let r = write pad s key value in if failed r.0 then r else commit r.1

  unfoldable pub defragment : EepromStorage lib → ReturnCode × EepromStorage lib
  defragment s =
      let header = header_at lib s.memory in
      let r =
        defragment_loop lib s.memory header.num_entries storage_header_size storage_header_size 0 in
      if s.initialized
      then (e_none, record s { memory = put_count r.0 header r.1 })
      else (e_storage_not_init, s)

  unfoldable pub clear : EepromStorage lib → ReturnCode × EepromStorage lib
  clear s =
      let blank = record s { memory = fill_bytes lib s.memory 0 s.size } in
      if s.initialized then commit (initialize_storage_header blank) else (e_storage_not_init, s)
