-- ===== src/EepromStorage.antt =====
-- hardware/src/storage/eeprom/EEPROMStorage.cpp and hardware/inc/storage/eeprom/EEPROMStorage.h: keys and
-- values in the bytes of an EEPROM. The EEPROM library is a parameter. Addresses are `size_t`: a read past
-- the end gives 0, so an address never comes near 2 ^ 32.
pub mod Operations
pub mod Memory
pub mod Entries
pub mod Reading
pub mod Locate
pub mod Bytes
pub mod Sound
pub mod Writing
pub mod Unique
pub mod Removal
pub mod Commit
pub mod RoundTrip
pub mod Lawful
pub mod Errors
pub mod Beginning
pub mod Moving
pub mod Defragment
use radio_mesh.Base.{
  ℕ, zero, suc, ◌+◌, ◌-◌, ◌*◌, ◌/◌, ◌%◌, ◌^◌, ◌≤◌, ◌<◌, Bool, true, false, not, ◌&&◌, ◌||◌, List,
  [], ◌∷◌, length, get_or, is_empty, bytes_eq, ltb, ◌==◌, ◌≡◌, ◌≢◌, sub32, if◌then◌else◌,
}
use radio_mesh.Codes.{ReturnCode, e_none, e_storage_key_not_found}

-- The EEPROM library: `read`, `write`, `begin`, `commit` and `end` of its global object.
pub record Eeprom : Type 1 where
  pub State : Type 0
  pub fetch : State → ℕ → ℕ
  pub store : State → ℕ → ℕ → State
  pub begin : State → ℕ → Bool × State
  pub commit : State → Bool × State
  pub close : State → State

pub record StorageHeader : Type 0 where
  pub magic : ℕ
  pub version : ℕ
  pub num_entries : ℕ

-- The compiler pads the header to an even size: `padding` is the byte behind `flags`.
pub record EntryHeader : Type 0 where
  pub key_length : ℕ
  pub value_length : ℕ
  pub flags : ℕ
  pub padding : ℕ

abbrev pub eeprom_storage_max_size : ℕ
eeprom_storage_max_size = 1024

abbrev pub storage_magic : ℕ
storage_magic = 0x524D5354

abbrev pub storage_version : ℕ
storage_version = 1

-- sizeof(StorageHeader) and sizeof(EntryHeader)
abbrev pub storage_header_size : ℕ
storage_header_size = 8

abbrev pub entry_header_size : ℕ
entry_header_size = 6

-- `flags & ENTRY_VALID_FLAG` and `flags & ~ENTRY_VALID_FLAG`: the flag is bit 0.
abbrev pub is_valid : ℕ → Bool
is_valid flags = flags % 2 == 1

abbrev pub without_valid : ℕ → ℕ
without_valid flags = flags - flags % 2

-- The structs as bytes in memory, the least significant first
abbrev pub storage_header_bytes : StorageHeader → List ℕ
storage_header_bytes h =
    h.magic % 256
    ∷ h.magic / 256 % 256
    ∷ h.magic / 65536 % 256
    ∷ h.magic / 16777216 % 256
    ∷ h.version % 256
    ∷ h.version / 256 % 256
    ∷ h.num_entries % 256
    ∷ h.num_entries / 256 % 256
    ∷ []

abbrev pub header_of : List ℕ → StorageHeader
header_of b = record {
  magic = get_or b 0 0 + 256 * get_or b 1 0 + 65536 * get_or b 2 0 + 16777216 * get_or b 3 0;
  version = get_or b 4 0 + 256 * get_or b 5 0;
  num_entries = get_or b 6 0 + 256 * get_or b 7 0;
}

abbrev pub entry_header_bytes : EntryHeader → List ℕ
entry_header_bytes h =
    h.key_length % 256
    ∷ h.key_length / 256 % 256
    ∷ h.value_length % 256
    ∷ h.value_length / 256 % 256
    ∷ h.flags % 256
    ∷ h.padding % 256
    ∷ []

abbrev pub entry_header_of : List ℕ → EntryHeader
entry_header_of b = record {
  key_length = get_or b 0 0 + 256 * get_or b 1 0;
  value_length = get_or b 2 0 + 256 * get_or b 3 0;
  flags = get_or b 4 0;
  padding = get_or b 5 0;
}

-- What the search for a valid entry of a key ends with: the entry's address and header, or the address
-- behind the last entry.
pub data Search : Type 0 where
  found : ℕ → EntryHeader → Search
  missing : ℕ → Search

module _ (lib : Eeprom) where
  -- `bytes[j] = EEPROM.read(addr + j)` for each j below n
  unfoldable pub read_bytes : lib.State → ℕ → ℕ → List ℕ
  read_bytes m addr zero = []
  read_bytes m addr (suc n) = lib.fetch m addr ∷ read_bytes m (addr + 1) n

  -- `EEPROM.write(addr + j, bytes[j])` for each byte
  unfoldable pub write_bytes : lib.State → ℕ → List ℕ → lib.State
  write_bytes m addr [] = m
  write_bytes m addr (b ∷ bytes) = write_bytes (lib.store m addr b) (addr + 1) bytes

  -- `EEPROM.write(to + j, EEPROM.read(from + j))` for each j below n
  unfoldable pub move_bytes : lib.State → ℕ → ℕ → ℕ → lib.State
  move_bytes m from to zero = m
  move_bytes m from to (suc n) =
      move_bytes (lib.store m to (lib.fetch m from)) (from + 1) (to + 1) n

  -- readStorageHeader and writeStorageHeader, whose callers have checked `initialized`
  unfoldable pub header_at : lib.State → StorageHeader
  header_at m = header_of (read_bytes m 0 storage_header_size)

  unfoldable pub put_header : lib.State → StorageHeader → lib.State
  put_header m h = write_bytes m 0 (storage_header_bytes h)

  unfoldable pub entry_header_at : lib.State → ℕ → EntryHeader
  entry_header_at m addr = entry_header_of (read_bytes m addr entry_header_size)

  unfoldable pub stored_key : lib.State → ℕ → List ℕ
  stored_key m addr = read_bytes m (addr + entry_header_size) (entry_header_at m addr).key_length

  unfoldable pub stored_value : lib.State → ℕ → List ℕ
  stored_value m addr =
      read_bytes m (addr + entry_header_size + (entry_header_at m addr).key_length)
        (entry_header_at m addr).value_length

  unfoldable pub next_entry : lib.State → ℕ → ℕ
  next_entry m addr =
      addr
      + entry_header_size
      + (entry_header_at m addr).key_length
      + (entry_header_at m addr).value_length

  -- The loop of write, exists and remove, over the n entries from `addr` on
  unfoldable pub find_entry : lib.State → List ℕ → ℕ → ℕ → Search
  find_entry m key zero addr = missing addr
  find_entry m key (suc n) addr =
      let rest = find_entry m key n (next_entry m addr) in
      if is_valid (entry_header_at m addr).flags && bytes_eq (stored_key m addr) key
      then found addr (entry_header_at m addr)
      else rest

  -- The loop of read
  unfoldable pub read_loop : lib.State → List ℕ → ℕ → ℕ → ReturnCode × List ℕ
  read_loop m key zero addr = (e_storage_key_not_found, [])
  read_loop m key (suc n) addr =
      let rest = read_loop m key n (next_entry m addr) in
      if bytes_eq (stored_key m addr) key && is_valid (entry_header_at m addr).flags
      then (e_none, stored_value m addr)
      else rest

  -- The loop of available: the space used, counted from `used`
  unfoldable pub used_loop : lib.State → ℕ → ℕ → ℕ → ℕ
  used_loop m zero addr used = used
  used_loop m (suc n) addr used = used_loop m n (next_entry m addr) (
      used
      + (entry_header_size
          + (entry_header_at m addr).key_length
          + (entry_header_at m addr).value_length))

  -- The move of one valid entry in defragment
  unfoldable pub move_entry : lib.State → ℕ → ℕ → lib.State
  move_entry m from to =
      let h = entry_header_at m from in
      if from == to
      then m
      else (move_bytes (write_bytes m to (entry_header_bytes h)) (from + entry_header_size)
          (to + entry_header_size) (h.key_length + h.value_length))

  -- The loop of defragment, with the valid entries counted from `count`: the memory and the count
  unfoldable pub defragment_loop : lib.State → ℕ → ℕ → ℕ → ℕ → lib.State × ℕ
  defragment_loop m zero from to count = (m, count)
  defragment_loop m (suc n) from to count =
      let h = entry_header_at m from in
      let size = entry_header_size + h.key_length + h.value_length in
      elim (is_valid h.flags) [
        | true ↦
            defragment_loop (move_entry m from to) n (from + size) (to + size)
              ((count + 1) % 2 ^ 16)
        | false ↦ defragment_loop m n (from + size) to count
      ]

  -- `for (size_t i = 0; i < size; i++) EEPROM.write(i, 0xFF)`, the n addresses from `addr` on
  unfoldable pub fill_bytes : lib.State → ℕ → ℕ → lib.State
  fill_bytes m addr zero = m
  fill_bytes m addr (suc n) = fill_bytes (lib.store m addr 0xFF) (addr + 1) n
