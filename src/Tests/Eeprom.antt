-- ===== src/Tests/Eeprom.antt =====
-- A lawful EEPROM of byte cells, a storage on it, and the theorems on EEPROMStorage at concrete keys.
use radio_mesh.Base.{
  ℕ, ◌%◌, ◌<◌, ◌≡◌, ◌≢◌, refl, ap, ◌∙◌, sym, ◌⊎◌, inl, inr, true, false, none, some, List, [], ◌∷◌,
  ◌++◌, length, get_or, set, take, replicate, length-set, length-take, length-append,
  length-replicate, get_or-set_self, get_or-set_ne, arith,
}
use radio_mesh.Codes.{e_none, error, e_storage_setup}
use radio_mesh.Types.{inclusion_pending}
use radio_mesh.Storage.{
  state_key, counter_key, persist_state, load_state, persist_message_counter, load_message_counter,
}
use radio_mesh.Utils.{number_to_bytes}
use radio_mesh.EepromStorage.{
  Eeprom, put_header, write_bytes, fill_bytes, header_at, read_bytes, used_loop, entry_header_at,
  find_entry, next_entry, stored_key, stored_value, read_loop,
}
use radio_mesh.EepromStorage.Operations.{
  EepromStorage, set_params, begin, end, commit, clear, read, exists, available, get_entry_count,
  remove, write, write_and_commit, defragment, initialize_storage_header, search, write_found,
  write_entry, invalidate_at, put_count, is_storage_valid,
}
use radio_mesh.EepromStorage.Memory.{IsEeprom}
use radio_mesh.EepromStorage.Entries.{lookup, place, only_valid, total, entries, contents}
use radio_mesh.EepromStorage.Bytes.{new_entry}
use radio_mesh.EepromStorage.Sound.{IsSound, write_code}
use radio_mesh.EepromStorage.Reading.{answer, read_operations_lem}
use radio_mesh.EepromStorage.Writing.{write-refines}
use radio_mesh.EepromStorage.Commit.{clear_lem, write_and_commit-refines}
use radio_mesh.EepromStorage.Removal.{remove-refines}
use radio_mesh.EepromStorage.Defragment.{defragment-refines}
use radio_mesh.EepromStorage.Errors.{
  failures_keep, CommitRefused, BeginRefused, BeginAnew, blank_of,
}
use radio_mesh.EepromStorage.Beginning.{begin_fresh}
use radio_mesh.EepromStorage.RoundTrip.{
  eeprom_store, read-write_and_commit, read-remove, load-persist_eeprom,
}

abbrev pub cells : Eeprom
cells = record {
  State = List ℕ;
  fetch = λ m a. get_or m a 0 % 256;
  store = λ m a b. set m a b;
  begin = λ m n. (true, take n (m ++ replicate n 255));
  commit = λ m. (true, m);
  close = λ m. m;
}

cells_same : (m : List ℕ) (a b : ℕ) → a < length m → b < 256 → get_or (set m a b) a 0 % 256 ≡ b
cells_same m a b h byte = omega (arith, get_or-set_self 0 m a b h)

cells_begin : (m : List ℕ) (n : ℕ) → length (take n (m ++ replicate n 255)) ≡ n
cells_begin m n = omega (
  arith,
  length-take n (m ++ replicate n 255),
  length-append m (replicate n 255),
  length-replicate {A = ℕ} n 255,
)

pub cells-IsEeprom : IsEeprom cells
cells-IsEeprom = record {
  capacity = λ m. length m;
  fetch_byte = λ m a. omega arith;
  fetch_same = cells_same;
  fetch_other = λ m a b c ne. ap (λ x. x % 256) (get_or-set_ne 0 m a c b ne);
  capacity_store = λ m a b. length-set m a b;
  fetch_commit = λ m a. refl;
  capacity_commit = λ m. refl;
  capacity_begin = λ m n h. cells_begin m n;
}

-- A storage of 64 bytes that has begun, cleared
abbrev raw : EepromStorage cells
raw = record { initialized = true; size = 64; memory = replicate 64 9 }

unfoldable pub empty : EepromStorage cells
empty = (clear cells raw).1

pub empty_lem : (contents cells empty.memory ≡ []) × IsSound cells cells-IsEeprom empty
unfolding empty cells-IsEeprom
empty_lem = clear_lem cells cells-IsEeprom raw refl refl (omega arith) (omega arith)

abbrev pending_value : List ℕ
pending_value = 2 ∷ []

pub no_value :
    (key : List ℕ) (n : ℕ) (v : List ℕ)
    → lookup key (contents cells empty.memory) ≡ some v
    → length v ≡ n
unfolding lookup
no_value key n v e = absurd (ground (arith, sym (ap (lookup key) empty_lem.0) ∙ e))

pub nonempty : (x : ℕ) (xs : List ℕ) → x ∷ xs ≢ []
nonempty x xs e = absurd (omega (arith, ap length e))

other_keys : state_key ≢ counter_key
other_keys e = absurd (omega (arith, ap (λ k. get_or k 0 0) e))

-- The storage with the state in it
pending : EepromStorage cells
pending = (write_and_commit cells 7 empty state_key pending_value).1

empty_writes :
    ((write cells 7 empty state_key pending_value).0 ≡ e_none)
    × ((write_and_commit cells 7 empty state_key pending_value).0 ≡ e_none)
unfolding empty clear commit write initialize_storage_header put_header write_bytes fill_bytes
    available header_at read_bytes used_loop entry_header_at search find_entry next_entry stored_key
    stored_value write_found write_entry invalidate_at put_count write_and_commit
empty_writes = (refl, refl)

write-refines_example :
    (contents cells (write cells 7 empty state_key pending_value).1.memory
      ≡ place (new_entry state_key pending_value 7) (contents cells empty.memory))
    × IsSound cells cells-IsEeprom (write cells 7 empty state_key pending_value).1
write-refines_example =
    write-refines cells cells-IsEeprom 7 empty state_key pending_value empty_lem.1 (omega arith)
      (omega arith) (omega arith) (no_value state_key 1) empty_writes.0

pending_lem :
    (contents cells pending.memory
      ≡ place (new_entry state_key pending_value 7) (contents cells empty.memory))
    × IsSound cells cells-IsEeprom pending
unfolding pending
pending_lem =
    write_and_commit-refines cells cells-IsEeprom 7 empty state_key pending_value empty_lem.1
      (omega arith) (omega arith) (omega arith) (no_value state_key 1) empty_writes.1

write_code_example : (write cells 7 pending counter_key (replicate 60 1)).0 ≡ error 506
unfolding pending empty clear commit write initialize_storage_header put_header write_bytes
    fill_bytes available header_at read_bytes used_loop entry_header_at search find_entry next_entry
    stored_key stored_value write_found write_entry invalidate_at put_count write_and_commit
    contents total entries
write_code_example =
    write_code cells cells-IsEeprom 7 pending counter_key (replicate 60 1) pending_lem.1

read_operations_lem_example :
    (read cells pending state_key ≡ (e_none, pending_value))
    × (exists cells pending state_key ≡ true)
    × (available cells pending ≡ 47)
    × (get_entry_count cells pending ≡ (e_none, 1))
unfolding pending empty clear commit write initialize_storage_header put_header write_bytes
    fill_bytes available header_at read_bytes used_loop entry_header_at search find_entry next_entry
    stored_key stored_value write_found write_entry invalidate_at put_count write_and_commit
    contents total entries answer lookup read exists get_entry_count read_loop
read_operations_lem_example =
    read_operations_lem cells pending state_key pending_lem.1.on (nonempty b'i' (b's' ∷ []))

read-write_and_commit_example :
    (read cells pending state_key ≡ (e_none, pending_value))
    × (read cells pending counter_key ≡ read cells empty counter_key)
    × IsSound cells cells-IsEeprom pending
unfolding pending
read-write_and_commit_example =
    read-write_and_commit cells cells-IsEeprom 7 empty state_key counter_key pending_value
      empty_lem.1 (omega arith) (omega arith) (omega arith) (no_value state_key 1)
      (nonempty b'i' (b's' ∷ [])) (nonempty b'm' (b'c' ∷ [])) other_keys empty_writes.1

read-remove_example :
    (read cells (remove cells pending state_key).1 state_key ≡ answer none)
    × (read cells (remove cells pending state_key).1 counter_key ≡ read cells pending counter_key)
    × IsSound cells cells-IsEeprom (remove cells pending state_key).1
read-remove_example =
    read-remove cells cells-IsEeprom pending state_key counter_key pending_lem.1
      (nonempty b'i' (b's' ∷ [])) (nonempty b'm' (b'c' ∷ [])) other_keys

removed-IsSound : IsSound cells cells-IsEeprom (remove cells pending state_key).1
removed-IsSound =
    (remove-refines cells cells-IsEeprom pending pending_lem.1 state_key
      (nonempty b'i' (b's' ∷ []))).2

defragment-refines_example :
    ((defragment cells (remove cells pending state_key).1).0 ≡ e_none)
    × (contents cells (defragment cells (remove cells pending state_key).1).1.memory
        ≡ only_valid (contents cells (remove cells pending state_key).1.memory))
    × IsSound cells cells-IsEeprom (defragment cells (remove cells pending state_key).1).1
defragment-refines_example =
    defragment-refines cells cells-IsEeprom (remove cells pending state_key).1 removed-IsSound

failures_keep_example :
    (((set_params cells 0 empty).0 ≡ e_none) ⊎ ((set_params cells 0 empty).1 ≡ empty))
    × (((end cells empty).0 ≡ e_none) ⊎ ((end cells empty).1 ≡ empty))
    × (((write cells 7 empty [] []).0 ≡ e_none) ⊎ ((write cells 7 empty [] []).1 ≡ empty))
    × (((remove cells empty []).0 ≡ e_none) ⊎ ((remove cells empty []).1 ≡ empty))
    × (((defragment cells empty).0 ≡ e_none) ⊎ ((defragment cells empty).1 ≡ empty))
    × (((commit cells empty).0 ≡ e_none)
        ⊎ ((commit cells empty).1 ≡ empty)
        ⊎ CommitRefused cells empty (commit cells empty))
    × (((write_and_commit cells 7 empty [] []).0 ≡ e_none)
        ⊎ ((write_and_commit cells 7 empty [] []).1 ≡ empty)
        ⊎ (((write cells 7 empty [] []).0 ≡ e_none)
            × CommitRefused cells
                (write cells 7 empty [] []).1
                (write_and_commit cells 7 empty [] [])))
    × (((clear cells empty).0 ≡ e_none)
        ⊎ ((clear cells empty).1 ≡ empty)
        ⊎ CommitRefused cells (blank_of cells empty) (clear cells empty))
    × (((begin cells empty).0 ≡ e_none)
        ⊎ ((begin cells empty).1 ≡ empty)
        ⊎ BeginRefused cells empty
        ⊎ BeginAnew cells empty)
failures_keep_example = failures_keep cells 7 0 empty [] []

-- An EEPROM that has not begun
abbrev pub off : EepromStorage cells
off = record { initialized = false; size = 64; memory = [] }

begin_fresh_example :
    (contents cells (begin cells off).1.memory ≡ [])
    × IsSound cells cells-IsEeprom (begin cells off).1
    × ((begin cells off).0 ≡ e_storage_setup)
unfolding is_storage_valid header_at read_bytes
begin_fresh_example =
    begin_fresh cells cells-IsEeprom off refl (omega arith) (omega arith) refl refl

load-persist_eeprom_example :
    (load_state
        (eeprom_store cells 7)
        (persist_message_counter
          (eeprom_store cells 7)
          70000
          (persist_state (eeprom_store cells 7) inclusion_pending empty).1).1
      ≡ (e_none, some inclusion_pending))
    × (load_message_counter
          (eeprom_store cells 7)
          (persist_message_counter
            (eeprom_store cells 7)
            70000
            (persist_state (eeprom_store cells 7) inclusion_pending empty).1).1
        ≡ (e_none, some 70000))
unfolding empty clear commit write initialize_storage_header put_header write_bytes fill_bytes
    available header_at read_bytes used_loop entry_header_at search find_entry next_entry stored_key
    stored_value write_found write_entry invalidate_at put_count write_and_commit persist_state
    persist_message_counter number_to_bytes
load-persist_eeprom_example =
    load-persist_eeprom cells cells-IsEeprom 7 empty inclusion_pending 70000 empty_lem.1
      (omega arith) (inr (inl refl)) (omega arith) (no_value state_key 1) (no_value counter_key 4)
      refl refl

-- Two entries; then the first one's value is replaced by a longer one, which runs over the second.
overrun : EepromStorage cells
overrun =
    let s1 = (write cells 7 empty (b'a' ∷ []) (1 ∷ [])).1 in
    let s2 = (write cells 7 s1 (b'b' ∷ []) (2 ∷ [])).1 in
    (write cells 7 s2 (b'a' ∷ []) (3 ∷ 3 ∷ 3 ∷ [])).1

overrun_lost : read cells overrun (b'b' ∷ []) ≡ (error 503, [])
unfolding overrun empty clear commit write initialize_storage_header put_header write_bytes
    fill_bytes available header_at read_bytes used_loop entry_header_at search find_entry next_entry
    stored_key stored_value write_found write_entry invalidate_at put_count read read_loop
overrun_lost = refl
