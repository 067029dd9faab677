-- ===== src/EepromStorage/Reading.antt =====
-- read, exists, available, isFull and getEntryCount of EEPROMStorage.cpp on the list of entries.
use radio_mesh.Base.{
  ℕ, zero, suc, ◌+◌, ◌≡◌, ◌≢◌, refl, ap, ◌∙◌, sym, Bool, true, false, Option, none, some, List, [],
  ◌∷◌, length, sub32, arith,
}
use radio_mesh.Codes.{ReturnCode, e_none, e_storage_key_not_found}
use radio_mesh.EepromStorage.{
  Eeprom, Search, found, missing, entry_header_size, storage_header_size, entry_header_at,
  stored_key, stored_value, next_entry, header_at, find_entry, read_loop, used_loop,
}
use radio_mesh.EepromStorage.Operations.{
  EepromStorage, search, exists, read, available, get_entry_count,
}
use radio_mesh.EepromStorage.Memory.{length-read_bytes}
use radio_mesh.EepromStorage.Entries.{total, lookup, entries, contents, length-entries}

-- What read gives for what the list holds
unfoldable pub answer : Option (List ℕ) → ReturnCode × List ℕ
answer none = (e_storage_key_not_found, [])
answer (some v) = (e_none, v)

abbrev pub is_some {ℓ} : {A : Type ℓ} → Option A → Bool
is_some none = false
is_some (some a) = true

abbrev is_found : Search → Bool
is_found (found a h) = true
is_found (missing a) = false

module _ (lib : Eeprom) where
  read_loop_lem :
      (m : lib.State) (key : List ℕ) (n a : ℕ)
      → read_loop lib m key n a ≡ answer (lookup key (entries lib m n a))
  unfolding read_loop lookup entries answer
  read_loop_lem m key zero a = refl
  read_loop_lem m key (suc n) a = ground (arith, read_loop_lem m key n (next_entry lib m a))

  pub used_loop_lem :
      (m : lib.State) (n a used : ℕ) → used_loop lib m n a used ≡ used + total (entries lib m n a)
  unfolding used_loop total entries stored_key stored_value
  used_loop_lem m zero a used = omega arith
  used_loop_lem m (suc n) a used =
      let h = entry_header_at lib m a in
      let k = length-read_bytes lib m (a + entry_header_size) h.key_length in
      let v = length-read_bytes lib m (a + entry_header_size + h.key_length) h.value_length in
      used_loop_lem m n (next_entry lib m a)
        (used + (entry_header_size + h.key_length + h.value_length))
      ∙ omega (arith, k, v)

  find_entry-is_found :
      (m : lib.State) (key : List ℕ) (n a : ℕ)
      → is_found (find_entry lib m key n a) ≡ is_some (lookup key (entries lib m n a))
  unfolding find_entry lookup entries
  find_entry-is_found m key zero a = refl
  find_entry-is_found m key (suc n) a =
      ground (arith, find_entry-is_found m key n (next_entry lib m a))

  -- On an initialised storage and a key that is not empty, read answers with the first valid entry of
  -- the key, or that there is none, and exists says which; available is the size less the header and
  -- all entries, deleted ones included, on 32 bits; and getEntryCount counts all entries.
  pub read_operations_lem :
      (s : EepromStorage lib) (key : List ℕ)
      → s.initialized ≡ true
      → key ≢ []
      → (read lib s key ≡ answer (lookup key (contents lib s.memory)))
        × (exists lib s key ≡ is_some (lookup key (contents lib s.memory)))
        × (available lib s ≡ sub32 s.size (storage_header_size + total (contents lib s.memory)))
        × (get_entry_count lib s ≡ (e_none, length (contents lib s.memory)))
  unfolding read exists available get_entry_count contents search
  read_operations_lem s [] on filled = absurd (filled refl)
  read_operations_lem s (k ∷ key) on filled =
      let n = (header_at lib s.memory).num_entries in
      let a : ℕ = storage_header_size in
      rw on (
        read_loop_lem s.memory (k ∷ key) n a,
        ground (arith, find_entry-is_found s.memory (k ∷ key) n a),
        ap (sub32 s.size) (used_loop_lem s.memory n a a),
        ap (λ c. (e_none, c)) (sym (length-entries lib s.memory n a)),
      )
