-- ===== src/EepromStorage/Entries.antt =====
-- The list of entries that the bytes of an EEPROM stand for, and what the operations of
-- EEPROMStorage.cpp mean on it.
use radio_mesh.Base.{
  ℕ, zero, suc, ◌+◌, ◌*◌, ◌≤◌, ◌≡◌, refl, ap, ◌∙◌, sym, Bool, ◌&&◌, Option, none, some, List, [],
  ◌∷◌, length, bytes_eq, arith, if◌then◌else◌,
}
use radio_mesh.EepromStorage.{
  Eeprom, entry_header_size, storage_header_size, is_valid, without_valid, entry_header_at,
  stored_key, stored_value, next_entry, header_at,
}
use radio_mesh.EepromStorage.Memory.{Agree, Agree-narrow, read_bytes-Agree, length-read_bytes}

pub record Entry : Type 0 where
  pub key : List ℕ
  pub value : List ℕ
  pub flags : ℕ
  pub padding : ℕ

abbrev pub entry_size : Entry → ℕ
entry_size e = entry_header_size + length e.key + length e.value

unfoldable pub total : List Entry → ℕ
total [] = 0
total (e ∷ es) = entry_size e + total es

-- A valid entry of this key
abbrev pub matches : List ℕ → Entry → Bool
matches key e = is_valid e.flags && bytes_eq e.key key

-- The value of the first valid entry of a key
unfoldable pub lookup : List ℕ → List Entry → Option (List ℕ)
lookup key [] = none
lookup key (e ∷ es) = if matches key e then some e.value else lookup key es

-- The first valid entry of a key, changed by a function
unfoldable pub adjust : List ℕ → (Entry → Entry) → List Entry → List Entry
adjust key f [] = []
adjust key f (e ∷ es) = if matches key e then f e ∷ es else e ∷ adjust key f es

-- The entry, marked deleted
abbrev pub deleted : Entry → Entry
deleted e = record e { flags = without_valid e.flags }

-- An entry takes the place of the first valid one of its key, or goes behind the last.
unfoldable pub place : Entry → List Entry → List Entry
place new [] = new ∷ []
place new (e ∷ es) = if matches new.key e then new ∷ es else e ∷ place new es

-- The valid entries alone
unfoldable pub only_valid : List Entry → List Entry
only_valid [] = []
only_valid (e ∷ es) = if is_valid e.flags then e ∷ only_valid es else only_valid es

module _ (lib : Eeprom) where
  abbrev pub entry_at : lib.State → ℕ → Entry
  entry_at m a = record {
    key = stored_key lib m a;
    value = stored_value lib m a;
    flags = (entry_header_at lib m a).flags;
    padding = (entry_header_at lib m a).padding;
  }

  -- The n entries from an address on
  unfoldable pub entries : lib.State → ℕ → ℕ → List Entry
  entries m zero a = []
  entries m (suc n) a = entry_at m a ∷ entries m n (next_entry lib m a)

  -- All entries that the header counts
  unfoldable pub contents : lib.State → List Entry
  contents m = entries m (header_at lib m).num_entries storage_header_size

  pub next_entry_lem : (m : lib.State) (a : ℕ) → next_entry lib m a ≡ a + entry_size (entry_at m a)
  unfolding next_entry stored_key stored_value
  next_entry_lem m a =
      let h = entry_header_at lib m a in
      omega (
        arith,
        length-read_bytes lib m (a + entry_header_size) h.key_length,
        length-read_bytes lib m (a + entry_header_size + h.key_length) h.value_length,
      )

  pub entry_header_at-Agree :
      (m m' : lib.State) (a hi : ℕ)
      → a + entry_header_size ≤ hi
      → Agree lib m m' a hi
      → entry_header_at lib m' a ≡ entry_header_at lib m a
  unfolding entry_header_at
  entry_header_at-Agree m m' a hi fits g =
      rw (read_bytes-Agree lib m m' a entry_header_size hi fits g) refl

  pub entry_at-Agree :
      (m m' : lib.State) (a hi : ℕ)
      → a + entry_size (entry_at m a) ≤ hi
      → Agree lib m m' a hi
      → entry_at m' a ≡ entry_at m a
  unfolding stored_key stored_value
  entry_at-Agree m m' a hi fits g =
      let h = entry_header_at lib m a in
      let k = length-read_bytes lib m (a + entry_header_size) h.key_length in
      let v = length-read_bytes lib m (a + entry_header_size + h.key_length) h.value_length in
      let head = entry_header_at-Agree m m' a hi (omega arith) g in
      let key =
        read_bytes-Agree lib m m' (a + entry_header_size) h.key_length hi (omega (arith, k, v))
          (Agree-narrow lib a hi (a + entry_header_size) hi g (omega arith) (omega arith)) in
      let value =
        read_bytes-Agree lib m m' (a + entry_header_size + h.key_length) h.value_length hi
          (omega (arith, k, v))
          (Agree-narrow lib a hi (a + entry_header_size + h.key_length) hi g (omega arith)
            (omega arith)) in
      rw (head, key, value) refl

  -- The entries depend only on the bytes that they take.
  pub entries-Agree :
      (m m' : lib.State) (n a hi : ℕ)
      → a + total (entries m n a) ≤ hi
      → Agree lib m m' a hi
      → entries m' n a ≡ entries m n a
  unfolding entries total
  entries-Agree m m' zero a hi fits g = refl
  entries-Agree m m' (suc n) a hi fits g =
      let step = next_entry_lem m a in
      let head = entry_at-Agree m m' a hi (omega arith) g in
      let step' = next_entry_lem m' a ∙ ap (λ e. a + entry_size e) head ∙ sym step in
      let rest =
        entries-Agree m m' n (next_entry lib m a) hi (omega (arith, step))
          (Agree-narrow lib a hi (next_entry lib m a) hi g (omega (arith, step)) (omega arith)) in
      rw (step', rest) (ap (λ e. e ∷ entries m n (next_entry lib m a)) head)

  pub length-entries : (m : lib.State) (n a : ℕ) → length (entries m n a) ≡ n
  unfolding entries
  length-entries m zero a = refl
  length-entries m (suc n) a = ap suc (length-entries m n (next_entry lib m a))

-- Each entry takes at least its header.
pub length-le_total : (es : List Entry) → entry_header_size * length es ≤ total es
unfolding total
length-le_total [] = omega arith
length-le_total (e ∷ es) = omega (arith, length-le_total es)
