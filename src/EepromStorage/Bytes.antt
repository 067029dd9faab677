-- ===== src/EepromStorage/Bytes.antt =====
-- The structs of EEPROMStorage.h in memory: what is written of them is read back, and nothing else changes.
use radio_mesh.Base.{
  ℕ, zero, suc, ◌+◌, ◌≤◌, ◌<◌, ◌%◌, ◌^◌, ◌≡◌, refl, ap, ◌∙◌, ◌⊎◌, inl, inr, List, [], ◌∷◌, length,
  get_or, AllBytes, arith,
}
use radio_mesh.EepromStorage.{
  Eeprom, StorageHeader, EntryHeader, storage_header_size, entry_header_size, without_valid,
  storage_header_bytes, header_of, entry_header_bytes, entry_header_of, read_bytes, write_bytes,
  header_at, put_header, entry_header_at, stored_key, stored_value,
}
use radio_mesh.EepromStorage.Operations.{invalidate_at, write_entry}
use radio_mesh.EepromStorage.Memory.{
  IsEeprom, Agree, Agree-narrow, Agree-trans, read_bytes-Agree, read_bytes-AllBytes,
  capacity-write_bytes, write_bytes-Agree, read_bytes-write_bytes,
}
use radio_mesh.EepromStorage.Entries.{Entry, deleted, entry_at}

get_or_byte : (bs : List ℕ) (i : ℕ) → AllBytes bs → get_or bs i 0 < 256
get_or_byte [] i bytes = omega arith
get_or_byte (b ∷ bs) zero bytes = bytes.0
get_or_byte (b ∷ bs) (suc i) bytes = get_or_byte bs i bytes.1

abbrev pub HeaderFits : StorageHeader → Type 0
HeaderFits h = (h.magic < 2 ^ 32) × (h.version < 65536) × (h.num_entries < 65536)

header_of-storage_header_bytes :
    (h : StorageHeader) → HeaderFits h → header_of (storage_header_bytes h) ≡ h
header_of-storage_header_bytes h fits = ground (arith, fits)

abbrev pub EntryHeaderFits : EntryHeader → Type 0
EntryHeaderFits h =
    (h.key_length < 65536) × (h.value_length < 65536) × (h.flags < 256) × (h.padding < 256)

entry_header_of-entry_header_bytes :
    (h : EntryHeader) → EntryHeaderFits h → entry_header_of (entry_header_bytes h) ≡ h
entry_header_of-entry_header_bytes h fits = ground (arith, fits)

pub entry_header_bytes-AllBytes : (h : EntryHeader) → AllBytes (entry_header_bytes h)
entry_header_bytes-AllBytes h = omega arith

storage_header_bytes-AllBytes : (h : StorageHeader) → AllBytes (storage_header_bytes h)
storage_header_bytes-AllBytes h = omega arith

-- The entry that write makes
abbrev pub new_entry : List ℕ → List ℕ → ℕ → Entry
new_entry key value pad = record { key = key; value = value; flags = 1; padding = pad }

module _ (lib : Eeprom) (law : IsEeprom lib) where
  pub header_at-HeaderFits : (m : lib.State) → HeaderFits (header_at lib m)
  unfolding header_at
  header_at-HeaderFits m =
      let b = read_bytes lib m 0 8 in
      let g = λ (i : ℕ). get_or_byte b i (read_bytes-AllBytes lib law m 0 8) in
      omega (arith, g 0, g 1, g 2, g 3, g 4, g 5, g 6, g 7)

  pub entry_header_at-EntryHeaderFits :
      (m : lib.State) (a : ℕ) → EntryHeaderFits (entry_header_at lib m a)
  unfolding entry_header_at
  entry_header_at-EntryHeaderFits m a =
      let b = read_bytes lib m a 6 in
      let g = λ (i : ℕ). get_or_byte b i (read_bytes-AllBytes lib law m a 6) in
      omega (arith, g 0, g 1, g 2, g 3, g 4, g 5)

  pub capacity-put_header :
      (m : lib.State) (h : StorageHeader) → law.capacity (put_header lib m h) ≡ law.capacity m
  unfolding put_header
  capacity-put_header m h = capacity-write_bytes lib law m 0 (storage_header_bytes h)

  pub put_header-Agree :
      (m : lib.State) (h : StorageHeader) (hi : ℕ)
      → Agree lib m (put_header lib m h) storage_header_size hi
  unfolding put_header
  put_header-Agree m h hi =
      write_bytes-Agree lib law m 0 (storage_header_bytes h) storage_header_size hi
        (inr (omega arith))

  pub header_at-put_header :
      (m : lib.State) (h : StorageHeader)
      → HeaderFits h
      → storage_header_size ≤ law.capacity m
      → header_at lib (put_header lib m h) ≡ h
  unfolding header_at put_header
  header_at-put_header m h fits room =
      ap header_of (
        read_bytes-write_bytes lib law m 0 (storage_header_bytes h) (omega arith)
          (storage_header_bytes-AllBytes h))
      ∙ header_of-storage_header_bytes h fits

  pub header_at-Agree : (m m' : lib.State) → Agree lib m m' 0 8 → header_at lib m' ≡ header_at lib m
  unfolding header_at
  header_at-Agree m m' g = ap header_of (read_bytes-Agree lib m m' 0 8 8 (omega arith) g)

  pub entry_header_at-write_bytes :
      (m : lib.State) (a : ℕ) (h : EntryHeader)
      → EntryHeaderFits h
      → a + entry_header_size ≤ law.capacity m
      → entry_header_at lib (write_bytes lib m a (entry_header_bytes h)) a ≡ h
  unfolding entry_header_at
  entry_header_at-write_bytes m a h fits room =
      ap entry_header_of (
        read_bytes-write_bytes lib law m a (entry_header_bytes h) (omega arith)
          (entry_header_bytes-AllBytes h))
      ∙ entry_header_of-entry_header_bytes h fits

  pub capacity-invalidate_at :
      (m : lib.State) (a : ℕ) (h : EntryHeader)
      → law.capacity (invalidate_at lib m a h) ≡ law.capacity m
  unfolding invalidate_at
  capacity-invalidate_at m a h =
      capacity-write_bytes lib law m a
        (entry_header_bytes (record h { flags = without_valid h.flags }))

  pub invalidate_at-Agree :
      (m : lib.State) (a : ℕ) (h : EntryHeader) (lo hi : ℕ)
      → (hi ≤ a) ⊎ (a + entry_header_size ≤ lo)
      → Agree lib m (invalidate_at lib m a h) lo hi
  unfolding invalidate_at
  invalidate_at-Agree m a h lo hi out =
      write_bytes-Agree lib law m a
        (entry_header_bytes (record h { flags = without_valid h.flags })) lo hi out

  -- Invalidating leaves the key and the value in place.
  pub entry_at-invalidate_at :
      (m : lib.State) (a : ℕ)
      → a + entry_header_size ≤ law.capacity m
      → entry_at lib (invalidate_at lib m a (entry_header_at lib m a)) a
        ≡ deleted (entry_at lib m a)
  unfolding stored_key stored_value
  entry_at-invalidate_at m a room =
      let h = entry_header_at lib m a in
      let m' = invalidate_at lib m a h in
      let fits = entry_header_at-EntryHeaderFits m a in
      let h' : EntryHeader = record h { flags = without_valid h.flags } in
      let head : entry_header_at lib m' a ≡ h' =
        unfold invalidate_at in entry_header_at-write_bytes m a h' (omega (arith, fits)) room in
      let g =
        invalidate_at-Agree m a h (a + 6) (a + 6 + h.key_length + h.value_length)
          (inr (omega arith)) in
      let key =
        read_bytes-Agree lib m m' (a + 6) h.key_length (a + 6 + h.key_length + h.value_length)
          (omega arith) g in
      let value =
        read_bytes-Agree lib m m' (a + 6 + h.key_length) h.value_length
          (a + 6 + h.key_length + h.value_length) (omega arith)
          (Agree-narrow lib (a + 6) (a + 6 + h.key_length + h.value_length) (a + 6 + h.key_length)
            (a + 6 + h.key_length + h.value_length) g (omega arith) (omega arith)) in
      rw (head, key, value) refl

  pub capacity-write_entry :
      (m : lib.State) (a : ℕ) (key value : List ℕ) (pad : ℕ)
      → law.capacity (write_entry lib m a key value pad) ≡ law.capacity m
  unfolding write_entry
  capacity-write_entry m a key value pad =
      omega (arith, λ (m : lib.State) (a : ℕ) (bs : List ℕ). capacity-write_bytes lib law m a bs)

  pub write_entry-Agree :
      (m : lib.State) (a : ℕ) (key value : List ℕ) (pad lo hi : ℕ)
      → (hi ≤ a) ⊎ (a + (entry_header_size + length key + length value) ≤ lo)
      → Agree lib m (write_entry lib m a key value pad) lo hi
  unfolding write_entry
  write_entry-Agree m a key value pad lo hi out =
      let h : EntryHeader = record {
        key_length = length key % 2 ^ 16;
        value_length = length value % 2 ^ 16;
        flags = 1;
        padding = pad;
      } in
      let m1 = write_bytes lib m a (entry_header_bytes h) in
      let m2 = write_bytes lib m1 (a + 6) key in
      Agree-trans lib lo hi
        (write_bytes-Agree lib law m a (entry_header_bytes h) lo hi (ground (arith, out)))
        (Agree-trans lib lo hi
          (write_bytes-Agree lib law m1 (a + 6) key lo hi (ground (arith, out)))
          (write_bytes-Agree lib law m2 (a + 6 + length key) value lo hi (ground (arith, out))))

  -- The entry that was written is read back.
  pub entry_at-write_entry :
      (m : lib.State) (a : ℕ) (key value : List ℕ) (pad : ℕ)
      → a + (entry_header_size + length key + length value) ≤ law.capacity m
      → AllBytes key
      → AllBytes value
      → length key < 65536
      → length value < 65536
      → pad < 256
      → entry_at lib (write_entry lib m a key value pad) a ≡ new_entry key value pad
  unfolding stored_key stored_value write_entry
  entry_at-write_entry m a key value pad room kb vb kl vl pl =
      let h : EntryHeader = record {
        key_length = length key % 2 ^ 16;
        value_length = length value % 2 ^ 16;
        flags = 1;
        padding = pad;
      } in
      let m1 = write_bytes lib m a (entry_header_bytes h) in
      let m2 = write_bytes lib m1 (a + 6) key in
      let m3 = write_bytes lib m2 (a + 6 + length key) value in
      let c1 = capacity-write_bytes lib law m a (entry_header_bytes h) in
      let c2 = capacity-write_bytes lib law m1 (a + 6) key in
      let head : entry_header_at lib m3 a ≡ h =
        unfold entry_header_at in
        (ap entry_header_of (
            read_bytes-Agree lib m1 m3 a 6 (a + 6) (omega arith) (
              Agree-trans lib a (a + 6)
                (write_bytes-Agree lib law m1 (a + 6) key a (a + 6) (inl (omega arith)))
                (write_bytes-Agree lib law m2 (a + 6 + length key) value a (a + 6)
                  (inl (omega arith)))))
          ∙ entry_header_at-write_bytes m a h (omega (arith, pl)) (omega arith)) in
      let whole : read_bytes lib m3 (a + 6) (length key) ≡ key =
        read_bytes-Agree lib m2 m3 (a + 6) (length key) (a + 6 + length key) (omega arith) (
          write_bytes-Agree lib law m2 (a + 6 + length key) value (a + 6) (a + 6 + length key)
            (inl (omega arith)))
        ∙ read_bytes-write_bytes lib law m1 (a + 6) key (omega (arith, c1)) kb in
      let rest : read_bytes lib m3 (a + 6 + length key) (length value) ≡ value =
        read_bytes-write_bytes lib law m2 (a + 6 + length key) value (omega (arith, c1, c2)) vb in
      let same : h ≡ record {
        key_length = length key;
        value_length = length value;
        flags = 1;
        padding = pad;
      } =
        ground (arith, kl, vl) in
      rw (head ∙ same, whole, rest) refl
