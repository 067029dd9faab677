-- ===== src/EepromStorage/Writing.antt =====
-- write and writeAndCommit of EEPROMStorage.cpp on the list of entries.
use radio_mesh.Base.{
  ℕ, suc, ◌+◌, ◌-◌, ◌%◌, ◌^◌, ◌≤◌, ◌<◌, ◌≡◌, refl, ap, ◌∙◌, sym, subst, inl, inr, some, List, [],
  ◌∷◌, length, AllBytes, arith,
}
use radio_mesh.Codes.{e_none}
use radio_mesh.EepromStorage.{
  Eeprom, StorageHeader, EntryHeader, Search, found, missing, entry_header_size,
  storage_header_size, stored_key, stored_value, header_at, put_header, find_entry,
}
use radio_mesh.EepromStorage.Operations.{
  EepromStorage, write, write_found, write_entry, invalidate_at, put_count, search,
}
use radio_mesh.EepromStorage.Memory.{IsEeprom, Agree-narrow, Agree-trans}
use radio_mesh.EepromStorage.Entries.{
  Entry, entry_size, total, lookup, place, entry_at, entries, contents, entries-Agree,
}
use radio_mesh.EepromStorage.Bytes.{
  new_entry, header_at-HeaderFits, capacity-put_header, put_header-Agree, header_at-put_header,
  capacity-invalidate_at, invalidate_at-Agree, capacity-write_entry, write_entry-Agree,
  entry_at-write_entry,
}
use radio_mesh.EepromStorage.Locate.{
  Located, find_entry-Located, FoundIn_lem, entries-adjust, entries-append, place-missing,
  place-found,
}
use radio_mesh.EepromStorage.Unique.{Unique, Unique-place}
use radio_mesh.EepromStorage.Sound.{IsSound, num_entries_bound, available-IsSound, write_code}

-- A new entry adds at most its own size.
total-place : (new : Entry) (es : List Entry) → total (place new es) ≤ total es + entry_size new
unfolding total place
total-place new [] = omega arith
total-place new (e ∷ es) = ground (arith, total-place new es)

module _ (lib : Eeprom) (law : IsEeprom lib) where
  -- What write leaves in memory
  abbrev pub Keeps : lib.State → lib.State → Type 0
  Keeps m m' =
      ((header_at lib m').magic ≡ (header_at lib m).magic)
      × ((header_at lib m').version ≡ (header_at lib m).version)
      × (law.capacity m' ≡ law.capacity m)

  -- Setting the count sets how many of the entries count.
  pub put_count_lem :
      (m m1 : lib.State) (n : ℕ)
      → n < 65536
      → storage_header_size ≤ law.capacity m1
      → law.capacity m1 ≡ law.capacity m
      → (contents lib (put_count lib m1 (header_at lib m) n) ≡ entries lib m1 n storage_header_size)
        × Keeps m (put_count lib m1 (header_at lib m) n)
  unfolding put_count contents
  put_count_lem m m1 n small room same =
      let h : StorageHeader = record (header_at lib m) { num_entries = n } in
      let fits = header_at-HeaderFits lib law m in
      let e = header_at-put_header lib law m1 h (fits.0, fits.1, small) room in
      let hi = storage_header_size + total (entries lib m1 n storage_header_size) in
      let list =
        entries-Agree lib m1 (put_header lib m1 h) n storage_header_size hi (omega arith)
          (put_header-Agree lib law m1 h hi) in
      (rw e list, (rw e refl, rw e refl, capacity-put_header lib law m1 h ∙ same))

  module _ (m : lib.State) (key value : List ℕ) (pad : ℕ) (kb : AllBytes key) (vb : AllBytes value)
      (kl : length key < 65536) (vl : length value < 65536) (pl : pad < 256)
      (many : (header_at lib m).num_entries < 65535)
      (room : storage_header_size
          + total (contents lib m)
          + (entry_header_size + length key + length value)
        ≤ law.capacity m) where
    abbrev new : Entry
    new = new_entry key value pad

    -- What is left in memory once the search has ended so
    abbrev Done : Search → Type 0
    Done r =
        (contents lib (write_found lib m (header_at lib m) r key value pad)
          ≡ place new (contents lib m))
        × Keeps m (write_found lib m (header_at lib m) r key value pad)

    write_found_missing :
        (b : ℕ)
        → Located lib m key (header_at lib m).num_entries storage_header_size (missing b)
        → Done (missing b)
    unfolding write_found contents
    write_found_missing b (end, nothing) =
        let n = (header_at lib m).num_entries in
        let m1 = write_entry lib m b key value pad in
        let count : (n + 1) % 2 ^ 16 ≡ suc n = omega (arith, many) in
        let c1 = capacity-write_entry lib law m b key value pad in
        let r = put_count_lem m m1 ((n + 1) % 2 ^ 16) (omega arith) (omega (arith, c1, room)) c1 in
        let at : entry_at lib m1 b ≡ new =
          entry_at-write_entry lib law m b key value pad (omega (arith, end, room)) kb vb kl vl
            pl in
        let list =
          entries-append lib m key m1 new n 8 (subst (λ c. entry_at lib m1 c ≡ new) end at) (
            write_entry-Agree lib law m b key value pad 8 (8 + total (entries lib m n 8))
              (inl (omega (arith, end)))) in
        (
          r.0
              ∙ ap (λ c. entries lib m1 c 8) count
              ∙ list
              ∙ sym (place-missing new (entries lib m n 8) nothing),
          r.1,
        )

    write_found_found :
        (b : ℕ) (h : EntryHeader)
        → Located lib m key (header_at lib m).num_entries storage_header_size (found b h)
        → ((v : List ℕ) → lookup key (contents lib m) ≡ some v → length v ≡ length value)
        → Done (found b h)
    unfolding write_found contents put_count stored_key
    write_found_found b h (head, at) same =
        let n = (header_at lib m).num_entries in
        let less = (n + 2 ^ 16 - 1) % 2 ^ 16 in
        let bounds = FoundIn_lem lib m key n 8 b at in
        let old = stored_value lib m b in
        let old_length = same old bounds.3 in
        let size : entry_size new ≡ entry_size (entry_at lib m b) =
          omega (arith, ap length bounds.2, old_length) in
        let m1 = invalidate_at lib m b h in
        let m2 = put_header lib m1 (record (header_at lib m) { num_entries = less }) in
        let m3 = write_entry lib m2 b key value pad in
        let end = b + entry_size (entry_at lib m b) in
        let hi = 8 + total (entries lib m n 8) in
        let c1 = capacity-invalidate_at lib law m b h in
        let c2 = capacity-put_header lib law m1 (record (header_at lib m) { num_entries = less }) in
        let c3 = capacity-write_entry lib law m2 b key value pad in
        let count : (less + 1) % 2 ^ 16 ≡ n = omega (arith, (header_at-HeaderFits lib law m).2) in
        let r =
          put_count_lem m m3 ((less + 1) % 2 ^ 16) (omega arith) (omega (arith, c1, c2, c3, room))
            (c3 ∙ c2 ∙ c1) in
        let new_at : entry_at lib m3 b ≡ new =
          entry_at-write_entry lib law m2 b key value pad
            (omega (arith, c1, c2, room, bounds.1, size)) kb vb kl vl pl in
        let low = Agree-trans lib 8 b (invalidate_at-Agree lib law m b h 8 b (inl (omega arith))) (
          Agree-trans lib 8 b
            (put_header-Agree lib law m1 (record (header_at lib m) { num_entries = less }) b)
            (write_entry-Agree lib law m2 b key value pad 8 b (inl (omega arith)))) in
        let high =
          Agree-trans lib end hi (invalidate_at-Agree lib law m b h end hi (inr (omega arith))) (
            Agree-trans lib end hi
              (Agree-narrow lib 8 hi end hi
                (put_header-Agree lib law m1 (record (header_at lib m) { num_entries = less }) hi)
                (omega (arith, bounds.0)) (omega arith))
              (write_entry-Agree lib law m2 b key value pad end hi (inr (omega (arith, size))))) in
        let list =
          entries-adjust lib m key m3 (λ e. new) n 8 b hi at new_at size low high (omega arith) in
        (
          r.0
              ∙ ap (λ c. entries lib m3 c 8) count
              ∙ list
              ∙ sym (place-found new (entries lib m n 8) old bounds.3),
          r.1,
        )

    write_found_lem :
        (r : Search)
        → Located lib m key (header_at lib m).num_entries storage_header_size r
        → ((v : List ℕ) → lookup key (contents lib m) ≡ some v → length v ≡ length value)
        → Done r
    write_found_lem (found b h) at same = write_found_found b h at same
    write_found_lem (missing b) at same = write_found_missing b at

  -- What the guards of write have made sure of when it succeeds
  write_room :
      (pad : ℕ) (s : EepromStorage lib) (key value : List ℕ)
      → IsSound lib law s
      → (write lib pad s key value).0 ≡ e_none
      → (length key ≤ 255)
        × (storage_header_size
              + total (contents lib s.memory)
              + (entry_header_size + length key + length value)
            ≤ s.size)
        × (write lib pad s key value ≡ (
          e_none,
          record s {
            memory =
                write_found lib s.memory
                  (header_at lib s.memory)
                  (search lib s.memory key)
                  key
                  value
                  pad;
          },
        ))
  unfolding write
  write_room pad s key value ok done =
      let code = write_code lib law pad s key value ok in
      let room = available-IsSound lib law s ok in
      (
        ground (arith, done, ok.on, room),
        ground (arith, done, ok.on, room, ok.fits),
        ground (arith, done, ok.on, room),
      )

  -- On a sound storage a write that succeeds, of a key that has no valid entry or whose value has the same
  -- length, puts the new entry in the place of the first valid entry of the key, or behind the last, and
  -- leaves the storage sound.
  pub write-refines :
      (pad : ℕ) (s : EepromStorage lib) (key value : List ℕ)
      → IsSound lib law s
      → AllBytes key
      → AllBytes value
      → pad < 256
      → ((v : List ℕ) → lookup key (contents lib s.memory) ≡ some v → length v ≡ length value)
      → (write lib pad s key value).0 ≡ e_none
      → (contents lib (write lib pad s key value).1.memory
          ≡ place (new_entry key value pad) (contents lib s.memory))
        × IsSound lib law (write lib pad s key value).1
  unfolding search
  write-refines pad s key value ok kb vb pl same done =
      let m = s.memory in
      let es = contents lib m in
      let g = write_room pad s key value ok done in
      let r = find_entry lib m key (header_at lib m).num_entries storage_header_size in
      let small = ok.small in
      let w =
        write_found_lem m key value pad kb vb (omega (arith, g.0)) (omega (arith, g.1)) pl
          (omega (arith, num_entries_bound lib law s ok, g.1)) (omega (arith, ok.capacity, g.1)) r
          (find_entry-Located lib m key (header_at lib m).num_entries storage_header_size) same in
      let added = total-place (new_entry key value pad) es in
      rw g.2 (
        w.0,
        record {
          on = ok.on;
          capacity = w.1.2 ∙ ok.capacity;
          small = ok.small;
          magic = w.1.0 ∙ ok.magic;
          version = w.1.1 ∙ ok.version;
          unique =
              subst Unique (sym w.0) (Unique-place (new_entry key value pad) es refl ok.unique);
          fits = omega (arith, ap total w.0, added, g.1);
        },
      )
