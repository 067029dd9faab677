-- ===== src/EepromStorage/Moving.antt =====
-- The move of one entry in defragment of EEPROMStorage.cpp, where source and target may overlap.
use radio_mesh.Base.{
  ℕ, zero, suc, ◌+◌, ◌-◌, ◌≤◌, ◌<◌, ◌≡◌, refl, ap, ◌∙◌, sym, subst, ◌⊎◌, inl, inr, Bool-cases,
  ==_iff, ◌==◌, arith,
}
use radio_mesh.EepromStorage.{
  Eeprom, entry_header_size, entry_header_bytes, read_bytes, write_bytes, move_bytes,
  entry_header_at, stored_key, stored_value, move_entry,
}
use radio_mesh.EepromStorage.Memory.{
  IsEeprom, Agree, Agree-trans, length-read_bytes, capacity-write_bytes, write_bytes-Agree,
  capacity-move_bytes, move_bytes-Agree,
}
use radio_mesh.EepromStorage.Entries.{entry_size, entry_at, entry_header_at-Agree}
use radio_mesh.EepromStorage.Bytes.{entry_header_at-EntryHeaderFits, entry_header_at-write_bytes}

-- What stood at `from` stands at `to`.
pub record Shifted (lib : Eeprom) (m m' : lib.State) (from to n : ℕ) : Type 0 where
  pub shift : (i : ℕ) → i < n → lib.fetch m' (to + i) ≡ lib.fetch m (from + i)

module _ (lib : Eeprom) (law : IsEeprom lib) where
  move_bytes-shift :
      (m : lib.State) (from to n i : ℕ)
      → to < from
      → to + n ≤ law.capacity m
      → i < n
      → lib.fetch (move_bytes lib m from to n) (to + i) ≡ lib.fetch m (from + i)
  unfolding move_bytes
  move_bytes-shift m from to zero i down room h = elim h [ ]
  move_bytes-shift m from to (suc n) zero down room h =
      let b = lib.fetch m from in
      let m1 = lib.store m to b in
      let g = move_bytes-Agree lib law m1 (from + 1) (to + 1) n 0 (to + 1) (inl (omega arith)) in
      let e : lib.fetch (move_bytes lib m1 (from + 1) (to + 1) n) to ≡ b =
        g.same to (omega arith) (omega arith)
        ∙ law.fetch_same m to b (omega arith) (law.fetch_byte m from) in
      subst (λ x. lib.fetch (move_bytes lib m1 (from + 1) (to + 1) n) x ≡ lib.fetch m (from + 0))
        (omega arith) (e ∙ ap (lib.fetch m) (omega arith))
  move_bytes-shift m from to (suc n) (suc i) down room h =
      let b = lib.fetch m from in
      let m1 = lib.store m to b in
      let e =
        move_bytes-shift m1 (from + 1) (to + 1) n i (omega arith)
          (omega (arith, law.capacity_store m to b)) (omega arith) in
      let other = law.fetch_other m to b (from + 1 + i) (omega arith) in
      ap (lib.fetch (move_bytes lib m1 (from + 1) (to + 1) n)) (omega arith)
      ∙ e
      ∙ other
      ∙ ap (lib.fetch m) (omega arith)

  read_bytes-Shifted :
      (m m' : lib.State) (from to n a b k : ℕ)
      → Shifted lib m m' from to n
      → a + k ≤ from + n
      → from ≤ a
      → b + from ≡ a + to
      → read_bytes lib m' b k ≡ read_bytes lib m a k
  unfolding read_bytes
  read_bytes-Shifted m m' from to n a b zero g in_it low same = refl
  read_bytes-Shifted m m' from to n a b (suc k) g in_it low same =
      let e = g.shift (a - from) (omega arith) in
      let head : lib.fetch m' b ≡ lib.fetch m a =
        ap (lib.fetch m') (omega arith) ∙ e ∙ ap (lib.fetch m) (omega arith) in
      rw
        (
          head,
          read_bytes-Shifted m m' from to n (a + 1) (b + 1) k g (omega arith) (omega arith)
              (omega arith),
        )
        refl

  -- What a move of one entry down does to memory
  abbrev pub Moved : lib.State → lib.State → ℕ → ℕ → Type 0
  Moved m m' from to =
      (entry_at lib m' to ≡ entry_at lib m from)
      × Agree lib m m' 0 to
      × ((hi : ℕ) → Agree lib m m' (from + entry_size (entry_at lib m from)) hi)
      × (law.capacity m' ≡ law.capacity m)

  Moved-down :
      (m : lib.State) (from to : ℕ)
      → to < from
      → from + entry_size (entry_at lib m from) ≤ law.capacity m
      → Moved m
          (move_bytes lib
            (write_bytes lib m to (entry_header_bytes (entry_header_at lib m from)))
            (from + entry_header_size)
            (to + entry_header_size)
            ((entry_header_at lib m from).key_length + (entry_header_at lib m from).value_length))
          from
          to
  unfolding stored_key stored_value
  Moved-down m from to down room =
      let h = entry_header_at lib m from in
      let k = length-read_bytes lib m (from + 6) h.key_length in
      let v = length-read_bytes lib m (from + 6 + h.key_length) h.value_length in
      let n = h.key_length + h.value_length in
      let m1 = write_bytes lib m to (entry_header_bytes h) in
      let m2 = move_bytes lib m1 (from + 6) (to + 6) n in
      let c1 = capacity-write_bytes lib law m to (entry_header_bytes h) in
      let c2 = capacity-move_bytes lib law m1 (from + 6) (to + 6) n in
      let written = λ (lo hi : ℕ) (out : (hi ≤ to) ⊎ (to + 6 ≤ lo)).
        write_bytes-Agree lib law m to (entry_header_bytes h) lo hi out in
      let moved = λ (lo hi : ℕ) (out : (hi ≤ to + 6) ⊎ (to + 6 + n ≤ lo)).
        move_bytes-Agree lib law m1 (from + 6) (to + 6) n lo hi out in
      let head : entry_header_at lib m2 to ≡ h =
        entry_header_at-Agree lib m1 m2 to (to + 6) (omega arith)
          (moved to (to + 6) (inl (omega arith)))
        ∙ entry_header_at-write_bytes lib law m to h
            (entry_header_at-EntryHeaderFits lib law m from) (omega (arith, k, v)) in
      let untouched = written (from + 6) (from + 6 + n) (inr (omega arith)) in
      let g : Shifted lib m m2 (from + 6) (to + 6) n = record {
        shift = λ i small.
            move_bytes-shift m1 (from + 6) (to + 6) n i (omega arith) (omega (arith, c1, k, v))
              small
            ∙ untouched.same (from + 6 + i) (omega arith) (omega arith);
      } in
      let key =
        read_bytes-Shifted m m2 (from + 6) (to + 6) n (from + 6) (to + 6) h.key_length g
          (omega arith) (omega arith) (omega arith) in
      let value =
        read_bytes-Shifted m m2 (from + 6) (to + 6) n (from + 6 + h.key_length)
          (to + 6 + h.key_length) h.value_length g (omega arith) (omega arith) (omega arith) in
      (
        rw (head, key, value) refl,
        Agree-trans lib 0 to (written 0 to (inl (omega arith))) (moved 0 to (inl (omega arith))),
        λ hi.
            Agree-trans lib (from + entry_size (entry_at lib m from)) hi
              (written (from + entry_size (entry_at lib m from)) hi (inr (omega arith)))
              (moved (from + entry_size (entry_at lib m from)) hi (inr (omega (arith, k, v)))),
        c2 ∙ c1,
      )

  -- An entry moved down stands at its new place, and the entries behind it are not touched.
  pub move_entry_lem :
      (m : lib.State) (from to : ℕ)
      → to ≤ from
      → from + entry_size (entry_at lib m from) ≤ law.capacity m
      → Moved m (move_entry lib m from to) from to
  unfolding move_entry
  move_entry_lem m from to down room = elim (Bool-cases (from == to)) [
    | inl same ↦
        let e : from ≡ to = (==_iff from to).0 same in
        rw same (
          ap (entry_at lib m) (sym e),
          record { same = λ c l h. refl },
          λ hi. record { same = λ c l h. refl },
          refl,
        )
    | inr other ↦ rw other (Moved-down m from to (ground (arith, other)) room)
  ]
