-- ===== src/EepromStorage/Defragment.antt =====
-- defragment of EEPROMStorage.cpp on the list of entries.
use radio_mesh.Base.{
  ℕ, zero, suc, ◌+◌, ◌%◌, ◌^◌, ◌≤◌, ◌<◌, ◌≡◌, refl, ap, ◌∙◌, sym, subst, inl, inr, true, false,
  List, [], ◌∷◌, length, Bool-cases, arith,
}
use radio_mesh.Codes.{e_none}
use radio_mesh.EepromStorage.{
  Eeprom, entry_header_size, storage_header_size, is_valid, entry_header_at, next_entry, header_at,
  defragment_loop, move_entry,
}
use radio_mesh.EepromStorage.Operations.{EepromStorage, defragment, put_count}
use radio_mesh.EepromStorage.Memory.{IsEeprom, Agree, Agree-narrow, Agree-trans}
use radio_mesh.EepromStorage.Entries.{
  Entry, entry_size, total, only_valid, entry_at, entries, contents, next_entry_lem, entry_at-Agree,
  entries-Agree, length-entries,
}
use radio_mesh.EepromStorage.Moving.{Moved, move_entry_lem}
use radio_mesh.EepromStorage.Unique.{Unique, Unique-only_valid}
use radio_mesh.EepromStorage.Sound.{IsSound, num_entries_bound}
use radio_mesh.EepromStorage.Writing.{put_count_lem}

total-only_valid : (es : List Entry) → total (only_valid es) ≤ total es
unfolding total only_valid
total-only_valid [] = omega arith
total-only_valid (e ∷ es) = ground (arith, total-only_valid es)

length-only_valid : (es : List Entry) → length (only_valid es) ≤ length es
unfolding only_valid
length-only_valid [] = omega arith
length-only_valid (e ∷ es) = ground (arith, length-only_valid es)

module _ (lib : Eeprom) (law : IsEeprom lib) where
  -- What the loop leaves: the valid ones of the n entries from `from` on stand from `to` on, counted.
  abbrev Packed : lib.State → ℕ → ℕ → ℕ → ℕ → lib.State × ℕ → Type 0
  Packed m n from to count r =
      (entries lib r.0 (length (only_valid (entries lib m n from))) to
        ≡ only_valid (entries lib m n from))
      × Agree lib m r.0 0 to
      × (law.capacity r.0 ≡ law.capacity m)
      × (r.1 ≡ count + length (only_valid (entries lib m n from)))

  same_step :
      (m : lib.State) (a : ℕ)
      → a
          + (entry_header_size
              + (entry_header_at lib m a).key_length
              + (entry_header_at lib m a).value_length)
        ≡ next_entry lib m a
  unfolding next_entry
  same_step m a = omega arith

  -- One valid entry more in front
  Packed-valid :
      (m m1 : lib.State) (n from to count : ℕ) (r : lib.State × ℕ)
      → is_valid (entry_header_at lib m from).flags ≡ true
      → Moved lib law m m1 from to
      → Packed m1 n (next_entry lib m from) (to + entry_size (entry_at lib m from)) (count + 1) r
      → Packed m (suc n) from to count r
  unfolding entries only_valid
  Packed-valid m m1 n from to count r on moved rest =
      let size = entry_size (entry_at lib m from) in
      let step = next_entry_lem lib m from in
      let es = entries lib m n (next_entry lib m from) in
      let later : entries lib m1 n (next_entry lib m from) ≡ es =
        entries-Agree lib m m1 n (next_entry lib m from) (next_entry lib m from + total es)
          (omega arith)
          (subst (λ c. Agree lib m m1 c (next_entry lib m from + total es)) (sym step)
            (moved.2 (next_entry lib m from + total es))) in
      let list : entries lib r.0 (length (only_valid es)) (to + size) ≡ only_valid es =
        subst (λ x. entries lib r.0 (length (only_valid x)) (to + size) ≡ only_valid x) later
          rest.0 in
      let here : entry_at lib r.0 to ≡ entry_at lib m from =
        entry_at-Agree lib m1 r.0 to (to + size) (omega (arith, ap entry_size moved.0))
          (Agree-narrow lib 0 (to + size) to (to + size) rest.1 (omega arith) (omega arith))
        ∙ moved.0 in
      let step' : next_entry lib r.0 to ≡ to + size =
        next_entry_lem lib r.0 to ∙ ap (λ x. to + entry_size x) here in
      let count' : r.1 ≡ count + 1 + length (only_valid es) =
        subst (λ x. r.1 ≡ count + 1 + length (only_valid x)) later rest.3 in
      (
        rw on (rw (step', list) (ap (λ x. x ∷ only_valid es) here)),
        Agree-trans lib 0 to moved.1
            (Agree-narrow lib 0 (to + size) 0 to rest.1 (omega arith) (omega arith)),
        rest.2 ∙ moved.3,
        rw on (omega (arith, count')),
      )

  Packed-invalid :
      (m : lib.State) (n from to count : ℕ) (r : lib.State × ℕ)
      → is_valid (entry_header_at lib m from).flags ≡ false
      → Packed m n (next_entry lib m from) to count r
      → Packed m (suc n) from to count r
  unfolding entries only_valid
  Packed-invalid m n from to count r off rest = rw off rest

  loop_valid :
      (m : lib.State) (n from to count : ℕ)
      → count + 1 < 65536
      → is_valid (entry_header_at lib m from).flags ≡ true
      → defragment_loop lib m (suc n) from to count
        ≡ defragment_loop lib
            (move_entry lib m from to)
            n
            (next_entry lib m from)
            (to + entry_size (entry_at lib m from))
            (count + 1)
  unfolding defragment_loop
  loop_valid m n from to count few on =
      let step = same_step m from in
      let h = entry_header_at lib m from in
      let to_step : to + (entry_header_size + h.key_length + h.value_length)
          ≡ to + entry_size (entry_at lib m from) =
        omega (arith, step, next_entry_lem lib m from) in
      let count_step : (count + 1) % 2 ^ 16 ≡ count + 1 = omega arith in
      rw (on, defragment_loop)
        (ap
            (λ x.
              defragment_loop lib (move_entry lib m from to) n x
                (to + (entry_header_size + h.key_length + h.value_length)) ((count + 1) % 2 ^ 16))
            step
          ∙ ap
              (λ x.
                defragment_loop lib (move_entry lib m from to) n (next_entry lib m from) x
                  ((count + 1) % 2 ^ 16))
              to_step
          ∙ ap
              (defragment_loop lib (move_entry lib m from to) n (next_entry lib m from)
                (to + entry_size (entry_at lib m from)))
              count_step)

  loop_invalid :
      (m : lib.State) (n from to count : ℕ)
      → is_valid (entry_header_at lib m from).flags ≡ false
      → defragment_loop lib m (suc n) from to count
        ≡ defragment_loop lib m n (next_entry lib m from) to count
  unfolding defragment_loop
  loop_invalid m n from to count off =
      rw (off, defragment_loop) (ap (λ x. defragment_loop lib m n x to count) (same_step m from))

  defragment_loop_lem :
      (m : lib.State) (n from to count : ℕ)
      → to ≤ from
      → from + total (entries lib m n from) ≤ law.capacity m
      → count + n < 65536
      → Packed m n from to count (defragment_loop lib m n from to count)
  unfolding entries total
  defragment_loop_lem m zero from to count down room few =
      unfold defragment_loop only_valid in
      (refl, record { same = λ c l h. refl }, refl, omega arith)
  defragment_loop_lem m (suc n) from to count down room few =
      let step = next_entry_lem lib m from in
      let next = next_entry lib m from in
      let size = entry_size (entry_at lib m from) in
      elim (Bool-cases (is_valid (entry_header_at lib m from).flags)) [
        | inl on ↦
            let m1 = move_entry lib m from to in
            let moved = move_entry_lem lib law m from to down (omega arith) in
            let hi = next + total (entries lib m n next) in
            let later =
              entries-Agree lib m m1 n next hi (omega arith)
                (subst (λ c. Agree lib m m1 c hi) (sym step) (moved.2 hi)) in
            let rest =
              defragment_loop_lem m1 n next (to + size) (count + 1) (omega (arith, step))
                (omega (arith, ap total later, step, moved.3)) (omega arith) in
            subst (Packed m (suc n) from to count)
              (sym (loop_valid m n from to count (omega arith) on))
              (Packed-valid m m1 n from to count
                (defragment_loop lib m1 n next (to + size) (count + 1)) on moved rest)
        | inr off ↦
            let rest =
              defragment_loop_lem m n next to count (omega (arith, step)) (omega (arith, step))
                (omega arith) in
            subst (Packed m (suc n) from to count) (sym (loop_invalid m n from to count off))
              (Packed-invalid m n from to count (defragment_loop lib m n next to count) off rest)
      ]

  -- On a sound storage defragment succeeds, keeps the valid entries, in their order, drops the others, and
  -- leaves the storage sound.
  pub defragment-refines :
      (s : EepromStorage lib)
      → IsSound lib law s
      → ((defragment lib s).0 ≡ e_none)
        × (contents lib (defragment lib s).1.memory ≡ only_valid (contents lib s.memory))
        × IsSound lib law (defragment lib s).1
  unfolding defragment contents
  defragment-refines s ok =
      let m = s.memory in
      let n = (header_at lib m).num_entries in
      let es = entries lib m n storage_header_size in
      let few = num_entries_bound lib law s ok in
      let r = defragment_loop lib m n storage_header_size storage_header_size 0 in
      let t =
        defragment_loop_lem m n storage_header_size storage_header_size 0 (omega arith)
          (omega (arith, ok.fits, ok.capacity)) (omega (arith, few, ok.fits, ok.small)) in
      let fewer = length-only_valid es in
      let total_n = length-entries lib m n storage_header_size in
      let p =
        put_count_lem lib law m r.0 r.1 (omega (arith, t.3, fewer, total_n, few, ok.fits, ok.small))
          (omega (arith, t.2, ok.capacity, ok.fits)) t.2 in
      let count : r.1 ≡ length (only_valid es) = omega (arith, t.3) in
      let list : contents lib (put_count lib r.0 (header_at lib m) r.1) ≡ only_valid es =
        p.0 ∙ ap (λ c. entries lib r.0 c storage_header_size) count ∙ t.0 in
      rw ok.on (
        refl,
        list,
        record {
          on = refl;
          capacity = p.1.2 ∙ ok.capacity;
          small = ok.small;
          magic = p.1.0 ∙ ok.magic;
          version = p.1.1 ∙ ok.version;
          unique = subst Unique (sym list) (Unique-only_valid es ok.unique);
          fits = omega (arith, ap total list, total-only_valid es, ok.fits);
        },
      )
