-- ===== src/EepromStorage/Commit.antt =====
-- commit, clear and writeAndCommit of EEPROMStorage.cpp on the list of entries.
use radio_mesh.Base.{
  ℕ, ◌+◌, ◌≤◌, ◌<◌, ◌≡◌, refl, ap, ◌∙◌, sym, subst, inl, inr, true, some, List, [], length,
  AllBytes, Bool-cases, arith,
}
use radio_mesh.Codes.{e_none, failed}
use radio_mesh.EepromStorage.{
  Eeprom, storage_header_size, eeprom_storage_max_size, header_at, put_header, fill_bytes,
}
use radio_mesh.EepromStorage.Operations.{
  EepromStorage, first_header, clear, commit, initialize_storage_header, write, write_and_commit,
}
use radio_mesh.EepromStorage.Memory.{IsEeprom, Agree, capacity-fill_bytes}
use radio_mesh.EepromStorage.Entries.{total, lookup, place, entries, contents, entries-Agree}
use radio_mesh.EepromStorage.Bytes.{
  new_entry, header_at-Agree, capacity-put_header, header_at-put_header,
}
use radio_mesh.EepromStorage.Unique.{Unique}
use radio_mesh.EepromStorage.Sound.{IsSound}
use radio_mesh.EepromStorage.Writing.{write-refines}

module _ (lib : Eeprom) (law : IsEeprom lib) where
  contents-commit : (m : lib.State) → contents lib (lib.commit m).1 ≡ contents lib m
  unfolding contents
  contents-commit m =
      let n = (header_at lib m).num_entries in
      let hi = storage_header_size + total (entries lib m n storage_header_size) in
      let g : Agree lib m (lib.commit m).1 0 8 = record { same = λ c l h. law.fetch_commit m c } in
      let g' : Agree lib m (lib.commit m).1 8 hi = record {
        same = λ c l h. law.fetch_commit m c;
      } in
      rw (header_at-Agree lib law m (lib.commit m).1 g)
        (entries-Agree lib m (lib.commit m).1 n storage_header_size hi (omega arith) g')

  -- A commit keeps the storage sound and its entries.
  pub commit-IsSound :
      (s : EepromStorage lib)
      → IsSound lib law s
      → (contents lib (commit lib s).1.memory ≡ contents lib s.memory)
        × IsSound lib law (commit lib s).1
  unfolding commit
  commit-IsSound s ok =
      let m = s.memory in
      let same = contents-commit m in
      let g : Agree lib m (lib.commit m).1 0 8 = record { same = λ c l h. law.fetch_commit m c } in
      let head = header_at-Agree lib law m (lib.commit m).1 g in
      let s' : EepromStorage lib = record s { memory = (lib.commit m).1 } in
      let sound : IsSound lib law s' = record {
        on = ok.on;
        capacity = law.capacity_commit m ∙ ok.capacity;
        small = ok.small;
        magic = ap (λ x. x.magic) head ∙ ok.magic;
        version = ap (λ x. x.version) head ∙ ok.version;
        unique = subst Unique (sym same) ok.unique;
        fits = omega (arith, ap total same, ok.fits);
      } in
      let result : (commit lib s).1 ≡ s' = ground (arith, ok.on) in
      subst (λ x. (contents lib x.memory ≡ contents lib m) × IsSound lib law x) (sym result)
        (same, sound)

  -- clear of an initialised storage leaves a sound storage with no entry, whatever the EEPROM held before
  -- and whatever its commit says.
  pub clear_lem :
      (s : EepromStorage lib)
      → s.initialized ≡ true
      → law.capacity s.memory ≡ s.size
      → storage_header_size ≤ s.size
      → s.size ≤ eeprom_storage_max_size
      → (contents lib (clear lib s).1.memory ≡ []) × IsSound lib law (clear lib s).1
  unfolding clear initialize_storage_header contents total Unique entries
  clear_lem s on same room small =
      let blank = fill_bytes lib s.memory 0 s.size in
      let m = put_header lib blank first_header in
      let c0 = capacity-fill_bytes lib law s.memory 0 s.size in
      let c1 = capacity-put_header lib law blank first_header in
      let head =
        header_at-put_header lib law blank first_header (omega arith) (omega (arith, c0)) in
      let empty : contents lib m ≡ [] = rw head refl in
      let s' : EepromStorage lib = record s { memory = m } in
      let sound : IsSound lib law s' = record {
        on = on;
        capacity = c1 ∙ c0 ∙ same;
        small = small;
        magic = rw head refl;
        version = rw head refl;
        unique = rw head tt;
        fits = rw head (omega (arith, room));
      } in
      let done = commit-IsSound s' sound in
      let result : clear lib s ≡ commit lib s' = ground (arith, on) in
      subst (λ x. (contents lib x.1.memory ≡ []) × IsSound lib law x.1) (sym result)
        (done.0 ∙ empty, done.1)

  -- What writeAndCommit does when it succeeds, to the storage and to what read then says
  pub write_and_commit-refines :
      (pad : ℕ) (s : EepromStorage lib) (key value : List ℕ)
      → IsSound lib law s
      → AllBytes key
      → AllBytes value
      → pad < 256
      → ((v : List ℕ) → lookup key (contents lib s.memory) ≡ some v → length v ≡ length value)
      → (write_and_commit lib pad s key value).0 ≡ e_none
      → (contents lib (write_and_commit lib pad s key value).1.memory
          ≡ place (new_entry key value pad) (contents lib s.memory))
        × IsSound lib law (write_and_commit lib pad s key value).1
  unfolding write_and_commit
  write_and_commit-refines pad s key value ok kb vb pl same done =
      elim (Bool-cases (failed (write lib pad s key value).0)) [
        | inl bad ↦ absurd (ground (arith, bad, done))
        | inr good ↦
            let t = write-refines lib law pad s key value ok kb vb pl same (ground (arith, good)) in
            let u = commit-IsSound (write lib pad s key value).1 t.1 in rw good (u.0 ∙ t.0, u.1)
      ]
