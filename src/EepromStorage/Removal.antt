-- ===== src/EepromStorage/Removal.antt =====
-- remove of EEPROMStorage.cpp on the list of entries.
use radio_mesh.Base.{
  ℕ, ◌+◌, ◌≡◌, ◌≢◌, refl, ap, ◌∙◌, sym, subst, inl, inr, Option, none, some, List, [], ◌∷◌,
  is_empty, arith, if◌then◌else◌,
}
use radio_mesh.Codes.{
  ReturnCode, e_none, e_storage_key_not_found, e_invalid_param, e_storage_not_init,
}
use radio_mesh.EepromStorage.{
  Eeprom, Search, found, missing, storage_header_size, header_at, find_entry,
}
use radio_mesh.EepromStorage.Operations.{EepromStorage, remove, remove_found, invalidate_at, search}
use radio_mesh.EepromStorage.Memory.{IsEeprom}
use radio_mesh.EepromStorage.Entries.{
  Entry, entry_size, total, lookup, adjust, deleted, entry_at, entries, contents,
}
use radio_mesh.EepromStorage.Bytes.{
  header_at-Agree, capacity-invalidate_at, invalidate_at-Agree, entry_at-invalidate_at,
}
use radio_mesh.EepromStorage.Locate.{Located, find_entry-Located, FoundIn_lem, entries-adjust}
use radio_mesh.EepromStorage.Unique.{Unique, Unique-adjust}
use radio_mesh.EepromStorage.Sound.{IsSound}

total-adjust : (key : List ℕ) (es : List Entry) → total (adjust key deleted es) ≡ total es
unfolding total adjust
total-adjust key [] = refl
total-adjust key (e ∷ es) = ground (arith, total-adjust key es)

adjust-none :
    (key : List ℕ) (f : Entry → Entry) (es : List Entry)
    → lookup key es ≡ none
    → adjust key f es ≡ es
unfolding lookup adjust
adjust-none key f [] h = refl
adjust-none key f (e ∷ es) h = ground (arith, adjust-none key f es)

-- What remove answers
unfoldable pub removal_code : Option (List ℕ) → ReturnCode
removal_code none = e_storage_key_not_found
removal_code (some v) = e_none

module _ (lib : Eeprom) (law : IsEeprom lib) where
  module _ (s : EepromStorage lib) (ok : IsSound lib law s) (key : List ℕ) where
    abbrev Removed : ReturnCode × EepromStorage lib → Type 0
    Removed r =
        (r.0 ≡ removal_code (lookup key (contents lib s.memory)))
        × (contents lib r.1.memory ≡ adjust key deleted (contents lib s.memory))
        × IsSound lib law r.1

    remove_found_lem :
        (r : Search)
        → Located lib s.memory key (header_at lib s.memory).num_entries storage_header_size r
        → Removed (remove_found lib s r)
    unfolding remove_found contents removal_code
    remove_found_lem (missing b) (end, nothing) =
        let n = (header_at lib s.memory).num_entries in
        (
          rw nothing refl,
          sym (adjust-none key deleted (entries lib s.memory n storage_header_size) nothing),
          ok,
        )
    remove_found_lem (found b h) (head, at) =
        let m = s.memory in
        let n = (header_at lib m).num_entries in
        let es = entries lib m n storage_header_size in
        let bounds = FoundIn_lem lib m key n storage_header_size b at in
        let m' = invalidate_at lib m b h in
        let c = capacity-invalidate_at lib law m b h in
        let hi = storage_header_size + total es in
        let end = b + entry_size (entry_at lib m b) in
        let new : entry_at lib m' b ≡ deleted (entry_at lib m b) =
          subst (λ x. entry_at lib (invalidate_at lib m b x) b ≡ deleted (entry_at lib m b))
            (sym head)
            (entry_at-invalidate_at lib law m b (omega (arith, bounds.1, ok.fits, ok.capacity))) in
        let same =
          header_at-Agree lib law m m'
            (invalidate_at-Agree lib law m b h 0 8 (inl (omega (arith, bounds.0)))) in
        let list =
          entries-adjust lib m key m' deleted n storage_header_size b hi at new refl
            (invalidate_at-Agree lib law m b h storage_header_size b (inl (omega arith)))
            (invalidate_at-Agree lib law m b h end hi (inr (omega arith))) (omega arith) in
        let list' : contents lib m' ≡ adjust key deleted es =
          unfold contents in
          (ap (λ x. entries lib m' x storage_header_size) (ap (λ x. x.num_entries) same) ∙ list) in
        (
          rw bounds.3 refl,
          list',
          record {
            on = ok.on;
            capacity = c ∙ ok.capacity;
            small = ok.small;
            magic = ap (λ x. x.magic) same ∙ ok.magic;
            version = ap (λ x. x.version) same ∙ ok.version;
            unique = subst Unique (sym list') (Unique-adjust key es ok.unique);
            fits = omega (arith, ap total list', total-adjust key es, ok.fits);
          },
        )

    -- On a sound storage and a key that is not empty, remove marks the first valid entry of the key as
    -- deleted, or fails with the code for a missing key where there is none and changes nothing of the
    -- list, and it leaves the storage sound.
    pub remove-refines : key ≢ [] → Removed (remove lib s key)
    unfolding remove search
    remove-refines filled =
        let n = (header_at lib s.memory).num_entries in
        let t =
          remove_found_lem (find_entry lib s.memory key n storage_header_size)
            (find_entry-Located lib s.memory key n storage_header_size) in
        answer_of key filled (remove_found lib s (find_entry lib s.memory key n 8)) t
      where
        answer_of :
            (k : List ℕ)
            → k ≢ []
            → (r : ReturnCode × EepromStorage lib) → Removed r
            → Removed (
                if s.initialized
                then (if is_empty k then (e_invalid_param, s) else r)
                else (e_storage_not_init, s))
        answer_of [] ne r t = absurd (ne refl)
        answer_of (x ∷ k) ne r t =
            subst (λ b. Removed (if b then r else (e_storage_not_init, s))) (sym ok.on) t
