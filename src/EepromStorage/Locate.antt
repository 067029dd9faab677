-- ===== src/EepromStorage/Locate.antt =====
-- Where the search of EEPROMStorage.cpp ends, and what a change at that place does to the list.
use radio_mesh.Base.{
  ℕ, zero, suc, ◌+◌, ◌≤◌, ◌≡◌, refl, ap, ◌∙◌, sym, subst, ◌⊎◌, inl, inr, true, false, none, some,
  List, [], ◌∷◌, ◌++◌, eq_of_bytes_eq, Bool-cases, arith,
}
use radio_mesh.EepromStorage.{
  Eeprom, Search, found, missing, entry_header_at, stored_key, stored_value, next_entry, find_entry,
}
use radio_mesh.EepromStorage.Memory.{Agree, Agree-narrow}
use radio_mesh.EepromStorage.Entries.{
  Entry, entry_size, total, matches, lookup, adjust, place, entry_at, entries, next_entry_lem,
  entry_at-Agree, entries-Agree,
}

module _ (lib : Eeprom) (m : lib.State) (key : List ℕ) where
  -- The first valid entry of the key among the n from `a` on stands at `b`.
  unfoldable pub FoundIn : ℕ → ℕ → ℕ → Type 0
  FoundIn zero a b = ⊥
  FoundIn (suc n) a b =
      ((matches key (entry_at lib m a) ≡ true) × (b ≡ a))
      ⊎ ((matches key (entry_at lib m a) ≡ false) × FoundIn n (next_entry lib m a) b)

  -- What the search says
  abbrev pub Located : ℕ → ℕ → Search → Type 0
  Located n a (found b h) = (h ≡ entry_header_at lib m b) × FoundIn n a b
  Located n a (missing b) =
      (b ≡ a + total (entries lib m n a)) × (lookup key (entries lib m n a) ≡ none)

  Located-later :
      (n a : ℕ) (r : Search)
      → matches key (entry_at lib m a) ≡ false
      → Located n (next_entry lib m a) r
      → Located (suc n) a r
  unfolding FoundIn entries total lookup
  Located-later n a (found b h) other (head, place) = (head, inr (other, place))
  Located-later n a (missing b) other (end, none_left) =
      (omega (arith, end, next_entry_lem lib m a), rw other none_left)

  pub find_entry-Located : (n a : ℕ) → Located n a (find_entry lib m key n a)
  unfolding find_entry FoundIn entries total lookup
  find_entry-Located zero a = (omega arith, refl)
  find_entry-Located (suc n) a =
      let later = find_entry-Located n (next_entry lib m a) in
      elim (Bool-cases (matches key (entry_at lib m a))) [
        | inl e ↦ rw e (refl, inl (e, refl))
        | inr e ↦ rw e (Located-later n a (find_entry lib m key n (next_entry lib m a)) e later)
      ]

  pub key_of_matches : (e : Entry) → matches key e ≡ true → e.key ≡ key
  key_of_matches e h = eq_of_bytes_eq e.key key (ground (arith, h))

  -- Where it is found, the entry lies within the entries, has the key, and is what lookup finds.
  pub FoundIn_lem :
      (n a b : ℕ)
      → FoundIn n a b
      → (a ≤ b)
        × (b + entry_size (entry_at lib m b) ≤ a + total (entries lib m n a))
        × (stored_key lib m b ≡ key)
        × (lookup key (entries lib m n a) ≡ some (stored_value lib m b))
  unfolding FoundIn entries total lookup
  FoundIn_lem zero a b h = elim h [ ]
  FoundIn_lem (suc n) a b (inl (this, e)) =
      rw e (omega arith, omega arith, key_of_matches (entry_at lib m a) this, rw this refl)
  FoundIn_lem (suc n) a b (inr (other, h)) =
      let later = FoundIn_lem n (next_entry lib m a) b h in
      let step = next_entry_lem lib m a in
      (omega (arith, step, later.0), omega (arith, step, later.1), later.2, rw other later.3)

  -- A change of the entry that was found, of the same size, changes that entry of the list.
  pub entries-adjust :
      (m' : lib.State) (f : Entry → Entry) (n a b hi : ℕ)
      → FoundIn n a b
      → entry_at lib m' b ≡ f (entry_at lib m b)
      → entry_size (f (entry_at lib m b)) ≡ entry_size (entry_at lib m b)
      → Agree lib m m' a b
      → Agree lib m m' (b + entry_size (entry_at lib m b)) hi
      → a + total (entries lib m n a) ≤ hi
      → entries lib m' n a ≡ adjust key f (entries lib m n a)
  unfolding FoundIn entries total adjust
  entries-adjust m' f zero a b hi at new size low high fits = elim at [ ]
  entries-adjust m' f (suc n) a b hi (inl (this, e)) new size low high fits =
      let at_a : entry_at lib m' a ≡ f (entry_at lib m a) =
        subst (λ c. entry_at lib m' c ≡ f (entry_at lib m c)) e new in
      let same_size : entry_size (f (entry_at lib m a)) ≡ entry_size (entry_at lib m a) =
        subst (λ c. entry_size (f (entry_at lib m c)) ≡ entry_size (entry_at lib m c)) e size in
      let step = next_entry_lem lib m a in
      let step' : next_entry lib m' a ≡ next_entry lib m a =
        next_entry_lem lib m' a
        ∙ ap (λ x. a + entry_size x) at_a
        ∙ ap (λ s. a + s) same_size
        ∙ sym step in
      let above : Agree lib m m' (a + entry_size (entry_at lib m a)) hi =
        subst (λ c. Agree lib m m' (c + entry_size (entry_at lib m c)) hi) e high in
      let rest =
        entries-Agree lib m m' n (next_entry lib m a) hi (omega (arith, step))
          (subst (λ c. Agree lib m m' c hi) (sym step) above) in
      rw (this, step', rest) (ap (λ x. x ∷ entries lib m n (next_entry lib m a)) at_a)
  entries-adjust m' f (suc n) a b hi (inr (other, at)) new size low high fits =
      let step = next_entry_lem lib m a in
      let later = FoundIn_lem n (next_entry lib m a) b at in
      let head = entry_at-Agree lib m m' a b (omega (arith, step, later.0)) low in
      let step' : next_entry lib m' a ≡ next_entry lib m a =
        next_entry_lem lib m' a ∙ ap (λ x. a + entry_size x) head ∙ sym step in
      let rest =
        entries-adjust m' f n (next_entry lib m a) b hi at new size
          (Agree-narrow lib a b (next_entry lib m a) b low (omega (arith, step)) (omega arith)) high
          (omega (arith, step)) in
      rw (other, step', rest)
        (ap (λ x. x ∷ adjust key f (entries lib m n (next_entry lib m a))) head)

  -- An entry put behind the last is the last of the list.
  pub entries-append :
      (m' : lib.State) (new : Entry) (n a : ℕ)
      → entry_at lib m' (a + total (entries lib m n a)) ≡ new
      → Agree lib m m' a (a + total (entries lib m n a))
      → entries lib m' (suc n) a ≡ entries lib m n a ++ (new ∷ [])
  unfolding entries total
  entries-append m' new zero a at low =
      ap (λ x. x ∷ []) (subst (λ c. entry_at lib m' c ≡ new) (omega arith) at)
  entries-append m' new (suc n) a at low =
      let step = next_entry_lem lib m a in
      let later = next_entry lib m a in
      let end : a + total (entries lib m (suc n) a) ≡ later + total (entries lib m n later) =
        omega (arith, step) in
      let head =
        entry_at-Agree lib m m' a (a + total (entries lib m (suc n) a)) (omega arith) low in
      let step' : next_entry lib m' a ≡ later =
        next_entry_lem lib m' a ∙ ap (λ x. a + entry_size x) head ∙ sym step in
      let rest = entries-append m' new n later (subst (λ c. entry_at lib m' c ≡ new) end at) (
        Agree-narrow lib a (a + total (entries lib m (suc n) a)) later
          (later + total (entries lib m n later)) low (omega (arith, step)) (omega (arith, end))) in
      rw step' (
        ap (λ x. entry_at lib m' a ∷ x) rest
        ∙ ap (λ x. x ∷ (entries lib m n later ++ (new ∷ []))) head)

-- What place does, by what lookup finds
pub place-missing :
    (new : Entry) (es : List Entry) → lookup new.key es ≡ none → place new es ≡ es ++ (new ∷ [])
unfolding place lookup
place-missing new [] h = refl
place-missing new (e ∷ es) h = ground (arith, place-missing new es)

pub place-found :
    (new : Entry) (es : List Entry) (v : List ℕ)
    → lookup new.key es ≡ some v
    → place new es ≡ adjust new.key (λ e. new) es
unfolding place lookup adjust
place-found new [] v h = ground arith
place-found new (e ∷ es) v h = ground (arith, place-found new es v)
