-- ===== src/EepromStorage/Unique.antt =====
-- No key has two valid entries, as long as only EEPROMStorage.cpp writes; and what lookup finds after each
-- change of the list.
use radio_mesh.Base.{
  ℕ, ◌≡◌, ◌≢◌, ◌-◌, ◌%◌, refl, ◌∙◌, sym, subst, ◌⊎◌, inl, inr, true, false, none, some, List, [],
  ◌∷◌, bytes_eq, bytes_eq_refl, eq_of_bytes_eq, Bool-cases, arith,
}
use radio_mesh.EepromStorage.{is_valid}
use radio_mesh.EepromStorage.Entries.{Entry, matches, lookup, adjust, deleted, place, only_valid}

differ : (a b : List ℕ) → bytes_eq a b ≡ false → a ≢ b
differ a b h p = absurd (ground (arith, subst (λ x. bytes_eq a x ≡ true) p (bytes_eq_refl a), h))

-- No valid entry is followed by another valid one of its key.
unfoldable pub Unique : List Entry → Type 0
Unique [] = Unit
Unique (e ∷ es) = ((is_valid e.flags ≡ false) ⊎ (lookup e.key es ≡ none)) × Unique es

matches_other :
    (key other : List ℕ) (e : Entry) → key ≢ other → matches key e ≡ true → matches other e ≡ false
matches_other key other e ne h = elim (Bool-cases (matches other e)) [
  | inl t ↦ absurd (
      ne (
        sym (eq_of_bytes_eq e.key key (ground (arith, h)))
        ∙ eq_of_bytes_eq e.key other (ground (arith, t))))
  | inr f ↦ f
]

matches_self : (e : Entry) → is_valid e.flags ≡ true → matches e.key e ≡ true
matches_self e h = ground (arith, h, bytes_eq_refl e.key)

matches-deleted : (key : List ℕ) (e : Entry) → matches key (deleted e) ≡ false
matches-deleted key e =
    let even : is_valid (e.flags - e.flags % 2) ≡ false = ground arith in rw even refl

-- A new valid entry is what its key finds, and other keys find what they found.
pub lookup-place :
    (new : Entry) (es : List Entry)
    → is_valid new.flags ≡ true
    → lookup new.key (place new es) ≡ some new.value
unfolding lookup place
lookup-place new [] v = rw (matches_self new v) refl
lookup-place new (e ∷ es) v = ground (arith, lookup-place new es v, matches_self new v)

pub lookup-place_ne :
    (new : Entry) (other : List ℕ) (es : List Entry)
    → new.key ≢ other
    → is_valid new.flags ≡ true
    → lookup other (place new es) ≡ lookup other es
unfolding lookup place
lookup-place_ne new other [] ne v =
    rw (matches_other new.key other new ne (matches_self new v)) refl
lookup-place_ne new other (e ∷ es) ne v = elim (Bool-cases (matches new.key e)) [
  | inl t ↦
      rw
        (
          t,
          matches_other new.key other new ne (matches_self new v),
          matches_other new.key other e ne t,
        )
        refl
  | inr f ↦ rw (f, lookup-place_ne new other es ne v) refl
]

pub lookup-adjust_ne :
    (key other : List ℕ) (es : List Entry)
    → key ≢ other
    → lookup other (adjust key deleted es) ≡ lookup other es
unfolding lookup adjust
lookup-adjust_ne key other [] ne = refl
lookup-adjust_ne key other (e ∷ es) ne = elim (Bool-cases (matches key e)) [
  | inl t ↦ rw (t, matches_other key other e ne t, matches-deleted other e) refl
  | inr f ↦ rw (f, lookup-adjust_ne key other es ne) refl
]

-- Where a key has one valid entry at most, deleting that leaves none.
pub lookup-adjust_self :
    (key : List ℕ) (es : List Entry) → Unique es → lookup key (adjust key deleted es) ≡ none
unfolding lookup adjust Unique
lookup-adjust_self key [] u = refl
lookup-adjust_self key (e ∷ es) (this, u) = elim (Bool-cases (matches key e)) [
  | inl t ↦ rw (t, matches-deleted key e) (alone key e es this t)
  | inr f ↦ rw (f, f) (lookup-adjust_self key es u)
]
  where
    alone :
        (key : List ℕ) (e : Entry) (es : List Entry)
        → (is_valid e.flags ≡ false) ⊎ (lookup e.key es ≡ none)
        → matches key e ≡ true
        → lookup key es ≡ none
    alone key e es (inl off) t = absurd (ground (arith, off, t))
    alone key e es (inr nothing) t =
        subst (λ k. lookup k es ≡ none) (eq_of_bytes_eq e.key key (ground (arith, t))) nothing

-- Deleted entries find nothing.
pub lookup-only_valid :
    (key : List ℕ) (es : List Entry) → lookup key (only_valid es) ≡ lookup key es
unfolding lookup only_valid
lookup-only_valid key [] = refl
lookup-only_valid key (e ∷ es) = ground (arith, lookup-only_valid key es)

pub Unique-only_valid : (es : List Entry) → Unique es → Unique (only_valid es)
unfolding Unique only_valid
Unique-only_valid [] u = tt
Unique-only_valid (e ∷ es) (inl off, u) = rw off (Unique-only_valid es u)
Unique-only_valid (e ∷ es) (inr nothing, u) = elim (Bool-cases (is_valid e.flags)) [
  | inl t ↦ rw t (inr (lookup-only_valid e.key es ∙ nothing), Unique-only_valid es u)
  | inr f ↦ rw f (Unique-only_valid es u)
]

pub Unique-adjust : (key : List ℕ) (es : List Entry) → Unique es → Unique (adjust key deleted es)
unfolding Unique adjust
Unique-adjust key [] u = tt
Unique-adjust key (e ∷ es) (this, u) = elim (Bool-cases (matches key e)) [
  | inl t ↦ rw t (inl (ground arith), u)
  | inr f ↦ rw f (later key e es this f, Unique-adjust key es u)
]
  where
    later :
        (key : List ℕ) (e : Entry) (es : List Entry)
        → (is_valid e.flags ≡ false) ⊎ (lookup e.key es ≡ none)
        → matches key e ≡ false
        → (is_valid e.flags ≡ false) ⊎ (lookup e.key (adjust key deleted es) ≡ none)
    later key e es (inl off) f = inl off
    later key e es (inr nothing) f = elim (Bool-cases (bytes_eq e.key key)) [
      | inl same ↦ inl (ground (arith, same, f))
      | inr ne ↦ inr (
          lookup-adjust_ne key e.key es (λ (p : key ≡ e.key). differ e.key key ne (sym p))
          ∙ nothing)
    ]

pub Unique-place :
    (new : Entry) (es : List Entry) → is_valid new.flags ≡ true → Unique es → Unique (place new es)
unfolding Unique place lookup
Unique-place new [] v u = (inr refl, tt)
Unique-place new (e ∷ es) v (this, u) = elim (Bool-cases (matches new.key e)) [
  | inl t ↦ rw t (same new e es this t, u)
  | inr f ↦ rw f (later new e es v this f, Unique-place new es v u)
]
  where
    same :
        (new e : Entry) (es : List Entry)
        → (is_valid e.flags ≡ false) ⊎ (lookup e.key es ≡ none)
        → matches new.key e ≡ true
        → (is_valid new.flags ≡ false) ⊎ (lookup new.key es ≡ none)
    same new e es (inl off) t = absurd (ground (arith, off, t))
    same new e es (inr nothing) t =
        inr (
          subst (λ k. lookup k es ≡ none) (eq_of_bytes_eq e.key new.key (ground (arith, t)))
            nothing)

    later :
        (new e : Entry) (es : List Entry)
        → is_valid new.flags ≡ true
        → (is_valid e.flags ≡ false) ⊎ (lookup e.key es ≡ none)
        → matches new.key e ≡ false
        → (is_valid e.flags ≡ false) ⊎ (lookup e.key (place new es) ≡ none)
    later new e es v (inl off) f = inl off
    later new e es v (inr nothing) f = elim (Bool-cases (bytes_eq e.key new.key)) [
      | inl eq ↦ inl (ground (arith, eq, f))
      | inr ne ↦ inr (
          lookup-place_ne new e.key es (λ (p : new.key ≡ e.key). differ e.key new.key ne (sym p)) v
          ∙ nothing)
    ]
