-- ===== src/Portal/Search.antt =====
-- What find gives on a text put together from parts.
use radio_mesh.Base.{
  ℕ, ◌+◌, ◌≡◌, refl, sym, ◌≢◌, ap, false, inl, inr, Bool-cases, Option-cases, none, some, List, [],
  ◌∷◌, ◌++◌, length, drop-append, ◌==◌, ==_ne, arith,
}
use radio_mesh.Portal.{c_string, is_prefix, search_text, find_from, quote_mark, data_mark, end_mark}

-- A text without quotation marks
abbrev pub NoQuote : List ℕ → Type 0
NoQuote [] = Unit
NoQuote (c ∷ cs) = (c ≢ quote_mark) × NoQuote cs

-- A text that a C string can hold
abbrev pub NoNul : List ℕ → Type 0
NoNul [] = Unit
NoNul (c ∷ cs) = (c ≢ 0) × NoNul cs

pub NoNul-append : (xs ys : List ℕ) → NoNul xs → NoNul ys → NoNul (xs ++ ys)
NoNul-append [] ys h k = k
NoNul-append (c ∷ cs) ys (other, h) k = (other, NoNul-append cs ys h k)

pub c_string-NoNul : (xs : List ℕ) → NoNul xs → c_string xs ≡ xs
unfolding c_string
c_string-NoNul [] h = refl
c_string-NoNul (c ∷ cs) (other, h) = rw (==_ne c 0 other) (ap (λ r. c ∷ r) (c_string-NoNul cs h))

-- Text without quotation marks is passed over by the search of a pattern that begins with one.
pub search_text-skip :
    (rest xs ys : List ℕ) (at : ℕ)
    → NoQuote xs
    → search_text (quote_mark ∷ rest) ys ≡ some at
    → search_text (quote_mark ∷ rest) (xs ++ ys) ≡ some (length xs + at)
unfolding search_text is_prefix
search_text-skip rest [] ys at h e = ground (arith, e)
search_text-skip rest (c ∷ cs) ys at (other, h) e =
    let ih = search_text-skip rest cs ys at h e in
    let ne : (quote_mark == c) ≡ false = ==_ne quote_mark c (λ e. other (sym e)) in
    ground (arith, ih, ne)

-- A text without quotation marks that one follows is no key of the data.
pub data_mark-quoted :
    (t ys : List ℕ)
    → NoQuote t
    → is_prefix data_mark (quote_mark ∷ t ++ quote_mark ∷ b',' ∷ ys) ≡ false
unfolding is_prefix
data_mark-quoted [] ys h = refl
data_mark-quoted (c1 ∷ []) ys h = ground arith
data_mark-quoted (c1 ∷ c2 ∷ []) ys h = ground arith
data_mark-quoted (c1 ∷ c2 ∷ c3 ∷ []) ys h = ground arith
data_mark-quoted (c1 ∷ c2 ∷ c3 ∷ c4 ∷ []) ys h = ground arith
data_mark-quoted (c1 ∷ c2 ∷ c3 ∷ c4 ∷ c5 ∷ cs) ys (h1, (h2, (h3, (h4, (h5, h))))) =
    ground (arith, h5)

search_text-none :
    (pattern cs : List ℕ) (c : ℕ)
    → search_text pattern (c ∷ cs) ≡ none
    → search_text pattern cs ≡ none
unfolding search_text
search_text-none pattern cs c h = elim (Option-cases (search_text pattern cs)) [
  | inl e ↦ e
  | inr (a, e) ↦ ground (arith, h, e)
]

-- The end of the data is where they end, unless it stands in them already.
pub search_text-end_mark :
    (d : List ℕ)
    → search_text end_mark d ≡ none
    → search_text end_mark (d ++ end_mark) ≡ some (length d)
unfolding search_text is_prefix
search_text-end_mark [] h = refl
search_text-end_mark (c ∷ []) h = ground arith
search_text-end_mark (c ∷ c2 ∷ cs) h = elim (Bool-cases (is_prefix end_mark (c ∷ c2 ∷ cs))) [
  | inl e ↦ ground (arith, h, e)
  | inr e ↦
      let ih = search_text-end_mark (c2 ∷ cs) (search_text-none end_mark (c2 ∷ cs) c h) in
      ground (arith, ih, e)
]

pub find_from-append :
    (pattern xs ys : List ℕ) (at : ℕ)
    → search_text pattern ys ≡ some at
    → find_from pattern (length xs) (xs ++ ys) ≡ some (length xs + at)
unfolding find_from
find_from-append pattern xs ys at h = rw (drop-append xs ys, h) refl
