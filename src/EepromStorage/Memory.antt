-- ===== src/EepromStorage/Memory.antt =====
-- The loops of EEPROMStorage.cpp that read, write and move bytes, over the documented behaviour of the
-- EEPROM library.
use radio_mesh.Base.{
  ℕ, zero, suc, ◌+◌, ◌≤◌, ◌<◌, ◌≡◌, ◌≢◌, refl, ap, ◌∙◌, ◌⊎◌, inl, inr, true, List, [], ◌∷◌, length,
  AllBytes, arith,
}
use radio_mesh.EepromStorage.{Eeprom, read_bytes, write_bytes, move_bytes, fill_bytes}

-- Cells are bytes; one below the capacity holds what was last written to it, and a write leaves the other
-- cells and the capacity alone, as a commit leaves everything. begin that succeeds sets the capacity.
pub record IsEeprom (lib : Eeprom) : Type 0 where
  pub capacity : lib.State → ℕ
  pub fetch_byte : (m : lib.State) (a : ℕ) → lib.fetch m a < 256
  pub fetch_same :
      (m : lib.State) (a b : ℕ) → a < capacity m → b < 256 → lib.fetch (lib.store m a b) a ≡ b
  pub fetch_other :
      (m : lib.State) (a b c : ℕ) → a ≢ c → lib.fetch (lib.store m a b) c ≡ lib.fetch m c
  pub capacity_store : (m : lib.State) (a b : ℕ) → capacity (lib.store m a b) ≡ capacity m
  pub fetch_commit : (m : lib.State) (a : ℕ) → lib.fetch (lib.commit m).1 a ≡ lib.fetch m a
  pub capacity_commit : (m : lib.State) → capacity (lib.commit m).1 ≡ capacity m
  pub capacity_begin :
      (m : lib.State) (n : ℕ) → (lib.begin m n).0 ≡ true → capacity (lib.begin m n).1 ≡ n

-- Two memories hold the same in [lo, hi).
pub record Agree (lib : Eeprom) (m m' : lib.State) (lo hi : ℕ) : Type 0 where
  pub same : (c : ℕ) → lo ≤ c → c < hi → lib.fetch m' c ≡ lib.fetch m c

module _ (lib : Eeprom) where
  pub length-read_bytes : (m : lib.State) (a n : ℕ) → length (read_bytes lib m a n) ≡ n
  unfolding read_bytes
  length-read_bytes m a zero = refl
  length-read_bytes m a (suc n) = ap suc (length-read_bytes m (a + 1) n)

  pub Agree-narrow :
      {m m' : lib.State} (lo hi lo' hi' : ℕ)
      → Agree lib m m' lo hi
      → lo ≤ lo'
      → hi' ≤ hi
      → Agree lib m m' lo' hi'
  Agree-narrow lo hi lo' hi' g p q = record { same = λ c l h. g.same c (omega arith) (omega arith) }

  pub Agree-trans :
      {m m' m'' : lib.State} (lo hi : ℕ)
      → Agree lib m m' lo hi
      → Agree lib m' m'' lo hi
      → Agree lib m m'' lo hi
  Agree-trans lo hi g g' = record { same = λ c l h. g'.same c l h ∙ g.same c l h }

  pub read_bytes-Agree :
      (m m' : lib.State) (a n hi : ℕ)
      → a + n ≤ hi
      → Agree lib m m' a hi
      → read_bytes lib m' a n ≡ read_bytes lib m a n
  unfolding read_bytes
  read_bytes-Agree m m' a zero hi fits g = refl
  read_bytes-Agree m m' a (suc n) hi fits g =
      rw
        (
          g.same a (omega arith) (omega arith),
          read_bytes-Agree m m' (a + 1) n hi (omega arith)
              (Agree-narrow a hi (a + 1) hi g (omega arith) (omega arith)),
        )
        refl

module _ (lib : Eeprom) (law : IsEeprom lib) where
  pub read_bytes-AllBytes : (m : lib.State) (a n : ℕ) → AllBytes (read_bytes lib m a n)
  unfolding read_bytes
  read_bytes-AllBytes m a zero = tt
  read_bytes-AllBytes m a (suc n) = (law.fetch_byte m a, read_bytes-AllBytes m (a + 1) n)

  pub capacity-write_bytes :
      (m : lib.State) (a : ℕ) (bs : List ℕ) → law.capacity (write_bytes lib m a bs) ≡ law.capacity m
  unfolding write_bytes
  capacity-write_bytes m a [] = refl
  capacity-write_bytes m a (b ∷ bs) =
      capacity-write_bytes (lib.store m a b) (a + 1) bs ∙ law.capacity_store m a b

  fetch-write_bytes :
      (m : lib.State) (a : ℕ) (bs : List ℕ) (c : ℕ)
      → (c < a) ⊎ (a + length bs ≤ c)
      → lib.fetch (write_bytes lib m a bs) c ≡ lib.fetch m c
  unfolding write_bytes
  fetch-write_bytes m a [] c out = refl
  fetch-write_bytes m a (b ∷ bs) c (inl out) =
      fetch-write_bytes (lib.store m a b) (a + 1) bs c (inl (omega arith))
      ∙ law.fetch_other m a b c (omega arith)
  fetch-write_bytes m a (b ∷ bs) c (inr out) =
      fetch-write_bytes (lib.store m a b) (a + 1) bs c (inr (omega arith))
      ∙ law.fetch_other m a b c (omega arith)

  -- A write of bytes leaves what is below and above them.
  pub write_bytes-Agree :
      (m : lib.State) (a : ℕ) (bs : List ℕ) (lo hi : ℕ)
      → (hi ≤ a) ⊎ (a + length bs ≤ lo)
      → Agree lib m (write_bytes lib m a bs) lo hi
  write_bytes-Agree m a bs lo hi (inl out) = record {
    same = λ c l h. fetch-write_bytes m a bs c (inl (omega arith));
  }
  write_bytes-Agree m a bs lo hi (inr out) = record {
    same = λ c l h. fetch-write_bytes m a bs c (inr (omega arith));
  }

  -- What is written within the capacity is read back.
  pub read_bytes-write_bytes :
      (m : lib.State) (a : ℕ) (bs : List ℕ)
      → a + length bs ≤ law.capacity m
      → AllBytes bs
      → read_bytes lib (write_bytes lib m a bs) a (length bs) ≡ bs
  unfolding read_bytes write_bytes
  read_bytes-write_bytes m a [] fits bytes = refl
  read_bytes-write_bytes m a (b ∷ bs) fits (byte, bytes) =
      let m1 = lib.store m a b in
      let head : lib.fetch (write_bytes lib m1 (a + 1) bs) a ≡ b =
        fetch-write_bytes m1 (a + 1) bs a (inl (omega arith))
        ∙ law.fetch_same m a b (omega arith) byte in
      let tail =
        read_bytes-write_bytes m1 (a + 1) bs (omega (arith, law.capacity_store m a b)) bytes in
      rw (head, tail) refl

  pub capacity-move_bytes :
      (m : lib.State) (from to n : ℕ) → law.capacity (move_bytes lib m from to n) ≡ law.capacity m
  unfolding move_bytes
  capacity-move_bytes m from to zero = refl
  capacity-move_bytes m from to (suc n) =
      let m1 = lib.store m to (lib.fetch m from) in
      capacity-move_bytes m1 (from + 1) (to + 1) n ∙ law.capacity_store m to (lib.fetch m from)

  fetch-move_bytes :
      (m : lib.State) (from to n c : ℕ)
      → (c < to) ⊎ (to + n ≤ c)
      → lib.fetch (move_bytes lib m from to n) c ≡ lib.fetch m c
  unfolding move_bytes
  fetch-move_bytes m from to zero c out = refl
  fetch-move_bytes m from to (suc n) c (inl out) =
      fetch-move_bytes (lib.store m to (lib.fetch m from)) (from + 1) (to + 1) n c
        (inl (omega arith))
      ∙ law.fetch_other m to (lib.fetch m from) c (omega arith)
  fetch-move_bytes m from to (suc n) c (inr out) =
      fetch-move_bytes (lib.store m to (lib.fetch m from)) (from + 1) (to + 1) n c
        (inr (omega arith))
      ∙ law.fetch_other m to (lib.fetch m from) c (omega arith)

  pub move_bytes-Agree :
      (m : lib.State) (from to n lo hi : ℕ)
      → (hi ≤ to) ⊎ (to + n ≤ lo)
      → Agree lib m (move_bytes lib m from to n) lo hi
  move_bytes-Agree m from to n lo hi (inl out) = record {
    same = λ c l h. fetch-move_bytes m from to n c (inl (omega arith));
  }
  move_bytes-Agree m from to n lo hi (inr out) = record {
    same = λ c l h. fetch-move_bytes m from to n c (inr (omega arith));
  }

  -- Moving bytes down, one at a time from the first on, is right even where source and target overlap.
  pub read_bytes-move_bytes :
      (m : lib.State) (from to n : ℕ)
      → to < from
      → to + n ≤ law.capacity m
      → read_bytes lib (move_bytes lib m from to n) to n ≡ read_bytes lib m from n
  unfolding read_bytes move_bytes
  read_bytes-move_bytes m from to zero down fits = refl
  read_bytes-move_bytes m from to (suc n) down fits =
      let b = lib.fetch m from in
      let m1 = lib.store m to b in
      let head : lib.fetch (move_bytes lib m1 (from + 1) (to + 1) n) to ≡ b =
        fetch-move_bytes m1 (from + 1) (to + 1) n to (inl (omega arith))
        ∙ law.fetch_same m to b (omega arith) (law.fetch_byte m from) in
      let tail =
        read_bytes-move_bytes m1 (from + 1) (to + 1) n (omega arith)
          (omega (arith, law.capacity_store m to b)) in
      let g : Agree lib m m1 (from + 1) (from + 1 + n) = record {
        same = λ c l h. law.fetch_other m to b c (omega arith);
      } in
      let later = read_bytes-Agree lib m m1 (from + 1) n (from + 1 + n) (omega arith) g in
      rw (head, tail, later) refl

  pub capacity-fill_bytes :
      (m : lib.State) (a n : ℕ) → law.capacity (fill_bytes lib m a n) ≡ law.capacity m
  unfolding fill_bytes
  capacity-fill_bytes m a zero = refl
  capacity-fill_bytes m a (suc n) =
      capacity-fill_bytes (lib.store m a 0xFF) (a + 1) n ∙ law.capacity_store m a 0xFF
