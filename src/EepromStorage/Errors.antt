-- ===== src/EepromStorage/Errors.antt =====
-- The error paths of EEPROMStorage.cpp.
use radio_mesh.Base.{
  ℕ, ◌+◌, ◌≡◌, refl, ◌⊎◌, inl, inr, true, false, ◌||◌, List, [], length, is_empty, ltb, ◌==◌,
  Bool-cases, arith,
}
use radio_mesh.Codes.{
  e_storage_setup, ReturnCode, error, e_none, failed, e_storage_not_init, e_storage_write_failed,
}
use radio_mesh.EepromStorage.{Eeprom, Search, found, missing, put_header, fill_bytes}
use radio_mesh.EepromStorage.Operations.{
  EepromStorage, set_params, commit, end, available, is_full, get_entry_count, exists, read, remove,
  remove_found, search, write, write_and_commit, defragment, clear, begin, open_storage,
  initialize_storage_header, is_storage_valid, first_header,
}

module _ (lib : Eeprom) where
  remove_found_fails :
      (s : EepromStorage lib) (r : Search)
      → ((remove_found lib s r).0 ≡ e_none) ⊎ ((remove_found lib s r).1 ≡ s)
  unfolding remove_found
  remove_found_fails s (found b h) = inl refl
  remove_found_fails s (missing b) = inr refl

  remove_fails :
      (s : EepromStorage lib) (key : List ℕ)
      → ((remove lib s key).0 ≡ e_none) ⊎ ((remove lib s key).1 ≡ s)
  unfolding remove
  remove_fails s key =
      let t = remove_found_fails s (search lib s.memory key) in
      elim (Bool-cases s.initialized) [
        | inl on ↦ elim (Bool-cases (is_empty key)) [
          | inl e ↦ inr (ground (arith, on, e))
          | inr e ↦ elim t [
            | inl a ↦ inl (ground (arith, on, e, a))
            | inr a ↦ inr (ground (arith, on, e, a))
          ]
        ]
        | inr off ↦ inr (ground (arith, off))
      ]

  write_fails :
      (pad : ℕ) (s : EepromStorage lib) (key value : List ℕ)
      → ((write lib pad s key value).0 ≡ e_none) ⊎ ((write lib pad s key value).1 ≡ s)
  unfolding write
  write_fails pad s key value = elim (Bool-cases s.initialized) [
    | inl on ↦ elim (Bool-cases (is_empty key || is_empty value)) [
      | inl e ↦ inr (ground (arith, on, e))
      | inr e ↦ elim (Bool-cases (ltb 255 (length key))) [
        | inl l ↦ inr (ground (arith, on, e, l))
        | inr l ↦ elim (Bool-cases (ltb (available lib s) (length key + length value + 6))) [
          | inl a ↦ inr (ground (arith, on, e, l, a))
          | inr a ↦ inl (ground (arith, on, e, l, a))
        ]
      ]
    ]
    | inr off ↦ inr (ground (arith, off))
  ]

  -- The storage that clear commits
  abbrev pub blank_of : EepromStorage lib → EepromStorage lib
  blank_of s = record s { memory = put_header lib (fill_bytes lib s.memory 0 s.size) first_header }

  -- What commit says where the library refuses: the EEPROM is what the library leaves.
  abbrev pub CommitRefused : EepromStorage lib → ReturnCode × EepromStorage lib → Type 0
  CommitRefused s r =
      (s.initialized ≡ true)
      × ((lib.commit s.memory).0 ≡ false)
      × (r ≡ (e_storage_write_failed, record s { memory = (lib.commit s.memory).1 }))

  commit_fails :
      (s : EepromStorage lib)
      → ((commit lib s).0 ≡ e_none) ⊎ ((commit lib s).1 ≡ s) ⊎ CommitRefused s (commit lib s)
  unfolding commit
  commit_fails s = elim (Bool-cases s.initialized) [
    | inr off ↦ inr (inl (ground (arith, off)))
    | inl on ↦ elim (Bool-cases (lib.commit s.memory).0) [
      | inl done ↦ inl (ground (arith, on, done))
      | inr refused ↦ inr (inr (on, refused, ground (arith, on, refused)))
    ]
  ]

  write_initialized :
      (pad : ℕ) (s : EepromStorage lib) (key value : List ℕ)
      → (write lib pad s key value).0 ≡ e_none
      → (write lib pad s key value).1.initialized ≡ true
  unfolding write
  write_initialized pad s key value done = elim (Bool-cases s.initialized) [
    | inl on ↦ ground (arith, done, on)
    | inr off ↦ absurd (ground (arith, done, off))
  ]

  ok_of : (rc : ReturnCode) → failed rc ≡ false → rc ≡ e_none
  ok_of e_none h = refl
  ok_of (error n) h = absurd (ground (arith, h))

  write_and_commit_fails :
      (pad : ℕ) (s : EepromStorage lib) (key value : List ℕ)
      → ((write_and_commit lib pad s key value).0 ≡ e_none)
        ⊎ ((write_and_commit lib pad s key value).1 ≡ s)
        ⊎ (((write lib pad s key value).0 ≡ e_none)
            × CommitRefused (write lib pad s key value).1 (write_and_commit lib pad s key value))
  unfolding write_and_commit
  write_and_commit_fails pad s key value =
      elim (Bool-cases (failed (write lib pad s key value).0)) [
        | inl bad ↦ elim (write_fails pad s key value) [
          | inl fine ↦ absurd (ground (arith, bad, fine))
          | inr same ↦ inr (inl (rw bad same))
        ]
        | inr good ↦
            let fine = ok_of (write lib pad s key value).0 good in
            let on = write_initialized pad s key value fine in
            elim (Bool-cases (lib.commit (write lib pad s key value).1.memory).0) [
              | inl done ↦ inl (rw good (unfold commit in (ground (arith, on, done))))
              | inr refused ↦ inr (
                  inr
                    (fine, (on, refused, rw good (unfold commit in (ground (arith, on, refused))))))
            ]
      ]

  clear_fails :
      (s : EepromStorage lib)
      → ((clear lib s).0 ≡ e_none)
        ⊎ ((clear lib s).1 ≡ s)
        ⊎ CommitRefused (blank_of s) (clear lib s)
  unfolding clear commit initialize_storage_header
  clear_fails s = elim (Bool-cases s.initialized) [
    | inr off ↦ inr (inl (rw off refl))
    | inl on ↦ elim (Bool-cases (lib.commit (blank_of s).memory).0) [
      | inl done ↦ inl (ground (arith, on, done))
      | inr refused ↦ inr (inr (on, refused, ground (arith, on, refused)))
    ]
  ]

  -- The library's begin refuses, and what it leaves stays; and, a fresh header was written and committed.
  abbrev pub BeginRefused : EepromStorage lib → Type 0
  BeginRefused s =
      (s.initialized ≡ false)
      × ((lib.begin s.memory s.size).0 ≡ false)
      × (begin lib s ≡ (e_storage_setup, record s { memory = (lib.begin s.memory s.size).1 }))

  abbrev pub BeginAnew : EepromStorage lib → Type 0
  BeginAnew s =
      (s.initialized ≡ false)
      × ((lib.begin s.memory s.size).0 ≡ true)
      × (is_storage_valid lib
            (record s { initialized = true; memory = (lib.begin s.memory s.size).1 })
          ≡ false)
      × ((lib.commit (put_header lib (lib.begin s.memory s.size).1 first_header)).0 ≡ true)
      × (begin lib s ≡ (
        e_storage_setup,
        record s {
          initialized = true;
          memory = (lib.commit (put_header lib (lib.begin s.memory s.size).1 first_header)).1;
        },
      ))

  begin_fails :
      (s : EepromStorage lib)
      → ((begin lib s).0 ≡ e_none) ⊎ ((begin lib s).1 ≡ s) ⊎ BeginRefused s ⊎ BeginAnew s
  unfolding begin open_storage commit initialize_storage_header
  begin_fails s = elim (Bool-cases s.initialized) [
    | inl on ↦ inr (inl (ground (arith, on)))
    | inr off ↦ elim (Bool-cases (s.size == 0)) [
      | inl none_there ↦ inr (inl (ground (arith, off, none_there)))
      | inr room ↦ elim (Bool-cases (lib.begin s.memory s.size).0) [
        | inr bad ↦ inr (inr (inl (off, bad, ground (arith, off, room, bad))))
        | inl good ↦
            elim (Bool-cases (
              is_storage_valid lib
                (record s { initialized = true; memory = (lib.begin s.memory s.size).1 }))) [
                  | inl valid ↦ inl (ground (arith, off, room, good, valid))
                  | inr invalid ↦
                      elim (Bool-cases
                        (lib.commit
                          (put_header lib (lib.begin s.memory s.size).1 first_header)).0) [
                            | inr refused ↦ inl (ground (arith, off, room, good, invalid, refused))
                            | inl done ↦ inr (
                                inr (
                                  inr (
                                    off,
                                    good,
                                    invalid,
                                    done,
                                    ground (arith, off, room, good, invalid, done),
                                  )))
                          ]
                ]
      ]
    ]
  ]

  -- An operation that does not succeed leaves the storage and the EEPROM as they are, but in three cases. Where
  -- the library refuses a commit, commit, writeAndCommit and clear keep what was written before it. Where the
  -- library's begin refuses, begin leaves what that leaves. And where begin finds no valid header and the
  -- commit of a fresh one succeeds, the storage has begun and holds that header.
  pub failures_keep :
      (pad size : ℕ) (s : EepromStorage lib) (key value : List ℕ)
      → (((set_params lib size s).0 ≡ e_none) ⊎ ((set_params lib size s).1 ≡ s))
        × (((end lib s).0 ≡ e_none) ⊎ ((end lib s).1 ≡ s))
        × (((write lib pad s key value).0 ≡ e_none) ⊎ ((write lib pad s key value).1 ≡ s))
        × (((remove lib s key).0 ≡ e_none) ⊎ ((remove lib s key).1 ≡ s))
        × (((defragment lib s).0 ≡ e_none) ⊎ ((defragment lib s).1 ≡ s))
        × (((commit lib s).0 ≡ e_none) ⊎ ((commit lib s).1 ≡ s) ⊎ CommitRefused s (commit lib s))
        × (((write_and_commit lib pad s key value).0 ≡ e_none)
            ⊎ ((write_and_commit lib pad s key value).1 ≡ s)
            ⊎ (((write lib pad s key value).0 ≡ e_none)
                × CommitRefused
                    (write lib pad s key value).1
                    (write_and_commit lib pad s key value)))
        × (((clear lib s).0 ≡ e_none)
            ⊎ ((clear lib s).1 ≡ s)
            ⊎ CommitRefused (blank_of s) (clear lib s))
        × (((begin lib s).0 ≡ e_none) ⊎ ((begin lib s).1 ≡ s) ⊎ BeginRefused s ⊎ BeginAnew s)
  unfolding set_params end defragment
  failures_keep pad size s key value = (
    elim (Bool-cases (size == 0 || ltb 1024 size)) [
      | inl e ↦ inr (ground (arith, e))
      | inr e ↦ inl (ground (arith, e))
    ],
    elim (Bool-cases s.initialized) [
      | inl e ↦ inl (ground (arith, e))
      | inr e ↦ inr (ground (arith, e))
    ],
    write_fails pad s key value,
    remove_fails s key,
    elim (Bool-cases s.initialized) [
      | inl e ↦ inl (ground (arith, e))
      | inr e ↦ inr (ground (arith, e))
    ],
    commit_fails s,
    write_and_commit_fails pad s key value,
    clear_fails s,
    begin_fails s,
  )

  -- A storage that has not begun answers every operation with the code for it, or as an empty and full
  -- storage, and nothing of it or of the EEPROM changes.
  pub closed_lem :
      (pad : ℕ) (s : EepromStorage lib) (key value : List ℕ)
      → s.initialized ≡ false
      → (end lib s ≡ (e_storage_not_init, s))
        × (write lib pad s key value ≡ (e_storage_not_init, s))
        × (write_and_commit lib pad s key value ≡ (e_storage_not_init, s))
        × (remove lib s key ≡ (e_storage_not_init, s))
        × (defragment lib s ≡ (e_storage_not_init, s))
        × (clear lib s ≡ (e_storage_not_init, s))
        × (commit lib s ≡ (e_storage_not_init, s))
        × (read lib s key ≡ (e_storage_not_init, []))
        × (get_entry_count lib s ≡ (e_storage_not_init, 0))
        × (exists lib s key ≡ false)
        × (available lib s ≡ 0)
        × (is_full lib s ≡ true)
  unfolding end write write_and_commit remove defragment clear commit read get_entry_count exists
      available is_full
  closed_lem pad s key value off = (
    ground (arith, off),
    ground (arith, off),
    ground (arith, off),
    ground (arith, off),
    ground (arith, off),
    ground (arith, off),
    ground (arith, off),
    ground (arith, off),
    ground (arith, off),
    ground (arith, off),
    ground (arith, off),
    ground (arith, off),
  )
