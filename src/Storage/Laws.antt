-- ===== src/Storage/Laws.antt =====
-- What DeviceStorage relies on of a storage, and what it gives back of what it stored.
use radio_mesh.Base.{
  ℕ, ◌<◌, List, [], ◌∷◌, ◌≡◌, ◌≢◌, refl, ◌⊎◌, inl, inr, arith, some, u32_mod, ap, get_or, length,
  sym,
}
use radio_mesh.Codes.{e_none}
use radio_mesh.Types.{
  DeviceInclusionState, not_included, inclusion_pending, included, state_byte, state_of_byte,
}
use radio_mesh.Utils.{number_to_bytes}
use radio_mesh.Utils.Numbers.{bytes_to_number-number_to_bytes, length-number_to_bytes}
use radio_mesh.Storage.{
  ByteStorage, state_key, counter_key, network_key_key, state_of_read, counter_of_read,
  persist_state, load_state, persist_message_counter, load_message_counter,
}

-- A write that succeeds is read back, and leaves the other keys alone, where the storage has a place for it:
-- `Fits` is what a storage asks of a key, a value and its contents for that.
pub record IsStore (store : ByteStorage) : Type 1 where
  pub Fits : List ℕ → List ℕ → store.State → Type 0
  pub read_back :
      (key value : List ℕ) (s : store.State)
      → Fits key value s
      → (store.write_and_commit key value s).0 ≡ e_none
      → store.read key (store.write_and_commit key value s).1 ≡ (e_none, value)
  pub kept :
      (key other value : List ℕ) (s : store.State)
      → Fits key value s
      → other ≢ []
      → key ≢ other
      → (store.write_and_commit key value s).0 ≡ e_none
      → store.read other (store.write_and_commit key value s).1 ≡ store.read other s
  pub still_fits :
      (key other value next : List ℕ) (s : store.State)
      → Fits key value s
      → Fits other next s
      → key ≢ other
      → (store.write_and_commit key value s).0 ≡ e_none
      → Fits other next (store.write_and_commit key value s).1

-- A state of the enumeration.
abbrev pub IsNamed : DeviceInclusionState → Type 0
IsNamed state = (state ≡ not_included) ⊎ (state ≡ inclusion_pending) ⊎ (state ≡ included)

pub named_back :
    (state : DeviceInclusionState) → IsNamed state → state_of_byte (state_byte state) ≡ state
unfolding state_of_byte
named_back state (inl e) = rw e refl
named_back state (inr (inl e)) = rw e refl
named_back state (inr (inr e)) = rw e refl

pub key_filled : {x : ℕ} {xs : List ℕ} → x ∷ xs ≢ []
key_filled e = absurd (omega (arith, ap length e))

pub network_key_differs : state_key ≢ network_key_key
network_key_differs e = absurd (omega (arith, ap (λ k. get_or k 0 0) e))

pub keys_differ : counter_key ≢ state_key
keys_differ e = absurd (omega (arith, ap (λ k. get_or k 0 0) e))

module _ (store : ByteStorage) (law : IsStore store) where
  -- The state and the counter that a device has stored, one after the other, without an error are what
  -- it loads.
  pub load-persist :
      (state : DeviceInclusionState) (counter : ℕ) (s : store.State)
      → IsNamed state
      → counter < u32_mod
      → law.Fits state_key (state_byte state ∷ []) s
      → law.Fits counter_key (number_to_bytes 4 counter) s
      → (persist_state store state s).0 ≡ e_none
      → (persist_message_counter store counter (persist_state store state s).1).0 ≡ e_none
      → (load_state store (persist_message_counter store counter (persist_state store state s).1).1
          ≡ (e_none, some state))
        × (load_message_counter store
              (persist_message_counter store counter (persist_state store state s).1).1
            ≡ (e_none, some counter))
  unfolding persist_state persist_message_counter load_state load_message_counter state_of_read
      counter_of_read
  load-persist state counter s named fits place spare ok ok' =
      let s1 = (store.write_and_commit state_key (state_byte state ∷ []) s).1 in
      let first = law.read_back state_key (state_byte state ∷ []) s place ok in
      let place' =
        law.still_fits state_key counter_key (state_byte state ∷ []) (number_to_bytes 4 counter) s
          place spare (λ e. keys_differ (sym e)) ok in
      let second = law.read_back counter_key (number_to_bytes 4 counter) s1 place' ok' in
      let other =
        law.kept counter_key state_key (number_to_bytes 4 counter) s1 place' (λ e. key_filled e)
          keys_differ ok' in
      (
        rw (other, first, named_back state named) refl,
        rw (second, length-number_to_bytes 4 counter, bytes_to_number-number_to_bytes counter fits)
            refl,
      )
