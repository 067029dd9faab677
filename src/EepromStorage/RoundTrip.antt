-- ===== src/EepromStorage/RoundTrip.antt =====
-- EEPROMStorage.cpp below framework/device/inc/DeviceStorage.h: what writeAndCommit stores, read gives back.
use radio_mesh.Base.{
  ℕ, ◌<◌, ◌≡◌, ◌≢◌, refl, ap, ◌∙◌, sym, inl, inr, none, some, List, [], ◌∷◌, length, AllBytes,
  u32_mod, arith,
}
use radio_mesh.Codes.{e_none}
use radio_mesh.Types.{DeviceInclusionState, state_byte}
use radio_mesh.Utils.{number_to_bytes}
use radio_mesh.Utils.Numbers.{bytes_to_number-number_to_bytes, length-number_to_bytes}
use radio_mesh.Storage.{
  ByteStorage, state_key, counter_key, state_of_read, counter_of_read, persist_state, load_state,
  persist_message_counter, load_message_counter,
}
use radio_mesh.Storage.Laws.{IsNamed, named_back, keys_differ}
use radio_mesh.EepromStorage.{Eeprom}
use radio_mesh.EepromStorage.Operations.{EepromStorage, read, remove, write_and_commit}
use radio_mesh.EepromStorage.Memory.{IsEeprom}
use radio_mesh.EepromStorage.Entries.{lookup, contents}
use radio_mesh.EepromStorage.Bytes.{new_entry}
use radio_mesh.EepromStorage.Unique.{
  lookup-place, lookup-place_ne, lookup-adjust_self, lookup-adjust_ne,
}
use radio_mesh.EepromStorage.Sound.{IsSound}
use radio_mesh.EepromStorage.Reading.{answer, read_operations_lem}
use radio_mesh.EepromStorage.Removal.{remove-refines}
use radio_mesh.EepromStorage.Commit.{write_and_commit-refines}

-- The storage that a device uses; `pad` is what the stack holds at the padding byte of an entry's header.
abbrev pub eeprom_store : Eeprom → ℕ → ByteStorage
eeprom_store lib pad = record {
  State = EepromStorage lib;
  read = λ key s. read lib s key;
  write_and_commit = λ key value s. write_and_commit lib pad s key value;
}

cons_ne : {x : ℕ} {xs : List ℕ} → x ∷ xs ≢ []
cons_ne e = absurd (omega (arith, ap length e))

state_byte-AllBytes :
    (state : DeviceInclusionState) → IsNamed state → AllBytes (state_byte state ∷ [])
state_byte-AllBytes state (inl e) = rw e (omega arith)
state_byte-AllBytes state (inr (inl e)) = rw e (omega arith)
state_byte-AllBytes state (inr (inr e)) = rw e (omega arith)

number_to_bytes-AllBytes : (x : ℕ) → AllBytes (number_to_bytes 4 x)
unfolding number_to_bytes
number_to_bytes-AllBytes x = omega arith

counter_back :
    (counter : ℕ)
    → counter < u32_mod
    → counter_of_read (e_none, number_to_bytes 4 counter) ≡ (e_none, some counter)
unfolding counter_of_read
counter_back counter fits =
    rw (length-number_to_bytes 4 counter, bytes_to_number-number_to_bytes counter fits) refl

module _ (lib : Eeprom) (law : IsEeprom lib) where
  read_lem :
      (s : EepromStorage lib) (key : List ℕ)
      → IsSound lib law s
      → key ≢ []
      → read lib s key ≡ answer (lookup key (contents lib s.memory))
  read_lem s key ok filled = (read_operations_lem lib s key ok.on filled).0

  -- On a sound storage a writeAndCommit that succeeds, of a key that has no valid entry or whose value has
  -- the same length, is read back, leaves what read says of every other key, and keeps the storage sound.
  pub read-write_and_commit :
      (pad : ℕ) (s : EepromStorage lib) (key other value : List ℕ)
      → IsSound lib law s
      → AllBytes key
      → AllBytes value
      → pad < 256
      → ((v : List ℕ) → lookup key (contents lib s.memory) ≡ some v → length v ≡ length value)
      → key ≢ []
      → other ≢ []
      → key ≢ other
      → (write_and_commit lib pad s key value).0 ≡ e_none
      → (read lib (write_and_commit lib pad s key value).1 key ≡ (e_none, value))
        × (read lib (write_and_commit lib pad s key value).1 other ≡ read lib s other)
        × IsSound lib law (write_and_commit lib pad s key value).1
  unfolding answer
  read-write_and_commit pad s key other value ok kb vb pl same filled filled' ne done =
      let new = new_entry key value pad in
      let es = contents lib s.memory in
      let s' = (write_and_commit lib pad s key value).1 in
      let t = write_and_commit-refines lib law pad s key value ok kb vb pl same done in
      (
        read_lem s' key t.1 filled
            ∙ ap (λ x. answer (lookup key x)) t.0
            ∙ ap answer (lookup-place new es refl),
        read_lem s' other t.1 filled'
            ∙ ap (λ x. answer (lookup other x)) t.0
            ∙ ap answer (lookup-place_ne new other es ne refl)
            ∙ sym (read_lem s other ok filled'),
        t.1,
      )

  -- On a sound storage a key that was removed is no longer found, every other key reads as before, and the
  -- storage stays sound; so too when there was nothing to remove.
  pub read-remove :
      (s : EepromStorage lib) (key other : List ℕ)
      → IsSound lib law s
      → key ≢ []
      → other ≢ []
      → key ≢ other
      → (read lib (remove lib s key).1 key ≡ answer none)
        × (read lib (remove lib s key).1 other ≡ read lib s other)
        × IsSound lib law (remove lib s key).1
  read-remove s key other ok filled filled' ne =
      let es = contents lib s.memory in
      let s' = (remove lib s key).1 in
      let t = remove-refines lib law s ok key filled in
      (
        read_lem s' key t.2 filled
            ∙ ap (λ x. answer (lookup key x)) t.1
            ∙ ap answer (lookup-adjust_self key es ok.unique),
        read_lem s' other t.2 filled'
            ∙ ap (λ x. answer (lookup other x)) t.1
            ∙ ap answer (lookup-adjust_ne key other es ne)
            ∙ sym (read_lem s other ok filled'),
        t.2,
      )

  -- On a sound storage whose values under "is" and "mc", where there are any, have one and four bytes, the
  -- state and the counter that DeviceStorage has stored without an error are what it loads.
  pub load-persist_eeprom :
      (pad : ℕ) (s : EepromStorage lib) (state : DeviceInclusionState) (counter : ℕ)
      → IsSound lib law s
      → pad < 256
      → IsNamed state
      → counter < u32_mod
      → ((v : List ℕ) → lookup state_key (contents lib s.memory) ≡ some v → length v ≡ 1)
      → ((v : List ℕ) → lookup counter_key (contents lib s.memory) ≡ some v → length v ≡ 4)
      → (persist_state (eeprom_store lib pad) state s).0 ≡ e_none
      → (persist_message_counter
          (eeprom_store lib pad)
          counter
          (persist_state (eeprom_store lib pad) state s).1).0
        ≡ e_none
      → (load_state
            (eeprom_store lib pad)
            (persist_message_counter
              (eeprom_store lib pad)
              counter
              (persist_state (eeprom_store lib pad) state s).1).1
          ≡ (e_none, some state))
        × (load_message_counter
              (eeprom_store lib pad)
              (persist_message_counter
                (eeprom_store lib pad)
                counter
                (persist_state (eeprom_store lib pad) state s).1).1
            ≡ (e_none, some counter))
  unfolding persist_state persist_message_counter load_state load_message_counter state_of_read
      counter_of_read
  load-persist_eeprom pad s state counter ok pl named fits one four done done' =
      let value = state_byte state ∷ [] in
      let value' = number_to_bytes 4 counter in
      let first =
        read-write_and_commit pad s state_key counter_key value ok (omega arith)
          (state_byte-AllBytes state named) pl one (λ e. cons_ne e) (λ e. cons_ne e)
          (λ e. keys_differ (sym e)) done in
      let s1 = (write_and_commit lib pad s state_key value).1 in
      let list =
        (write_and_commit-refines lib law pad s state_key value ok (omega arith)
          (state_byte-AllBytes state named) pl one done).0 in
      let four' = λ (v : List ℕ) (e : lookup counter_key (contents lib s1.memory) ≡ some v).
        four v (
          sym (
            lookup-place_ne (new_entry state_key value pad) counter_key (contents lib s.memory)
              (λ e. keys_differ (sym e)) refl)
          ∙ ap (lookup counter_key) (sym list)
          ∙ e)
        ∙ sym (length-number_to_bytes 4 counter) in
      let second =
        read-write_and_commit pad s1 counter_key state_key value' first.2 (omega arith)
          (number_to_bytes-AllBytes counter) pl four' (λ e. cons_ne e) (λ e. cons_ne e) keys_differ
          done' in
      (
        ap state_of_read (second.1 ∙ first.0) ∙ ap (λ x. (e_none, some x)) (named_back state named),
        ap counter_of_read second.0 ∙ counter_back counter fits,
      )
