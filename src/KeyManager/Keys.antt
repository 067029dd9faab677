-- ===== src/KeyManager/Keys.antt =====
-- The network key: what the key manager stores and gives back.
use radio_mesh.Base.{
  ℕ, List, [], ◌∷◌, length, Bool-cases, ◌≡◌, refl, ◌⊎◌, inl, inr, arith, true, false, ◌==◌,
}
use radio_mesh.Codes.{e_none}
use radio_mesh.Crypto.Primitives.{Primitives}
use radio_mesh.Crypto.Aes.{SecurityParams}
use radio_mesh.Crypto.Service.{decrypt_direct_ecc, sender_public_key}
use radio_mesh.Storage.{ByteStorage, load_network_key, persist_network_key, network_key_key}
use radio_mesh.Storage.Laws.{IsStore}
use radio_mesh.KeyManager.{
  validate_key, decrypt_network_key, set_network_key, save_network_key, get_current_network_key,
  has_network_key, is_key_of_load, initialize_for_hub,
}

-- decryptNetworkKey decrypts nothing: under every private key of 32 bytes it returns what it was given, if
-- that has 32 bytes, with RM_E_NONE.
pub decrypt_network_key-unchanged :
    (prim : Primitives) (encrypted_key private_key : List ℕ) (params : SecurityParams)
    → length encrypted_key ≡ 32
    → length private_key ≡ 32
    → decrypt_network_key prim encrypted_key private_key params ≡ (e_none, encrypted_key)
unfolding decrypt_network_key validate_key decrypt_direct_ecc sender_public_key
decrypt_network_key-unchanged prim [] private_key params e p = absurd (omega (arith, e))
decrypt_network_key-unchanged prim (x ∷ rest) private_key params e p = ground (arith, e, p)

-- A key that setNetworkKey took was written.
pub set_network_key-written :
    (store : ByteStorage) (key : List ℕ) (s : store.State)
    → (set_network_key store key s).0 ≡ e_none
    → set_network_key store key s ≡ store.write_and_commit network_key_key key s
unfolding set_network_key save_network_key persist_network_key validate_key
set_network_key-written store key s ok = elim (Bool-cases (length key == 32)) [
  | inr wrong ↦ cc
  | inl right ↦ rw right refl
]

module _ (store : ByteStorage) (law : IsStore store) (key : List ℕ) (s : store.State) where
  -- A key that setNetworkKey stored is there.
  pub set_then_has :
      law.Fits network_key_key key s
      → (set_network_key store key s).0 ≡ e_none
      → (get_current_network_key store (set_network_key store key s).1 ≡ (e_none, key))
        × (has_network_key store (set_network_key store key s).1 ≡ true)
  unfolding set_network_key save_network_key get_current_network_key validate_key load_network_key
      persist_network_key has_network_key is_key_of_load
  set_then_has place ok = elim (Bool-cases (length key == 32)) [
    | inr wrong ↦ cc
    | inl right ↦
        let back = law.read_back network_key_key key s place (rw right at ok) in
        rw (right, back, right) (refl, refl)
  ]

  -- A hub's first start stores the key that was generated, unless it has one already, and later starts,
  -- whatever key they generate, change nothing.
  pub initialize_for_hub-twice :
      (other : List ℕ)
      → law.Fits network_key_key key s
      → (initialize_for_hub store key s).0 ≡ e_none
      → (has_network_key store (initialize_for_hub store key s).1 ≡ true)
        × (initialize_for_hub store other (initialize_for_hub store key s).1
            ≡ (e_none, (initialize_for_hub store key s).1))
        × (((has_network_key store s ≡ true) × ((initialize_for_hub store key s).1 ≡ s))
            ⊎ ((has_network_key store s ≡ false)
                × (get_current_network_key store (initialize_for_hub store key s).1
                    ≡ (e_none, key))))
  unfolding initialize_for_hub
  initialize_for_hub-twice other place ok = elim (Bool-cases (has_network_key store s)) [
    | inl has ↦ rw (has, has) (refl, refl, inl (refl, refl))
    | inr lacks ↦
        let there = set_then_has place (rw lacks at ok) in
        rw (lacks, there.1) (refl, refl, inr (refl, there.0))
  ]
