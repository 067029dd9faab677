-- ===== src/PacketTracker/Recency.antt =====
-- How long the packet tracker remembers a packet.
use radio_mesh.Base.{
  ℕ, zero, suc, ◌+◌, ◌-◌, ◌≤◌, ◌<◌, ◌≡◌, ◌≢◌, refl, ap, some, List, [], ◌∷◌, length, arith, take,
  Bool-cases, inl, inr, ◌==◌, ==_ne,
}
use radio_mesh.PacketTracker.{PacketTracker, find, erase_key, add_entry, find_or_default}
use radio_mesh.PacketTracker.Nodes.{IsLinked}
use radio_mesh.PacketTracker.Invariant.{add_entry-IsLinked}
use radio_mesh.PacketTracker.Refine.{contents, add_pair, add_entry-refines, find_or_default-refines}

-- addEntry of several pairs, one after the other.
unfoldable pub add_all : List (ℕ × ℕ) → PacketTracker → PacketTracker
add_all [] t = t
add_all ((k, v) ∷ more) t = add_all more (add_entry k v t)

-- None of the pairs has the key.
abbrev pub Lacks : ℕ → List (ℕ × ℕ) → Type 0
Lacks key [] = Unit
Lacks key ((k, v) ∷ more) = (k ≢ key) × Lacks key more

find-take-suc :
    (k v n : ℕ) (l : List (ℕ × ℕ)) → find k (take n l) ≡ some v → find k (take (suc n) l) ≡ some v
unfolding find
find-take-suc k v zero l h = cc
find-take-suc k v (suc n) [] h = h
find-take-suc k v (suc n) ((j, w) ∷ l) h = ground (arith, find-take-suc k v n l)

-- A pair among the first `n` stays among them when another key is erased.
find-take-erase_key :
    (k v key n : ℕ) (l : List (ℕ × ℕ))
    → key ≢ k
    → find k (take n l) ≡ some v
    → find k (take n (erase_key key l)) ≡ some v
unfolding find erase_key
find-take-erase_key k v key zero l ne h = h
find-take-erase_key k v key (suc n) [] ne h = h
find-take-erase_key k v key (suc n) ((j, w) ∷ l) ne h = elim (Bool-cases (j == key)) [
  | inl same ↦ rw same (find-take-suc k v n l (ground arith))
  | inr other ↦ rw other (ground (arith, find-take-erase_key k v key n l ne))
]

take-take : (n m : ℕ) (l : List (ℕ × ℕ)) → n ≤ m → take n (take m l) ≡ take n l
take-take zero m l h = refl
take-take (suc n) zero l h = absurd (omega arith)
take-take (suc n) (suc m) [] h = refl
take-take (suc n) (suc m) (p ∷ l) h = ap (◌∷◌ p) (take-take n m l (omega arith))

find-add_pair :
    (k v key value n capacity : ℕ) (l : List (ℕ × ℕ))
    → key ≢ k
    → n < capacity
    → find k (take n l) ≡ some v
    → find k (take (suc n) (add_pair capacity key value l)) ≡ some v
unfolding find add_pair
find-add_pair k v key value n capacity l ne room h =
    rw (==_ne key k ne, take-take n (capacity - 1) (erase_key key l) (omega arith))
      (find-take-erase_key k v key n l ne h)

find-of-take : (k v n : ℕ) (l : List (ℕ × ℕ)) → find k (take n l) ≡ some v → find k l ≡ some v
unfolding find
find-of-take k v zero l h = cc
find-of-take k v (suc n) [] h = h
find-of-take k v (suc n) ((j, w) ∷ l) h = ground (arith, find-of-take k v n l)

pub capacity-add_entry :
    (key value : ℕ) (t : PacketTracker) → (add_entry key value t).capacity ≡ t.capacity
unfolding add_entry
capacity-add_entry key value t = ground arith

remembered :
    (k v n default : ℕ) (others : List (ℕ × ℕ)) (t : PacketTracker)
    → IsLinked t
    → Lacks k others
    → n + length others ≤ t.capacity
    → find k (take n (contents t)) ≡ some v
    → (find_or_default k default (add_all others t)).0 ≡ v
unfolding add_all
remembered k v n default [] t l c room h =
    rw ((find_or_default-refines k default t l).0, find-of-take k v n (contents t) h)
remembered k v n default ((key, value) ∷ others) t l c room h =
    remembered k v (suc n) default others (add_entry key value t) (add_entry-IsLinked key value t l)
      c.1 (omega (arith, capacity-add_entry key value t))
      (rw (add_entry-refines key value t l).0
        (find-add_pair k v key value n t.capacity (contents t) c.0 (omega arith) h))

-- After addEntry of a key, and of fewer than `capacity` pairs with other keys, findOrDefault still
-- returns the value of that key, whatever the default.
pub find_or_default-add_all :
    (k v default : ℕ) (others : List (ℕ × ℕ)) (t : PacketTracker)
    → IsLinked t
    → Lacks k others
    → length others < t.capacity
    → (find_or_default k default (add_all others (add_entry k v t))).0 ≡ v
unfolding add_pair find
find_or_default-add_all k v default others t l c room =
    remembered k v 1 default others (add_entry k v t) (add_entry-IsLinked k v t l) c
      (omega (arith, capacity-add_entry k v t)) (rw (add_entry-refines k v t l).0 (ground arith))
