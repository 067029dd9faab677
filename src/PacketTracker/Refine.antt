-- ===== src/PacketTracker/Refine.antt =====
-- The packet tracker refines a list of (key, value) pairs, most recent first: what addEntry,
-- findOrDefault, removeEntry and keyExists do, with the nodes and the map hidden.
use radio_mesh.Base.{
  ℕ, suc, ◌-◌, ◌≤◌, ◌≡◌, refl, ap, ◌∙◌, Option, none, some, List, [], ◌∷◌, length, arith, sym, zero,
  take_of_length-le, Bool-cases, Option-cases, inl, inr, ◌==◌, take,
}
use radio_mesh.PacketTracker.{
  Node, PacketTracker, find, erase_key, erase_node, deref, pop_back, move_to_front, evict,
  add_entry, find_or_default, value_at,
}
use radio_mesh.PacketTracker.Invariant.{add_entry-IsLinked}
use radio_mesh.PacketTracker.Nodes.{
  entries, NoKey, IsLinked, NoKey-of_find, NoAddr-find, length-erase_node, back-some, Distinct,
}

-- The pairs of the list, most recent first.
abbrev pub pairs : List Node → List (ℕ × ℕ)
pairs [] = []
pairs (n ∷ ns) = (n.key, n.value) ∷ pairs ns

abbrev pub contents : PacketTracker → List (ℕ × ℕ)
contents t = pairs t.lru_list

-- The specification of addEntry: the pair goes to the front, and at most `capacity` pairs are kept.
unfoldable pub add_pair : ℕ → ℕ → ℕ → List (ℕ × ℕ) → List (ℕ × ℕ)
add_pair capacity key value l = (key, value) ∷ take (capacity - 1) (erase_key key l)

abbrev pub value_of : Option ℕ → ℕ → ℕ
value_of none default = default
value_of (some v) default = v

-- The specification of findOrDefault: a hit brings its pair to the front.
unfoldable pub touch_pair : ℕ → List (ℕ × ℕ) → List (ℕ × ℕ)
touch_pair key l = elim (find key l) [ none ↦ l | some v ↦ (key, v) ∷ erase_key key l ]

-- A key that the map holds is one of the pairs, with the value of the node.
find-pairs :
    (k a : ℕ) (ns : List Node)
    → Distinct ns
    → find k (entries ns) ≡ some a
    → (v : ℕ) × (find k (pairs ns) ≡ some v) × ((d : ℕ) → value_at (deref a ns) d ≡ v)
unfolding find deref
find-pairs k a [] d h = cc
find-pairs k a (n ∷ ns) d h = elim (Bool-cases (n.key == k)) [
  | inl here ↦ (n.value, rw here, λ e. ground arith)
  | inr later ↦
      let rest = find-pairs k a ns d.2 (ground arith) in
      (rest.0, rw later rest.1, λ e. ground (arith, NoAddr-find k a n.addr ns, rest.2 e))
]

find-pairs-none : (k : ℕ) (ns : List Node) → find k (entries ns) ≡ none → find k (pairs ns) ≡ none
unfolding find
find-pairs-none k [] h = refl
find-pairs-none k (n ∷ ns) h = ground (arith, find-pairs-none k ns)

pairs-erase_node :
    (k a : ℕ) (ns : List Node)
    → Distinct ns
    → find k (entries ns) ≡ some a
    → pairs (erase_node a ns) ≡ erase_key k (pairs ns)
unfolding find erase_key erase_node
pairs-erase_node k a [] d h = cc
pairs-erase_node k a (n ∷ ns) d h =
    ground (arith, pairs-erase_node k a ns, NoAddr-find k a n.addr ns)

pairs-NoKey : (k : ℕ) (ns : List Node) → NoKey k ns → erase_key k (pairs ns) ≡ pairs ns
unfolding erase_key
pairs-NoKey k [] h = refl
pairs-NoKey k (n ∷ ns) h = ground (arith, pairs-NoKey k ns)

length-pairs : (ns : List Node) → length (pairs ns) ≡ length ns
length-pairs [] = refl
length-pairs (n ∷ ns) = ap suc (length-pairs ns)

pairs-take : (c : ℕ) (ns : List Node) → length ns ≤ c → take c (pairs ns) ≡ pairs ns
pairs-take c ns h = take_of_length-le c (pairs ns) (omega (arith, length-pairs ns))

pairs-pop_back :
    (c : ℕ) (ns : List Node) → length ns ≡ suc c → pairs (pop_back ns) ≡ take c (pairs ns)
unfolding pop_back
pairs-pop_back c [] h = absurd (omega arith)
pairs-pop_back zero (n ∷ []) h = refl
pairs-pop_back (suc c) (n ∷ []) h = absurd (omega arith)
pairs-pop_back zero (n ∷ m ∷ ns) h = absurd (omega arith)
pairs-pop_back (suc c) (n ∷ m ∷ ns) h =
    ap (◌∷◌ (n.key, n.value)) (pairs-pop_back c (m ∷ ns) (omega arith))

contents-move_to_front :
    (a key value : ℕ) (t : PacketTracker)
    → IsLinked t
    → find key t.index ≡ some a
    → contents (move_to_front a key value t) ≡ (key, value) ∷ erase_key key (contents t)
unfolding move_to_front
contents-move_to_front a key value t l h =
    ap (◌∷◌ (key, value)) (pairs-erase_node key a t.lru_list l.distinct (rw l.linked at h))

contents-evict :
    (key : ℕ) (t : PacketTracker)
    → IsLinked t
    → find key t.index ≡ none
    → contents (evict t) ≡ take (t.capacity - 1) (erase_key key (contents t))
unfolding evict
contents-evict key t l h =
    rw (pairs-NoKey key t.lru_list (NoKey-of_find key t.lru_list (rw l.linked at h)))
      (elim (Bool-cases (length t.lru_list == t.capacity)) [
        | inl full ↦
            let (last, b) = back-some t.lru_list (ground (arith, l.roomy)) in
            rw (full, b) (pairs-pop_back (t.capacity - 1) t.lru_list (ground (arith, l.roomy)))
        | inr room ↦
            rw room (sym (pairs-take (t.capacity - 1) t.lru_list (ground (arith, l.bounded))))
      ])

contents-add_entry :
    (key value : ℕ) (t : PacketTracker)
    → IsLinked t
    → contents (add_entry key value t) ≡ add_pair t.capacity key value (contents t)
unfolding add_entry add_pair
contents-add_entry key value t l = elim (Option-cases (find key t.index)) [
  | inl new ↦ rw (new, add_entry) (ap (◌∷◌ (key, value)) (contents-evict key t l new))
  | inr (a, old) ↦
      rw (old, add_entry)
        (contents-move_to_front a key value t l old
          ∙ ap (◌∷◌ (key, value)) (
              sym
                (take_of_length-le (t.capacity - 1) (erase_key key (contents t)) (shorter a old))))
]
  where
    shorter :
        (a : ℕ) → find key t.index ≡ some a → length (erase_key key (contents t)) ≤ t.capacity - 1
    shorter a old =
        let found : find key (entries t.lru_list) ≡ some a = rw l.linked at old in
        rw (← pairs-erase_node key a t.lru_list l.distinct found) (
          omega (
            arith,
            l.bounded,
            length-pairs (erase_node a t.lru_list),
            length-erase_node key a t.lru_list found,
          ))

-- On a tracker whose map and list are linked, which is so of a new one, addEntry puts its pair in front of the
-- others, drops an older pair with the key, and keeps at most `capacity` pairs, the most recent ones; the map
-- and the list stay linked.
pub add_entry-refines :
    (key value : ℕ) (t : PacketTracker)
    → IsLinked t
    → (contents (add_entry key value t) ≡ add_pair t.capacity key value (contents t))
      × IsLinked (add_entry key value t)
add_entry-refines key value t l =
    (contents-add_entry key value t l, add_entry-IsLinked key value t l)

-- findOrDefault returns the pair's value, or the default when no pair has the key, and brings the pair
-- to the front.
pub find_or_default-refines :
    (key default : ℕ) (t : PacketTracker)
    → IsLinked t
    → ((find_or_default key default t).0 ≡ value_of (find key (contents t)) default)
      × (contents (find_or_default key default t).1 ≡ touch_pair key (contents t))
unfolding find_or_default touch_pair
find_or_default-refines key default t l = elim (Option-cases (find key t.index)) [
  | inl new ↦
      let absent = find-pairs-none key t.lru_list (rw l.linked at new) in
      rw (new, find_or_default, absent, touch_pair) (refl, refl)
  | inr (a, old) ↦
      let there = find-pairs key a t.lru_list l.distinct (rw l.linked at old) in
      rw (old, find_or_default, there.1, touch_pair, there.2 default)
        (refl, contents-move_to_front a key there.0 t l old)
]
