-- ===== src/PacketTracker/Nodes.antt =====
-- The list of nodes of the packet tracker and the map that should go with it: what erasing a node, and
-- dropping the last one, do to both.
use radio_mesh.Base.{ℕ, ◌+◌, ◌≤◌, ◌<◌, ◌≡◌, ◌≢◌, refl, none, some, List, [], ◌∷◌, length, arith}
use radio_mesh.PacketTracker.{Node, PacketTracker, find, erase_key, erase_node, back, pop_back}

-- What the map should hold for a list of nodes.
abbrev pub entries : List Node → List (ℕ × ℕ)
entries [] = []
entries (n ∷ ns) = (n.key, n.addr) ∷ entries ns

abbrev pub NoKey : ℕ → List Node → Type 0
NoKey k [] = Unit
NoKey k (n ∷ ns) = (n.key ≢ k) × NoKey k ns

-- Every address is below `b`.
abbrev pub Below : ℕ → List Node → Type 0
Below b [] = Unit
Below b (n ∷ ns) = (n.addr < b) × Below b ns

abbrev pub NoAddr : ℕ → List Node → Type 0
NoAddr a [] = Unit
NoAddr a (n ∷ ns) = (n.addr ≢ a) × NoAddr a ns

-- No two nodes share a key or an address.
abbrev pub Distinct : List Node → Type 0
Distinct [] = Unit
Distinct (n ∷ ns) = NoKey n.key ns × NoAddr n.addr ns × Distinct ns

pub record IsLinked (t : PacketTracker) : Type 0 where
  pub linked : t.index ≡ entries t.lru_list
  pub distinct : Distinct t.lru_list
  pub fresh : Below t.next_addr t.lru_list
  pub bounded : length t.lru_list ≤ t.capacity
  pub roomy : 0 < t.capacity

pub NoKey-of_find : (k : ℕ) (ns : List Node) → find k (entries ns) ≡ none → NoKey k ns
unfolding find
NoKey-of_find k [] h = tt
NoKey-of_find k (n ∷ ns) h = ground (arith, NoKey-of_find k ns)

pub erase_key-NoKey : (k : ℕ) (ns : List Node) → NoKey k ns → erase_key k (entries ns) ≡ entries ns
unfolding erase_key
erase_key-NoKey k [] h = refl
erase_key-NoKey k (n ∷ ns) h = ground (arith, erase_key-NoKey k ns)

pub NoAddr-find : (k a b : ℕ) (ns : List Node) → NoAddr b ns → find k (entries ns) ≡ some a → a ≢ b
unfolding find
NoAddr-find k a b [] c h = cc
NoAddr-find k a b (n ∷ ns) c h = ground (arith, NoAddr-find k a b ns)

-- Erasing the node that the map names, and erasing the key from the map, are the same step.
pub entries-erase_node :
    (k a : ℕ) (ns : List Node)
    → Distinct ns
    → find k (entries ns) ≡ some a
    → erase_key k (entries ns) ≡ entries (erase_node a ns)
unfolding find erase_key erase_node
entries-erase_node k a [] d h = cc
entries-erase_node k a (n ∷ ns) d h =
    ground (arith, entries-erase_node k a ns, NoAddr-find k a n.addr ns)

module _ (a b : ℕ) where
  pub NoKey-erase_node : (ns : List Node) → NoKey b ns → NoKey b (erase_node a ns)
  unfolding erase_node
  NoKey-erase_node [] c = tt
  NoKey-erase_node (n ∷ ns) c = ground (arith, NoKey-erase_node ns)

  pub NoAddr-erase_node : (ns : List Node) → NoAddr b ns → NoAddr b (erase_node a ns)
  unfolding erase_node
  NoAddr-erase_node [] c = tt
  NoAddr-erase_node (n ∷ ns) c = ground (arith, NoAddr-erase_node ns)

  pub Below-erase_node : (ns : List Node) → Below b ns → Below b (erase_node a ns)
  unfolding erase_node
  Below-erase_node [] c = tt
  Below-erase_node (n ∷ ns) c = ground (arith, Below-erase_node ns)

pub Distinct-erase_node : (a : ℕ) (ns : List Node) → Distinct ns → Distinct (erase_node a ns)
unfolding erase_node
Distinct-erase_node a [] d = tt
Distinct-erase_node a (n ∷ ns) d =
    ground
      (arith, Distinct-erase_node a ns, NoKey-erase_node a n.key ns, NoAddr-erase_node a n.addr ns)

-- The erased node was the only one with its key.
pub NoKey-erased :
    (k a : ℕ) (ns : List Node)
    → Distinct ns
    → find k (entries ns) ≡ some a
    → NoKey k (erase_node a ns)
unfolding find erase_node
NoKey-erased k a [] d h = tt
NoKey-erased k a (n ∷ ns) d h = ground (arith, NoKey-erased k a ns, NoAddr-find k a n.addr ns)

pub length-erase_node :
    (k a : ℕ) (ns : List Node)
    → find k (entries ns) ≡ some a
    → length (erase_node a ns) + 1 ≤ length ns
unfolding find erase_node
length-erase_node k a [] h = cc
length-erase_node k a (n ∷ ns) h = ground (arith, length-erase_node k a ns)

pub NoAddr-of_Below : (b : ℕ) (ns : List Node) → Below b ns → NoAddr b ns
NoAddr-of_Below b [] h = tt
NoAddr-of_Below b (n ∷ ns) h = ground (arith, NoAddr-of_Below b ns)

pub Below-suc : (b : ℕ) (ns : List Node) → Below b ns → Below (b + 1) ns
Below-suc b [] h = tt
Below-suc b (n ∷ ns) h = ground (arith, Below-suc b ns)

-- The last node carries no key that the others lack.
NoKey-back :
    (k : ℕ) (last : Node) (ns : List Node) → NoKey k ns → back ns ≡ some last → k ≢ last.key
unfolding back
NoKey-back k last [] c h = cc
NoKey-back k last (n ∷ []) c h = ground arith
NoKey-back k last (n ∷ m ∷ ns) c h = NoKey-back k last (m ∷ ns) (c.1) h

pub entries-pop_back :
    (last : Node) (ns : List Node)
    → Distinct ns
    → back ns ≡ some last
    → erase_key last.key (entries ns) ≡ entries (pop_back ns)
unfolding back pop_back erase_key
entries-pop_back last [] d h = refl
entries-pop_back last (n ∷ []) d h = ground arith
entries-pop_back last (n ∷ m ∷ ns) d h =
    ground (arith, entries-pop_back last (m ∷ ns), NoKey-back n.key last (m ∷ ns))

module _ (b : ℕ) where
  pub NoKey-pop_back : (ns : List Node) → NoKey b ns → NoKey b (pop_back ns)
  unfolding pop_back
  NoKey-pop_back [] c = tt
  NoKey-pop_back (n ∷ []) c = tt
  NoKey-pop_back (n ∷ m ∷ ns) c = (c.0, NoKey-pop_back (m ∷ ns) (c.1))

  pub NoAddr-pop_back : (ns : List Node) → NoAddr b ns → NoAddr b (pop_back ns)
  unfolding pop_back
  NoAddr-pop_back [] c = tt
  NoAddr-pop_back (n ∷ []) c = tt
  NoAddr-pop_back (n ∷ m ∷ ns) c = (c.0, NoAddr-pop_back (m ∷ ns) (c.1))

  pub Below-pop_back : (ns : List Node) → Below b ns → Below b (pop_back ns)
  unfolding pop_back
  Below-pop_back [] c = tt
  Below-pop_back (n ∷ []) c = tt
  Below-pop_back (n ∷ m ∷ ns) c = (c.0, Below-pop_back (m ∷ ns) (c.1))

pub Distinct-pop_back : (ns : List Node) → Distinct ns → Distinct (pop_back ns)
unfolding pop_back
Distinct-pop_back [] d = tt
Distinct-pop_back (n ∷ []) d = tt
Distinct-pop_back (n ∷ m ∷ ns) d = (
  NoKey-pop_back n.key (m ∷ ns) d.0,
  NoAddr-pop_back n.addr (m ∷ ns) d.1,
  Distinct-pop_back (m ∷ ns) d.2,
)

pub length-pop_back : (ns : List Node) → 0 < length ns → length (pop_back ns) + 1 ≡ length ns
unfolding pop_back
length-pop_back [] h = absurd (omega arith)
length-pop_back (n ∷ []) h = omega arith
length-pop_back (n ∷ m ∷ ns) h = omega (arith, length-pop_back (m ∷ ns) (omega arith))

-- A list that is not empty has a last node.
pub back-some : (ns : List Node) → 0 < length ns → (last : Node) × (back ns ≡ some last)
unfolding back
back-some [] h = absurd (omega arith)
back-some (n ∷ []) h = (n, refl)
back-some (n ∷ m ∷ ns) h = back-some (m ∷ ns) (omega arith)

pub nonempty_of_back : (ns : List Node) {last : Node} → back ns ≡ some last → 0 < length ns
unfolding back
nonempty_of_back [] h = cc
nonempty_of_back (n ∷ ns) h = omega arith
