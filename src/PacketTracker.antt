-- ===== src/PacketTracker.antt =====
-- core/protocol/inc/routing/PacketTracker.h: the LRU cache of the packets that were seen. A list node
-- has an address of its own, and the map holds addresses, as the `std::unordered_map` of iterators
-- does.
pub mod Nodes
pub mod Invariant
pub mod Refine
pub mod Recency
use radio_mesh.Base.{
  ℕ, zero, suc, ◌+◌, Bool, Option, none, some, List, [], ◌∷◌, length, ◌==◌, if◌then◌else◌, map,
}

pub record Node : Type 0 where
  pub addr : ℕ
  pub key : ℕ
  pub value : ℕ

-- `next_addr` is the address that the next node gets.
pub record PacketTracker : Type 0 where
  pub lru_list : List Node
  pub index : List (ℕ × ℕ)
  pub capacity : ℕ
  pub next_addr : ℕ

-- PacketTracker(uint32_t capacity)
abbrev pub new_tracker : ℕ → PacketTracker
new_tracker capacity = record { lru_list = []; index = []; capacity = capacity; next_addr = 0 }

-- map.find(key)
unfoldable pub find : ℕ → List (ℕ × ℕ) → Option ℕ
find key [] = none
find key ((k, a) ∷ m) = if k == key then some a else find key m

-- map.erase(key)
unfoldable pub erase_key : ℕ → List (ℕ × ℕ) → List (ℕ × ℕ)
erase_key key [] = []
erase_key key ((k, a) ∷ m) = if k == key then m else (k, a) ∷ erase_key key m

-- lruList.erase(iterator)
unfoldable pub erase_node : ℕ → List Node → List Node
erase_node a [] = []
erase_node a (n ∷ ns) = if n.addr == a then ns else n ∷ erase_node a ns

-- `*iterator`; an address that is not in the list is a dangling iterator.
unfoldable pub deref : ℕ → List Node → Option Node
deref a [] = none
deref a (n ∷ ns) = if n.addr == a then some n else deref a ns

-- lruList.back()
unfoldable pub back : List Node → Option Node
back [] = none
back (n ∷ []) = some n
back (n ∷ m ∷ ns) = back (m ∷ ns)

-- lruList.pop_back()
unfoldable pub pop_back : List Node → List Node
pop_back [] = []
pop_back (n ∷ []) = []
pop_back (n ∷ m ∷ ns) = n ∷ pop_back (m ∷ ns)

-- lruList.push_front({key, value}); map[key] = lruList.begin()
unfoldable pub push_front : ℕ → ℕ → PacketTracker → PacketTracker
unfolding erase_key
push_front key value t = record t {
  lru_list = record { addr = t.next_addr; key = key; value = value } ∷ t.lru_list;
  index = (key, t.next_addr) ∷ erase_key key t.index;
  next_addr = t.next_addr + 1;
}

-- moveToFront, for a key that the map holds at `a`
unfoldable pub move_to_front : ℕ → ℕ → ℕ → PacketTracker → PacketTracker
unfolding push_front erase_node
move_to_front a key value t = push_front key value (record t { lru_list = erase_node a t.lru_list })

-- The eviction in addEntry: at capacity, the node at the back leaves the map and the list. On an empty
-- list (a capacity of 0) `back` is undefined behaviour, and nothing is evicted here.
unfoldable pub evict : PacketTracker → PacketTracker
unfolding back pop_back erase_key
evict t =
    if length t.lru_list == t.capacity
    then elim (back t.lru_list) [
      | none ↦ t
      | some last ↦ record t { index = erase_key last.key t.index; lru_list = pop_back t.lru_list }
    ]
    else t

-- addEntry
unfoldable pub add_entry : ℕ → ℕ → PacketTracker → PacketTracker
unfolding find move_to_front evict push_front
add_entry key value t = elim (find key t.index) [
  | some a ↦ move_to_front a key value t
  | none ↦ push_front key value (evict t)
]

-- removeEntry
unfoldable pub remove_entry : ℕ → PacketTracker → PacketTracker
unfolding find erase_node erase_key
remove_entry key t = elim (find key t.index) [
  | some a ↦ record t { lru_list = erase_node a t.lru_list; index = erase_key key t.index }
  | none ↦ t
]

-- clearMap
unfoldable pub clear_map : PacketTracker → PacketTracker
clear_map t = record t { lru_list = []; index = [] }

-- keyExists
unfoldable pub key_exists : ℕ → PacketTracker → Bool
unfolding find
key_exists key t = elim (find key t.index) [ some a ↦ Bool.true | none ↦ Bool.false ]

-- size, which asks the map
unfoldable pub size : PacketTracker → ℕ
size t = length t.index

-- The value behind an iterator of the map; a dangling one would be undefined behaviour.
abbrev pub value_at : Option Node → ℕ → ℕ
value_at none default = default
value_at (some n) default = n.value

-- findOrDefault: a hit moves the entry to the front, with the value that it has.
unfoldable pub find_or_default : ℕ → ℕ → PacketTracker → ℕ × PacketTracker
unfolding find deref move_to_front
find_or_default key default t = elim (find key t.index) [
  | some a ↦ (
    value_at (deref a t.lru_list) default,
    move_to_front a key (value_at (deref a t.lru_list) default) t,
  )
  | none ↦ (default, t)
]
