-- ===== src/PacketTracker/Invariant.antt =====
-- The structural invariant of the packet tracker (the map indexes the list, and the list fits its
-- capacity), and that every operation keeps it.
use radio_mesh.Base.{
  ℕ, ◌<◌, ◌≡◌, refl, ap, ◌∙◌, none, some, ◌∷◌, length, arith, Bool-cases, Option-cases, inl, inr,
  ◌==◌,
}
use radio_mesh.PacketTracker.{
  Node, PacketTracker, find, erase_key, erase_node, deref, back, pop_back, push_front,
  move_to_front, evict, add_entry, remove_entry, clear_map, find_or_default, new_tracker, value_at,
}
use radio_mesh.PacketTracker.Nodes.{
  entries, NoKey, IsLinked, NoKey-of_find, erase_key-NoKey, entries-erase_node, NoKey-erased,
  length-erase_node, Distinct-erase_node, Below-erase_node, NoAddr-of_Below, Below-suc,
  entries-pop_back, NoKey-pop_back, Distinct-pop_back, Below-pop_back, length-pop_back, back-some,
  nonempty_of_back, Distinct, Below,
}

pub new_tracker-IsLinked : (capacity : ℕ) → 0 < capacity → IsLinked (new_tracker capacity)
new_tracker-IsLinked capacity h = ground arith

-- There is room at the front for a node with the key.
record IsReady (key : ℕ) (t : PacketTracker) : Type 0 where
  linked : erase_key key t.index ≡ entries t.lru_list
  no_key : NoKey key t.lru_list
  distinct : Distinct t.lru_list
  fresh : Below t.next_addr t.lru_list
  room : length t.lru_list < t.capacity

push_front-IsLinked :
    (key value : ℕ) (t : PacketTracker) → IsReady key t → IsLinked (push_front key value t)
unfolding push_front
push_front-IsLinked key value t r = record {
  linked = ap (λ m. (key, t.next_addr) ∷ m) r.linked;
  distinct = (r.no_key, NoAddr-of_Below t.next_addr t.lru_list r.fresh, r.distinct);
  fresh = (omega arith, Below-suc t.next_addr t.lru_list r.fresh);
  bounded = omega (arith, r.room);
  roomy = omega (arith, r.room);
}

pub move_to_front-IsLinked :
    (a key value : ℕ) (t : PacketTracker)
    → find key t.index ≡ some a
    → IsLinked t
    → IsLinked (move_to_front a key value t)
unfolding move_to_front
move_to_front-IsLinked a key value t h l =
    push_front-IsLinked key value (record t { lru_list = erase_node a t.lru_list })
      (record {
        linked = ap (erase_key key) l.linked ∙ entries-erase_node key a t.lru_list l.distinct found;
        no_key = NoKey-erased key a t.lru_list l.distinct found;
        distinct = Distinct-erase_node a t.lru_list l.distinct;
        fresh = Below-erase_node a t.next_addr t.lru_list l.fresh;
        room = omega (arith, l.bounded, length-erase_node key a t.lru_list found);
      })
  where
    found : find key (entries t.lru_list) ≡ some a
    found = rw l.linked at h

IsReady-of_back :
    (key : ℕ) (last : Node) (t : PacketTracker)
    → IsLinked t
    → NoKey key t.lru_list
    → back t.lru_list ≡ some last
    → IsReady key (record t { index = erase_key last.key t.index; lru_list = pop_back t.lru_list })
IsReady-of_back key last t l c b = record {
  linked =
      ap (λ m. erase_key key (erase_key last.key m)) l.linked
      ∙ ap (erase_key key) (entries-pop_back last t.lru_list l.distinct b)
      ∙ erase_key-NoKey key (pop_back t.lru_list) (NoKey-pop_back key t.lru_list c);
  no_key = NoKey-pop_back key t.lru_list c;
  distinct = Distinct-pop_back t.lru_list l.distinct;
  fresh = Below-pop_back t.next_addr t.lru_list l.fresh;
  room =
      omega (arith, l.bounded, l.roomy, length-pop_back t.lru_list (nonempty_of_back t.lru_list b));
}

evict-IsReady :
    (key : ℕ) (t : PacketTracker) → find key t.index ≡ none → IsLinked t → IsReady key (evict t)
unfolding evict
evict-IsReady key t h l = elim (Bool-cases (length t.lru_list == t.capacity)) [
  | inl full ↦
      let (last, b) = back-some t.lru_list (ground (arith, l.roomy)) in
      rw (full, b) (IsReady-of_back key last t l no_key b)
  | inr room ↦ rw room (record {
    linked = ap (erase_key key) l.linked ∙ erase_key-NoKey key t.lru_list no_key;
    no_key = no_key;
    distinct = l.distinct;
    fresh = l.fresh;
    room = ground (arith, l.bounded);
  })
]
  where
    no_key : NoKey key t.lru_list
    no_key = NoKey-of_find key t.lru_list (rw l.linked at h)

-- addEntry keeps the map and the list linked: the map holds the address of the one node of each key, in
-- the list's order, and the list holds at most `capacity` nodes.
pub add_entry-IsLinked :
    (key value : ℕ) (t : PacketTracker) → IsLinked t → IsLinked (add_entry key value t)
unfolding add_entry
add_entry-IsLinked key value t l = elim (Option-cases (find key t.index)) [
  | inl new ↦
      rw (new, add_entry) (push_front-IsLinked key value (evict t) (evict-IsReady key t new l))
  | inr (a, old) ↦ rw (old, add_entry) (move_to_front-IsLinked a key value t old l)
]

pub find_or_default-IsLinked :
    (key default : ℕ) (t : PacketTracker) → IsLinked t → IsLinked (find_or_default key default t).1
unfolding find_or_default
find_or_default-IsLinked key default t l = elim (Option-cases (find key t.index)) [
  | inl new ↦ rw (new, find_or_default) l
  | inr (a, old) ↦
      rw (old, find_or_default)
        (move_to_front-IsLinked a key (value_at (deref a t.lru_list) default) t old l)
]

pub remove_entry-IsLinked :
    (key : ℕ) (t : PacketTracker) → IsLinked t → IsLinked (remove_entry key t)
unfolding remove_entry
remove_entry-IsLinked key t l = elim (Option-cases (find key t.index)) [
  | inl new ↦ rw (new, remove_entry) l
  | inr (a, old) ↦
      let found : find key (entries t.lru_list) ≡ some a = rw l.linked at old in
      rw (old, remove_entry)
        (record {
          linked =
              ap (erase_key key) l.linked ∙ entries-erase_node key a t.lru_list l.distinct found;
          distinct = Distinct-erase_node a t.lru_list l.distinct;
          fresh = Below-erase_node a t.next_addr t.lru_list l.fresh;
          bounded = omega (arith, l.bounded, length-erase_node key a t.lru_list found);
          roomy = l.roomy;
        })
]

pub clear_map-IsLinked : (t : PacketTracker) → IsLinked t → IsLinked (clear_map t)
unfolding clear_map
clear_map-IsLinked t l = record {
  linked = refl;
  distinct = tt;
  fresh = tt;
  bounded = omega arith;
  roomy = l.roomy;
}
