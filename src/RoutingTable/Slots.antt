-- ===== src/RoutingTable/Slots.antt =====
-- The slots of the routing table: findRoute and findEmptySlot return indices of the array, and the
-- array keeps its length.
use radio_mesh.Base.{
  ℕ, zero, suc, ◌+◌, ◌≤◌, ◌<◌, ◌≡◌, ap, true, false, none, some, List, [], ◌∷◌, length, set, arith,
  ltb, Bool-cases, Option-cases, inl, inr, length-set, if◌then◌else◌, ◌-◌, dec_lt,
}
use radio_mesh.Packet.{DeviceId, Packet, id_eq}
use radio_mesh.Base.Int.{ℤ}
use radio_mesh.RoutingTable.{
  RouteEntry, route_at, find_route, find_inactive, oldest_loop, find_empty_slot, update_route,
  find_next_hop, new_route, is_better_route, max_hops,
}

-- A route that is found is in the array and has the destination; an earlier one does not.
pub find_route-some :
    (dest : DeviceId) (routes : List RouteEntry) (i : ℕ)
    → find_route dest routes ≡ some i
    → (i < length routes) × (id_eq (route_at routes i).dest_id dest ≡ true)
unfolding find_route
find_route-some dest [] i h = cc
find_route-some dest (e ∷ routes) zero h = ground arith
find_route-some dest (e ∷ routes) (suc i) h = ground (arith, find_route-some dest routes i)

pub find_inactive-some :
    (routes : List RouteEntry) (i : ℕ)
    → find_inactive routes ≡ some i
    → (i < length routes) × ((route_at routes i).active ≡ false)
unfolding find_inactive
find_inactive-some [] i h = cc
find_inactive-some (e ∷ routes) zero h = ground arith
find_inactive-some (e ∷ routes) (suc i) h = ground (arith, find_inactive-some routes i)

-- The loop ends at the index it came with, or at one of the entries that it passes.
oldest_loop_lt :
    (i time index bound : ℕ) (routes : List RouteEntry)
    → index < bound
    → i + length routes ≤ bound
    → oldest_loop i time index routes < bound
unfolding oldest_loop
oldest_loop_lt i time index bound [] h fits = h
oldest_loop_lt i time index bound (e ∷ routes) h fits = elim (Bool-cases (ltb e.last_seen time)) [
  | inl older ↦
      rw older (oldest_loop_lt (suc i) e.last_seen i bound routes (omega arith) (omega arith))
  | inr newer ↦ rw newer (oldest_loop_lt (suc i) time index bound routes h (omega arith))
]

pub find_empty_slot-lt :
    (now : ℕ) (routes : List RouteEntry)
    → 0 < length routes
    → find_empty_slot now routes < length routes
unfolding find_empty_slot
find_empty_slot-lt now routes h = elim (Option-cases (find_inactive routes)) [
  | inl full ↦
      rw (full, find_empty_slot) (oldest_loop_lt 0 now 0 (length routes) routes h (omega arith))
  | inr (i, e) ↦ rw (e, find_empty_slot) (find_inactive-some routes i e).0
]

-- What updateRoute does, branch by branch.
module _ (p : Packet) (rssi : ℤ) (now : ℕ) (routes : List RouteEntry) where
  pub update_route_far : max_hops - 1 ≤ p.hop_count → update_route p rssi now routes ≡ routes
  unfolding update_route
  update_route_far h = ground arith

  module _ (near : p.hop_count < max_hops - 1) where
    pub update_route_new :
        find_route p.source_dev_id routes ≡ none
        → update_route p rssi now routes
          ≡ set routes (find_empty_slot now routes) (new_route p rssi now)
    unfolding update_route
    update_route_new h = ground arith

    pub update_route_known :
        (i : ℕ)
        → find_route p.source_dev_id routes ≡ some i
        → update_route p rssi now routes ≡ (
            if is_better_route (new_route p rssi now) (route_at routes i)
            then set routes i (new_route p rssi now)
            else routes)
    unfolding update_route
    update_route_known i h = ground arith

-- updateRoute keeps the array at its length.
pub length-update_route :
    (p : Packet) (rssi : ℤ) (now : ℕ) (routes : List RouteEntry)
    → length (update_route p rssi now routes) ≡ length routes
length-update_route p rssi now routes = elim (dec_lt p.hop_count (max_hops - 1)) [
  | yes near ↦ elim (Option-cases (find_route p.source_dev_id routes)) [
    | inl new ↦
        rw (update_route_new p rssi now routes near new)
          (length-set routes (find_empty_slot now routes) (new_route p rssi now))
    | inr (i, known) ↦
        rw (update_route_known p rssi now routes near i known)
          (ground (arith, length-set routes i (new_route p rssi now)))
  ]
  | no far ↦ ap length (update_route_far p rssi now routes (omega arith))
]

-- findNextHop keeps the array at its length.
pub length-find_next_hop :
    (dest : DeviceId) (now : ℕ) (routes : List RouteEntry)
    → length (find_next_hop dest now routes).1 ≡ length routes
unfolding find_next_hop
length-find_next_hop dest now routes = elim (Option-cases (find_route dest routes)) [
  | inl new ↦ rw (new, find_next_hop)
  | inr (i, known) ↦
      rw (known, find_next_hop)
        (ground (arith, length-set routes i (record (route_at routes i) { active = false })))
]
