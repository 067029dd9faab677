-- ===== src/RoutingTable/Learning.antt =====
-- What a received packet teaches the routing table, and what findNextHop answers afterwards.
use radio_mesh.Base.{
  ℕ, zero, suc, ◌-◌, ◌<◌, ◌≡◌, ◌≢◌, refl, true, false, none, some, List, [], ◌∷◌, length, set,
  arith, ◌⊎◌, inl, inr, sub32, get_or-set_self, get_or-set_ne, Bool-cases, if◌then◌else◌, ltb,
  dec_lt, lt→ltb, sym, ap, ◌∙◌, Option-cases,
}
use radio_mesh.Base.Int.{ℤ}
use radio_mesh.Packet.{DeviceId, Packet, id_eq}
use radio_mesh.Packet.Ids.{id_eq_refl, eq_of_id_eq, id_eq_ne}
use radio_mesh.RoutingTable.{
  RouteEntry, route_at, no_route, find_route, find_inactive, find_empty_slot, update_route,
  find_next_hop, new_route, is_better_route, max_hops, route_timeout,
}
use radio_mesh.RoutingTable.Slots.{
  find_route-some, find_inactive-some, find_empty_slot-lt, update_route_new, update_route_known,
  update_route_far,
}

find_route-set_new :
    (dest : DeviceId) (routes : List RouteEntry) (i : ℕ) (e : RouteEntry)
    → find_route dest routes ≡ none
    → i < length routes
    → id_eq e.dest_id dest ≡ true
    → find_route dest (set routes i e) ≡ some i
unfolding find_route
find_route-set_new dest [] i e h fits m = elim fits [ ]
find_route-set_new dest (x ∷ routes) zero e h fits m = ground arith
find_route-set_new dest (x ∷ routes) (suc i) e h fits m =
    ground (arith, find_route-set_new dest routes i e)

find_route-set_known :
    (dest : DeviceId) (routes : List RouteEntry) (i : ℕ) (e : RouteEntry)
    → find_route dest routes ≡ some i
    → id_eq e.dest_id dest ≡ true
    → find_route dest (set routes i e) ≡ some i
unfolding find_route
find_route-set_known dest [] i e h m = h
find_route-set_known dest (x ∷ routes) zero e h m = ground arith
find_route-set_known dest (x ∷ routes) (suc i) e h m =
    ground (arith, find_route-set_known dest routes i e)

find_route-set_other :
    (dest : DeviceId) (routes : List RouteEntry) (i j : ℕ) (e : RouteEntry)
    → find_route dest routes ≡ some i
    → id_eq e.dest_id dest ≡ false
    → i ≢ j
    → find_route dest (set routes j e) ≡ some i
unfolding find_route
find_route-set_other dest [] i j e h m ne = h
find_route-set_other dest (x ∷ routes) zero zero e h m ne = absurd (ne refl)
find_route-set_other dest (x ∷ routes) (suc i) zero e h m ne = ground arith
find_route-set_other dest (x ∷ routes) zero (suc j) e h m ne = ground arith
find_route-set_other dest (x ∷ routes) (suc i) (suc j) e h m ne =
    ground (arith, find_route-set_other dest routes i j e)

-- The answer of findNextHop, given where the destination is.
pub find_next_hop-at :
    (dest : DeviceId) (now : ℕ) (routes : List RouteEntry) (i : ℕ)
    → find_route dest routes ≡ some i
    → (find_next_hop dest now routes).0 ≡ (
        if (route_at routes i).active
        then (if ltb (sub32 now (route_at routes i).last_seen) route_timeout
            then some (route_at routes i).next_hop_id
            else none)
        else none)
unfolding find_next_hop
find_next_hop-at dest now routes i h = ground arith

find_next_hop-none :
    (dest : DeviceId) (now : ℕ) (routes : List RouteEntry)
    → find_route dest routes ≡ none
    → (find_next_hop dest now routes).0 ≡ none
unfolding find_next_hop
find_next_hop-none dest now routes h = ground arith

-- The packet changes the table: its source is unknown, or it offers a better route.
abbrev pub Learns : Packet → ℤ → ℕ → List RouteEntry → Type 0
Learns p rssi now routes =
    (find_route p.source_dev_id routes ≡ none)
    ⊎ ((i : ℕ) × (find_route p.source_dev_id routes ≡ some i)
        × (is_better_route (new_route p rssi now) (route_at routes i) ≡ true))

answer-set :
    (dest : DeviceId) (later : ℕ) (routes : List RouteEntry) (i : ℕ) (e : RouteEntry)
    → find_route dest (set routes i e) ≡ some i
    → i < length routes
    → e.active ≡ true
    → sub32 later e.last_seen < route_timeout
    → (find_next_hop dest later (set routes i e)).0 ≡ some e.next_hop_id
answer-set dest later routes i e found fits active age = rw (
  find_next_hop-at dest later (set routes i e) i found,
  get_or-set_self no_route routes i e fits,
  active,
  lt→ltb (sub32 later e.last_seen) route_timeout age,
)

-- When a packet that is not near the hop limit teaches the table its source, findNextHop answers with
-- the packet's last hop until the timeout.
pub find_next_hop-update_route :
    (p : Packet) (rssi : ℤ) (now later : ℕ) (routes : List RouteEntry)
    → 0 < length routes
    → p.hop_count < max_hops - 1
    → Learns p rssi now routes
    → sub32 later now < route_timeout
    → (find_next_hop p.source_dev_id later (update_route p rssi now routes)).0 ≡ some p.last_hop_id
find_next_hop-update_route p rssi now later routes size near (inl new) age =
    let slot = find_empty_slot now routes in
    let fits = find_empty_slot-lt now routes size in
    rw (update_route_new p rssi now routes near new) (
      answer-set p.source_dev_id later routes slot (new_route p rssi now)
        (find_route-set_new p.source_dev_id routes slot (new_route p rssi now) new fits
          (id_eq_refl p.source_dev_id))
        fits refl age)
find_next_hop-update_route p rssi now later routes size near (inr (i, known, better)) age =
    rw (update_route_known p rssi now routes near i known, better)
      (answer-set p.source_dev_id later routes i (new_route p rssi now)
        (find_route-set_known p.source_dev_id routes i (new_route p rssi now) known
          (id_eq_refl p.source_dev_id))
        (find_route-some p.source_dev_id routes i known).0 refl age)

answer-set_other :
    (dest : DeviceId) (later : ℕ) (routes : List RouteEntry) (i k : ℕ) (e : RouteEntry)
    → find_route dest routes ≡ some i
    → id_eq e.dest_id dest ≡ false
    → k ≢ i
    → (find_next_hop dest later (set routes k e)).0 ≡ (find_next_hop dest later routes).0
answer-set_other dest later routes i k e found other ne = rw (
  find_next_hop-at dest later (set routes k e) i
      (find_route-set_other dest routes i k e found other (λ q. ne (sym q))),
  find_next_hop-at dest later routes i found,
  get_or-set_ne no_route routes k i e ne,
)

inactive_slot_ne :
    (routes : List RouteEntry) (i j : ℕ)
    → (route_at routes i).active ≡ true
    → find_inactive routes ≡ some j
    → j ≢ i
inactive_slot_ne routes i j active free e =
    cc (active, ap (λ k. (route_at routes k).active) e, (find_inactive-some routes j free).1)

find_empty_slot_free :
    (now j : ℕ) (routes : List RouteEntry)
    → find_inactive routes ≡ some j
    → find_empty_slot now routes ≡ j
unfolding find_empty_slot
find_empty_slot_free now j routes h = ground arith

-- While the table has an inactive slot, a packet leaves the answer for every other destination with
-- an active route as it was.
pub find_next_hop-update_route_ne :
    (p : Packet) (rssi : ℤ) (now later : ℕ) (routes : List RouteEntry) (dest : DeviceId) (i j : ℕ)
    → p.source_dev_id ≢ dest
    → find_route dest routes ≡ some i
    → (route_at routes i).active ≡ true
    → find_inactive routes ≡ some j
    → (find_next_hop dest later (update_route p rssi now routes)).0
      ≡ (find_next_hop dest later routes).0
find_next_hop-update_route_ne p rssi now later routes dest i j ne found active free =
    elim (dec_lt p.hop_count (max_hops - 1)) [
      | no far ↦ rw (update_route_far p rssi now routes (omega arith))
      | yes near ↦ elim (Option-cases (find_route p.source_dev_id routes)) [
        | inl new ↦
            rw (update_route_new p rssi now routes near new, find_empty_slot_free now j routes free)
              (answer-set_other dest later routes i j (new_route p rssi now) found other
                (inactive_slot_ne routes i j active free))
        | inr (k, known) ↦
            rw (update_route_known p rssi now routes near k known)
              (elim (Bool-cases (is_better_route (new_route p rssi now) (route_at routes k))) [
                | inl better ↦ rw better (
                    answer-set_other dest later routes i k (new_route p rssi now) found other
                      (λ e. ne (same_slot k known e)))
                | inr worse ↦ rw worse
              ])
      ]
    ]
  where
    other : id_eq p.source_dev_id dest ≡ false
    other = id_eq_ne p.source_dev_id dest ne

    same_slot :
        (k : ℕ) → find_route p.source_dev_id routes ≡ some k → k ≡ i → p.source_dev_id ≡ dest
    same_slot k known e =
        sym (eq_of_id_eq _ _ (find_route-some p.source_dev_id routes k known).1)
        ∙ ap (λ s. (route_at routes s).dest_id) e
        ∙ eq_of_id_eq _ _ (find_route-some dest routes i found).1

-- Every answer of findNextHop is the next hop of an active route to the destination that was seen
-- within the timeout.
pub find_next_hop_sound :
    (dest hop : DeviceId) (now : ℕ) (routes : List RouteEntry)
    → (find_next_hop dest now routes).0 ≡ some hop
    → (i : ℕ) × (i < length routes)
      × ((route_at routes i).dest_id ≡ dest)
      × ((route_at routes i).next_hop_id ≡ hop)
      × ((route_at routes i).active ≡ true)
      × (sub32 now (route_at routes i).last_seen < route_timeout)
find_next_hop_sound dest hop now routes h = elim (Option-cases (find_route dest routes)) [
  | inl missing ↦ absurd (not_found missing)
  | inr (i, found) ↦
      let answer = find_next_hop-at dest now routes i found in
      (
        i,
        (find_route-some dest routes i found).0,
        eq_of_id_eq _ _ (find_route-some dest routes i found).1,
        ground arith,
        ground arith,
        ground arith,
      )
]
  where
    not_found : find_route dest routes ≡ none → ⊥
    not_found m = cc (h, find_next_hop-none dest now routes m)
