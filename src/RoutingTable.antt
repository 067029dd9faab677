-- ===== src/RoutingTable.antt =====
-- core/protocol/inc/routing/RoutingTypes.h, RoutingTable.h and src/routing/RoutingTable.cpp: the
-- routes that received packets teach. The array of MAX_ROUTES entries is a list, and `millis()` is an
-- argument `now`.
pub mod Slots
pub mod Learning
pub mod Expiry
use radio_mesh.Base.{
  ℕ, zero, suc, ◌+◌, ◌-◌, Bool, true, false, not, ◌&&◌, Option, none, some, List, [], ◌∷◌, length,
  get_or, set, replicate, map, ltb, leb, ◌==◌, if◌then◌else◌, sub32,
}
use radio_mesh.Base.Int.{ℤ, pos, ◌+ℤ◌, ◌-ℤ◌, ltb_ℤ}
use radio_mesh.Packet.{DeviceId, Packet, id_eq, zero_id}

pub record RouteEntry : Type 0 where
  pub dest_id : DeviceId
  pub next_hop_id : DeviceId
  pub hops : ℕ
  pub rssi : ℤ
  pub last_seen : ℕ
  pub active : Bool

abbrev pub max_routes : ℕ
max_routes = 10

abbrev pub route_timeout : ℕ
route_timeout = 300000

abbrev pub max_hops : ℕ
max_hops = 7

abbrev pub rssi_upper_threshold : ℤ
rssi_upper_threshold = pos 12

abbrev pub rssi_lower_threshold : ℤ
rssi_lower_threshold = pos 6

-- The constructor sets `active` of each entry and leaves the rest as the memory was.
unfoldable pub initial_routes : List RouteEntry → List RouteEntry
initial_routes memory = map {A = RouteEntry} (λ e. record e { active = false }) memory

-- What an index past the array would give; no operation uses one.
abbrev pub no_route : RouteEntry
no_route = record {
  dest_id = zero_id;
  next_hop_id = zero_id;
  hops = 0;
  rssi = pos 0;
  last_seen = 0;
  active = false;
}

abbrev pub route_at : List RouteEntry → ℕ → RouteEntry
route_at routes i = get_or routes i no_route

-- findRoute: the first entry with the destination, active or not; NOT_FOUND is `none`.
unfoldable pub find_route : DeviceId → List RouteEntry → Option ℕ
find_route dest [] = none
find_route dest (e ∷ routes) =
    let later = find_route dest routes in
    if id_eq e.dest_id dest then some 0 else elim later [ none ↦ none | some i ↦ some (suc i) ]

-- The first loop of findEmptySlot.
unfoldable pub find_inactive : List RouteEntry → Option ℕ
find_inactive [] = none
find_inactive (e ∷ routes) =
    let later = find_inactive routes in
    if not e.active then some 0 else elim later [ none ↦ none | some i ↦ some (suc i) ]

-- The second loop of findEmptySlot, at index `i`.
unfoldable pub oldest_loop : ℕ → ℕ → ℕ → List RouteEntry → ℕ
oldest_loop i oldest_time oldest_index [] = oldest_index
oldest_loop i oldest_time oldest_index (e ∷ routes) =
    oldest_loop (suc i) (if ltb e.last_seen oldest_time then e.last_seen else oldest_time)
      (if ltb e.last_seen oldest_time then i else oldest_index) routes

-- findEmptySlot
unfoldable pub find_empty_slot : ℕ → List RouteEntry → ℕ
unfolding find_inactive oldest_loop
find_empty_slot now routes = elim (find_inactive routes) [
  | some i ↦ i
  | none ↦ oldest_loop 0 now 0 routes
]

-- isBetterRoute
unfoldable pub is_better_route : RouteEntry → RouteEntry → Bool
is_better_route new_route existing_route =
    if ltb_ℤ (existing_route.rssi +ℤ rssi_upper_threshold) new_route.rssi
    then true
    else if ltb_ℤ new_route.rssi (existing_route.rssi -ℤ rssi_lower_threshold)
    then false
    else ltb new_route.hops existing_route.hops

abbrev pub new_route : Packet → ℤ → ℕ → RouteEntry
new_route packet rssi now = record {
  dest_id = packet.source_dev_id;
  next_hop_id = packet.last_hop_id;
  hops = packet.hop_count;
  rssi = rssi;
  last_seen = now;
  active = true;
}

-- updateRoute
unfoldable pub update_route : Packet → ℤ → ℕ → List RouteEntry → List RouteEntry
unfolding is_better_route
update_route packet rssi now routes =
    if leb (max_hops - 1) packet.hop_count
    then routes
    else elim (find_route packet.source_dev_id routes) [
      | some i ↦
          if is_better_route (new_route packet rssi now) (route_at routes i)
          then set routes i (new_route packet rssi now)
          else routes
      | none ↦ set routes (find_empty_slot now routes) (new_route packet rssi now)
    ]

-- findNextHop: the next hop, if any, and the table, where an expired entry is no longer active.
unfoldable pub find_next_hop : DeviceId → ℕ → List RouteEntry → Option DeviceId × List RouteEntry
find_next_hop dest now routes = elim (find_route dest routes) [
  | none ↦ (none, routes)
  | some i ↦
      if (route_at routes i).active
      then (if ltb (sub32 now (route_at routes i).last_seen) route_timeout
          then (some (route_at routes i).next_hop_id, routes)
          else (none, set routes i (record (route_at routes i) { active = false })))
      else (none, routes)
]
