-- ===== src/RoutingTable/Expiry.antt =====
-- The timeout of a route: only a better route renews it.
use radio_mesh.Base.{
  ℕ, ◌-◌, ◌≤◌, ◌≡◌, refl, false, none, some, List, [], ◌∷◌, arith, sub32, dec_lt, ltb-false,
}
use radio_mesh.Base.Int.{ℤ, ◌+ℤ◌, ◌≤ℤ◌}
use radio_mesh.Packet.{DeviceId, Packet}
use radio_mesh.RoutingTable.{
  RouteEntry, route_at, find_route, update_route, find_next_hop, new_route, is_better_route,
  max_hops, route_timeout, rssi_upper_threshold,
}
use radio_mesh.RoutingTable.Slots.{update_route_known, update_route_far}
use radio_mesh.RoutingTable.Learning.{find_next_hop-at}

-- A packet as it is handed to updateRoute.
pub record Heard : Type 0 where
  pub packet : Packet
  pub rssi : ℤ
  pub now : ℕ

unfoldable pub hear_all : List Heard → List RouteEntry → List RouteEntry
hear_all [] routes = routes
hear_all (h ∷ more) routes = hear_all more (update_route h.packet h.rssi h.now routes)

-- The packets come from `dest`, by a signal at most the upper threshold above that of the entry, and
-- over no fewer hops.
abbrev pub ConfirmOnly : DeviceId → RouteEntry → List Heard → Type 0
ConfirmOnly dest e [] = Unit
ConfirmOnly dest e (h ∷ more) =
    (h.packet.source_dev_id ≡ dest)
    × (h.rssi ≤ℤ e.rssi +ℤ rssi_upper_threshold)
    × (e.hops ≤ h.packet.hop_count)
    × ConfirmOnly dest e more

not_better :
    (packet : Packet) (rssi : ℤ) (now : ℕ) (e : RouteEntry)
    → rssi ≤ℤ e.rssi +ℤ rssi_upper_threshold
    → e.hops ≤ packet.hop_count
    → is_better_route (new_route packet rssi now) e ≡ false
unfolding is_better_route
not_better packet rssi now e weak far =
    rw (ltb-false _ _ weak, ltb-false packet.hop_count e.hops far) (ground arith)

update_route_same :
    (packet : Packet) (rssi : ℤ) (now i : ℕ) (routes : List RouteEntry)
    → find_route packet.source_dev_id routes ≡ some i
    → rssi ≤ℤ (route_at routes i).rssi +ℤ rssi_upper_threshold
    → (route_at routes i).hops ≤ packet.hop_count
    → update_route packet rssi now routes ≡ routes
update_route_same packet rssi now i routes found weak far =
    elim (dec_lt packet.hop_count (max_hops - 1)) [
      | no limit ↦ update_route_far packet rssi now routes (omega arith)
      | yes near ↦ rw (
        update_route_known packet rssi now routes near i found,
        not_better packet rssi now (route_at routes i) weak far,
      )
    ]

hear_all_same :
    (dest : DeviceId) (i : ℕ) (routes : List RouteEntry) (heard : List Heard)
    → find_route dest routes ≡ some i
    → ConfirmOnly dest (route_at routes i) heard
    → hear_all heard routes ≡ routes
unfolding hear_all
hear_all_same dest i routes [] found c = refl
hear_all_same dest i routes (h ∷ more) found c =
    rw (update_route_same h.packet h.rssi h.now i routes (rw c.0 found) c.1 c.2)
      (hear_all_same dest i routes more found c.3)

-- However many packets from the destination confirm a route, without a signal above the upper
-- threshold and without a shorter way, findNextHop has no answer once the timeout has passed since
-- the route was stored.
pub find_next_hop-hear_all :
    (dest : DeviceId) (i later : ℕ) (routes : List RouteEntry) (heard : List Heard)
    → find_route dest routes ≡ some i
    → ConfirmOnly dest (route_at routes i) heard
    → route_timeout ≤ sub32 later (route_at routes i).last_seen
    → (find_next_hop dest later (hear_all heard routes)).0 ≡ none
find_next_hop-hear_all dest i later routes heard found c old =
    rw
      (
        hear_all_same dest i routes heard found c,
        find_next_hop-at dest later routes i found,
        ltb-false (sub32 later (route_at routes i).last_seen) route_timeout old,
      )
      (ground arith)
