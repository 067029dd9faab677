-- ===== src/Tests/Routing.antt =====
-- The routing table at concrete inputs.
use radio_mesh.Base.{ℕ, List, [], ◌∷◌, length, ◌<◌, ◌≡◌, refl, arith, true, some, none, inl, sub32}
use radio_mesh.Base.Int.{pos}
use radio_mesh.RoutingTable.{
  RouteEntry, no_route, find_next_hop, update_route, find_route, route_at, route_timeout,
}
use radio_mesh.RoutingTable.Learning.{find_next_hop-update_route, find_next_hop_sound}
use radio_mesh.RoutingTable.Expiry.{Heard, hear_all, find_next_hop-hear_all}
use radio_mesh.Tests.Samples.{reading, id_one, id_two, id_packet}

abbrev empty_table : List RouteEntry
empty_table = no_route ∷ no_route ∷ no_route ∷ []

-- A route to the second device through the one whose id is `id_packet`.
abbrev table : List RouteEntry
table =
    record {
      dest_id = id_two;
      next_hop_id = id_packet;
      hops = 2;
      rssi = pos 50;
      last_seen = 1000;
      active = true;
    }
    ∷ no_route
    ∷ no_route
    ∷ []

find_next_hop-update_route_example :
    (find_next_hop id_one 5000 (update_route reading (pos 40) 1000 empty_table)).0 ≡ some id_one
unfolding find_route
find_next_hop-update_route_example =
    find_next_hop-update_route reading (pos 40) 1000 5000 empty_table (omega arith) (omega arith)
      (inl refl) (omega arith)

find_next_hop_sound_example :
    (i : ℕ) × (i < length table)
    × ((route_at table i).dest_id ≡ id_two)
    × ((route_at table i).next_hop_id ≡ id_packet)
    × ((route_at table i).active ≡ true)
    × (sub32 5000 (route_at table i).last_seen < route_timeout)
unfolding find_next_hop find_route
find_next_hop_sound_example = find_next_hop_sound id_two id_packet 5000 table refl

abbrev confirmation : Heard
confirmation = record {
  packet = record reading { source_dev_id = id_two; hop_count = 3 };
  rssi = pos 55;
  now = 200000;
}

find_next_hop-hear_all_example :
    (find_next_hop id_two 400000 (hear_all (confirmation ∷ []) table)).0 ≡ none
unfolding find_route
find_next_hop-hear_all_example =
    find_next_hop-hear_all id_two 0 400000 table (confirmation ∷ []) refl
      (refl, omega arith, omega arith, tt) (omega arith)
