-- ===== src/Tests/Wire.antt =====
-- The packet format, the numbers and the tracker at concrete inputs.
use radio_mesh.Base.{ℕ, List, [], ◌∷◌, ◌≡◌, arith, some}
use radio_mesh.Packet.{InRange, to_byte_buffer, from_byte_buffer}
use radio_mesh.Packet.Wire.{from_byte_buffer-to_byte_buffer}
use radio_mesh.Packet.Mic.{CarriesMic}
use radio_mesh.PacketTracker.{PacketTracker, new_tracker, add_entry, find_or_default}
use radio_mesh.PacketTracker.Nodes.{IsLinked}
use radio_mesh.PacketTracker.Invariant.{new_tracker-IsLinked, add_entry-IsLinked}
use radio_mesh.PacketTracker.Refine.{contents, add_pair, add_entry-refines}
use radio_mesh.PacketTracker.Recency.{add_all, find_or_default-add_all}
use radio_mesh.Tests.Samples.{reading}

reading-InRange : InRange reading
reading-InRange = record { crc_fits = omega arith; counter_fits = omega arith }

from_byte_buffer-to_byte_buffer_example : from_byte_buffer (to_byte_buffer reading) ≡ some reading
from_byte_buffer-to_byte_buffer_example = from_byte_buffer-to_byte_buffer reading reading-InRange

abbrev mic : List ℕ
mic = 1 ∷ 2 ∷ 3 ∷ 4 ∷ []

reading-CarriesMic : CarriesMic reading.topic
reading-CarriesMic = record {
  ne_open = λ e. absurd (omega arith);
  ne_request = λ e. absurd (omega arith);
}

abbrev tracker : PacketTracker
tracker = add_entry 8 80 (add_entry 7 70 (new_tracker 2))

tracker-IsLinked : IsLinked tracker
tracker-IsLinked =
    add_entry-IsLinked 8 80 (add_entry 7 70 (new_tracker 2))
      (add_entry-IsLinked 7 70 (new_tracker 2) (new_tracker-IsLinked 2 (omega arith)))

add_entry-refines_example :
    (contents (add_entry 9 90 tracker) ≡ add_pair tracker.capacity 9 90 (contents tracker))
    × IsLinked (add_entry 9 90 tracker)
add_entry-refines_example = add_entry-refines 9 90 tracker tracker-IsLinked

find_or_default-add_all_example :
    (find_or_default 5 0 (add_all ((6, 60) ∷ []) (add_entry 5 50 tracker))).0 ≡ 50
unfolding add_entry
find_or_default-add_all_example =
    find_or_default-add_all 5 50 0 ((6, 60) ∷ []) tracker tracker-IsLinked
      (λ e. absurd (omega arith), tt) (omega arith)
