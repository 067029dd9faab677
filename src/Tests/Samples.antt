-- ===== src/Tests/Samples.antt =====
-- Sample data: a lawful stand-in for the cryptography library, a storage, two ends of a link, packets.
use radio_mesh.Base.{
  ℕ, suc, ◌+◌, Option, none, some, List, [], ◌∷◌, length, get_or, replicate, ◌≡◌, refl, ap, arith,
  if◌then◌else◌, length-replicate, bytes_eq,
}
use radio_mesh.Codes.{ReturnCode, e_none, error}
use radio_mesh.Types.{standard, hub, included}
use radio_mesh.Packet.{DeviceId, Packet, empty_packet}
use radio_mesh.Crypto.Primitives.{Primitives, IsLawful}
use radio_mesh.Crypto.Service.{EncryptionService, new_service}
use radio_mesh.Crypto.Service.Keys.{End}
use radio_mesh.Storage.{ByteStorage}

-- A stream that swaps the first two bytes of each block.
unfoldable pub swap : List ℕ → List ℕ
swap [] = []
swap (a ∷ []) = a ∷ []
swap (a ∷ b ∷ rest) = b ∷ a ∷ rest

length-swap : (xs : List ℕ) → length (swap xs) ≡ length xs
unfolding swap
length-swap [] = refl
length-swap (a ∷ []) = refl
length-swap (a ∷ b ∷ rest) = refl

swap-swap : (xs : List ℕ) → swap (swap xs) ≡ xs
unfolding swap
swap-swap [] = refl
swap-swap (a ∷ []) = refl
swap-swap (a ∷ b ∷ rest) = refl

-- Scalars act on points by addition, so that the exchange commutes.
unfoldable pub add_points : List ℕ → List ℕ → List ℕ
add_points [] q = []
add_points (a ∷ p) [] = []
add_points (a ∷ p) (b ∷ q) = (a + b) ∷ add_points p q

add_points_comm : (p q : List ℕ) → add_points p q ≡ add_points q p
unfolding add_points
add_points_comm [] [] = refl
add_points_comm [] (b ∷ q) = refl
add_points_comm (a ∷ p) [] = refl
add_points_comm (a ∷ p) (b ∷ q) =
    rw (add_points_comm p q) (ap (λ c. c ∷ add_points q p) (omega arith))

unfoldable pub eval_point : List ℕ → Option (List ℕ) → Option (List ℕ)
unfolding add_points
eval_point a none = some a
eval_point a (some p) = some (add_points a p)

abbrev pub toy : Primitives
toy = record {
  encrypt_block = λ key block. block;
  Stream = ℕ;
  stream = λ key iv. 0;
  ctr_encrypt = λ s c. (swap c, suc s);
  ctr_decrypt = λ s c. (swap c, suc s);
  curve_eval = eval_point;
  sha256 = λ d. replicate 32 (get_or d 0 0);
}

toy_exchange :
    (a b pa pb : List ℕ)
    → eval_point a none ≡ some pa
    → eval_point b none ≡ some pb
    → eval_point a (some pb) ≡ eval_point b (some pa)
unfolding eval_point
toy_exchange a b pa pb ea eb =
    let ha : a ≡ pa = ap (λ x. elim x [ none ↦ [] | some y ↦ y ]) ea in
    let hb : b ≡ pb = ap (λ x. elim x [ none ↦ [] | some y ↦ y ]) eb in
    rw⁻¹ (ha, hb) (ap some (add_points_comm a b))

pub toy-IsLawful : IsLawful toy
toy-IsLawful = record {
  block_length = λ key block h. h;
  ctr_length = λ s c. length-swap c;
  ctr_inverse = λ s c. ap (λ x. (x, suc s)) (swap-swap c);
  digest_length = λ d. length-replicate 32 (get_or d 0 0);
  exchange = toy_exchange;
}

-- A storage that keeps the newest pair of each key in front.
unfoldable pub lookup : List ℕ → List (List ℕ × List ℕ) → ReturnCode × List ℕ
lookup key [] = (error 503, [])
lookup key ((k, v) ∷ more) = if bytes_eq k key then (e_none, v) else lookup key more

abbrev pub shelf : ByteStorage
shelf = record {
  State = List (List ℕ × List ℕ);
  read = lookup;
  write_and_commit = λ key value s. (e_none, (key, value) ∷ s);
}

abbrev pub network_key : List ℕ
network_key = replicate 32 7

abbrev pub service : EncryptionService
service = record new_service { network_key = network_key }

abbrev pub id_one : DeviceId
id_one = record { b0 = 0; b1 = 0; b2 = 0; b3 = 1 }

abbrev pub id_two : DeviceId
id_two = record { b0 = 0; b1 = 0; b2 = 0; b3 = 2 }

abbrev pub id_packet : DeviceId
id_packet = record { b0 = 9; b1 = 8; b2 = 7; b3 = 6 }

-- A reading of a sensor, on an application topic.
abbrev pub reading : Packet
reading = record empty_packet {
  source_dev_id = id_one;
  dest_dev_id = id_two;
  packet_id = id_packet;
  topic = 16;
  fcounter = 5;
  last_hop_id = id_one;
  packet_data = 21 ∷ 22 ∷ 23 ∷ [];
}

abbrev pub sensor : End
sensor = record { device_type = standard; state = included; service = service }

abbrev pub base : End
base = record { device_type = hub; state = included; service = service }
