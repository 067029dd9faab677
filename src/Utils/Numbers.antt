-- ===== src/Utils/Numbers.antt =====
-- The conversions of Utils are inverse to one another on the values that fit.
use radio_mesh.Base.{ℕ, zero, suc, ◌<◌, ◌≡◌, refl, length, arith, u32_mod, ap}
use radio_mesh.Packet.{DeviceId, IdInRange}
use radio_mesh.Utils.{to_uint32, uint32_to_device_id, number_to_bytes, bytes_to_number}

-- Ids and 32-bit numbers are in bijection.
pub device_id_bijection :
    (i : DeviceId) (x : ℕ)
    → IdInRange i
    → x < u32_mod
    → (uint32_to_device_id (to_uint32 i) ≡ i) × (to_uint32 (uint32_to_device_id x) ≡ x)
unfolding uint32_to_device_id
device_id_bijection i x h fits = (ground arith, omega arith)

-- A 32-bit number survives numberToBytes followed by bytesToNumber.
pub bytes_to_number-number_to_bytes :
    (x : ℕ) → x < u32_mod → bytes_to_number 4 (number_to_bytes 4 x) ≡ x
unfolding bytes_to_number number_to_bytes
bytes_to_number-number_to_bytes x h = omega arith

pub length-number_to_bytes : (k x : ℕ) → length (number_to_bytes k x) ≡ k
unfolding number_to_bytes
length-number_to_bytes zero x = refl
length-number_to_bytes (suc k) x = ap suc (length-number_to_bytes k x)
