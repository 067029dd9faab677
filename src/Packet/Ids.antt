-- ===== src/Packet/Ids.antt =====
-- Equality of device ids, as the arrays' `==` tests it.
use radio_mesh.Base.{◌≡◌, true, false, ◌≢◌, arith}
use radio_mesh.Packet.{DeviceId, id_eq}

pub id_eq_refl : (i : DeviceId) → id_eq i i ≡ true
id_eq_refl i = ground arith

pub eq_of_id_eq : (i j : DeviceId) → id_eq i j ≡ true → i ≡ j
eq_of_id_eq i j h = ground arith

pub id_eq_ne : (i j : DeviceId) → i ≢ j → id_eq i j ≡ false
id_eq_ne i j h = ground arith
