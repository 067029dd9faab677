-- ===== src/Storage.antt =====
-- framework/device/inc/DeviceStorage.h over framework/interfaces/IByteStorage.h: what the device keeps
-- across a restart, under the keys "is", "mc", "nk", "pk" and "hk".
pub mod Laws
use radio_mesh.Base.{ℕ, Option, none, some, List, [], ◌∷◌, length, ◌==◌, if◌then◌else◌}
use radio_mesh.Codes.{ReturnCode, e_none, error}
use radio_mesh.Types.{DeviceInclusionState, not_included, state_byte, state_of_byte}
use radio_mesh.Utils.{number_to_bytes, bytes_to_number}

-- `read` and `writeAndCommit` of an IByteStorage. A read that fails leaves the caller's vector, which is
-- always an empty one, as it is.
pub record ByteStorage : Type 1 where
  pub State : Type 0
  pub read : List ℕ → State → ReturnCode × List ℕ
  pub write_and_commit : List ℕ → List ℕ → State → ReturnCode × State

abbrev pub state_key : List ℕ
state_key = b'i' ∷ b's' ∷ []

abbrev pub counter_key : List ℕ
counter_key = b'm' ∷ b'c' ∷ []

abbrev pub network_key_key : List ℕ
network_key_key = b'n' ∷ b'k' ∷ []

abbrev pub private_key_key : List ℕ
private_key_key = b'p' ∷ b'k' ∷ []

abbrev pub hub_key_key : List ℕ
hub_key_key = b'h' ∷ b'k' ∷ []

-- The rest of loadState, from what `read` gave
unfoldable pub state_of_read : ReturnCode × List ℕ → ReturnCode × Option DeviceInclusionState
state_of_read (e_none, []) = (e_none, none)
state_of_read (e_none, b ∷ rest) = (e_none, some (state_of_byte b))
state_of_read (error n, bytes) = if n == 503 then (e_none, some not_included) else (error n, none)

-- The rest of loadMessageCounter
unfoldable pub counter_of_read : ReturnCode × List ℕ → ReturnCode × Option ℕ
counter_of_read (e_none, bytes) =
    (e_none, if length bytes == 4 then some (bytes_to_number 4 bytes) else none)
counter_of_read (error n, bytes) = (error n, none)

module _ (store : ByteStorage) where
  -- persistState
  unfoldable pub persist_state : DeviceInclusionState → store.State → ReturnCode × store.State
  persist_state state s = store.write_and_commit state_key (state_byte state ∷ []) s

  -- loadState: the code, and the state if one was assigned
  unfoldable pub load_state : store.State → ReturnCode × Option DeviceInclusionState
  load_state s = state_of_read (store.read state_key s)

  -- persistMessageCounter
  unfoldable pub persist_message_counter : ℕ → store.State → ReturnCode × store.State
  persist_message_counter counter s =
      store.write_and_commit counter_key (number_to_bytes 4 counter) s

  -- loadMessageCounter: a value that is not four bytes long is ignored.
  unfoldable pub load_message_counter : store.State → ReturnCode × Option ℕ
  load_message_counter s = counter_of_read (store.read counter_key s)

  -- persistPrivateKey, loadPrivateKey, and so on
  unfoldable pub persist_private_key : List ℕ → store.State → ReturnCode × store.State
  persist_private_key key s = store.write_and_commit private_key_key key s

  unfoldable pub load_private_key : store.State → ReturnCode × List ℕ
  load_private_key s = store.read private_key_key s

  unfoldable pub persist_hub_key : List ℕ → store.State → ReturnCode × store.State
  persist_hub_key key s = store.write_and_commit hub_key_key key s

  unfoldable pub load_hub_key : store.State → ReturnCode × List ℕ
  load_hub_key s = store.read hub_key_key s

  unfoldable pub persist_network_key : List ℕ → store.State → ReturnCode × store.State
  persist_network_key key s = store.write_and_commit network_key_key key s

  unfoldable pub load_network_key : store.State → ReturnCode × List ℕ
  load_network_key s = store.read network_key_key s
