-- ===== src/Device/Receive/Initialized.antt =====
-- A device from initialize on.
use radio_mesh.Base.{ℕ, List, arith}
use radio_mesh.Types.{DeviceInclusionState}
use radio_mesh.Crypto.Primitives.{Primitives}
use radio_mesh.Storage.{ByteStorage}
use radio_mesh.Device.{Device}
use radio_mesh.Device.Startup.{initialize}
use radio_mesh.Device.Startup.Initial.{
  initialize_lem, new_controller_lem, new_controller-protocol_state,
}
use radio_mesh.Device.Receive.Steps.{IsJoining, Reachable, Reachable-IsJoining}

module _ (prim : Primitives) (store : ByteStorage) (memory : DeviceInclusionState) (seed : ℕ)
    (random_key : List ℕ) (d : Device store.State) where
  pub initialize-IsJoining : IsJoining prim store (initialize prim store memory seed random_key d)
  initialize-IsJoining = ground (
    arith,
    initialize_lem prim store memory seed random_key d,
    new_controller_lem prim store d.device_type memory seed random_key d.stored,
    new_controller-protocol_state prim store d.device_type memory seed random_key d.stored,
  )

  -- A device that was initialized over any storage stays in the states of its kind whatever it receives,
  -- sends and waits for: a hub is included, and waits for a request or a confirmation or not at all; any
  -- other device is never in inclusion mode, and waits for a response or for the success only
  -- while its inclusion is pending.
  pub initialize-Reachable :
      (d' : Device store.State)
      → Reachable prim store (initialize prim store memory seed random_key d) d'
      → IsJoining prim store d'
  initialize-Reachable d' run =
      Reachable-IsJoining prim store (initialize prim store memory seed random_key d) d'
        initialize-IsJoining run
