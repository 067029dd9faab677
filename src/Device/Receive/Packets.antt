-- ===== src/Device/Receive/Packets.antt =====
-- What a received packet does to the controller: what one inclusion message does, or nothing.
use radio_mesh.Base.{true, false, ◌≡◌, refl, inl, arith, subst, ap, ◌∙◌}
use radio_mesh.Base.Int.{ℤ}
use radio_mesh.Types.{MeshDeviceType, is_hub}
use radio_mesh.Packet.{Packet}
use radio_mesh.Crypto.Primitives.{Primitives}
use radio_mesh.Storage.{ByteStorage}
use radio_mesh.Device.{Device, Controller, World, route}
use radio_mesh.Device.Inclusion.{handle_inclusion_message}
use radio_mesh.Device.Inclusion.Moves.{
  DeviceMove, HubMove, handle_inclusion_message-DeviceMove, handle_inclusion_message-HubMove,
}
use radio_mesh.Device.Inclusion.Kept.{SameKind, handle_inclusion_message-kind}
use radio_mesh.Device.Receive.{
  handle_packet, accept, receive_inclusion, receive_data, relay, notify, decrypt_received,
}

module _ (prim : Primitives) (store : ByteStorage) where
  relay-controller :
      (w : World) (p : Packet) (d : Device store.State)
      → ((relay prim store w p d).1.controller ≡ d.controller)
        × ((relay prim store w p d).1.device_type ≡ d.device_type)
  unfolding relay route
  relay-controller w p d = ground arith

  pub receive_data-controller :
      (w : World) (p : Packet) (d : Device store.State)
      → ((receive_data prim store w p d).1.controller ≡ d.controller)
        × ((receive_data prim store w p d).1.device_type ≡ d.device_type)
  unfolding receive_data notify decrypt_received
  receive_data-controller w p d = grind (arith, relay-controller)

  -- What a received packet does to the controller, the controller does for one inclusion message.
  decrypt_received-session :
      (p : Packet) (d : Device store.State)
      → ((decrypt_received prim store p d).1.controller ≡ d.controller)
        × ((decrypt_received prim store p d).1.device_type ≡ d.device_type)
  unfolding decrypt_received
  decrypt_received-session p d = (refl, refl)

  -- What a packet does to the controller, one inclusion message to a device with that controller does.
  handle_packet-cases :
      (w : World) (rssi : ℤ) (p : Packet) (d : Device store.State)
      (P : Controller → MeshDeviceType → Type 0)
      → P d.controller d.device_type
      → ((q : Packet) (e : Device store.State)
          → e.controller ≡ d.controller
          → e.device_type ≡ d.device_type
          → P
              (handle_inclusion_message prim store w q e).1.controller
              (handle_inclusion_message prim store w q e).1.device_type)
      → P
          (handle_packet prim store w rssi p d).1.controller
          (handle_packet prim store w rssi p d).1.device_type
  unfolding handle_packet accept receive_inclusion notify
  handle_packet-cases w rssi p d P same handled =
      grind (arith, receive_data-controller, decrypt_received-session)

  pub handle_packet-DeviceMove :
      (w : World) (rssi : ℤ) (p : Packet) (d : Device store.State)
      → is_hub d.controller.device_type ≡ false
      → DeviceMove d.controller (handle_packet prim store w rssi p d).1.controller
  handle_packet-DeviceMove w rssi p d h =
      handle_packet-cases w rssi p d (λ c k. DeviceMove d.controller c) (inl (refl, refl))
        (λ q e same kind.
          subst (λ c. DeviceMove c (handle_inclusion_message prim store w q e).1.controller) same
            (handle_inclusion_message-DeviceMove prim store w q e (rw same h)))

  pub handle_packet-HubMove :
      (w : World) (rssi : ℤ) (p : Packet) (d : Device store.State)
      → is_hub d.controller.device_type ≡ true
      → HubMove d.controller (handle_packet prim store w rssi p d).1.controller
  handle_packet-HubMove w rssi p d h =
      handle_packet-cases w rssi p d (λ c k. HubMove d.controller c) (refl, inl refl)
        (λ q e same kind.
          subst (λ c. HubMove c (handle_inclusion_message prim store w q e).1.controller) same
            (handle_inclusion_message-HubMove prim store w q e (rw same h)))

  pub handle_packet-kind :
      (w : World) (rssi : ℤ) (p : Packet) (d : Device store.State)
      → SameKind d (handle_packet prim store w rssi p d).1
  handle_packet-kind w rssi p d =
      handle_packet-cases w rssi p d
        (λ c k.
          (c.inclusion_mode_enabled ≡ d.controller.inclusion_mode_enabled)
          × (c.device_type ≡ d.controller.device_type)
          × (k ≡ d.device_type))
        (refl, refl, refl)
        (λ q e same kind.
          let kept = handle_inclusion_message-kind prim store w q e in
          (
            kept.0 ∙ ap (λ c. c.inclusion_mode_enabled) same,
            kept.1 ∙ ap (λ c. c.device_type) same,
            kept.2 ∙ kind,
          ))
