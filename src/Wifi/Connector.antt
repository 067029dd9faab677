-- ===== src/Wifi/Connector.antt =====
-- What a WifiConnector says of its connection.
use radio_mesh.Base.{
  ◌≤◌, ◌≡◌, refl, ◌⊎◌, inl, inr, true, false, ◌&&◌, length, is_empty, bytes_eq, bytes_eq_refl, ltb,
  Bool-cases, arith,
}
use radio_mesh.Codes.{e_none, e_invalid_param, e_wifi_connection_failed}
use radio_mesh.Wifi.{
  WifiParams, WifiConnector, WifiAnswers, ssid_available, connect_to, connect, reconnect,
  disconnect, reset_connection_details, update_connection_details,
}

-- A name and a password that connect and setParams accept
abbrev pub IsUsable : WifiParams → Type 0
IsUsable p =
    (is_empty p.ssid ≡ false)
    × (is_empty p.password ≡ false)
    × (length p.ssid ≤ 32)
    × (length p.password ≤ 64)

connect_to_lem :
    (p : WifiParams) (a : WifiAnswers) (s : WifiConnector)
    → (((connect_to p a s).0 ≡ e_none)
        × ((connect_to p a s).1.connected ≡ true)
        × (bytes_eq p.ssid (connect_to p a s).1.params.ssid ≡ true))
      ⊎ ((connect_to p a s).1 ≡ s)
unfolding connect_to update_connection_details
connect_to_lem p a s = elim (Bool-cases (ltb 32 (length p.ssid))) [
  | inl e ↦ inr (ground (arith, e))
  | inr e1 ↦ elim (Bool-cases (ltb 64 (length p.password))) [
    | inl e ↦ inr (ground (arith, e, e1))
    | inr e2 ↦ elim (Bool-cases (bytes_eq p.ssid s.params.ssid && s.connected)) [
      | inl e ↦ inr (ground (arith, e, e1, e2))
      | inr e3 ↦ elim (Bool-cases (ssid_available p.ssid a.networks)) [
        | inr e ↦ inr (ground (arith, e, e1, e2, e3))
        | inl e4 ↦ elim (Bool-cases a.is_connected) [
          | inr e ↦ inr (ground (arith, e, e1, e2, e3, e4))
          | inl e5 ↦ inl (
            ground (arith, e1, e2, e3, e4, e5),
            ground (arith, e1, e2, e3, e4, e5),
            ground (arith, e1, e2, e3, e4, e5, bytes_eq_refl p.ssid),
          )
        ]
      ]
    ]
  ]
]

-- A connector that is connected goes on saying so when connecting to another network has failed, though
-- the library has left the first one by then, and reconnect then says RM_E_NONE whatever the library
-- would answer, and does nothing.
pub reconnect-failed_connect :
    (p : WifiParams) (a later : WifiAnswers) (s : WifiConnector)
    → s.connected ≡ true
    → IsUsable s.params
    → (connect p a s).0 ≡ e_wifi_connection_failed
    → ((connect p a s).1 ≡ s) × (reconnect later (connect p a s).1 ≡ (e_none, s))
unfolding connect reconnect connect_to update_connection_details
reconnect-failed_connect p a later s on usable failed =
    let kept : (connect p a s).1 ≡ s = ground (arith, failed) in
    let again : reconnect later s ≡ (e_none, s) =
      ground (arith, on, usable, bytes_eq_refl s.params.ssid) in
    (kept, rw kept again)

-- After a disconnect that succeeded, reconnect fails whatever the library would answer: the name and the
-- password are gone.
pub reconnect-disconnect :
    (a : WifiAnswers) (s : WifiConnector)
    → reconnect a (disconnect true s).1 ≡ (e_invalid_param, (disconnect true s).1)
unfolding reconnect connect disconnect reset_connection_details
reconnect-disconnect a s = refl
