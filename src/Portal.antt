-- ===== src/Portal.antt =====
-- framework/device_portal/src/AsyncDevicePortal.cpp on a board with WiFi, without the page that it serves.
-- The calls of the servers are values, and what the web socket answers is an input.
pub mod Search
pub mod Messages
use mathlib.Core.Option
use radio_mesh.Base.{
  ℕ, zero, suc, ◌+◌, ◌-◌, Bool, true, false, ◌||◌, not, Option, none, some, List, [], ◌∷◌, ◌++◌,
  take, drop, is_empty, bytes_eq, ◌==◌, ◌&&◌, if◌then◌else◌,
}
use radio_mesh.Codes.{ReturnCode, e_none, failed, e_unknown, e_invalid_param, e_invalid_state}
use radio_mesh.DeviceBuilder.{DevicePortalParams}
use radio_mesh.DeviceBuilder.SetUp.{set_portal_params}

-- A callback is a number, as a pointer to it would be.
pub record PortalEventHandler : Type 0 where
  pub event : List ℕ
  pub callback : ℕ

pub record ClientInfo : Type 0 where
  pub id : ℕ
  pub last_active : ℕ
  pub last_pong : ℕ

-- `has_socket` says whether webSocket is set; clientInfo is an association list of the ids.
pub record Portal : Type 0 where
  pub params : DevicePortalParams
  pub event_handlers : List PortalEventHandler
  pub is_running : Bool
  pub has_socket : Bool
  pub client_info : List ClientInfo

-- The calls of the DNS server, the web server and the web socket, in their order
pub data Call : Type 0 where
  start_dns : ℕ → Call
  begin_web : ℕ → Call
  end_web stop_dns close_all : Call
  text_all : List ℕ → Call
  text : ℕ → List ℕ → Call

-- setParams, with the handlers that are a part of the parameters
unfoldable pub set_device_portal_params :
    DevicePortalParams → List PortalEventHandler → Portal → ReturnCode × Portal
unfolding set_portal_params
set_device_portal_params p handlers s =
    let r = set_portal_params p s.params in
    (r.0, if failed r.0 then s else record s { params = r.1; event_handlers = handlers })

unfoldable pub start_portal : Portal → ReturnCode × List Call × Portal
start_portal s = if s.is_running then (e_none, [], s) else (
  e_none,
  start_dns s.params.dns_port ∷ begin_web s.params.web_port ∷ [],
  record s { is_running = true; has_socket = true },
)

unfoldable pub stop_portal : Portal → ReturnCode × List Call × Portal
stop_portal s = if not s.is_running then (e_invalid_state, [], s) else (
  e_none,
  end_web ∷ stop_dns ∷ close_all ∷ [],
  record s { is_running = false; has_socket = false },
)

-- `"type":"`, `"data":"` and `"}`
abbrev pub quote_mark : ℕ
quote_mark = 34

abbrev pub type_mark : List ℕ
type_mark = quote_mark ∷ b't' ∷ b'y' ∷ b'p' ∷ b'e' ∷ quote_mark ∷ b':' ∷ quote_mark ∷ []

abbrev pub data_mark : List ℕ
data_mark = quote_mark ∷ b'd' ∷ b'a' ∷ b't' ∷ b'a' ∷ quote_mark ∷ b':' ∷ quote_mark ∷ []

abbrev pub end_mark : List ℕ
end_mark = quote_mark ∷ b'}' ∷ []

-- The text of a message of type `t` with data `d`
abbrev pub message_text : List ℕ → List ℕ → List ℕ
message_text t d = b'{' ∷ (type_mark ++ (t ++ quote_mark ∷ b',' ∷ (data_mark ++ (d ++ end_mark))))

-- What a function that takes `msg.c_str()` reads: the text up to the first NUL
unfoldable pub c_string : List ℕ → List ℕ
c_string [] = []
c_string (c ∷ cs) = let rest = c_string cs in if c == 0 then [] else c ∷ rest

unfoldable pub is_known : ℕ → List ClientInfo → Bool
is_known client [] = false
is_known client (c ∷ cs) = c.id == client || is_known client cs

-- sendToClient: `is_sent` is the web socket's answer to `text`.
unfoldable pub send_to_client : Bool → ℕ → List ℕ → List ℕ → Portal → ReturnCode × List Call
unfolding is_known c_string
send_to_client is_sent client t d s =
    if not s.is_running || not s.has_socket
    then (e_invalid_state, [])
    else (if not (is_known client s.client_info) then (e_invalid_param, []) else (
      if is_sent then e_none else e_unknown,
      text_all (c_string (message_text t d)) ∷ text client (c_string (message_text t d)) ∷ [],
    ))

unfoldable pub send_to_clients : List ℕ → List ℕ → Portal → ReturnCode × List Call
unfolding c_string
send_to_clients t d s =
    if not s.is_running || not s.has_socket
    then (e_invalid_state, [])
    else (e_none, text_all (c_string (message_text t d)) ∷ [])

-- getClientCount: `count` is the web socket's.
unfoldable pub get_client_count : ℕ → Portal → ℕ
get_client_count count s = if s.has_socket then count else 0

-- `std::string::find`, `none` for npos
unfoldable pub is_prefix : List ℕ → List ℕ → Bool
is_prefix [] cs = true
is_prefix (p ∷ ps) [] = false
is_prefix (p ∷ ps) (c ∷ cs) = p == c && is_prefix ps cs

unfoldable pub search_text : List ℕ → List ℕ → Option ℕ
unfolding is_prefix
search_text pattern [] = if is_prefix pattern [] then some 0 else none
search_text pattern (c ∷ cs) =
    let rest = search_text pattern cs in
    if is_prefix pattern (c ∷ cs) then some 0 else Option.map suc rest

-- For a pattern that is not empty, as all are here
unfoldable pub find_from : List ℕ → ℕ → List ℕ → Option ℕ
unfolding search_text
find_from pattern start msg = Option.map (λ at. start + at) (search_text pattern (drop start msg))

abbrev pub substr : ℕ → ℕ → List ℕ → List ℕ
substr start count msg = take count (drop start msg)

-- The type and the data of a message, in handleClientMessage
unfoldable pub parse_message : List ℕ → Option (List ℕ × List ℕ)
parse_message msg = elim (find_from type_mark 0 msg) [
  | none ↦ none
  | some type_start ↦ elim (find_from (quote_mark ∷ []) (type_start + 8) msg) [
    | none ↦ none
    | some type_end ↦ elim (find_from data_mark 0 msg) [
      | none ↦ none
      | some data_start ↦ elim (find_from end_mark (data_start + 8) msg) [
        | none ↦ none
        | some data_end ↦ some (
          substr (type_start + 8) (type_end - (type_start + 8)) msg,
          substr (data_start + 8) (data_end - (data_start + 8)) msg,
        )
      ]
    ]
  ]
]

-- The loop over the handlers: the first of the event, with its data
unfoldable pub dispatch : List ℕ → List ℕ → List PortalEventHandler → Option (ℕ × List ℕ)
dispatch t d [] = none
dispatch t d (h ∷ hs) =
    let rest = dispatch t d hs in if bytes_eq h.event t then some (h.callback, d) else rest

-- The AsyncWebSocketClient that an event comes from
pub record Client : Type 0 where
  pub client_id : ℕ
  pub can_send : Bool

-- handleClientMessage: the callback that is called, with its data. `none` is a null pointer, and the data
-- have their length `len`.
unfoldable pub handle_client_message :
    Option Client → Option (List ℕ) → Portal → Option (ℕ × List ℕ)
unfolding parse_message dispatch
handle_client_message none received s = none
handle_client_message (some c) none s = none
handle_client_message (some c) (some msg) s =
    if not c.can_send || is_empty msg
    then none
    else elim (parse_message msg) [ none ↦ none | some (t, d) ↦ dispatch t d s.event_handlers ]

pub data SocketEvent : Type 0 where
  client_connected client_disconnected : SocketEvent
  data_received : Option (List ℕ) → SocketEvent
  socket_error pong other : SocketEvent

unfoldable pub erase_client : ℕ → List ClientInfo → List ClientInfo
erase_client client [] = []
erase_client client (c ∷ cs) =
    let rest = erase_client client cs in if c.id == client then rest else c ∷ rest

unfoldable pub set_pong : ℕ → ℕ → List ClientInfo → List ClientInfo
set_pong client now [] = []
set_pong client now (c ∷ cs) =
    let rest = set_pong client now cs in
    if c.id == client then record c { last_pong = now } ∷ cs else c ∷ rest

-- handleWebSocketEvent at the time `now`: the callback that is called, and the portal. The keep-alive of the
-- library, which a connection turns on, is left out.
unfoldable pub handle_web_socket_event :
    ℕ → Option Client → SocketEvent → Portal → Option (ℕ × List ℕ) × Portal
unfolding handle_client_message erase_client set_pong
handle_web_socket_event now none e s = (none, s)
handle_web_socket_event now (some c) client_connected s = (
  none,
  record s {
    client_info =
        record { id = c.client_id; last_active = 0; last_pong = 0 }
        ∷ erase_client c.client_id s.client_info;
  },
)
handle_web_socket_event now (some c) client_disconnected s =
    (none, record s { client_info = erase_client c.client_id s.client_info })
handle_web_socket_event now (some c) (data_received d) s = (handle_client_message (some c) d s, s)
handle_web_socket_event now (some c) pong s =
    (none, record s { client_info = set_pong c.client_id now s.client_info })
handle_web_socket_event now (some c) socket_error s = (none, s)
handle_web_socket_event now (some c) other s = (none, s)
