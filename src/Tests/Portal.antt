-- ===== src/Tests/Portal.antt =====
-- Messages of the device portal at concrete inputs.
use radio_mesh.Base.{◌≡◌, refl, true, some, none, List, [], ◌∷◌, arith, ℕ}
use radio_mesh.Codes.{e_none}
use radio_mesh.Portal.{
  c_string, Portal, PortalEventHandler, Client, text_all, text, send_to_client, send_to_clients,
  message_text, handle_web_socket_event, client_disconnected, data_received, end_mark, search_text,
  is_prefix, parse_message, find_from, is_known, quote_mark, erase_client,
}
use radio_mesh.Portal.Messages.{handle_web_socket_event-send_to_clients}

abbrev phone : Client
phone = record { client_id = 7; can_send = true }

abbrev join_handler : PortalEventHandler
join_handler = record { event = b'j' ∷ []; callback = 4096 }

abbrev ping_handler : PortalEventHandler
ping_handler = record { event = b'p' ∷ []; callback = 8192 }

abbrev portal : Portal
portal = record {
  params = record { title = []; index_html = b'h' ∷ []; web_port = 80; dns_port = 53 };
  event_handlers = join_handler ∷ ping_handler ∷ [];
  is_running = true;
  has_socket = true;
  client_info = record { id = 7; last_active = 0; last_pong = 0 } ∷ [];
}

no_end : search_text end_mark (b'o' ∷ b'k' ∷ []) ≡ none
unfolding search_text is_prefix
no_end = refl

handle_web_socket_event-send_to_clients_example :
    (m : List ℕ) × (send_to_clients (b'p' ∷ []) (b'o' ∷ b'k' ∷ []) portal
      ≡ (e_none, text_all m ∷ []))
    × (handle_web_socket_event 5000 (some phone) (data_received (some m)) portal
        ≡ (some (8192, b'o' ∷ b'k' ∷ []), portal))
handle_web_socket_event-send_to_clients_example =
    handle_web_socket_event-send_to_clients (b'p' ∷ []) (b'o' ∷ b'k' ∷ []) 5000 phone portal
      (join_handler ∷ []) [] ping_handler (omega arith, tt) no_end (omega arith, tt)
      (omega arith, (omega arith, tt)) refl refl refl refl ((ground arith), tt) refl

-- A message to one client goes to all, and to that client a second time.
sent_twice : send_to_client true 7 (b'p' ∷ []) (b'o' ∷ []) portal ≡ (
  e_none,
  text_all (message_text (b'p' ∷ []) (b'o' ∷ []))
      ∷ text 7 (message_text (b'p' ∷ []) (b'o' ∷ []))
      ∷ [],
)
unfolding send_to_client is_known c_string
sent_twice = refl

-- Data in which `"}` stands are cut off there.
cut_off :
    parse_message (message_text (b'p' ∷ []) (b'a' ∷ quote_mark ∷ b'}' ∷ b'b' ∷ []))
    ≡ some (b'p' ∷ [], b'a' ∷ [])
unfolding parse_message find_from search_text is_prefix
cut_off = refl

-- A client that has disconnected is no longer known.
disconnected :
    (handle_web_socket_event 0 (some phone) client_disconnected portal).1.client_info ≡ []
unfolding handle_web_socket_event erase_client
disconnected = refl
