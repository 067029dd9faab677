-- ===== src/Portal/Messages.antt =====
-- What handleClientMessage makes of a text in the form that sendToClients sends.
use mathlib.Core.List.{append_assoc}
use native.Mathlib.Nat.{add-zero}
use radio_mesh.Base.{
  ℕ, ◌+◌, ◌-◌, ◌≡◌, refl, sym, ap, true, none, some, List, [], ◌∷◌, ◌++◌, length, length-append,
  drop, take-append, drop-append, subst, ◌≢◌, inl, inr, Bool-cases, bytes_eq, bytes_eq_refl,
  eq_of_bytes_eq, arith,
}
use radio_mesh.Codes.{e_none}
use radio_mesh.Portal.{
  search_text, find_from, quote_mark, type_mark, data_mark, end_mark, message_text, substr,
  parse_message, Portal, PortalEventHandler, Client, dispatch, handle_client_message,
  handle_web_socket_event, data_received, send_to_clients, text_all,
}
use radio_mesh.Portal.Search.{
  NoQuote, NoNul, NoNul-append, c_string-NoNul, search_text-skip, data_mark-quoted,
  search_text-end_mark, find_from-append,
}

module _ (t d : List ℕ) (quiet : NoQuote t) (whole : search_text end_mark d ≡ none) where
  -- What follows the type, and what comes before the data
  abbrev after_type : List ℕ
  after_type = quote_mark ∷ b',' ∷ (data_mark ++ (d ++ end_mark))

  abbrev head : List ℕ
  head = b'{' ∷ (type_mark ++ (t ++ quote_mark ∷ b',' ∷ data_mark))

  message_text-head : message_text t d ≡ head ++ (d ++ end_mark)
  message_text-head =
      ap (λ r. b'{' ∷ (type_mark ++ r))
        (sym (append_assoc t (quote_mark ∷ b',' ∷ data_mark) (d ++ end_mark)))

  length-head : length head ≡ length t + 11 + 8
  length-head = omega (arith, length-append t (quote_mark ∷ b',' ∷ data_mark))

  type_start_lem : find_from type_mark 0 (message_text t d) ≡ some 1
  unfolding find_from search_text
  type_start_lem = refl

  type_end_lem : find_from (quote_mark ∷ []) 9 (message_text t d) ≡ some (9 + (length t))
  unfolding search_text
  type_end_lem =
      find_from-append (quote_mark ∷ []) (b'{' ∷ type_mark) (t ++ after_type) (length t) (
        subst (λ n. search_text (quote_mark ∷ []) (t ++ after_type) ≡ some n) (add-zero (length t))
          (search_text-skip [] t after_type 0 quiet refl))

  data_start_lem : find_from data_mark 0 (message_text t d) ≡ some (length t + 11)
  unfolding find_from search_text
  data_start_lem =
      let rest = search_text-skip (drop 1 data_mark) t after_type 2 quiet refl in
      let quoted = data_mark-quoted t (data_mark ++ (d ++ end_mark)) quiet in
      rw (quoted, rest) (ap some (omega arith))

  data_end_lem :
      find_from end_mark (length t + 11 + 8) (message_text t d)
      ≡ some (length t + 11 + 8 + length d)
  data_end_lem =
      rw (sym length-head, message_text-head)
        (find_from-append end_mark head (d ++ end_mark) (length d) (search_text-end_mark d whole))

  type-substr : substr 9 (9 + length t - 9) (message_text t d) ≡ t
  type-substr = let n : 9 + length t - 9 ≡ length t = omega arith in rw n (take-append t after_type)

  data-substr :
      substr
        (length t + 11 + 8)
        (length t + 11 + 8 + length d - (length t + 11 + 8))
        (message_text t d)
      ≡ d
  data-substr =
      let n : length t + 11 + 8 + length d - (length t + 11 + 8) ≡ length d = omega arith in
      rw (n, sym length-head, message_text-head, drop-append head (d ++ end_mark))
        (take-append d end_mark)

  pub parse_message-message_text : parse_message (message_text t d) ≡ some (t, d)
  unfolding parse_message
  parse_message-message_text =
      rw
        (
          parse_message, type_start_lem, type_end_lem, data_start_lem, data_end_lem, type-substr,
          data-substr,
        )
        refl

-- Handlers of other events than `t`
abbrev pub Others : List ℕ → List PortalEventHandler → Type 0
Others t [] = Unit
Others t (h ∷ hs) = (h.event ≢ t) × Others t hs

dispatch-Others :
    (t d : List ℕ) (before later : List PortalEventHandler) (h : PortalEventHandler)
    → Others t before
    → h.event ≡ t
    → dispatch t d (before ++ h ∷ later) ≡ some (h.callback, d)
unfolding dispatch
dispatch-Others t d [] later h other same =
    let e : bytes_eq h.event t ≡ true = rw same (bytes_eq_refl t) in rw e refl
dispatch-Others t d (o ∷ before) later h (ne, other) same = elim (Bool-cases (bytes_eq o.event t)) [
  | inl e ↦ absurd (ne (eq_of_bytes_eq o.event t e))
  | inr e ↦ rw e (dispatch-Others t d before later h other same)
]

message_text-NoNul : (t d : List ℕ) → NoNul t → NoNul d → NoNul (message_text t d)
message_text-NoNul t d ht hd =
    let tail = NoNul-append d end_mark hd (omega arith) in
    let rest = NoNul-append (quote_mark ∷ b',' ∷ data_mark) (d ++ end_mark) (omega arith) tail in
    let later = NoNul-append t (quote_mark ∷ b',' ∷ (data_mark ++ (d ++ end_mark))) ht rest in
    NoNul-append (b'{' ∷ type_mark) (t ++ quote_mark ∷ b',' ∷ (data_mark ++ (d ++ end_mark)))
      (omega arith) later

-- A running portal sends a message to all clients as one text. When a client that can be answered sends the
-- same text, the first handler of its type is called with its data, and the portal stays as it is, provided
-- that the type has no quotation mark, `"}` does not stand in the data, and neither has a NUL byte.
pub handle_web_socket_event-send_to_clients :
    (t d : List ℕ) (now : ℕ) (c : Client) (s : Portal) (before later : List PortalEventHandler)
    (h : PortalEventHandler)
    → NoQuote t
    → search_text end_mark d ≡ none
    → NoNul t
    → NoNul d
    → s.is_running ≡ true
    → s.has_socket ≡ true
    → c.can_send ≡ true
    → s.event_handlers ≡ before ++ h ∷ later
    → Others t before
    → h.event ≡ t
    → (m : List ℕ) × (send_to_clients t d s ≡ (e_none, text_all m ∷ []))
      × (handle_web_socket_event now (some c) (data_received (some m)) s
          ≡ (some (h.callback, d), s))
unfolding send_to_clients handle_web_socket_event handle_client_message
handle_web_socket_event-send_to_clients t d now c s before later h quiet whole nt nd runs socket
      open_ all other same =
    (
      message_text t d,
      rw (runs, socket, c_string-NoNul (message_text t d) (message_text-NoNul t d nt nd)) refl,
      rw
          (
            open_,
            parse_message-message_text t d quiet whole,
            all,
            dispatch-Others t d before later h other same,
          )
          refl,
    )
