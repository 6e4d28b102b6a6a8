-- ===== src/Stratum/Client/Unread.antt =====
-- The lines that src/stratum_client.cpp has not read yet, and which of them a request takes.
use scrig.Base.{
  ℕ, zero, suc, ◌+◌, ◌%◌, ◌^◌, Bool, true, false, none, some, List, [], ◌∷◌, ◌++◌, append_assoc,
  ◌≡◌, inl, inr, refl, sym, ap, ◌∙◌, Option-cases, if◌then◌else◌,
}
use scrig.Base.Bytes.{Bytes, codes}
use scrig.Base.Fault.{Result-cases, ok}
use scrig.Base.Action.{Outcome, value, fails, throws, continue_with, fail, give}
use scrig.Json.{Doubles, JsonValue, object}
use scrig.Json.Text.{decimal}
use scrig.Json.Parser.{parse_json}
use scrig.Stratum.Network.{LineResult, line, timed_out, closed}
use scrig.Stratum.Network.Stream.{lines_of, Takes1, everything, line_loop-Takes1}
use scrig.Stratum.Client.{
  StratumClient, StratumAction, ParsedMessage, message_bound, is_reply, new_difficulty,
  note_message, read_json_line, line_outcome, parse_line, read_message, reply_loop, send_json_line,
  send_request, request_object, request_response,
}

-- All lines of the connection that have not been read, those behind a silence too.
unfoldable pub unread : StratumClient → List Bytes
unfolding lines_of
unread s = elim s.socket [
  | none ↦ []
  | some link ↦ lines_of (s.rx_buffer ++ everything link.arrivals) []
]

-- A call that reads some of the lines, and the last one of them for its value.
abbrev pub Reads1 :
    {A : Type 0} → (Bytes → A → Type 0) → (lines : List Bytes) → Outcome A × StratumClient → Type 0
Reads1 P lines (value a, t) =
    (skipped : List Bytes) × (text : Bytes) × (lines ≡ skipped ++ text ∷ unread t) × P text a
Reads1 P lines (fails message, t) = (skipped : List Bytes) × (lines ≡ skipped ++ unread t)
Reads1 P lines (throws error, t) = (skipped : List Bytes) × (lines ≡ skipped ++ unread t)

-- A call that reads nothing.
abbrev Leaves :
    {A : Type 0} → (A → Type 0) → (lines : List Bytes) → Outcome A × StratumClient → Type 0
Leaves P lines (value a, t) = (unread t ≡ lines) × P a
Leaves P lines (fails message, t) = unread t ≡ lines
Leaves P lines (throws error, t) = unread t ≡ lines

module _ {A : Type 0} (P : Bytes → A → Type 0) where
  Reads1-widen :
      (lines skipped rest : List Bytes) (o : Outcome A × StratumClient)
      → lines ≡ skipped ++ rest
      → Reads1 P rest o
      → Reads1 P lines o
  Reads1-widen lines skipped rest (value a, t) e (more, text, f, p) = (
    skipped ++ more,
    text,
    e ∙ ap (λ l. skipped ++ l) f ∙ sym (append_assoc skipped more (text ∷ unread t)),
    p,
  )
  Reads1-widen lines skipped rest (fails message, t) e (more, f) =
      (skipped ++ more, e ∙ ap (λ l. skipped ++ l) f ∙ sym (append_assoc skipped more (unread t)))
  Reads1-widen lines skipped rest (throws error, t) e (more, f) =
      (skipped ++ more, e ∙ ap (λ l. skipped ++ l) f ∙ sym (append_assoc skipped more (unread t)))

module _ (doubles : Doubles) where
  abbrev IsLine : Bytes → JsonValue → Type 0
  IsLine text reply = parse_json doubles text ≡ ok reply

  line_outcome-Reads1 :
      (lines : List Bytes) (result : LineResult) (s : StratumClient)
      → Takes1 lines result (unread s)
      → Reads1 IsLine lines (line_outcome doubles result, s)
  unfolding line_outcome
  line_outcome-Reads1 lines (line text) s first = elim (Result-cases (parse_json doubles text)) [
    | inl (message, e) ↦ rw (e, parse_line) ([], text, first, e)
    | inr (error, e) ↦ rw (e, parse_line) (text ∷ [], first)
  ]
  line_outcome-Reads1 lines timed_out s first = ([], first)
  line_outcome-Reads1 lines closed s first = ([], first)

  read_json_line-Reads1 : (s : StratumClient) → Reads1 IsLine (unread s) (read_json_line doubles s)
  unfolding read_json_line unread
  read_json_line-Reads1 s = elim (Option-cases s.socket) [
    | inl e ↦ rw e ([], refl)
    | inr (link, e) ↦ rw e (line_outcome-Reads1 _ _ _ (line_loop-Takes1 link.arrivals s.rx_buffer))
  ]

  note_message-Leaves :
      (message : JsonValue) (s : StratumClient)
      → Leaves (λ msg. msg.message ≡ message) (unread s) (note_message doubles message s)
  unfolding note_message unread
  note_message-Leaves (object obj) s =
      elim (Result-cases (new_difficulty doubles obj s.difficulty)) [
        | inl (d, e) ↦ rw (e, note_message) (refl, refl)
        | inr (error, e) ↦ rw (e, note_message) refl
      ]
  note_message-Leaves _ s = (refl, refl)

  read_message-Reads1 :
      (s : StratumClient)
      → Reads1 (λ text msg. IsLine text msg.message) (unread s) (read_message doubles s)
  unfolding read_message
  read_message-Reads1 s = after (read_json_line doubles s) (read_json_line-Reads1 s)
    where
      noted :
          (skipped : List Bytes) (text : Bytes) (message : JsonValue) (left : List Bytes)
          → unread s ≡ skipped ++ text ∷ left
          → IsLine text message
          → (o : Outcome ParsedMessage × StratumClient)
          → Leaves (λ msg. msg.message ≡ message) left o
          → Reads1 (λ text msg. IsLine text msg.message) (unread s) o
      noted skipped text message left e p (value msg, t) (same, it) =
          (skipped, text, rw same e, rw it p)
      noted skipped text message left e p (fails said, t) same =
          (skipped ++ text ∷ [], rw same e ∙ sym (append_assoc skipped (text ∷ []) (unread t)))
      noted skipped text message left e p (throws error, t) same =
          (skipped ++ text ∷ [], rw same e ∙ sym (append_assoc skipped (text ∷ []) (unread t)))

      after :
          (o : Outcome JsonValue × StratumClient)
          → Reads1 IsLine (unread s) o
          → Reads1
              (λ text msg. IsLine text msg.message)
              (unread s)
              (continue_with o (note_message doubles))
      after (value message, t) (skipped, text, e, p) =
          noted skipped text message (unread t) e p (note_message doubles message t)
            (note_message-Leaves message t)
      after (fails message, t) h = h
      after (throws error, t) h = h

  reply_loop-Reads1 :
      (rounds : ℕ) (req_id : Bytes) (s : StratumClient)
      → Reads1 IsLine (unread s) (reply_loop doubles rounds req_id s)
  unfolding reply_loop
  reply_loop-Reads1 zero req_id s = ([], refl)
  reply_loop-Reads1 (suc rounds) req_id s =
      after (read_message doubles s) (read_message-Reads1 s) (reply_loop doubles rounds req_id)
        (reply_loop-Reads1 rounds req_id)
    where
      at_test :
          (test : Bool) (msg : ParsedMessage) (t : StratumClient) (go : StratumAction JsonValue)
          → Reads1 IsLine (unread s) (value msg.message, t)
          → Reads1 IsLine (unread s) (go t)
          → Reads1 IsLine (unread s) (
              (elim test as (λ _. StratumAction JsonValue) [ true ↦ give msg.message | false ↦ go ])
                t)
      at_test true msg t go h k = h
      at_test false msg t go h k = k

      after :
          (o : Outcome ParsedMessage × StratumClient)
          → Reads1 (λ text msg. IsLine text msg.message) (unread s) o
          → (go : StratumAction JsonValue) → ((t : StratumClient) → Reads1 IsLine (unread t) (go t))
          → Reads1 IsLine (unread s) (
              continue_with o λ msg.
                elim (is_reply msg.id req_id) as (λ _. StratumAction JsonValue) [
                  | true ↦ give msg.message
                  | false ↦ go
                ])
      after (value msg, t) (skipped, text, e, p) go ih =
          at_test (is_reply msg.id req_id) msg t go (skipped, text, e, p)
            (Reads1-widen IsLine _ (skipped ++ text ∷ []) (unread t) (go t)
              (e ∙ sym (append_assoc skipped (text ∷ []) (unread t))) (ih t))
      after (fails message, t) h go ih = h
      after (throws error, t) h go ih = h

  send_json_line-Leaves :
      (message : JsonValue) (s : StratumClient)
      → Leaves (λ _. Unit) (unread s) (send_json_line doubles message s)
  unfolding send_json_line unread
  send_json_line-Leaves message s = elim (Option-cases s.socket) [
    | inl e ↦ rw e (refl, tt)
    | inr (link, e) ↦ rw e (refl, tt)
  ]

  -- A request reads some of the lines, and returns what the last of them parses to.
  pub request_response-Reads1 :
      (method : Bytes) (params : JsonValue) (jsonrpc : Bool) (s : StratumClient)
      → Reads1 IsLine (unread s) (request_response doubles method params jsonrpc s)
  unfolding request_response send_request unread
  request_response-Reads1 method params jsonrpc s =
      let request = request_object s.next_request_id method params jsonrpc in
      let asked : StratumClient = record s { next_request_id = (s.next_request_id + 1) % 2 ^ 64 } in
      at_end (send_json_line doubles request asked) (send_json_line-Leaves request asked)
    where
      at_end :
          (o : Outcome Bool × StratumClient)
          → Leaves (λ _. Unit) (unread s) o
          → Reads1 IsLine (unread s) (
              continue_with
                (continue_with o λ sent.
                  if sent
                  then give s.next_request_id
                  else fail (codes "failed to send pool request"))
                λ id t. reply_loop doubles (message_bound t + 1) (decimal id) t)
      at_end (value true, t) (same, _) =
          rw (← same) (reply_loop-Reads1 (message_bound t + 1) (decimal s.next_request_id) t)
      at_end (value false, t) (same, _) = ([], sym same)
      at_end (fails message, t) same = ([], sym same)
      at_end (throws error, t) same = ([], sym same)
