-- ===== src/Stratum/Client/Reply/Found.antt =====
-- The reply that request_response of src/stratum_client.cpp finds among the lines of the pool.
use scrig.Base.{
  ℕ, zero, suc, ◌+◌, ◌%◌, ◌^◌, ◌<◌, Bool, true, false, Option, some, List, [], ◌∷◌, ◌++◌, ◌≡◌, ◌⊎◌,
  inl, inr, refl, Option-cases, if◌then◌else◌, arith,
}
use scrig.Base.Bytes.{Bytes, codes}
use scrig.Base.Fault.{Error, Result-cases, ok, throw}
use scrig.Base.Action.{Outcome, value, fails, throws, continue_with, fail, give}
use scrig.Json.{Doubles, JsonValue, object}
use scrig.Json.Text.{decimal}
use scrig.Json.Parser.{parse_json}
use scrig.Stratum.Job.{StratumJob}
use scrig.Stratum.Network.{Link, LineResult, line, timed_out, closed}
use scrig.Stratum.Network.Stream.{Starts, line_loop-Starts}
use scrig.Stratum.Client.{
  StratumClient, StratumAction, ParsedMessage, what, message_bound, is_reply, new_difficulty,
  note_message, read_json_line, line_outcome, parse_line, read_message, reply_loop, send_json_line,
  send_request, request_object, request_response,
}
use scrig.Stratum.Client.Ends.{Advances, read_message-Advances}
use scrig.Stratum.Client.Answers.{id_of}
use scrig.Stratum.Client.Reply.{Ending, answered, hear, respond, lines_now, IsEnd, Noted, Matches}

module _ (doubles : Doubles) where
  -- A read of a message on the lines to come.
  abbrev Hears :
      (lines : List Bytes)
      → (difficulty : Option ℕ) → (jobs : List StratumJob) → Outcome ParsedMessage × StratumClient
      → Type 0
  Hears lines d q (value msg, t) =
      (text : Bytes) × (lines ≡ text ∷ lines_now t)
      × (parse_json doubles text ≡ ok msg.message)
      × (msg.id ≡ id_of msg.message)
      × (hear doubles msg.message d q ≡ ok (t.difficulty, t.queued_jobs))
      × (link : Link) × (t.socket ≡ some link)
  Hears lines d q (fails message, t) =
      Noted t d q
      × (((lines ≡ []) × IsEnd message)
          ⊎ ((text : Bytes) × (left : List Bytes) × (error : Error) × (lines ≡ text ∷ left)
              × (parse_json doubles text ≡ throw error)
              × (message ≡ codes "invalid stratum JSON: " ++ what error)))
  Hears lines d q (throws error, t) =
      Noted t d q
      × (text : Bytes) × (left : List Bytes) × (message : JsonValue) × (lines ≡ text ∷ left)
      × (parse_json doubles text ≡ ok message)
      × (hear doubles message d q ≡ throw error)

  note_message-Hears :
      (lines : List Bytes) (text : Bytes) (message : JsonValue) (s : StratumClient) (link : Link)
      → s.socket ≡ some link
      → lines ≡ text ∷ lines_now s
      → parse_json doubles text ≡ ok message
      → Hears lines s.difficulty s.queued_jobs (note_message doubles message s)
  unfolding note_message hear lines_now
  note_message-Hears lines text (object obj) s link here first parsed =
      elim (Result-cases (new_difficulty doubles obj s.difficulty)) [
        | inl (d, e) ↦
            rw (e, note_message) (text, first, parsed, refl, rw (e, hear) refl, link, here)
        | inr (error, e) ↦
            rw (e, note_message)
              ((refl, refl), text, lines_now s, object obj, first, parsed, rw (e, hear) refl)
      ]
  note_message-Hears lines text message s link here first parsed =
      (text, first, parsed, refl, refl, link, here)

  line_outcome-Hears :
      (lines : List Bytes) (result : LineResult) (s : StratumClient) (link : Link)
      → s.socket ≡ some link
      → Starts lines result (lines_now s)
      → Hears lines s.difficulty s.queued_jobs
          (continue_with (line_outcome doubles result, s) (note_message doubles))
  unfolding line_outcome
  line_outcome-Hears lines (line text) s link here first =
      elim (Result-cases (parse_json doubles text)) [
        | inl (message, e) ↦
            rw (e, parse_line) (note_message-Hears lines text message s link here first e)
        | inr (error, e) ↦
            rw (e, parse_line) ((refl, refl), inr (text, lines_now s, error, first, e, refl))
      ]
  line_outcome-Hears lines timed_out s link here first = ((refl, refl), inl (first, inl refl))
  line_outcome-Hears lines closed s link here first = ((refl, refl), inl (first, inr refl))

  read_message-Hears :
      (s : StratumClient) (link : Link)
      → s.socket ≡ some link
      → Hears (lines_now s) s.difficulty s.queued_jobs (read_message doubles s)
  unfolding read_message read_json_line lines_now
  read_message-Hears s link here =
      rw here (line_outcome-Hears _ _ _ _ refl (line_loop-Starts link.arrivals s.rx_buffer))

  reply_loop-Matches :
      (rounds : ℕ) (req_id : Bytes) (s : StratumClient) (link : Link)
      → s.socket ≡ some link
      → message_bound s < rounds
      → Matches
          (respond doubles req_id (lines_now s) s.difficulty s.queued_jobs)
          (reply_loop doubles rounds req_id s)
  unfolding reply_loop respond
  reply_loop-Matches zero req_id s link here h = elim h [ ]
  reply_loop-Matches (suc rounds) req_id s link here h =
      after (read_message doubles s) (read_message-Advances doubles s)
        (read_message-Hears s link here) (reply_loop doubles rounds req_id)
        λ t link here less. reply_loop-Matches rounds req_id t link here (omega (arith, h, less))
    where
      at_test :
          (test : Bool) (msg : ParsedMessage) (t : StratumClient) (go : StratumAction JsonValue)
          → Matches (respond doubles req_id (lines_now t) t.difficulty t.queued_jobs) (go t)
          → Matches
              (elim test as (λ _. Ending × Option ℕ × List StratumJob) [
                | true ↦ (answered msg.message (lines_now t), t.difficulty, t.queued_jobs)
                | false ↦ respond doubles req_id (lines_now t) t.difficulty t.queued_jobs
              ])
              ((elim test as (λ _. StratumAction JsonValue) [
                | true ↦ give msg.message
                | false ↦ go
              ])
                t)
      at_test true msg t go h = (refl, refl, (refl, refl))
      at_test false msg t go h = h

      after :
          (o : Outcome ParsedMessage × StratumClient)
          → Advances o (message_bound s)
          → Hears (lines_now s) s.difficulty s.queued_jobs o
          → (go : StratumAction JsonValue)
          → ((t : StratumClient) (link : Link)
              → t.socket ≡ some link
              → message_bound t < message_bound s
              → Matches (respond doubles req_id (lines_now t) t.difficulty t.queued_jobs) (go t))
          → Matches (respond doubles req_id (lines_now s) s.difficulty s.queued_jobs) (
              continue_with o λ msg.
                elim (is_reply msg.id req_id) as (λ _. StratumAction JsonValue) [
                  | true ↦ give msg.message
                  | false ↦ go
                ])
      after (value msg, t) less (text, first, parsed, id, heard, link, here) go ih =
          rw (first, id, respond, parsed, heard)
            (at_test (is_reply (id_of msg.message) req_id) msg t go (ih t link here less))
      after (fails message, t) less (same, inl (first, end)) go ih = rw (first, respond) (end, same)
      after (fails message, t) less (same, inr (text, left, error, first, parsed, said)) go ih =
          rw (first, respond, parsed) (said, same)
      after (throws error, t) less (same, text, left, message, first, parsed, heard) go ih =
          rw (first, respond, parsed, heard) (refl, same)

  -- A request that was sent leaves what is read afterwards.
  abbrev IsSent :
      {A : Type 0} → (sent : A → Type 0) → StratumClient → Outcome A × StratumClient → Type 0
  IsSent sent s (value a, t) =
      sent a
      → (lines_now t ≡ lines_now s)
        × Noted t s.difficulty s.queued_jobs
        × (link : Link) × (t.socket ≡ some link)
  IsSent sent s (fails message, t) = Unit
  IsSent sent s (throws error, t) = Unit

  send_json_line-IsSent :
      (message : JsonValue) (s : StratumClient)
      → IsSent (λ sent. sent ≡ true) s (send_json_line doubles message s)
  unfolding send_json_line lines_now
  send_json_line-IsSent message s = elim (Option-cases s.socket) [
    | inl e ↦ rw e λ h. cc h
    | inr (link, e) ↦ rw e λ h. (refl, (refl, refl), _, refl)
  ]

  send_request-IsSent :
      (method : Bytes) (params : JsonValue) (jsonrpc : Bool) (s : StratumClient)
      → IsSent (λ id. id ≡ s.next_request_id) s (send_request doubles method params jsonrpc s)
  unfolding send_request lines_now
  send_request-IsSent method params jsonrpc s =
      let request = request_object s.next_request_id method params jsonrpc in
      let asked : StratumClient = record s { next_request_id = (s.next_request_id + 1) % 2 ^ 64 } in
      at_end (send_json_line doubles request asked) (send_json_line-IsSent request asked)
    where
      at_end :
          (o : Outcome Bool × StratumClient)
          → IsSent (λ sent. sent ≡ true) s o
          → IsSent
              (λ id. id ≡ s.next_request_id)
              s
              (continue_with o λ sent.
                if sent then give s.next_request_id else fail (codes "failed to send pool request"))
      at_end (value true, t) h = λ _. h refl
      at_end (value false, t) h = tt
      at_end (fails message, t) h = tt
      at_end (throws error, t) h = tt

  -- Once its line is sent, request_response ends as the lines say that come before the next silence
  -- or the end of the connection: it returns the first message with the id of this request, if every
  -- line before it is JSON that can be heard, and leaves the lines behind it unread; it fails at a
  -- line that is no JSON, throws at a message whose difficulty throws, and fails with a timeout or
  -- the end of the connection if no line has the id; and the difficulty and the queue of jobs are
  -- what the messages up to there make of them, one after the other.
  pub request_response-Matches :
      (method : Bytes) (params : JsonValue) (jsonrpc : Bool) (s : StratumClient)
      → (send_request doubles method params jsonrpc s).0 ≡ value s.next_request_id
      → Matches
          (respond doubles (decimal s.next_request_id) (lines_now s) s.difficulty s.queued_jobs)
          (request_response doubles method params jsonrpc s)
  unfolding request_response
  request_response-Matches method params jsonrpc s h =
      at_sent (send_request doubles method params jsonrpc s) h
        (send_request-IsSent method params jsonrpc s)
    where
      at_sent :
          (o : Outcome ℕ × StratumClient)
          → o.0 ≡ value s.next_request_id
          → IsSent (λ id. id ≡ s.next_request_id) s o
          → Matches
              (respond doubles (decimal s.next_request_id) (lines_now s) s.difficulty s.queued_jobs)
              (continue_with o λ id t. reply_loop doubles (message_bound t + 1) (decimal id) t)
      at_sent (value id, t) h sent =
          let same : id ≡ s.next_request_id = cc h in
          let (lines, (d, q), link, here) = sent same in
          rw (same, ← lines, ← d, ← q)
            (reply_loop-Matches (message_bound t + 1) (decimal s.next_request_id) t link here
              (omega arith))
      at_sent (fails message, t) h sent = cc h
      at_sent (throws error, t) h sent = cc h
