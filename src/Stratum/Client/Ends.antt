-- ===== src/Stratum/Client/Ends.antt =====
-- The rounds of the loops of src/stratum_client.cpp that read messages.
use scrig.Base.{
  ℕ, zero, suc, ◌+◌, ◌%◌, ◌^◌, if◌then◌else◌, ◌<◌, ◌≤◌, Bool, true, false, Bool-cases, Option, none,
  some, List, [], ◌∷◌, ◌≢◌, inl, inr, subst, Option-cases, arith,
}
use scrig.Base.Bytes.{Bytes, codes}
use scrig.Base.Fault.{rounds_exhausted, Result, Result-cases, ok, throw}
use scrig.Base.Action.{
  Outcome, value, fails, throws, continue_with, tried, Tried, done, failed, fail, give,
}
use scrig.Json.{
  Doubles, JsonValue, null, bool, double, int64, uint64, string, array, object, cons, JsonObject,
  as_double, find_field,
}
use scrig.Json.Text.{decimal}
use scrig.Json.Parser.{parse_json}
use scrig.Stratum.Text.{find_string}
use scrig.Stratum.Job.{StratumJob}
use scrig.Stratum.Network.{LineResult, line, timed_out, closed}
use scrig.Stratum.Network.Progress.{Takes, line_loop-Takes}
use scrig.Stratum.Client.{
  StratumClient, StratumAction, message_bound, read_json_line, parse_line, line_outcome,
  note_message, read_message, new_difficulty, read_difficulty, field_difficulty,
  announced_difficulty, reply_loop, reply_or_job_loop, or_job, has_jobs, poll_loop, pop_or,
  pop_front, request_response, request_response_or_job, poll_job, send_request, send_json_line,
  request_object, is_set_difficulty, is_reply,
}

-- A step that brings a value takes a byte at least of what is still to come, and none says that
-- a loop ran out of its rounds.
abbrev pub Advances {ℓ} : {A : Type ℓ} → Outcome A × StratumClient → (before : ℕ) → Type 0
Advances (value a, after) before = message_bound after < before
Advances (fails message, after) before = Unit
Advances (throws error, after) before = error ≢ rounds_exhausted

abbrev Ends {ℓ} : {A : Type ℓ} → Result A → Type 0
Ends (ok a) = Unit
Ends (throw error) = error ≢ rounds_exhausted

-- What follows a step: a value is still to come in no more bytes.
abbrev Keeps {ℓ} : {A : Type ℓ} → Outcome A × StratumClient → (before : ℕ) → Type 0
Keeps (value a, after) before = message_bound after ≤ before
Keeps (fails message, after) before = Unit
Keeps (throws error, after) before = error ≢ rounds_exhausted

-- A call that does not run out of the rounds of its loops.
abbrev pub Completes {ℓ} : {A : Type ℓ} → Outcome A × StratumClient → Type 0
Completes (value a, after) = Unit
Completes (fails message, after) = Unit
Completes (throws error, after) = error ≢ rounds_exhausted

abbrev IsValue {ℓ} : {A : Type ℓ} → Outcome A × StratumClient → Type 0
IsValue (value a, after) = Unit
IsValue (fails message, after) = ⊥
IsValue (throws error, after) = ⊥

module _ {A : Type 0} {B : Type 0} where
  then-Advances :
      (o : Outcome A × StratumClient) (f : A → StratumAction B) (n : ℕ)
      → Advances o n
      → ((a : A) (t : StratumClient) → Keeps (f a t) (message_bound t))
      → Advances (continue_with o f) n
  then-Advances (value a, t) f n h keeps = kept (f a t) (keeps a t)
    where
      kept : (o : Outcome B × StratumClient) → Keeps o (message_bound t) → Advances o n
      kept (value b, after) k = omega (arith, h, k)
      kept (fails message, after) k = tt
      kept (throws error, after) k = k
  then-Advances (fails message, t) f n h keeps = tt
  then-Advances (throws error, t) f n h keeps = h

  then-Completes :
      (o : Outcome A × StratumClient) (f : A → StratumAction B) (n : ℕ)
      → Advances o n
      → ((a : A) (t : StratumClient) → message_bound t < n → Completes (f a t))
      → Completes (continue_with o f)
  then-Completes (value a, t) f n h next = next a t h
  then-Completes (fails message, t) f n h next = tt
  then-Completes (throws error, t) f n h next = h

  attempt-Completes :
      (o : Outcome A × StratumClient) (f : Tried A → StratumAction B) (n : ℕ)
      → Advances o n
      → ((a : A) (t : StratumClient) → message_bound t < n → Completes (f (done a) t))
      → ((message : Bytes) (t : StratumClient) → Completes (f (failed message) t))
      → Completes (continue_with (tried o) f)
  attempt-Completes (value a, t) f n h next other = next a t h
  attempt-Completes (fails message, t) f n h next other = other message t
  attempt-Completes (throws error, t) f n h next other = h

module _ (doubles : Doubles) where
  line_outcome-Advances :
      (result : LineResult) (after : StratumClient) (before : ℕ)
      → Takes result (message_bound after) before
      → Advances (line_outcome doubles result, after) before
  unfolding line_outcome
  line_outcome-Advances (line text) after before h = elim (Result-cases (parse_json doubles text)) [
    | inl (message, e) ↦ rw (parse_line, e) h
    | inr (error, e) ↦ rw (parse_line, e) tt
  ]
  line_outcome-Advances timed_out after before h = tt
  line_outcome-Advances closed after before h = tt

  read_json_line-Advances :
      (s : StratumClient) → Advances (read_json_line doubles s) (message_bound s)
  unfolding read_json_line message_bound
  read_json_line-Advances s = elim (Option-cases s.socket) [
    | inl e ↦ rw e tt
    | inr (link, e) ↦ rw e (line_outcome-Advances _ _ _ (line_loop-Takes link.arrivals s.rx_buffer))
  ]

  as_double-Ends : (v : JsonValue) → Ends (as_double doubles v)
  unfolding as_double
  as_double-Ends null = λ h. cc
  as_double-Ends (bool b) = λ h. cc
  as_double-Ends (int64 i) = tt
  as_double-Ends (uint64 n) = tt
  as_double-Ends (double d) = tt
  as_double-Ends (string text) = λ h. cc
  as_double-Ends (array xs) = λ h. cc
  as_double-Ends (object obj) = λ h. cc

  read_difficulty-Ends : (r : Result ℕ) → Ends r → Ends (read_difficulty r)
  read_difficulty-Ends (ok d) h = tt
  read_difficulty-Ends (throw error) h = h

  field_difficulty-Ends :
      (difficulty : Option ℕ) (v : Option JsonValue) → Ends (field_difficulty doubles v difficulty)
  field_difficulty-Ends difficulty none = tt
  field_difficulty-Ends difficulty (some v) = read_difficulty-Ends _ (as_double-Ends v)

  announced_difficulty-Ends :
      (params : Option JsonValue) (difficulty : Option ℕ)
      → Ends (announced_difficulty doubles params difficulty)
  unfolding announced_difficulty
  announced_difficulty-Ends (some (array (cons first rest))) difficulty =
      read_difficulty-Ends _ (as_double-Ends first)
  announced_difficulty-Ends (some (object fields)) difficulty =
      field_difficulty-Ends difficulty (find_field fields (codes "difficulty"))
  announced_difficulty-Ends _ difficulty = tt

  new_difficulty-Ends :
      (obj : JsonObject) (difficulty : Option ℕ) → Ends (new_difficulty doubles obj difficulty)
  unfolding new_difficulty
  new_difficulty-Ends obj difficulty = elim (Option-cases (find_string obj (codes "method"))) [
    | inl e ↦ rw (e, new_difficulty) tt
    | inr (method, e) ↦ elim (Bool-cases (is_set_difficulty method)) [
      | inl h ↦ rw (e, h, new_difficulty) (announced_difficulty-Ends _ difficulty)
      | inr h ↦ rw (e, h, new_difficulty) tt
    ]
  ]

  note_message-Keeps :
      (message : JsonValue) (s : StratumClient)
      → Keeps (note_message doubles message s) (message_bound s)
  unfolding note_message message_bound
  note_message-Keeps (object obj) s =
      elim (Result-cases (new_difficulty doubles obj s.difficulty)) [
        | inl (d, e) ↦ rw (e, note_message) (omega arith)
        | inr (error, e) ↦
            rw (e, note_message) (subst Ends e (new_difficulty-Ends obj s.difficulty))
      ]
  note_message-Keeps _ s = omega arith

  pub read_message-Advances :
      (s : StratumClient) → Advances (read_message doubles s) (message_bound s)
  unfolding read_message
  read_message-Advances s =
      then-Advances _ (note_message doubles) _ (read_json_line-Advances s) note_message-Keeps

  reply_loop-Completes :
      (rounds : ℕ) (req_id : Bytes) (s : StratumClient)
      → message_bound s < rounds
      → Completes (reply_loop doubles rounds req_id s)
  unfolding reply_loop
  reply_loop-Completes zero req_id s h = elim h [ ]
  reply_loop-Completes (suc rounds) req_id s h =
      then-Completes (read_message doubles s) _ _ (read_message-Advances s) λ msg t less.
        elim (Bool-cases (is_reply msg.id req_id)) [
          | inl e ↦ rw e tt
          | inr e ↦ rw e (reply_loop-Completes rounds req_id t (omega (arith, h, less)))
        ]

  or_job-Completes :
      (otherwise : StratumAction JsonValue) (s : StratumClient)
      → Completes (otherwise s)
      → Completes (or_job otherwise s)
  or_job-Completes otherwise s h = elim (Bool-cases (has_jobs s)) [
    | inl e ↦ rw (e, or_job) tt
    | inr e ↦ rw (e, or_job) h
  ]

  reply_or_job_loop-Completes :
      (rounds : ℕ) (req_id : Bytes) (s : StratumClient)
      → message_bound s < rounds
      → Completes (reply_or_job_loop doubles rounds req_id s)
  unfolding reply_or_job_loop
  reply_or_job_loop-Completes zero req_id s h = elim h [ ]
  reply_or_job_loop-Completes (suc rounds) req_id s h =
      attempt-Completes (read_message doubles s) _ _ (read_message-Advances s)
        (λ msg t less. elim (Bool-cases (is_reply msg.id req_id)) [
          | inl e ↦ rw e tt
          | inr e ↦ rw e (
              or_job-Completes (reply_or_job_loop doubles rounds req_id) t
                (reply_or_job_loop-Completes rounds req_id t (omega (arith, h, less))))
        ])
        (λ message t. or_job-Completes (fail message) t tt)

  pop_or-Completes :
      (otherwise : StratumAction StratumJob) (s : StratumClient)
      → Completes (otherwise s)
      → Completes (pop_or otherwise s)
  unfolding pop_or
  pop_or-Completes otherwise s h = at_front s.queued_jobs
    where
      at_front : (jobs : List StratumJob) → Completes (pop_front jobs otherwise s)
      at_front [] = h
      at_front (job ∷ jobs) = tt

  poll_loop-Completes :
      (rounds : ℕ) (s : StratumClient)
      → message_bound s < rounds
      → Completes (poll_loop doubles rounds s)
  unfolding poll_loop
  poll_loop-Completes zero s h = elim h [ ]
  poll_loop-Completes (suc rounds) s h =
      then-Completes (read_message doubles s) _ _ (read_message-Advances s) λ msg t less.
        pop_or-Completes (poll_loop doubles rounds) t
          (poll_loop-Completes rounds t (omega (arith, h, less)))

  send_json_line-IsValue :
      (message : JsonValue) (s : StratumClient) → IsValue (send_json_line doubles message s)
  unfolding send_json_line
  send_json_line-IsValue message s = elim (Option-cases s.socket) [
    | inl e ↦ rw e tt
    | inr (link, e) ↦ rw e tt
  ]

  send_request-Completes :
      (method : Bytes) (params : JsonValue) (jsonrpc : Bool) (s : StratumClient)
      (f : ℕ → StratumAction JsonValue)
      → ((id : ℕ) (t : StratumClient) → Completes (f id t))
      → Completes (continue_with (send_request doubles method params jsonrpc s) f)
  unfolding send_request
  send_request-Completes method params jsonrpc s f h =
      let request = request_object s.next_request_id method params jsonrpc in
      let asked : StratumClient = record s { next_request_id = (s.next_request_id + 1) % 2 ^ 64 } in
      at_end (send_json_line doubles request asked) (send_json_line-IsValue request asked)
    where
      at_end :
          (o : Outcome Bool × StratumClient)
          → IsValue o
          → Completes (
              continue_with
                (continue_with o (λ sent.
                  if sent
                  then give s.next_request_id
                  else fail (codes "failed to send pool request")))
                f)
      at_end (value true, t) v = h s.next_request_id t
      at_end (value false, t) v = tt
      at_end (fails message, t) v = elim v [ ]
      at_end (throws error, t) v = elim v [ ]

  -- None of request_response, request_response_or_job and poll_job throws the error that stands for
  -- a loop that has run out of its rounds.
  pub request_response-Completes :
      (method : Bytes) (params : JsonValue) (jsonrpc : Bool) (s : StratumClient)
      → Completes (request_response doubles method params jsonrpc s)
        × Completes (request_response_or_job doubles method params jsonrpc s)
        × Completes (poll_job doubles s)
  unfolding request_response request_response_or_job poll_job
  request_response-Completes method params jsonrpc s = (
    send_request-Completes method params jsonrpc s _
        λ id t. reply_loop-Completes (message_bound t + 1) (decimal id) t (omega arith),
    send_request-Completes method params jsonrpc s _
        λ id t. reply_or_job_loop-Completes (message_bound t + 1) (decimal id) t (omega arith),
    pop_or-Completes (λ t. poll_loop doubles (message_bound t + 1) t) s
        (poll_loop-Completes (message_bound s + 1) s (omega arith)),
  )
