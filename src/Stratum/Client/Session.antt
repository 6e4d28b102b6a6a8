-- ===== src/Stratum/Client/Session.antt =====
-- The request id, the mode and the session of src/stratum_client.cpp while messages are read.
use scrig.Base.{
  ℕ, zero, suc, ◌+◌, ◌%◌, ◌^◌, Bool, true, false, Bool-cases, Option, List, [], ◌∷◌, Option-cases,
  if◌then◌else◌, ◌≡◌, inl, inr, refl, ◌∙◌,
}
use scrig.Base.Bytes.{Bytes, codes}
use scrig.Base.Fault.{Result-cases}
use scrig.Base.Action.{
  Outcome, value, fails, throws, continue_with, tried, Tried, done, failed, fail, give,
}
use scrig.Json.{Doubles, JsonValue, object}
use scrig.Json.Text.{decimal}
use scrig.Stratum.Job.{StratumJob}
use scrig.Stratum.Client.{
  Mode, StratumClient, StratumAction, message_bound, read_json_line, new_difficulty, note_message,
  read_message, request_object, send_json_line, send_request, is_reply, reply_loop,
  request_response, pop_front, pop_or, poll_loop, poll_job,
}

abbrev pub Session : Type 0
Session = ℕ × Mode × Option Bytes

abbrev pub session : StratumClient → Session
session s = (s.next_request_id, s.mode, s.session_id)

-- A step that leaves this session, however it ends.
abbrev pub IsIn : {A : Type 0} → Session → Outcome A × StratumClient → Type 0
IsIn x (_, t) = session t ≡ x

module _ {A : Type 0} {B : Type 0} (x : Session) where
  pub then-IsIn :
      (o : Outcome A × StratumClient) (f : A → StratumAction B)
      → IsIn x o
      → ((a : A) (t : StratumClient) → session t ≡ x → IsIn x (f a t))
      → IsIn x (continue_with o f)
  then-IsIn (value a, t) f h next = next a t h
  then-IsIn (fails message, t) f h next = h
  then-IsIn (throws error, t) f h next = h

  attempt-IsIn :
      (o : Outcome A × StratumClient) (f : Tried A → StratumAction B)
      → IsIn x o
      → ((r : Tried A) (t : StratumClient) → session t ≡ x → IsIn x (f r t))
      → IsIn x (continue_with (tried o) f)
  attempt-IsIn (value a, t) f h next = next (done a) t h
  attempt-IsIn (fails message, t) f h next = next (failed message) t h
  attempt-IsIn (throws error, t) f h next = h

-- The session after a request, sent or not.
abbrev pub asked : StratumClient → StratumClient
asked s = record s { next_request_id = (s.next_request_id + 1) % 2 ^ 64 }

module _ (doubles : Doubles) where
  read_json_line-IsIn : (s : StratumClient) → IsIn (session s) (read_json_line doubles s)
  unfolding read_json_line
  read_json_line-IsIn s = elim (Option-cases s.socket) [
    | inl e ↦ rw e refl
    | inr (link, e) ↦ rw e refl
  ]

  note_message-IsIn :
      (message : JsonValue) (s : StratumClient) → IsIn (session s) (note_message doubles message s)
  unfolding note_message
  note_message-IsIn (object obj) s = elim (Result-cases (new_difficulty doubles obj s.difficulty)) [
    | inl (d, e) ↦ rw (e, note_message) refl
    | inr (error, e) ↦ rw (e, note_message) refl
  ]
  note_message-IsIn _ s = refl

  module _ (x : Session) where
    read_message-IsIn : (s : StratumClient) → session s ≡ x → IsIn x (read_message doubles s)
    unfolding read_message
    read_message-IsIn s h =
        then-IsIn x _ (note_message doubles) (read_json_line-IsIn s ∙ h)
          λ message t k. note_message-IsIn message t ∙ k

    reply_loop-IsIn :
        (rounds : ℕ) (req_id : Bytes) (s : StratumClient)
        → session s ≡ x
        → IsIn x (reply_loop doubles rounds req_id s)
    unfolding reply_loop
    reply_loop-IsIn zero req_id s h = h
    reply_loop-IsIn (suc rounds) req_id s h =
        then-IsIn x (read_message doubles s) _ (read_message-IsIn s h) λ msg t k.
          elim (Bool-cases (is_reply msg.id req_id)) [
            | inl e ↦ rw e k
            | inr e ↦ rw e (reply_loop-IsIn rounds req_id t k)
          ]

    pop_or-IsIn :
        (otherwise : StratumAction StratumJob) (s : StratumClient)
        → session s ≡ x
        → IsIn x (otherwise s)
        → IsIn x (pop_or otherwise s)
    unfolding pop_or
    pop_or-IsIn otherwise s h k = at_front s.queued_jobs
      where
        at_front : (jobs : List StratumJob) → IsIn x (pop_front jobs otherwise s)
        at_front [] = k
        at_front (job ∷ jobs) = h

    poll_loop-IsIn :
        (rounds : ℕ) (s : StratumClient) → session s ≡ x → IsIn x (poll_loop doubles rounds s)
    unfolding poll_loop
    poll_loop-IsIn zero s h = h
    poll_loop-IsIn (suc rounds) s h =
        then-IsIn x (read_message doubles s) _ (read_message-IsIn s h)
          λ msg t k. pop_or-IsIn (poll_loop doubles rounds) t k (poll_loop-IsIn rounds t k)

  pub poll_job-IsIn : (s : StratumClient) → IsIn (session s) (poll_job doubles s)
  unfolding poll_job
  poll_job-IsIn s =
      pop_or-IsIn (session s) (λ t. poll_loop doubles (message_bound t + 1) t) s refl
        (poll_loop-IsIn (session s) (message_bound s + 1) s refl)

  send_json_line-IsIn :
      (message : JsonValue) (s : StratumClient)
      → IsIn (session s) (send_json_line doubles message s)
  unfolding send_json_line
  send_json_line-IsIn message s = elim (Option-cases s.socket) [
    | inl e ↦ rw e refl
    | inr (link, e) ↦ rw e refl
  ]

  send_request-IsIn :
      (method : Bytes) (params : JsonValue) (jsonrpc : Bool) (s : StratumClient)
      → IsIn (session (asked s)) (send_request doubles method params jsonrpc s)
  unfolding send_request
  send_request-IsIn method params jsonrpc s =
      let request = request_object s.next_request_id method params jsonrpc in
      then-IsIn (session (asked s)) (send_json_line doubles request (asked s)) _
        (send_json_line-IsIn request (asked s)) λ sent t k. at_end sent t k
    where
      at_end :
          (sent : Bool) (t : StratumClient)
          → session t ≡ session (asked s)
          → IsIn (session (asked s)) (
              (if sent then give s.next_request_id else fail (codes "failed to send pool request"))
                t)
      at_end true t k = k
      at_end false t k = k

  pub request_response-IsIn :
      (method : Bytes) (params : JsonValue) (jsonrpc : Bool) (s : StratumClient)
      → IsIn (session (asked s)) (request_response doubles method params jsonrpc s)
  unfolding request_response
  request_response-IsIn method params jsonrpc s =
      then-IsIn (session (asked s)) (send_request doubles method params jsonrpc s) _
        (send_request-IsIn method params jsonrpc s)
        λ id t k. reply_loop-IsIn (session (asked s)) (message_bound t + 1) (decimal id) t k
