-- ===== src/Stratum/Client/Answers.antt =====
-- What the requests of src/stratum_client.cpp return, and what becomes of the queue of jobs meanwhile.
use scrig.Base.{
  ℕ, zero, suc, ◌+◌, ◌%◌, ◌^◌, Bool, true, false, Bool-cases, Option, none, some, List, [], ◌∷◌,
  ◌++◌, append_assoc, append-nil, Option-cases, List-cases, if◌then◌else◌, ◌≡◌, ◌⊎◌, inl, inr, refl,
  subst, sym, ap, ◌∙◌,
}
use scrig.Base.Bytes.{Bytes, codes}
use scrig.Base.Fault.{Result-cases}
use scrig.Base.Action.{
  Outcome, value, fails, throws, continue_with, tried, Tried, done, failed, fail, give,
}
use scrig.Json.{Doubles, JsonValue, null, object}
use scrig.Json.Text.{decimal}
use scrig.Stratum.Job.{StratumJob}
use scrig.Stratum.Client.{
  StratumClient, StratumAction, ParsedMessage, message_id, message_bound, read_json_line,
  line_outcome, new_difficulty, note_message, read_message, push_job, request_object,
  send_json_line, send_request, is_reply, reply_loop, request_response, has_jobs, or_job,
  reply_or_job_loop, request_response_or_job, pop_front, pop_or, poll_loop, poll_job,
}

-- A queue that has only grown, at its end.
abbrev pub Extends {ℓ} : {A : Type ℓ} → (old new : List A) → Type ℓ
Extends {A = A} old new = (more : List A) × (new ≡ old ++ more)

Extends-refl {ℓ} : {A : Type ℓ} (xs : List A) → Extends xs xs
Extends-refl xs = ([], sym (append-nil xs))

Extends-trans {ℓ} : {A : Type ℓ} (xs ys zs : List A) → Extends xs ys → Extends ys zs → Extends xs zs
Extends-trans xs ys zs (m, e) (n, d) = (m ++ n, d ∙ ap (λ l. l ++ n) e ∙ append_assoc xs m n)

Extends-push_job :
    (job : Option StratumJob) (jobs : List StratumJob) → Extends jobs (push_job job jobs)
Extends-push_job none jobs = Extends-refl jobs
Extends-push_job (some job) jobs = (job ∷ [], refl)

-- A value with the property, and in every case the jobs that were queued before, in front of the
-- jobs that have come since.
abbrev pub Gives :
    {A : Type 0}
    → (A → StratumClient → Type 0)
    → (queue : List StratumJob) → Outcome A × StratumClient
    → Type 0
Gives P queue (value a, t) = P a t × Extends queue t.queued_jobs
Gives P queue (fails message, t) = Extends queue t.queued_jobs
Gives P queue (throws error, t) = Extends queue t.queued_jobs

-- The id of a message, as read_message reads it.
abbrev pub id_of : JsonValue → Option Bytes
id_of (object obj) = message_id obj
id_of _ = none

abbrev pub IsReplyTo : (id : Bytes) → JsonValue → StratumClient → Type 0
IsReplyTo id reply _ = is_reply (id_of reply) id ≡ true

abbrev IsParsed : ParsedMessage → StratumClient → Type 0
IsParsed msg _ = msg.id ≡ id_of msg.message

abbrev Anything : {A : Type 0} → A → StratumClient → Type 0
Anything a t = Unit

module _ {A : Type 0} {B : Type 0} (P : A → StratumClient → Type 0)
    (Q : B → StratumClient → Type 0) where
  Gives-widen :
      (q r : List StratumJob) (o : Outcome B × StratumClient)
      → Extends q r
      → Gives Q r o
      → Gives Q q o
  Gives-widen q r (value b, t) le (h, g) = (h, Extends-trans _ _ _ le g)
  Gives-widen q r (fails message, t) le g = Extends-trans _ _ _ le g
  Gives-widen q r (throws error, t) le g = Extends-trans _ _ _ le g

  then-Gives :
      (q : List StratumJob) (o : Outcome A × StratumClient) (f : A → StratumAction B)
      → Gives P q o
      → ((a : A) (t : StratumClient) → P a t → Gives Q t.queued_jobs (f a t))
      → Gives Q q (continue_with o f)
  then-Gives q (value a, t) f (h, g) next = Gives-widen _ _ (f a t) g (next a t h)
  then-Gives q (fails message, t) f g next = g
  then-Gives q (throws error, t) f g next = g

  attempt-Gives :
      (q : List StratumJob) (o : Outcome A × StratumClient) (f : Tried A → StratumAction B)
      → Gives P q o
      → ((a : A) (t : StratumClient) → P a t → Gives Q t.queued_jobs (f (done a) t))
      → ((message : Bytes) (t : StratumClient) → Gives Q t.queued_jobs (f (failed message) t))
      → Gives Q q (continue_with (tried o) f)
  attempt-Gives q (value a, t) f (h, g) next other = Gives-widen _ _ (f (done a) t) g (next a t h)
  attempt-Gives q (fails message, t) f g next other =
      Gives-widen _ _ (f (failed message) t) g (other message t)
  attempt-Gives q (throws error, t) f g next other = g

Anything-Gives :
    {A : Type 0} (q : List StratumJob) (o : Outcome A) (t : StratumClient)
    → Extends q t.queued_jobs
    → Gives Anything q (o, t)
Anything-Gives q (value a) t g = (tt, g)
Anything-Gives q (fails message) t g = g
Anything-Gives q (throws error) t g = g

-- The value of request_response_or_job: null stands for a queue that has a job.
abbrev pub IsReplyOrJob : (id : Bytes) → JsonValue → StratumClient → Type 0
IsReplyOrJob id reply t = IsReplyTo id reply t ⊎ ((reply ≡ null) × (has_jobs t ≡ true))

or_job-Gives :
    (req_id : Bytes) (otherwise : StratumAction JsonValue) (t : StratumClient)
    → Gives (IsReplyOrJob req_id) t.queued_jobs (otherwise t)
    → Gives (IsReplyOrJob req_id) t.queued_jobs (or_job otherwise t)
or_job-Gives req_id otherwise t g = elim (Bool-cases (has_jobs t)) [
  | inl e ↦ rw (e, or_job) (inr (refl, e), Extends-refl t.queued_jobs)
  | inr e ↦ rw (e, or_job) g
]

-- A job that is handed out was the first of the queue and of what has come since.
abbrev pub IsFront : (queue : List StratumJob) → Outcome StratumJob × StratumClient → Type 0
IsFront queue (value job, t) = Extends queue (job ∷ t.queued_jobs)
IsFront queue (fails message, t) = Extends queue t.queued_jobs
IsFront queue (throws error, t) = Extends queue t.queued_jobs

IsFront-widen :
    (q r : List StratumJob) (o : Outcome StratumJob × StratumClient)
    → Extends q r
    → IsFront r o
    → IsFront q o
IsFront-widen q r (value job, t) le g = Extends-trans _ _ _ le g
IsFront-widen q r (fails message, t) le g = Extends-trans _ _ _ le g
IsFront-widen q r (throws error, t) le g = Extends-trans _ _ _ le g

pop_or-IsFront :
    (otherwise : StratumAction StratumJob) (s : StratumClient)
    → IsFront s.queued_jobs (otherwise s)
    → IsFront s.queued_jobs (pop_or otherwise s)
unfolding pop_or
pop_or-IsFront otherwise s g = elim (List-cases s.queued_jobs) [
  | inl e ↦ subst (λ q. IsFront s.queued_jobs (pop_front q otherwise s)) (sym e) g
  | inr (job, jobs, e) ↦
      subst (λ q. IsFront q (pop_front q otherwise s)) (sym e) (Extends-refl (job ∷ jobs))
]

module _ (doubles : Doubles) where
  read_json_line-Gives :
      (s : StratumClient) → Gives Anything s.queued_jobs (read_json_line doubles s)
  unfolding read_json_line
  read_json_line-Gives s = elim (Option-cases s.socket) [
    | inl e ↦ rw e (Extends-refl s.queued_jobs)
    | inr (link, e) ↦
        rw e (Anything-Gives _ (line_outcome doubles _) _ (Extends-refl s.queued_jobs))
  ]

  note_message-Gives :
      (message : JsonValue) (s : StratumClient)
      → Gives IsParsed s.queued_jobs (note_message doubles message s)
  unfolding note_message
  note_message-Gives (object obj) s =
      elim (Result-cases (new_difficulty doubles obj s.difficulty)) [
        | inl (d, e) ↦ rw (e, note_message) (refl, Extends-push_job _ s.queued_jobs)
        | inr (error, e) ↦ rw (e, note_message) (Extends-refl s.queued_jobs)
      ]
  note_message-Gives _ s = (refl, Extends-refl s.queued_jobs)

  read_message-Gives : (s : StratumClient) → Gives IsParsed s.queued_jobs (read_message doubles s)
  unfolding read_message
  read_message-Gives s =
      then-Gives Anything IsParsed _ _ (note_message doubles) (read_json_line-Gives s)
        λ message t _. note_message-Gives message t

  reply_loop-Gives :
      (rounds : ℕ) (req_id : Bytes) (s : StratumClient)
      → Gives (IsReplyTo req_id) s.queued_jobs (reply_loop doubles rounds req_id s)
  unfolding reply_loop
  reply_loop-Gives zero req_id s = Extends-refl s.queued_jobs
  reply_loop-Gives (suc rounds) req_id s =
      then-Gives IsParsed (IsReplyTo req_id) _ (read_message doubles s) _ (read_message-Gives s)
        λ msg t parsed. elim (Bool-cases (is_reply msg.id req_id)) [
          | inl e ↦
              rw e (ap (λ id. is_reply id req_id) (sym parsed) ∙ e, Extends-refl t.queued_jobs)
          | inr e ↦ rw e (reply_loop-Gives rounds req_id t)
        ]

  reply_or_job_loop-Gives :
      (rounds : ℕ) (req_id : Bytes) (s : StratumClient)
      → Gives (IsReplyOrJob req_id) s.queued_jobs (reply_or_job_loop doubles rounds req_id s)
  unfolding reply_or_job_loop
  reply_or_job_loop-Gives zero req_id s = Extends-refl s.queued_jobs
  reply_or_job_loop-Gives (suc rounds) req_id s =
      attempt-Gives IsParsed (IsReplyOrJob req_id) _ (read_message doubles s) _
        (read_message-Gives s)
        (λ msg t parsed. elim (Bool-cases (is_reply msg.id req_id)) [
          | inl e ↦
              rw e
                (inl (ap (λ id. is_reply id req_id) (sym parsed) ∙ e), Extends-refl t.queued_jobs)
          | inr e ↦ rw e (
              or_job-Gives req_id (reply_or_job_loop doubles rounds req_id) t
                (reply_or_job_loop-Gives rounds req_id t))
        ])
        (λ message t. or_job-Gives req_id (fail message) t (Extends-refl t.queued_jobs))

  send_json_line-Gives :
      (message : JsonValue) (s : StratumClient)
      → Gives Anything s.queued_jobs (send_json_line doubles message s)
  unfolding send_json_line
  send_json_line-Gives message s = elim (Option-cases s.socket) [
    | inl e ↦ rw e (tt, Extends-refl s.queued_jobs)
    | inr (link, e) ↦ rw e (tt, Extends-refl s.queued_jobs)
  ]

  send_request-Gives :
      (method : Bytes) (params : JsonValue) (jsonrpc : Bool) (s : StratumClient)
      → Gives
          (λ id _. id ≡ s.next_request_id)
          s.queued_jobs
          (send_request doubles method params jsonrpc s)
  unfolding send_request
  send_request-Gives method params jsonrpc s =
      let request = request_object s.next_request_id method params jsonrpc in
      let asked : StratumClient = record s { next_request_id = (s.next_request_id + 1) % 2 ^ 64 } in
      then-Gives Anything (λ id _. id ≡ s.next_request_id) _ (send_json_line doubles request asked)
        _ (send_json_line-Gives request asked) λ sent t _. at_end sent t
    where
      at_end :
          (sent : Bool) (t : StratumClient)
          → Gives
              (λ id _. id ≡ s.next_request_id)
              t.queued_jobs
              ((if sent then give s.next_request_id else fail (codes "failed to send pool request"))
                t)
      at_end true t = (refl, Extends-refl t.queued_jobs)
      at_end false t = Extends-refl t.queued_jobs

  -- Whatever the pool sends: the value that request_response returns is a message with the id of
  -- this very request, the one that request_response_or_job returns is such a message or, while a
  -- job is queued, null; and whether they return, fail or throw, the jobs that were queued are all
  -- still queued, in their order, in front of those that have come since.
  pub request_response-Gives :
      (method : Bytes) (params : JsonValue) (jsonrpc : Bool) (s : StratumClient)
      → Gives
          (IsReplyTo (decimal s.next_request_id))
          s.queued_jobs
          (request_response doubles method params jsonrpc s)
        × Gives
            (IsReplyOrJob (decimal s.next_request_id))
            s.queued_jobs
            (request_response_or_job doubles method params jsonrpc s)
  unfolding request_response request_response_or_job
  request_response-Gives method params jsonrpc s =
      let req_id = decimal s.next_request_id in
      (
        then-Gives (λ id _. id ≡ s.next_request_id) (IsReplyTo req_id) _
            (send_request doubles method params jsonrpc s) _
            (send_request-Gives method params jsonrpc s)
            (λ id t e. rw e (reply_loop-Gives (message_bound t + 1) req_id t)),
        then-Gives (λ id _. id ≡ s.next_request_id) (IsReplyOrJob req_id) _
            (send_request doubles method params jsonrpc s) _
            (send_request-Gives method params jsonrpc s)
            (λ id t e. rw e (reply_or_job_loop-Gives (message_bound t + 1) req_id t)),
      )

  poll_loop-IsFront :
      (rounds : ℕ) (s : StratumClient) → IsFront s.queued_jobs (poll_loop doubles rounds s)
  unfolding poll_loop
  poll_loop-IsFront zero s = Extends-refl s.queued_jobs
  poll_loop-IsFront (suc rounds) s =
      after (read_message doubles s) (poll_loop doubles rounds) (read_message-Gives s)
        (poll_loop-IsFront rounds)
    where
      after :
          (o : Outcome ParsedMessage × StratumClient) (next : StratumAction StratumJob)
          → Gives IsParsed s.queued_jobs o
          → ((t : StratumClient) → IsFront t.queued_jobs (next t))
          → IsFront s.queued_jobs (continue_with o λ _. pop_or next)
      after (value msg, t) next (_, g) front =
          IsFront-widen _ _ (pop_or next t) g (pop_or-IsFront next t (front t))
      after (fails message, t) next g front = g
      after (throws error, t) next g front = g

  -- poll_job hands the jobs out in the order in which they came: the job it returns and the jobs
  -- that it leaves in the queue are, in this order, the jobs that were queued and those that have
  -- come since; where it fails or throws, none is lost.
  pub poll_job-IsFront : (s : StratumClient) → IsFront s.queued_jobs (poll_job doubles s)
  unfolding poll_job
  poll_job-IsFront s =
      pop_or-IsFront (λ t. poll_loop doubles (message_bound t + 1) t) s
        (poll_loop-IsFront (message_bound s + 1) s)
