-- ===== src/Stratum/Client/Reply.antt =====
-- How request_response of src/stratum_client.cpp ends on the lines of a pool.
pub mod Found
use scrig.Base.{ℕ, true, false, Option, none, some, List, [], ◌∷◌, ◌++◌, ◌≡◌, ◌⊎◌}
use scrig.Base.Bytes.{Bytes, codes}
use scrig.Base.Fault.{Error, Result, ok, throw}
use scrig.Base.Action.{Outcome, value, fails, throws}
use scrig.Json.{Doubles, JsonValue, object}
use scrig.Json.Parser.{parse_json}
use scrig.Stratum.Job.{StratumJob, parse_job_from_message}
use scrig.Stratum.Network.Lines.{upcoming}
use scrig.Stratum.Network.Stream.{lines_of}
use scrig.Stratum.Client.{StratumClient, what, push_job, is_reply, new_difficulty}
use scrig.Stratum.Client.Answers.{id_of}

-- How a request ends on the lines that follow it.
pub data Ending : Type 0 where
  answered : (reply : JsonValue) → (left : List Bytes) → Ending
  spoilt : Error → Ending
  crashed : Error → Ending
  unanswered : Ending

module _ (doubles : Doubles) where
  -- What a message makes of the difficulty and of the queue of jobs.
  unfoldable pub hear :
      JsonValue
      → (difficulty : Option ℕ) → (jobs : List StratumJob) → Result (Option ℕ × List StratumJob)
  hear message difficulty jobs = elim message [
    | object obj ↦ elim (new_difficulty doubles obj difficulty) [
      | throw error ↦ throw error
      | ok new ↦ ok (new, push_job (parse_job_from_message doubles (object obj) new) jobs)
    ]
    | _ ↦ ok (difficulty, jobs)
  ]

  -- The first message with the id of the request, when every line before it is a message that can
  -- be heard.
  unfoldable pub respond :
      (req_id : Bytes)
      → List Bytes
      → (difficulty : Option ℕ) → (jobs : List StratumJob) → Ending × Option ℕ × List StratumJob
  unfolding hear
  respond req_id [] difficulty jobs = (unanswered, difficulty, jobs)
  respond req_id (text ∷ lines) difficulty jobs = elim (parse_json doubles text) [
    | throw error ↦ (spoilt error, difficulty, jobs)
    | ok message ↦ elim (hear message difficulty jobs) [
      | throw error ↦ (crashed error, difficulty, jobs)
      | ok (new, queue) ↦ elim (is_reply (id_of message) req_id) [
        | true ↦ (answered message lines, new, queue)
        | false ↦ respond req_id lines new queue
      ]
    ]
  ]

-- The lines that come before the next silence or the end of the connection.
unfoldable pub lines_now : StratumClient → List Bytes
unfolding lines_of
lines_now s = elim s.socket [
  | none ↦ []
  | some link ↦ lines_of (s.rx_buffer ++ upcoming link.arrivals) []
]

abbrev pub IsEnd : (message : Bytes) → Type 0
IsEnd message =
    (message ≡ codes "timeout waiting for pool message")
    ⊎ (message ≡ codes "pool connection closed")

-- The state that a call leaves.
abbrev pub Noted : StratumClient → (difficulty : Option ℕ) → (jobs : List StratumJob) → Type 0
Noted t difficulty jobs = (t.difficulty ≡ difficulty) × (t.queued_jobs ≡ jobs)

-- A call that ends in this way.
abbrev pub Matches :
    Ending × Option ℕ × List StratumJob → Outcome JsonValue × StratumClient → Type 0
Matches (answered reply left, d, q) (value v, t) = (v ≡ reply) × (lines_now t ≡ left) × Noted t d q
Matches (spoilt error, d, q) (fails message, t) =
    (message ≡ codes "invalid stratum JSON: " ++ what error) × Noted t d q
Matches (crashed error, d, q) (throws e, t) = (e ≡ error) × Noted t d q
Matches (unanswered, d, q) (fails message, t) = IsEnd message × Noted t d q
Matches _ _ = ⊥
