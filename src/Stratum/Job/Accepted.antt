-- ===== src/Stratum/Job/Accepted.antt =====
-- What a job that the parse_ functions of src/stratum_client.cpp accept has.
use scrig.Base.{
  ℕ, ◌+◌, ◌^◌, ◌<◌, ◌≤◌, true, Option, none, some, Option-cases, length, ◌≡◌, ◌⊎◌, inl, inr, subst,
  arith,
}
use scrig.Base.Bytes.{Bytes, codes}
use scrig.Json.{Doubles, JsonValue, JsonObject, object}
use scrig.Stratum.Text.{find_string}
use scrig.Stratum.Job.{
  StratumJob, find_hex, parse_nonce_offset, accept_job, parse_job_from_object,
  parse_job_from_notify_params, parse_job_from_mining_job_params, notify_params_object,
  mining_params_object, parse_job_params, parse_method, parse_notification, parse_reply_job,
  parse_job_from_message,
}

-- The blob is not empty; the four bytes of the nonce lie within it, unless the 32-bit sum of the test
-- has wrapped; and there is a target.
pub record IsAccepted (job : StratumJob) : Type 0 where
  pub blob : 0 < length job.blob
  pub nonce : (job.nonce_offset + 4 ≤ length job.blob) ⊎ (2 ^ 32 ≤ job.nonce_offset + 4)
  pub target : (0 < job.target_le) ⊎ (job.has_target_be ≡ true)

accept_job_lem :
    (made job : StratumJob)
    → accept_job made ≡ some job
    → made.nonce_offset < 2 ^ 32
    → (made ≡ job)
      × ((made.nonce_offset + 4 ≤ length made.blob) ⊎ (2 ^ 32 ≤ made.nonce_offset + 4))
      × ((0 < made.target_le) ⊎ (made.has_target_be ≡ true))
unfolding accept_job
accept_job_lem made job h small = ground arith

parse_nonce_offset-lt : (obj : JsonObject) → parse_nonce_offset obj < 2 ^ 32
unfolding parse_nonce_offset
parse_nonce_offset-lt obj = ground arith

find_hex-nonempty :
    (obj : JsonObject) (key bytes : Bytes) → find_hex obj key ≡ some bytes → 0 < length bytes
unfolding find_hex
find_hex-nonempty obj key bytes h = ground arith

module _ (doubles : Doubles) (job : StratumJob) where
  parse_job_from_object-IsAccepted :
      (obj : JsonObject) (difficulty : Option ℕ)
      → parse_job_from_object doubles obj difficulty ≡ some job
      → IsAccepted job
  unfolding parse_job_from_object
  parse_job_from_object-IsAccepted obj difficulty h =
      elim (Option-cases (find_string obj (codes "job_id"))) [
        | inl e ↦ absurd (cc (rw (e, parse_job_from_object) at h))
        | inr (id, e) ↦ elim (Option-cases (find_hex obj (codes "blob"))) [
          | inl e' ↦ absurd (cc (rw e' at (rw (e, parse_job_from_object) at h)))
          | inr (blob, e') ↦
              let (same, nonce, target) =
                accept_job_lem _ job (rw e' at (rw (e, parse_job_from_object) at h))
                  (parse_nonce_offset-lt obj) in
              subst IsAccepted same (record {
                blob = find_hex-nonempty obj (codes "blob") blob e';
                nonce = nonce;
                target = target;
              })
        ]
      ]

  -- A job made from the object that some parameters stand for.
  maybe_object-IsAccepted :
      (params : Option JsonObject) (difficulty : Option ℕ)
      → elim params [ some obj ↦ parse_job_from_object doubles obj difficulty | none ↦ none ]
        ≡ some job
      → IsAccepted job
  maybe_object-IsAccepted none difficulty h = absurd (cc h)
  maybe_object-IsAccepted (some obj) difficulty h =
      parse_job_from_object-IsAccepted obj difficulty h

  parse_reply_job-IsAccepted :
      (obj : JsonObject) (difficulty : Option ℕ)
      → parse_reply_job doubles obj difficulty ≡ some job
      → IsAccepted job
  unfolding parse_reply_job
  parse_reply_job-IsAccepted obj difficulty h = grind (arith, parse_job_from_object-IsAccepted)

  parse_job_params-IsAccepted :
      (params : JsonValue) (difficulty : Option ℕ)
      → parse_job_params doubles params difficulty ≡ some (some job)
      → IsAccepted job
  unfolding parse_job_params
  parse_job_params-IsAccepted params difficulty h = grind (arith, parse_job_from_object-IsAccepted)

  parse_method-IsAccepted :
      (method : Bytes) (params : JsonValue) (difficulty : Option ℕ)
      → parse_method doubles method params difficulty ≡ some (some job)
      → IsAccepted job
  unfolding parse_method parse_job_from_notify_params parse_job_from_mining_job_params
  parse_method-IsAccepted method params difficulty h = ground (
    arith,
    parse_job_params-IsAccepted params difficulty,
    maybe_object-IsAccepted (notify_params_object doubles params) difficulty,
    maybe_object-IsAccepted (mining_params_object doubles params) difficulty,
  )

  parse_notification-IsAccepted :
      (obj : JsonObject) (difficulty : Option ℕ)
      → parse_notification doubles obj difficulty ≡ some (some job)
      → IsAccepted job
  unfolding parse_notification
  parse_notification-IsAccepted obj difficulty h = grind (arith, parse_method-IsAccepted)

  message_object-IsAccepted :
      (obj : JsonObject) (difficulty : Option ℕ)
      → parse_job_from_message doubles (object obj) difficulty ≡ some job
      → IsAccepted job
  unfolding parse_job_from_message
  message_object-IsAccepted obj difficulty h = ground (
    arith,
    parse_notification-IsAccepted obj difficulty,
    parse_reply_job-IsAccepted obj difficulty,
  )

-- A job that is made of a message has a blob that is not empty and a target, and the four bytes of
-- its nonce lie within the blob unless the 32-bit sum of the test wraps.
pub parse_job_from_message-IsAccepted :
    (doubles : Doubles) (msg : JsonValue) (difficulty : Option ℕ) (job : StratumJob)
    → parse_job_from_message doubles msg difficulty ≡ some job
    → IsAccepted job
parse_job_from_message-IsAccepted doubles (object obj) difficulty job h =
    message_object-IsAccepted doubles job obj difficulty h
parse_job_from_message-IsAccepted doubles _ difficulty job h =
    absurd (unfold parse_job_from_message in cc h)
