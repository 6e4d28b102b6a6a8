-- ===== src/Stratum/Submit.antt =====
-- submit_share of src/stratum_client.cpp.
pub mod Fate
use scrig.Base.{
  ℕ, Bool, true, false, ◌&&◌, ◌||◌, Option, none, some, List, [], ◌∷◌, ◌++◌, if◌then◌else◌,
}
use scrig.Base.Bytes.{Bytes, codes, bytes_eq}
use scrig.Base.Action.{
  Action, ◌>>=◌, ◌>>◌, give, fail, get, attempt, Tried, done, failed, message_or,
}
use scrig.Json.{Doubles, JsonValue, bool, string, object, JsonObject, find_field}
use scrig.Codec.{object_of}
use scrig.Stratum.Text.{find_string, json_has_error, json_error_text, assign, is_retryable_error}
use scrig.Stratum.Client.{
  Mode, unknown, login_submit, mining_submit, mining_auth_submit_short, login_caps_submit,
  StratumClient, StratumAction, request_response,
}
use scrig.Stratum.Login.{strings}

pub record SubmitAttempt : Type 0 where
  pub method : Bytes
  pub params : JsonValue
  pub include_jsonrpc : Bool

abbrev attempt_with : Bytes → JsonValue → Bool → SubmitAttempt
attempt_with method params flag = record {
  method = method;
  params = params;
  include_jsonrpc = flag;
}

module _ (user job_id nonce_hex result_hex : Bytes) where
  unfoldable pub submit_object : JsonObject
  submit_object = object_of (
      (codes "job_id", string job_id)
      ∷ (codes "nonce", string nonce_hex)
      ∷ (codes "result", string result_hex)
      ∷ [])

  -- The requests that are tried in a mode, in their order; `base_id` is the session or the user.
  unfoldable pub submit_attempts : Mode → (base_id : Bytes) → List SubmitAttempt
  unfolding submit_object
  submit_attempts mode base_id =
      let with_id = object (assign submit_object (codes "id") (string base_id)) in
      let with_worker = object (assign submit_object (codes "worker") (string user)) in
      let submit_array = strings (base_id ∷ job_id ∷ nonce_hex ∷ result_hex ∷ []) in
      let short = strings (user ∷ job_id ∷ nonce_hex ∷ []) in
      let short_plus_result = strings (user ∷ job_id ∷ nonce_hex ∷ result_hex ∷ []) in
      elim mode [
        | login_submit ↦
            attempt_with (codes "submit") with_id true
            ∷ attempt_with (codes "submit") with_id false
            ∷ []
        | mining_submit ↦
            attempt_with (codes "mining.submit") with_worker true
            ∷ attempt_with (codes "mining.submit") submit_array true
            ∷ attempt_with (codes "mining.submit") with_worker false
            ∷ attempt_with (codes "mining.submit") submit_array false
            ∷ []
        | mining_auth_submit_short ↦
            attempt_with (codes "mining.submit") short false
            ∷ attempt_with (codes "mining.submit") short true
            ∷ attempt_with (codes "mining.submit") short_plus_result false
            ∷ attempt_with (codes "mining.submit") short_plus_result true
            ∷ []
        | login_caps_submit ↦
            attempt_with (codes "Submit") with_id true
            ∷ attempt_with (codes "Submit") submit_array true
            ∷ attempt_with (codes "submit") with_id true
            ∷ attempt_with (codes "submit") submit_array true
            ∷ attempt_with (codes "mining.submit") with_worker true
            ∷ attempt_with (codes "mining.submit") submit_array true
            ∷ attempt_with (codes "Submit") with_id false
            ∷ attempt_with (codes "Submit") submit_array false
            ∷ attempt_with (codes "submit") with_id false
            ∷ attempt_with (codes "submit") submit_array false
            ∷ attempt_with (codes "mining.submit") with_worker false
            ∷ attempt_with (codes "mining.submit") submit_array false
            ∷ []
        | unknown ↦ []
      ]

abbrev pub is_login_caps : Mode → Bool
is_login_caps login_caps_submit = true
is_login_caps _ = false

-- `i + 1 < attempts.size()`
abbrev pub has_more : List SubmitAttempt → Bool
has_more [] = false
has_more (_ ∷ _) = true

-- What a reply without an error says of the share.
unfoldable pub accepted : JsonValue → Bool
accepted resp = elim resp [
  | object obj ↦ elim (find_field obj (codes "result")) [
    | some (bool b) ↦ b
    | some (object r) ↦ elim (find_string r (codes "status")) [
      | some status ↦ bytes_eq status (codes "OK") || bytes_eq status (codes "ok")
      | none ↦ true
    ]
    | _ ↦ true
  ]
  | _ ↦ true
]

-- A share's fate: the Boolean `accepted`, and the message of a rejection.
pub data ShareResult : Type 0 where
  judged : (accepted : Bool) → ShareResult
  rejected : (message : Bytes) → ShareResult

-- The end of submit_share, for the last reply if there was one.
unfoldable pub share_result :
    (resp : Option JsonValue) → (last_error : Bytes) → StratumAction ShareResult
unfolding accepted
share_result none last_error = fail (message_or (codes "submit failed") last_error)
share_result (some resp) last_error =
    if json_has_error resp
    then give (rejected (codes "share rejected: " ++ json_error_text resp))
    else give (judged (accepted resp))

module _ (doubles : Doubles) where
  -- The loop over the attempts, and what follows it.
  unfoldable pub submit_loop :
      List SubmitAttempt
      → (resp : Option JsonValue) → (last_error : Bytes) → StratumAction ShareResult
  unfolding share_result
  submit_loop [] resp last_error = share_result resp last_error
  submit_loop (a ∷ attempts) resp last_error = do
    s ← get
    r ← attempt (request_response doubles a.method a.params a.include_jsonrpc)
    elim r [
      | failed message ↦ elim (is_login_caps s.mode && has_more attempts) [
        | true ↦ submit_loop attempts resp message
        | false ↦ fail message
      ]
      | done reply ↦
          let err = json_error_text reply in
          elim (json_has_error reply && has_more attempts && is_retryable_error err) [
            | true ↦ submit_loop attempts (some reply) err
            | false ↦ share_result (some reply) err
          ]
    ]

  unfoldable pub submit_share :
      (user job_id nonce_hex result_hex : Bytes) → StratumAction ShareResult
  unfolding submit_loop submit_attempts
  submit_share user job_id nonce_hex result_hex = do
    s ← get
    let base_id : Bytes = elim s.session_id [ some id ↦ id | none ↦ user ]
    elim (submit_attempts user job_id nonce_hex result_hex s.mode base_id) [
      | [] ↦ fail (codes "pool protocol mode not initialized")
      | a ∷ attempts ↦ submit_loop (a ∷ attempts) none []
    ]
