-- ===== src/Stratum/Login.antt =====
-- login of src/stratum_client.cpp: five protocols, each with its variants of a request.
pub mod Ready
use scrig.Base.{ℕ, Bool, true, false, Option, none, some, List, [], ◌∷◌, ◌++◌, map, if◌then◌else◌}
use scrig.Base.Bytes.{Bytes, codes}
use scrig.Base.Action.{
  Action, ◌>>=◌, ◌>>◌, give, fail, get, modify, attempt, Tried, done, failed, message_or, relabel,
}
use scrig.Json.{Doubles, JsonValue, string, array, object, JsonObject, find_field}
use scrig.Codec.{array_of, object_of}
use scrig.Stratum.Text.{find_object, json_has_error, json_error_text, parse_json_rpc_id}
use scrig.Stratum.Job.{StratumJob, parse_job_from_object}
use scrig.Stratum.Client.{
  Mode, login_submit, mining_submit, mining_auth_submit_short, login_caps_submit, StratumClient,
  StratumAction, reconnect, request_response, request_response_or_job, has_jobs, poll_job, push_job,
}

-- A loop over variants: `between` runs before each but the first, a success ends it, and the last
-- failure is the loop's.
unfoldable pub try_each {ℓ} :
    {V : Type ℓ}
    → (between : StratumAction (Unit {0})) → (V → StratumAction (Unit {0}))
    → List V
    → (last_error : Bytes) → StratumAction (Unit {0})
try_each between body [] last_error = fail last_error
try_each between body (v ∷ variants) last_error = do
  r ← attempt (body v)
  elim r [
    | done _ ↦ give tt
    | failed message ↦ elim variants [
      | [] ↦ fail message
      | _ ∷ _ ↦ between >> try_each between body variants message
    ]
  ]

-- (void)reconnect(nullptr)
abbrev pub try_reconnect : StratumAction (Unit {0})
try_reconnect = do _ ← attempt reconnect; give tt

abbrev pub skip : StratumAction (Unit {0})
skip = give tt

-- A method's name or parameters, and whether the request has the field `jsonrpc`.
pub record Variant {ℓ} (V : Type ℓ) : Type ℓ where
  pub what : V
  pub include_jsonrpc : Bool

abbrev with_flag {ℓ} : {V : Type ℓ} → Bool → List V → List (Variant V)
with_flag flag vs = map (λ v. record { what = v; include_jsonrpc = flag }) vs

-- The loops over both flags and all of a list, true first.
abbrev pub both_flags {ℓ} : {V : Type ℓ} → List V → List (Variant V)
both_flags vs = with_flag true vs ++ with_flag false vs

unfoldable pub set_mode : Mode → StratumAction (Unit {0})
set_mode mode = modify λ s. record s { mode = mode }

-- session_id_, where the result of a reply has an id.
unfoldable pub take_session : JsonValue → StratumAction (Unit {0})
take_session resp = modify λ s. elim resp [
  | object obj ↦ elim (find_object obj (codes "result")) [
    | some result ↦ elim (find_field result (codes "id")) [
      | some id ↦ elim (parse_json_rpc_id id) [
        | some sid ↦ record s { session_id = some sid }
        | none ↦ s
      ]
      | none ↦ s
    ]
    | none ↦ s
  ]
  | _ ↦ s
]

-- The error of a reply that has one.
unfoldable pub reject : (prefix : Bytes) → JsonValue → StratumAction (Unit {0})
reject prefix resp = if json_has_error resp then fail (prefix ++ json_error_text resp) else skip

abbrev pub strings : List Bytes → JsonValue
strings texts = array (array_of (map string texts))

-- {true, false} times the methods, and the other way of writing the same methods.
abbrev pub authorize_methods : List Bytes
authorize_methods = codes "mining.authorize" ∷ codes "Authorize" ∷ codes "authorize" ∷ []

abbrev pub subscribe_methods : List Bytes
subscribe_methods = codes "mining.subscribe" ∷ codes "Subscribe" ∷ codes "subscribe" ∷ []

-- `agent` is kStratumAgent, which has the version that the build sets.
module _ (doubles : Doubles) (agent user pass : Bytes) where
  unfoldable pub login_object : JsonValue
  login_object = object (
      object_of (
        (codes "login", string user)
        ∷ (codes "pass", string pass)
        ∷ (codes "agent", string agent)
        ∷ []))

  abbrev pub login_params : List JsonValue
  login_params =
      login_object
      ∷ strings (user ∷ pass ∷ agent ∷ [])
      ∷ strings (user ∷ pass ∷ [])
      ∷ strings (user ∷ [])
      ∷ []

  -- The job in the result of the reply to a login.
  unfoldable pub take_initial_job : JsonValue → StratumAction (Unit {0})
  take_initial_job resp = modify λ s. elim resp [
    | object obj ↦ elim (find_object obj (codes "result")) [
      | some result ↦ elim (find_object result (codes "job")) [
        | some job ↦ record s {
          queued_jobs = push_job (parse_job_from_object doubles job s.difficulty) s.queued_jobs;
        }
        | none ↦ s
      ]
      | none ↦ s
    ]
    | _ ↦ s
  ]

  unfoldable pub login_variant : Variant JsonValue → StratumAction (Unit {0})
  unfolding request_response_or_job reject take_session take_initial_job set_mode
  login_variant v = do
    resp ←
        relabel (message_or (codes "login request failed"))
          (request_response_or_job doubles (codes "login") v.what v.include_jsonrpc)
    _ ← reject (codes "login rejected: ") resp
    _ ← take_session resp
    _ ← take_initial_job resp
    set_mode login_submit

  unfoldable pub try_login_method : StratumAction (Unit {0})
  unfolding try_each login_variant
  try_login_method =
      try_each try_reconnect login_variant (both_flags login_params) (codes "login failed")

  -- poll_job, and the job in front of the queue again.
  unfoldable pub poll_first_job : StratumAction (Unit {0})
  unfolding poll_job
  poll_first_job = do
    first_job ← relabel (message_or (codes "no initial mining job from pool")) (poll_job doubles)
    modify (λ s. record s { queued_jobs = first_job ∷ s.queued_jobs })

  -- A request to authorize with `params`, and the first job in the mode that it begins.
  unfoldable pub authorize_with :
      (name : Bytes)
      → (method : Bytes) → (params : JsonValue) → (include_jsonrpc : Bool) → Mode
      → StratumAction (Unit {0})
  unfolding request_response reject set_mode poll_first_job
  authorize_with name method params include_jsonrpc mode = do
    resp ←
        relabel (message_or (name ++ codes " request failed"))
          (request_response doubles method params include_jsonrpc)
    _ ← reject (name ++ codes " rejected: ") resp
    _ ← set_mode mode
    poll_first_job

  abbrev pub authorize : (include_jsonrpc : Bool) → (method : Bytes) → StratumAction (Unit {0})
  authorize include_jsonrpc method =
      authorize_with (codes "authorize") method (strings (user ∷ pass ∷ [])) include_jsonrpc
        mining_submit

  -- A subscription, and the methods to authorize on the same connection.
  unfoldable pub mining_variant : Variant Bytes → StratumAction (Unit {0})
  unfolding request_response reject try_each authorize_with
  mining_variant v = do
    resp ←
        relabel (message_or (codes "subscribe request failed"))
          (request_response doubles v.what (strings (agent ∷ [])) v.include_jsonrpc)
    _ ← reject (codes "subscribe rejected: ") resp
    try_each skip (authorize v.include_jsonrpc) authorize_methods []

  unfoldable pub try_mining_method : StratumAction (Unit {0})
  unfolding try_each mining_variant
  try_mining_method =
      try_each try_reconnect mining_variant (both_flags subscribe_methods)
        (codes "subscribe/authorize failed")

  abbrev pub auth_variants : List (Variant JsonValue)
  auth_variants =
      with_flag false (
        strings (user ∷ pass ∷ agent ∷ [])
        ∷ strings (user ∷ [] ∷ agent ∷ [])
        ∷ strings (user ∷ pass ∷ [])
        ∷ strings (user ∷ [] ∷ [])
        ∷ [])
      ++ with_flag true (strings (user ∷ pass ∷ agent ∷ []) ∷ strings (user ∷ [] ∷ []) ∷ [])

  unfoldable pub mining_auth_variant : Variant JsonValue → StratumAction (Unit {0})
  unfolding authorize_with
  mining_auth_variant v =
      authorize_with (codes "mining.auth") (codes "mining.auth") v.what v.include_jsonrpc
        mining_auth_submit_short

  unfoldable pub try_mining_auth_method : StratumAction (Unit {0})
  unfolding try_each mining_auth_variant
  try_mining_auth_method =
      try_each try_reconnect mining_auth_variant auth_variants (codes "mining.auth failed")

  unfoldable pub try_authorize_only_method : StratumAction (Unit {0})
  unfolding try_each authorize_with
  try_authorize_only_method =
      try_each try_reconnect (λ v. authorize v.include_jsonrpc v.what)
        (both_flags authorize_methods) (codes "authorize failed")

  abbrev pub caps_params : List JsonValue
  caps_params =
      strings (user ∷ [])
      ∷ strings (user ∷ pass ∷ [])
      ∷ strings (user ∷ pass ∷ agent ∷ [])
      ∷ login_object
      ∷ []

  unfoldable pub login_caps_variant : Variant JsonValue → StratumAction (Unit {0})
  unfolding request_response_or_job reject take_session set_mode
  login_caps_variant v = do
    resp ←
        relabel (message_or (codes "Login request failed"))
          (request_response_or_job doubles (codes "Login") v.what v.include_jsonrpc)
    _ ← reject (codes "Login rejected: ") resp
    s ← get
    _ ← elim (has_jobs s) [ true ↦ skip | false ↦ take_session resp ]
    set_mode login_caps_submit

  unfoldable pub try_login_caps_method : StratumAction (Unit {0})
  unfolding try_each login_caps_variant
  try_login_caps_method =
      try_each try_reconnect login_caps_variant (both_flags caps_params) (codes "Login rejected")

  -- merged, with " | " between the errors.
  unfoldable pub merge_errors : List Bytes → Bytes
  merge_errors [] = codes "stratum login failed"
  merge_errors (e ∷ []) = e
  merge_errors (e ∷ d ∷ errors) = e ++ codes " | " ++ merge_errors (d ∷ errors)

  -- The attempts behind the first, each on a new connection: one that cannot be had skips its attempt.
  unfoldable pub login_loop :
      List (Bytes × StratumAction (Unit {0})) → (errors : List Bytes) → StratumAction (Unit {0})
  login_loop [] errors = fail (merge_errors errors)
  login_loop ((name, method) ∷ attempts) errors = do
    r ← attempt (reconnect >> relabel (message_or (name ++ codes " failed")) method)
    elim r [ done _ ↦ give tt | failed message ↦ login_loop attempts (errors ++ message ∷ []) ]

  unfoldable pub login : StratumAction (Unit {0})
  unfolding try_login_method try_mining_auth_method try_login_caps_method try_mining_method
      try_authorize_only_method login_loop
  login = do
    _ ← modify (λ s. record s {
      queued_jobs = [];
      difficulty = none;
      session_id = none;
      mode = Mode.unknown;
    })
    r ← attempt (relabel (message_or (codes "login failed")) try_login_method)
    elim r [
      | done _ ↦ give tt
      | failed message ↦
          login_loop
            ((codes "mining.auth", try_mining_auth_method)
              ∷ (codes "Login", try_login_caps_method)
              ∷ (codes "mining.subscribe+authorize", try_mining_method)
              ∷ (codes "authorize-only", try_authorize_only_method)
              ∷ [])
            (message ∷ [])
    ]
