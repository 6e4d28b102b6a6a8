-- ===== src/Stratum/Login/Ready.antt =====
-- The states in which login of src/stratum_client.cpp returns true.
use scrig.Base.{Bool, true, false, List, [], ◌∷◌, ◌++◌, ◌≡◌, refl, subst, sym, ap}
use scrig.Base.Bytes.{Bytes, codes}
use scrig.Base.Action.{
  Outcome, value, fails, throws, ◌>>◌, continue_with, tried, Tried, done, failed, message_or,
  relabel, relabelled,
}
use scrig.Json.{Doubles, JsonValue}
use scrig.Stratum.Job.{StratumJob}
use scrig.Stratum.Client.{
  Mode, unknown, login_submit, mining_submit, mining_auth_submit_short, login_caps_submit,
  StratumClient, StratumAction, has_jobs, poll_job, reconnect, request_response,
  request_response_or_job,
}
use scrig.Stratum.Client.Session.{session, IsIn, poll_job-IsIn}
use scrig.Stratum.Login.{
  try_each, try_reconnect, skip, Variant, set_mode, take_session, reject, strings, authorize,
  authorize_methods, subscribe_methods, both_flags, login_params, caps_params, auth_variants,
  take_initial_job, login_variant, try_login_method, poll_first_job, authorize_with, mining_variant,
  try_mining_method, mining_auth_variant, try_mining_auth_method, try_authorize_only_method,
  login_caps_variant, try_login_caps_method, login_loop, login,
}

-- A mode in which shares can be submitted, with a job in the queue where the mode was entered by
-- waiting for one.
abbrev pub IsReadyIn : Mode → StratumClient → Type 0
IsReadyIn unknown t = ⊥
IsReadyIn login_submit t = Unit
IsReadyIn mining_submit t = has_jobs t ≡ true
IsReadyIn mining_auth_submit_short t = has_jobs t ≡ true
IsReadyIn login_caps_submit t = Unit

abbrev pub IsReady : StratumClient → Type 0
IsReady t = IsReadyIn t.mode t

-- A call that returns true in such states only.
unfoldable pub MakesReady : {A : Type 0} → Outcome A × StratumClient → Type 0
MakesReady (value a, t) = IsReady t
MakesReady (fails message, t) = Unit
MakesReady (throws error, t) = Unit

module _ {A : Type 0} {B : Type 0} where
  then-MakesReady :
      (o : Outcome A × StratumClient) (f : A → StratumAction B)
      → ((a : A) (t : StratumClient) → MakesReady (f a t))
      → MakesReady (continue_with o f)
  unfolding MakesReady
  then-MakesReady (value a, t) f next = next a t
  then-MakesReady (fails message, t) f next = tt
  then-MakesReady (throws error, t) f next = tt

  attempt-MakesReady :
      (o : Outcome A × StratumClient) (f : Tried A → StratumAction B)
      → MakesReady o
      → ((a : A) (t : StratumClient) → IsReady t → MakesReady (f (done a) t))
      → ((message : Bytes) (t : StratumClient) → MakesReady (f (failed message) t))
      → MakesReady (continue_with (tried o) f)
  unfolding MakesReady
  attempt-MakesReady (value a, t) f h next other = next a t h
  attempt-MakesReady (fails message, t) f h next other = other message t
  attempt-MakesReady (throws error, t) f h next other = tt

relabelled-MakesReady :
    {A : Type 0} (g : Bytes → Bytes) (o : Outcome A × StratumClient)
    → MakesReady o
    → MakesReady (relabelled g o)
unfolding MakesReady
relabelled-MakesReady g (value a, t) h = h
relabelled-MakesReady g (fails message, t) h = tt
relabelled-MakesReady g (throws error, t) h = tt

try_each-MakesReady :
    {V : Type 0} (between : StratumAction (Unit {0})) (body : V → StratumAction (Unit {0}))
    → ((v : V) (s : StratumClient) → MakesReady (body v s))
    → (variants : List V) (err : Bytes) (s : StratumClient)
    → MakesReady (try_each between body variants err s)
unfolding try_each
try_each-MakesReady between body ready [] err s = unfold MakesReady in tt
try_each-MakesReady between body ready (v ∷ []) err s =
    attempt-MakesReady (body v s) _ (ready v s) (λ a t h. unfold MakesReady in h)
      (λ message t. unfold MakesReady in tt)
try_each-MakesReady between body ready (v ∷ w ∷ variants) err s =
    attempt-MakesReady (body v s) _ (ready v s) (λ a t h. unfold MakesReady in h)
      λ message t.
        then-MakesReady (between t) _
          λ _. try_each-MakesReady between body ready (w ∷ variants) message

abbrev zip : {A : Type 0} {B : Type 0} → List A → List B → List (A × B)
zip [] ys = []
zip (x ∷ xs) [] = []
zip (x ∷ xs) (y ∷ ys) = (x, y) ∷ zip xs ys

module _ (doubles : Doubles) (agent user pass : Bytes) where
  login_variant-MakesReady :
      (v : Variant JsonValue) (s : StratumClient)
      → MakesReady (login_variant doubles agent user pass v s)
  unfolding MakesReady login_variant set_mode take_session take_initial_job
  login_variant-MakesReady v s =
      let ask =
        relabel (message_or (codes "login request failed"))
          (request_response_or_job doubles (codes "login") v.what v.include_jsonrpc) in
      then-MakesReady (ask s) _
        λ resp t. then-MakesReady (reject (codes "login rejected: ") resp t) _ λ _ t. tt

  login_caps_variant-MakesReady :
      (v : Variant JsonValue) (s : StratumClient)
      → MakesReady (login_caps_variant doubles agent user pass v s)
  unfolding MakesReady login_caps_variant set_mode
  login_caps_variant-MakesReady v s =
      let ask =
        relabel (message_or (codes "Login request failed"))
          (request_response_or_job doubles (codes "Login") v.what v.include_jsonrpc) in
      then-MakesReady (ask s) _ λ resp t.
        then-MakesReady (reject (codes "Login rejected: ") resp t) _ λ _ t.
          then-MakesReady
            ((elim (has_jobs t) as (λ _. StratumAction (Unit {0})) [
              | true ↦ skip
              | false ↦ take_session resp
            ])
              t)
            _ λ _ t. tt

  -- The job that was waited for is in front of the queue again.
  abbrev Queues : Mode → Outcome (Unit {0}) × StratumClient → Type 0
  Queues mode (value a, t) = (t.mode ≡ mode) × (has_jobs t ≡ true)
  Queues mode (fails message, t) = Unit
  Queues mode (throws error, t) = Unit

  poll_first_job-Queues :
      (s : StratumClient) → Queues s.mode (poll_first_job doubles agent user pass s)
  unfolding poll_first_job
  poll_first_job-Queues s = at_job (poll_job doubles s) (poll_job-IsIn doubles s)
    where
      at_job :
          (o : Outcome StratumJob × StratumClient)
          → IsIn (session s) o
          → Queues s.mode (
              continue_with
                (relabelled (message_or (codes "no initial mining job from pool")) o)
                λ first_job t. (value tt, record t { queued_jobs = first_job ∷ t.queued_jobs }))
      at_job (value job, t) same = (ap (λ x. x.1) same, refl)
      at_job (fails message, t) same = tt
      at_job (throws error, t) same = tt

  module _ (name method : Bytes) (params : JsonValue) (jsonrpc : Bool) where
    authorize_with-MakesReady :
        (mode : Mode)
        → ((t : StratumClient) → has_jobs t ≡ true → IsReadyIn mode t)
        → (s : StratumClient)
        → MakesReady (authorize_with doubles agent user pass name method params jsonrpc mode s)
    unfolding MakesReady authorize_with set_mode
    authorize_with-MakesReady mode ready s =
        let ask =
          relabel (message_or (name ++ codes " request failed"))
            (request_response doubles method params jsonrpc) in
        then-MakesReady (ask s) _ λ resp t.
          then-MakesReady (reject (name ++ codes " rejected: ") resp t) _ λ _ t.
            at_end (poll_first_job doubles agent user pass (record t { mode = mode }))
              (poll_first_job-Queues (record t { mode = mode }))
      where
        at_end : (o : Outcome (Unit {0}) × StratumClient) → Queues mode o → MakesReady o
        at_end (value a, t) (e, h) = subst (λ m. IsReadyIn m t) (sym e) (ready t h)
        at_end (fails message, t) h = tt
        at_end (throws error, t) h = tt

  mining_variant-MakesReady :
      (v : Variant Bytes) (s : StratumClient)
      → MakesReady (mining_variant doubles agent user pass v s)
  unfolding mining_variant
  mining_variant-MakesReady v s =
      let ask =
        relabel (message_or (codes "subscribe request failed"))
          (request_response doubles v.what (strings (agent ∷ [])) v.include_jsonrpc) in
      then-MakesReady (ask s) _ λ resp t.
        then-MakesReady (reject (codes "subscribe rejected: ") resp t) _ λ _.
          try_each-MakesReady skip (authorize doubles agent user pass v.include_jsonrpc)
            (λ method.
              authorize_with-MakesReady (codes "authorize") method (strings (user ∷ pass ∷ []))
                v.include_jsonrpc mining_submit (λ t h. h))
            authorize_methods []

  -- The protocols of login behind the first, each with its variants.
  abbrev protocols : List (StratumAction (Unit {0}))
  protocols =
      try_mining_auth_method doubles agent user pass
      ∷ try_login_caps_method doubles agent user pass
      ∷ try_mining_method doubles agent user pass
      ∷ try_authorize_only_method doubles agent user pass
      ∷ []

  abbrev AllReady : List (StratumAction (Unit {0})) → Type 0
  AllReady [] = Unit
  AllReady (m ∷ ms) = ((s : StratumClient) → MakesReady (m s)) × AllReady ms

  protocols-AllReady : AllReady protocols
  unfolding try_mining_auth_method try_login_caps_method try_mining_method try_authorize_only_method
      mining_auth_variant
  protocols-AllReady = (
    each (mining_auth_variant doubles agent user pass)
        (λ v.
          authorize_with-MakesReady (codes "mining.auth") (codes "mining.auth") v.what
            v.include_jsonrpc mining_auth_submit_short (λ t h. h))
        (auth_variants doubles agent user pass) (codes "mining.auth failed"),
    (
      each (login_caps_variant doubles agent user pass) login_caps_variant-MakesReady
          (both_flags (caps_params doubles agent user pass)) (codes "Login rejected"),
      (
        each (mining_variant doubles agent user pass) mining_variant-MakesReady
            (both_flags subscribe_methods) (codes "subscribe/authorize failed"),
        (
          each (λ v. authorize doubles agent user pass v.include_jsonrpc v.what)
              (λ v.
                authorize_with-MakesReady (codes "authorize") v.what (strings (user ∷ pass ∷ []))
                  v.include_jsonrpc mining_submit (λ t h. h))
              (both_flags authorize_methods) (codes "authorize failed"),
          tt,
        ),
      ),
    ),
  )
    where
      each :
          {V : Type 0} (body : V → StratumAction (Unit {0}))
          → ((v : V) (s : StratumClient) → MakesReady (body v s))
          → (variants : List V) (err : Bytes) (s : StratumClient)
          → MakesReady (try_each try_reconnect body variants err s)
      each = try_each-MakesReady try_reconnect

  try_login_method-MakesReady :
      (s : StratumClient) → MakesReady (try_login_method doubles agent user pass s)
  unfolding try_login_method
  try_login_method-MakesReady =
      try_each-MakesReady try_reconnect (login_variant doubles agent user pass)
        login_variant-MakesReady (both_flags (login_params doubles agent user pass))
        (codes "login failed")

  login_loop-MakesReady :
      (names : List Bytes) (methods : List (StratumAction (Unit {0})))
      → AllReady methods
      → (errors : List Bytes) (s : StratumClient)
      → MakesReady (login_loop doubles agent user pass (zip names methods) errors s)
  unfolding login_loop
  login_loop-MakesReady [] methods ready errors s = unfold MakesReady in tt
  login_loop-MakesReady (name ∷ names) [] ready errors s = unfold MakesReady in tt
  login_loop-MakesReady (name ∷ names) (method ∷ methods) (h, ready) errors s =
      let again = reconnect >> relabel (message_or (name ++ codes " failed")) method in
      attempt-MakesReady (again s) _
        (then-MakesReady (reconnect s) _
          λ _ t. relabelled-MakesReady (message_or (name ++ codes " failed")) (method t) (h t))
        (λ a t k. unfold MakesReady in k)
        (λ message t. login_loop-MakesReady names methods ready (errors ++ message ∷ []) t)

  -- Where login returns true, whatever the pool sends and by whichever of its five protocols, the
  -- client is in a mode in which shares can be submitted; and where that mode is one that waits for
  -- its first job, a job is in the queue.
  pub login-MakesReady : (s : StratumClient) → MakesReady (login doubles agent user pass s)
  unfolding login
  login-MakesReady s =
      attempt-MakesReady
        (relabel (message_or (codes "login failed")) (try_login_method doubles agent user pass) _) _
        (relabelled-MakesReady (message_or (codes "login failed")) _
          (try_login_method-MakesReady _))
        (λ a t k. unfold MakesReady in k)
        (λ message t.
          login_loop-MakesReady
            (codes "mining.auth"
              ∷ codes "Login"
              ∷ codes "mining.subscribe+authorize"
              ∷ codes "authorize-only"
              ∷ [])
            protocols protocols-AllReady (message ∷ []) t)
