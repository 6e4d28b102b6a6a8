-- ===== src/Miner/Pool.antt =====
-- run_pool_stratum of src/miner.cpp: a round of its loop over jobs and shares, without the log and
-- the text of the status.
use scrig.Base.{
  ℕ, ◌+◌, Bool, true, false, ◌&&◌, not, Option, none, some, List, [], ◌∷◌, ltb, if◌then◌else◌,
}
use scrig.Base.Bytes.{Bytes, bytes_eq, codes}
use scrig.Base.Action.{value, Action, ◌>>=◌, ◌>>◌, give, get, modify, attempt, Tried, done, failed}
use scrig.Json.{Doubles}
use scrig.Stratum.Text.{contains}
use scrig.Stratum.Job.{StratumJob}
use scrig.Stratum.Client.{StratumClient, StratumAction, poll_job}
use scrig.Stratum.Submit.{ShareResult, judged, rejected, submit_share}
use scrig.Miner.Share.{StratumShare}

-- `active_job` is `none` until have_job is set; the workers put their shares at the end of
-- `pending_shares`.
pub record PoolRun : Type 0 where
  pub client : StratumClient
  pub active_job : Option StratumJob
  pub pending_shares : List StratumShare
  pub prefer_alt_nonce_format : Bool
  pub accepted_count : ℕ
  pub rejected_count : ℕ
  pub current_height : ℕ

abbrev pub PoolAction : Type 0 → Type 0
PoolAction A = Action PoolRun A

abbrev pub with_client : {A : Type 0} → StratumAction A → PoolAction A
with_client m r = let (o, client) = m r.client in (o, record r { client = client })

-- A job that has come: a clean one drops the shares that wait.
unfoldable pub take_job : StratumJob → PoolRun → PoolRun
take_job incoming_job r = record r {
  active_job = some incoming_job;
  pending_shares = if incoming_job.clean_jobs then [] else r.pending_shares;
  current_height = incoming_job.height;
}

unfoldable pub is_stale : Option StratumJob → StratumShare → Bool
is_stale none share = false
is_stale (some active_job) share = not (bytes_eq share.job_id active_job.job_id)

-- `accepted` and `submit_error` of a submission that returned.
abbrev pub was_accepted : ShareResult → Bool
was_accepted (judged ok) = ok
was_accepted (rejected message) = false

abbrev pub submit_error : ShareResult → Bytes
submit_error (judged ok) = []
submit_error (rejected message) = message

abbrev is_given : Bytes → Bool
is_given [] = false
is_given (c ∷ text) = true

-- Whether the other text of the nonce is tried.
unfoldable pub can_try_fallback : (error fallback_nonce primary_nonce : Bytes) → Bool
can_try_fallback error fallback_nonce primary_nonce =
    contains error (codes "Block pow difficulty is not up to target")
    && not (bytes_eq fallback_nonce primary_nonce)
    && is_given fallback_nonce

unfoldable pub count_share : (accepted : Bool) → StratumShare → PoolRun → PoolRun
count_share true share r = record r {
  accepted_count = r.accepted_count + 1;
  current_height = if ltb 0 share.height then share.height else r.current_height;
}
count_share false share r = record r { rejected_count = r.rejected_count + 1 }

abbrev toggle_format : PoolRun → PoolRun
toggle_format r = record r { prefer_alt_nonce_format = not r.prefer_alt_nonce_format }

module _ (doubles : Doubles) (wallet_address : Bytes) where
  abbrev submit : StratumShare → (nonce : Bytes) → PoolAction (Tried ShareResult)
  submit share nonce =
      attempt
        (with_client (submit_share doubles wallet_address share.job_id nonce share.result_hex))

  -- The second submission, with the other text: whether the pool accepts it.
  unfoldable pub try_fallback : StratumShare → (fallback_nonce : Bytes) → PoolAction Bool
  unfolding submit_share
  try_fallback share fallback_nonce = do
    r ← submit share fallback_nonce
    elim r [ done (judged true) ↦ modify toggle_format >> give true | _ ↦ give false ]

  -- The share that was taken from the queue. A submission that fails ends the round.
  unfoldable pub submit_pending : StratumShare → PoolAction (Unit {0})
  unfolding submit_share try_fallback can_try_fallback count_share
  submit_pending share = do
    s ← get
    let primary : Bytes = if s.prefer_alt_nonce_format then share.nonce_hex_alt else share.nonce_hex
    let fallback : Bytes =
        if s.prefer_alt_nonce_format then share.nonce_hex else share.nonce_hex_alt
    r ← submit share primary
    elim r [
      | failed message ↦ give tt
      | done result ↦ do
        accepted ←
            elim (not (was_accepted result)
              && can_try_fallback (submit_error result) fallback primary) [
                | true ↦ try_fallback share fallback
                | false ↦ give (was_accepted result)
              ]
        modify (count_share accepted share)
    ]

  unfoldable pub poll_step : PoolAction (Unit {0})
  unfolding poll_job take_job
  poll_step = do
    r ← attempt (with_client (poll_job doubles))
    elim r [ done incoming_job ↦ modify (take_job incoming_job) | failed message ↦ give tt ]

  unfoldable pub share_step : PoolAction (Unit {0})
  unfolding submit_pending is_stale
  share_step r = elim r.pending_shares [
    | [] ↦ (value tt, r)
    | share ∷ rest ↦
        let popped : PoolRun = record r { pending_shares = rest } in
        elim (is_stale r.active_job share) [
          | true ↦ (value tt, popped)
          | false ↦ submit_pending share popped
        ]
  ]

  unfoldable pub pool_round : PoolAction (Unit {0})
  unfolding poll_step share_step
  pool_round = poll_step >> share_step
