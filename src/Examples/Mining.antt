-- ===== src/Examples/Mining.antt =====
-- Tests of the search for nonces, and its theorems on small jobs.
use scrig.Base.{
  none, ℕ, ◌^◌, ◌+◌, ◌%◌, ◌<◌, All, replicate, get_or, false, some, [], ◌∷◌, ◌≡◌, refl, arith,
}
use scrig.Base.Bytes.{bytes_eq, Bytes, IsByte, codes}
use scrig.Base.Fault.{ok}
use scrig.Types.{Hash}
use scrig.Difficulty.{hash_meets_target}
use scrig.Stratum.Job.{StratumJob}
use scrig.Miner.Nonce.{next_nonce_base, nonce_step, write_nonce_le}
use scrig.Miner.Worker.{worker_nonces, pipeline_round, patched_rounds}
use scrig.Miner.Worker.Batch.{IsSearch, first_hit, pipeline_round-IsSearch}
use scrig.Miner.Worker.Rounds.{worker_nonces-get_or}
use scrig.Miner.Pool.{PoolRun, pool_round}
use scrig.Stratum.Client.{login_submit, request_response}
use scrig.Examples.{no_doubles}
use scrig.Miner.Share.{StratumShare, share_round}
use scrig.Miner.Share.Valid.{IsValid, share_round-IsValid}

-- A hash that is its own input.
abbrev same : Bytes → Hash
same bytes = record { bytes = bytes }

abbrev template : Bytes
template = replicate 32 0

abbrev target : Bytes
target = 0 ∷ 3 ∷ replicate 30 255

pipeline_round_finds :
    pipeline_round same target 0 (1 ∷ 512 ∷ 768 ∷ []) template template
    ≡ ok (
      some (512, same (0 ∷ 2 ∷ replicate 30 0)),
      0 ∷ 3 ∷ replicate 30 0,
      0 ∷ 2 ∷ replicate 30 0,
      3,
    )
unfolding pipeline_round hash_meets_target write_nonce_le
pipeline_round_finds = refl

pipeline_round-IsSearch_example :
    IsSearch same target 0 template
      (1 ∷ 512 ∷ 768 ∷ [])
      1
      (pipeline_round same target 0 (1 ∷ 512 ∷ 768 ∷ []) template template)
    × ((patched_rounds same target 0 (1 ∷ 512 ∷ 768 ∷ []) template).0
        ≡ first_hit same target 0 template (1 ∷ 512 ∷ 768 ∷ []))
pipeline_round-IsSearch_example =
    pipeline_round-IsSearch same target 0 template (omega arith) (1 ∷ 512 ∷ 768 ∷ []) template
      template (λ n. refl) (λ n. refl)

worker_nonces-get_or_example :
    (worker_id : ℕ) × (worker_id < 3)
    × (get_or (worker_nonces (2 ^ 32) worker_id 3 5) 3 0 ≡ 2 ^ 32 + 10)
worker_nonces-get_or_example =
    worker_nonces-get_or (2 ^ 32) 3 (2 ^ 32 + 10) 5 (omega arith) (omega arith) (omega arith)
      (omega arith)

-- The first two bases: whichever of two workers takes which, both begin with a nonce of the same
-- parity, and keep it.
two_bases :
    let (first, seed) = next_nonce_base nonce_step in
    let (second, _) = next_nonce_base seed in
    (first % 2 ≡ 1) × ((second + 1) % 2 ≡ 1) × (second % 2 ≡ 0) × ((first + 1) % 2 ≡ 0)
unfolding next_nonce_base
two_bases = (refl, refl, refl, refl)

abbrev pool_job : StratumJob
pool_job = record {
  job_id = codes "9";
  blob = replicate 12 0;
  nonce_offset = 2;
  target_le = 2 ^ 63;
  target_be = [];
  has_target_be = false;
  height = 0;
  clean_jobs = false;
}

abbrev pool_share : StratumShare
pool_share = record {
  job_id = codes "9";
  nonce_hex = codes "01020304";
  nonce_hex_alt = codes "04030201";
  result_hex = codes "000004030201000000000000";
  height = 0;
}

-- A hash for any bytes.
abbrev clipped : Bytes → Hash
clipped bytes = record { bytes = byte_list bytes }
  where
    byte_list : Bytes → Bytes
    byte_list [] = []
    byte_list (b ∷ rest) = b % 256 ∷ byte_list rest

clipped-IsByte : (bytes : Bytes) → All IsByte (clipped bytes).bytes
clipped-IsByte [] = tt
clipped-IsByte (b ∷ rest) = (omega arith, clipped-IsByte rest)

share_found : (share_round clipped 4 pool_job (replicate 12 0) 0x01020304).2 ≡ some pool_share
unfolding share_round
share_found = refl

share_round-IsValid_example :
    IsValid clipped pool_job
      (share_round clipped 4 pool_job (replicate 12 0) 0x01020304).0
      pool_share
share_round-IsValid_example =
    share_round-IsValid clipped clipped-IsByte 4 0x01020304 pool_job (replicate 12 0) pool_share
      (omega arith) share_found

-- A share whose submission fails is taken from the queue and not put back, and is counted nowhere.
abbrev cut_off : PoolRun
cut_off = record {
  client = record {
    socket = none;
    connections = [];
    next_request_id = 5;
    mode = login_submit;
    session_id = none;
    difficulty = none;
    queued_jobs = [];
    rx_buffer = [];
  };
  active_job = some pool_job;
  pending_shares = pool_share ∷ [];
  prefer_alt_nonce_format = false;
  accepted_count = 0;
  rejected_count = 0;
  current_height = 0;
}

failed_share_lost :
    let r = (pool_round no_doubles (codes "wallet") cut_off).1 in
    (r.pending_shares ≡ []) × (r.accepted_count ≡ 0) × (r.rejected_count ≡ 0)
unfolding pool_round bytes_eq request_response
failed_share_lost = (refl, refl, refl)
