-- ===== src/Miner/Worker.antt =====
-- mining_worker_loop of src/miner.cpp: a round of its search, and the hashing pipeline of
-- src/crypto.cpp as it is without RandomX.
pub mod Batch
pub mod Rounds
use scrig.Base.{
  ℕ, zero, suc, ◌+◌, ◌-◌, ◌*◌, ◌/◌, ◌%◌, ◌^◌, Bool, true, false, not, Option, none, some, List, [],
  ◌∷◌, ◌++◌, length, if◌then◌else◌,
}
use scrig.Base.Bytes.{Bytes}
use scrig.Base.Fault.{Result, ok, throw, runtime_error, ◌>>=◌}
use scrig.Types.{Hash, DifficultyTarget, Block}
use scrig.Difficulty.{hash_meets_target}
use scrig.Pow.{block_pow_buffer}
use scrig.Miner.Nonce.{write_nonce_le}

-- The nonces of a batch, and the nonce that the next batch begins with.
unfoldable pub batch_nonces : (batch nonce thread_count : ℕ) → List ℕ × ℕ
batch_nonces zero nonce thread_count = ([], nonce)
batch_nonces (suc batch) nonce thread_count =
    let (nonces, next) = batch_nonces batch ((nonce + thread_count) % 2 ^ 64) thread_count in
    (nonce ∷ nonces, next)

module _ (hash_data : Bytes → Hash) where
  -- g_pipeline_pending_hash, where g_pipeline_has_pending.
  unfoldable pub hash_data_pipeline_begin : Bytes → Option Hash
  hash_data_pipeline_begin bytes = some (hash_data bytes)

  unfoldable pub hash_data_pipeline_next :
      (pending : Option Hash) → (next_data : Bytes) → Result (Hash × Option Hash)
  hash_data_pipeline_next none next_data =
      throw (runtime_error "hashing pipeline has no pending input")
  hash_data_pipeline_next (some hash) next_data = ok (hash, some (hash_data next_data))

  unfoldable pub hash_data_pipeline_last : (pending : Option Hash) → Result Hash
  hash_data_pipeline_last none = throw (runtime_error "hashing pipeline has no pending input")
  hash_data_pipeline_last (some hash) = ok hash

  module _ (target : DifficultyTarget) (dest : ℕ) where
    -- The loop over the nonces of a batch behind `previous`, which buffer is written next, and the
    -- hashes so far; then the last hash. The result is the nonce that was found with its hash, both
    -- buffers, and the number of hashes.
    unfoldable pub batch_loop :
        (nonces : List ℕ)
        → (previous : ℕ) → (is_even : Bool) → (local_buffer pipeline_buffer : Bytes)
        → (pending : Option Hash) → (local_hashes : ℕ)
        → Result (Option (ℕ × Hash) × Bytes × Bytes × ℕ)
    unfolding hash_data_pipeline_next hash_data_pipeline_last
    batch_loop [] previous is_even local_buffer pipeline_buffer pending local_hashes = do
      last_out ← hash_data_pipeline_last pending
      let found : Option (ℕ × Hash) =
          if hash_meets_target last_out target then some (previous, last_out) else none
      ok (found, local_buffer, pipeline_buffer, local_hashes + 1)
    batch_loop (nonce ∷ nonces) previous is_even local_buffer pipeline_buffer pending local_hashes =
        do
          let next_local = if is_even then write_nonce_le local_buffer dest nonce else local_buffer
          let next_pipeline =
              if is_even then pipeline_buffer else write_nonce_le pipeline_buffer dest nonce
          (out, now_pending) ←
              hash_data_pipeline_next pending (if is_even then next_local else next_pipeline)
          elim (hash_meets_target out target) [
            | true ↦ do
              last_out ← hash_data_pipeline_last now_pending
              ok (some (previous, out), next_local, next_pipeline, local_hashes + 2)
            | false ↦
                batch_loop nonces nonce (not is_even) next_local next_pipeline now_pending
                  (local_hashes + 1)
          ]

    -- A round with the pipeline, for a batch of at least one nonce.
    unfoldable pub pipeline_round :
        (nonces : List ℕ)
        → (local_buffer pipeline_buffer : Bytes) → Result (Option (ℕ × Hash) × Bytes × Bytes × ℕ)
    unfolding hash_data_pipeline_begin batch_loop
    pipeline_round [] local_buffer pipeline_buffer = ok (none, local_buffer, pipeline_buffer, 0)
    pipeline_round (nonce ∷ nonces) local_buffer pipeline_buffer =
        let first = write_nonce_le local_buffer dest nonce in
        batch_loop nonces nonce false first pipeline_buffer (hash_data_pipeline_begin first) 0

    -- A round without the pipeline, on a nonce that is patched.
    unfoldable pub patched_round : (nonce : ℕ) → (local_buffer : Bytes) → Option (ℕ × Hash) × Bytes
    patched_round nonce local_buffer =
        let buffer = write_nonce_le local_buffer dest nonce in
        let hash = hash_data buffer in
        (if hash_meets_target hash target then some (nonce, hash) else none, buffer)

    -- The rounds of the loop until one finds a nonce, over the nonces that it comes to.
    unfoldable pub patched_rounds :
        (nonces : List ℕ) → (local_buffer : Bytes) → Option (ℕ × Hash) × Bytes
    unfolding patched_round
    patched_rounds [] local_buffer = (none, local_buffer)
    patched_rounds (nonce ∷ nonces) local_buffer =
        let (found, buffer) = patched_round nonce local_buffer in
        elim found [ some result ↦ (some result, buffer) | none ↦ patched_rounds nonces buffer ]

  -- A round on a nonce that cannot be patched.
  unfoldable pub slow_round :
      (target : DifficultyTarget) → (nonce : ℕ) → (slow_candidate : Block) → Option (ℕ × Hash)
  slow_round target nonce slow_candidate =
      let hash = hash_data (block_pow_buffer (record slow_candidate { nonce = nonce })).0 in
      if hash_meets_target hash target then some (nonce, hash) else none

-- The nonces that a worker comes to, in their order: it begins at base_nonce + worker_id.
unfoldable pub worker_nonces : (base_nonce worker_id thread_count count : ℕ) → List ℕ
unfolding batch_nonces
worker_nonces base_nonce worker_id thread_count count =
    (batch_nonces count ((base_nonce + worker_id) % 2 ^ 64) thread_count).0
