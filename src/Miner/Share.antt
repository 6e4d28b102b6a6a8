-- ===== src/Miner/Share.antt =====
-- run_pool_stratum of src/miner.cpp: the round of a worker on a pool's job, and its share.
pub mod Valid
use scrig.Base.{
  ℕ, zero, suc, ◌+◌, ◌-◌, ◌*◌, ◌/◌, ◌%◌, ◌^◌, Bool, true, false, Option, none, some, List, [], ◌∷◌,
  ◌++◌, length, get_or, set, take, drop, ltb, leb, if◌then◌else◌,
}
use scrig.Base.Bytes.{Bytes}
use scrig.Types.{Hash}
use scrig.Stratum.{hex_char, bytes_to_hex}
use scrig.Stratum.Job.{StratumJob}

-- The loop of u32_to_hex_be, which writes from the last digit to the first.
unfoldable pub hex_be_loop : (rounds v : ℕ) → (out : Bytes) → Bytes
unfolding hex_char
hex_be_loop zero v out = out
hex_be_loop (suc rounds) v out = hex_be_loop rounds (v / 16) (hex_char (v % 16) ∷ out)

unfoldable pub u32_to_hex_be : (v : ℕ) → Bytes
unfolding hex_be_loop
u32_to_hex_be v = hex_be_loop 8 v []

-- The loop of u32_to_hex_le, from its byte `i` on.
unfoldable pub hex_le_loop : (rounds i v : ℕ) → Bytes
unfolding hex_char
hex_le_loop zero i v = []
hex_le_loop (suc rounds) i v =
    let b = v / 2 ^ (8 * i) % 256 in
    hex_char (b / 16 % 16) ∷ hex_char (b % 16) ∷ hex_le_loop rounds (suc i) v

unfoldable pub u32_to_hex_le : (v : ℕ) → Bytes
unfolding hex_le_loop
u32_to_hex_le v = hex_le_loop 4 0 v

-- The first bytes of a hash, the least significant first, against the target.
unfoldable pub stratum_hash_meets_target_le : Hash → (target_le : ℕ) → Bool
stratum_hash_meets_target_le hash target_le =
    let data_at : ℕ → ℕ = λ i. get_or hash.bytes i 0 in
    leb
      (data_at 0
        + data_at 1 * 2 ^ 8
        + data_at 2 * 2 ^ 16
        + data_at 3 * 2 ^ 24
        + data_at 4 * 2 ^ 32
        + data_at 5 * 2 ^ 40
        + data_at 6 * 2 ^ 48
        + data_at 7 * 2 ^ 56)
      target_le

-- The loop over the bytes of a hash and of a target.
unfoldable pub meets_be : (hash target : Bytes) → Bool
meets_be [] target = true
meets_be (hv ∷ hash) [] = true
meets_be (hv ∷ hash) (tv ∷ target) =
    let rest = meets_be hash target in if ltb hv tv then true else if ltb tv hv then false else rest

unfoldable pub stratum_hash_meets_target : Hash → StratumJob → Bool
unfolding meets_be stratum_hash_meets_target_le
stratum_hash_meets_target hash job =
    if job.has_target_be
    then meets_be hash.bytes job.target_be
    else stratum_hash_meets_target_le hash job.target_le

pub record StratumShare : Type 0 where
  pub job_id : Bytes
  pub nonce_hex : Bytes
  pub nonce_hex_alt : Bytes
  pub result_hex : Bytes
  pub height : ℕ

-- The four assignments to local_blob, in their order.
unfoldable pub write_nonce : (local_blob : Bytes) → (nonce_offset nonce : ℕ) → Bytes
write_nonce local_blob nonce_offset nonce =
    let b0 = set local_blob (nonce_offset + 0) (nonce % 256) in
    let b1 = set b0 (nonce_offset + 1) (nonce / 2 ^ 8 % 256) in
    let b2 = set b1 (nonce_offset + 2) (nonce / 2 ^ 16 % 256) in
    set b2 (nonce_offset + 3) (nonce / 2 ^ 24 % 256)

-- A round: the blob, the next nonce, and the share if there is one.
unfoldable pub share_round :
    (hash_data : Bytes → Hash)
    → (thread_count : ℕ) → StratumJob
    → (local_blob : Bytes) → (nonce : ℕ) → Bytes × ℕ × Option StratumShare
unfolding write_nonce stratum_hash_meets_target u32_to_hex_be u32_to_hex_le bytes_to_hex
share_round hash_data thread_count local_job local_blob nonce =
    let blob = write_nonce local_blob local_job.nonce_offset nonce in
    let hash = hash_data blob in
    let share : StratumShare = record {
      job_id = local_job.job_id;
      nonce_hex = u32_to_hex_be nonce;
      nonce_hex_alt = u32_to_hex_le nonce;
      result_hex = bytes_to_hex hash.bytes;
      height = local_job.height;
    } in
    (
      blob,
      (nonce + thread_count) % 2 ^ 32,
      if stratum_hash_meets_target hash local_job then some share else none,
    )
