-- ===== src/Miner/Share/Valid.antt =====
-- The shares of run_pool_stratum in src/miner.cpp.
use scrig.Base.{
  ℕ, zero, suc, ◌+◌, ◌/◌, ◌≤◌, ◌%◌, ◌^◌, Bool, true, false, none, some, [], ◌∷◌, reverse, length,
  take, drop, All, if◌then◌else◌, ◌≡◌, refl, subst, sym, ap, ◌∙◌, arith,
}
use scrig.Base.Bytes.{Bytes, IsByte}
use scrig.Types.{Hash}
use scrig.Stratum.{hex_char, bytes_to_hex, parse_hex}
use scrig.Stratum.Hex.{parse_hex-bytes_to_hex}
use scrig.Stratum.Job.{StratumJob}
use scrig.Miner.Share.{
  hex_be_loop, u32_to_hex_be, hex_le_loop, u32_to_hex_le, stratum_hash_meets_target, StratumShare,
  write_nonce, share_round,
}

-- The bytes of a 32-bit number, the least significant first.
abbrev le_nonce : ℕ → Bytes
le_nonce n = n % 256 ∷ n / 2 ^ 8 % 256 ∷ n / 2 ^ 16 % 256 ∷ n / 2 ^ 24 % 256 ∷ []

write_nonce-window :
    (blob : Bytes) (offset n : ℕ)
    → offset + 4 ≤ length blob
    → take 4 (drop offset (write_nonce blob offset n)) ≡ le_nonce n
unfolding write_nonce
write_nonce-window [] offset n h = absurd (omega arith)
write_nonce-window (a ∷ []) zero n h = absurd (omega arith)
write_nonce-window (a ∷ b ∷ []) zero n h = absurd (omega arith)
write_nonce-window (a ∷ b ∷ c ∷ []) zero n h = absurd (omega arith)
write_nonce-window (a ∷ b ∷ c ∷ d ∷ blob) zero n h = refl
write_nonce-window (a ∷ blob) (suc offset) n h =
    let at_0 : suc offset + 0 ≡ suc (offset + 0) = omega arith in
    let at_1 : suc offset + 1 ≡ suc (offset + 1) = omega arith in
    let at_2 : suc offset + 2 ≡ suc (offset + 2) = omega arith in
    let at_3 : suc offset + 3 ≡ suc (offset + 3) = omega arith in
    rw (at_0, at_1, at_2, at_3) (write_nonce-window blob offset n (omega arith))

u32_to_hex_le-bytes_to_hex : (v : ℕ) → u32_to_hex_le v ≡ bytes_to_hex (le_nonce v)
unfolding u32_to_hex_le hex_le_loop bytes_to_hex
u32_to_hex_le-bytes_to_hex v = let whole : v / 1 ≡ v = omega arith in rw whole refl

u32_to_hex_be-bytes_to_hex : (v : ℕ) → u32_to_hex_be v ≡ bytes_to_hex (reverse (le_nonce v))
unfolding u32_to_hex_be hex_be_loop bytes_to_hex hex_char
u32_to_hex_be-bytes_to_hex v =
    let digit_7 : v / 16 / 16 / 16 / 16 / 16 / 16 / 16 % 16 ≡ v / 16777216 % 256 / 16 % 16 =
      omega arith in
    let digit_6 : v / 16 / 16 / 16 / 16 / 16 / 16 % 16 ≡ v / 16777216 % 256 % 16 = omega arith in
    let digit_5 : v / 16 / 16 / 16 / 16 / 16 % 16 ≡ v / 65536 % 256 / 16 % 16 = omega arith in
    let digit_4 : v / 16 / 16 / 16 / 16 % 16 ≡ v / 65536 % 256 % 16 = omega arith in
    let digit_3 : v / 16 / 16 / 16 % 16 ≡ v / 256 % 256 / 16 % 16 = omega arith in
    let digit_2 : v / 16 / 16 % 16 ≡ v / 256 % 256 % 16 = omega arith in
    let digit_1 : v / 16 % 16 ≡ v % 256 / 16 % 16 = omega arith in
    let digit_0 : v % 16 ≡ v % 256 % 16 = omega arith in
    rw (digit_7, digit_6, digit_5, digit_4, digit_3, digit_2, digit_1, ← digit_0) refl

-- What a share says of the blob that was hashed: its texts of the nonce are the four bytes at the
-- offset, read from either end, and its result is the blob's hash, which meets the target.
pub record IsValid (hash_data : Bytes → Hash) (job : StratumJob) (blob : Bytes)
    (share : StratumShare) : Type 0 where
  pub nonce_bytes : parse_hex share.nonce_hex_alt ≡ some (take 4 (drop job.nonce_offset blob))
  pub nonce_number :
      parse_hex share.nonce_hex ≡ some (reverse (take 4 (drop job.nonce_offset blob)))
  pub result : parse_hex share.result_hex ≡ some (hash_data blob).bytes
  pub meets : stratum_hash_meets_target (hash_data blob) job ≡ true
  pub same_job : share.job_id ≡ job.job_id

le_nonce-IsByte : (n : ℕ) → All IsByte (le_nonce n)
le_nonce-IsByte n = omega arith

reversed-IsByte : (n : ℕ) → All IsByte (reverse (le_nonce n))
reversed-IsByte n = omega arith

-- A share that a round on a job makes is one of the blob that the round hashed, where the offset of
-- the nonce lies in the blob: the bytes of the nonce at that offset are those that the share's texts
-- spell, its result is the hash of that blob, this hash meets the job's target, and the share names
-- the job.
pub share_round-IsValid :
    (hash_data : Bytes → Hash)
    → ((bytes : Bytes) → All IsByte (hash_data bytes).bytes)
    → (thread_count nonce : ℕ) (job : StratumJob) (local_blob : Bytes) (share : StratumShare)
    → job.nonce_offset + 4 ≤ length local_blob
    → (share_round hash_data thread_count job local_blob nonce).2 ≡ some share
    → IsValid hash_data job (share_round hash_data thread_count job local_blob nonce).0 share
unfolding share_round
share_round-IsValid hash_data is_hash thread_count nonce job local_blob share inside h =
    at_test (stratum_hash_meets_target (hash_data blob) job) refl h
  where
    blob : Bytes
    blob = write_nonce local_blob job.nonce_offset nonce

    made : StratumShare
    made = record {
      job_id = job.job_id;
      nonce_hex = u32_to_hex_be nonce;
      nonce_hex_alt = u32_to_hex_le nonce;
      result_hex = bytes_to_hex (hash_data blob).bytes;
      height = job.height;
    }

    made-IsValid :
        stratum_hash_meets_target (hash_data blob) job ≡ true → IsValid hash_data job blob made
    made-IsValid meets =
        let window = write_nonce-window local_blob job.nonce_offset nonce inside in
        record {
          nonce_bytes =
              ap parse_hex (u32_to_hex_le-bytes_to_hex nonce)
              ∙ parse_hex-bytes_to_hex (le_nonce nonce) (le_nonce-IsByte nonce)
              ∙ ap some (sym window);
          nonce_number =
              ap parse_hex (u32_to_hex_be-bytes_to_hex nonce)
              ∙ parse_hex-bytes_to_hex (reverse (le_nonce nonce)) (reversed-IsByte nonce)
              ∙ ap (λ b. some (reverse b)) (sym window);
          result = parse_hex-bytes_to_hex (hash_data blob).bytes (is_hash blob);
          meets = meets;
          same_job = refl;
        }

    unwrapped : some made ≡ some share → made ≡ share
    unwrapped e = cc e

    at_test :
        (test : Bool)
        → stratum_hash_meets_target (hash_data blob) job ≡ test
        → (if test then some made else none) ≡ some share
        → IsValid hash_data job blob share
    at_test true meets e = subst (IsValid hash_data job blob) (unwrapped e) (made-IsValid meets)
    at_test false meets e = absurd (cc e)
