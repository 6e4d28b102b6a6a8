-- ===== src/Miner/Worker/Rounds.antt =====
-- The nonces that the workers of src/miner.cpp share out among themselves.
use native.Mathlib.Nat.{div-add-mod, mod-lt, mul_comm}
use scrig.Base.{ℕ, zero, suc, ◌+◌, ◌-◌, ◌*◌, ◌/◌, ◌<◌, ◌≤◌, ◌%◌, ◌^◌, get_or, ◌≡◌, ap, ◌∙◌, arith}
use scrig.Miner.Worker.{batch_nonces, worker_nonces}

-- The nonce of a round that comes before the numbers wrap.
batch_nonces-get_or :
    (count x t k : ℕ)
    → k < count
    → x + k * t < 2 ^ 64
    → get_or (batch_nonces count x t).0 k 0 ≡ x + k * t
unfolding batch_nonces
batch_nonces-get_or zero x t k h small = absurd (omega arith)
batch_nonces-get_or (suc count) x t zero h small = omega arith
batch_nonces-get_or (suc count) x t (suc k) h small =
    let whole : (x + t) % 2 ^ 64 ≡ x + t = omega arith in
    ap (λ y. get_or (batch_nonces count y t).0 k 0) whole
    ∙ batch_nonces-get_or count (x + t) t k (omega arith) (omega arith)
    ∙ omega arith

-- No nonce is left out: with any number of workers, each nonce from the base on is the one that one
-- of them comes to, after as many rounds as the number of workers goes into its distance.
pub worker_nonces-get_or :
    (base_nonce thread_count n count : ℕ)
    → 0 < thread_count
    → base_nonce ≤ n
    → n < 2 ^ 64
    → (n - base_nonce) / thread_count < count
    → (worker_id : ℕ) × (worker_id < thread_count)
      × (get_or
            (worker_nonces base_nonce worker_id thread_count count)
            ((n - base_nonce) / thread_count)
            0
          ≡ n)
unfolding worker_nonces
worker_nonces-get_or base_nonce thread_count n count some_worker le small enough =
    let d = n - base_nonce in
    let r = d % thread_count in
    let split = div-add-mod d thread_count in
    let turn = mul_comm thread_count (d / thread_count) in
    let less : r < thread_count = mod-lt d some_worker in
    let whole : (base_nonce + r) % 2 ^ 64 ≡ base_nonce + r = omega (arith, split) in
    (
      r,
      less,
      ap (λ y. get_or (batch_nonces count y thread_count).0 (d / thread_count) 0) whole
          ∙ batch_nonces-get_or count (base_nonce + r) thread_count (d / thread_count) enough
              (omega (arith, split, turn))
          ∙ omega (arith, split, turn),
    )
