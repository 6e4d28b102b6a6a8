-- ===== src/Miner/Mempool.antt =====
-- filter_mempool of src/miner.cpp.
pub mod Kept
use scrig.Base.{ℕ, ◌+◌, ◌-◌, ◌%◌, Bool, true, false, List, [], ◌∷◌, ◌++◌, length, leb}
use scrig.Types.{u64_mod, max_transactions_per_block, expiration_time_seconds, Transaction}

-- The condition of `continue`.
unfoldable pub skipped : (now_ts : ℕ) → Transaction → Bool
skipped now_ts tx =
    leb ((expiration_time_seconds + now_ts) % u64_mod) ((tx.timestamp + 5) % u64_mod)

unfoldable pub filter_loop :
    (now_ts : ℕ) → List Transaction → (out : List Transaction) → List Transaction
unfolding skipped
filter_loop now_ts [] out = out
filter_loop now_ts (tx ∷ txs) out = elim (skipped now_ts tx) [
  | true ↦ filter_loop now_ts txs out
  | false ↦ elim (leb (max_transactions_per_block - 1) (length (out ++ tx ∷ []))) [
    | true ↦ out ++ tx ∷ []
    | false ↦ filter_loop now_ts txs (out ++ tx ∷ [])
  ]
]

-- `now_ts` is what unix_timestamp_now returns.
unfoldable pub filter_mempool : (now_ts : ℕ) → List Transaction → List Transaction
unfolding filter_loop
filter_mempool now_ts mempool = filter_loop now_ts mempool []
