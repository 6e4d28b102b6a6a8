-- ===== src/Miner/Mempool/Kept.antt =====
-- What filter_mempool of src/miner.cpp keeps.
use scrig.Base.{
  ℕ, zero, suc, ◌+◌, ◌-◌, ◌<◌, ◌≤◌, true, false, List, [], ◌∷◌, ◌++◌, length, length-append, leb,
  take, All, All-append, Bool-cases, append_assoc, append-nil, inl, inr, ◌≡◌, refl, sym, ap, ◌∙◌,
  arith,
}
use scrig.Types.{u64_mod, max_transactions_per_block, expiration_time_seconds, Transaction}
use scrig.Miner.Mempool.{skipped, filter_loop, filter_mempool}

abbrev pub IsAdmitted : (now_ts : ℕ) → Transaction → Type 0
IsAdmitted now_ts tx = skipped now_ts tx ≡ false

module _ (now_ts : ℕ) (tx : Transaction) (txs out : List Transaction) where
  filter_loop-skipped :
      skipped now_ts tx ≡ true → filter_loop now_ts (tx ∷ txs) out ≡ filter_loop now_ts txs out
  unfolding filter_loop
  filter_loop-skipped late = rw (late, filter_loop)

  module _ (live : skipped now_ts tx ≡ false) where
    filter_loop-full :
        leb 499 (length (out ++ tx ∷ [])) ≡ true
        → filter_loop now_ts (tx ∷ txs) out ≡ out ++ tx ∷ []
    unfolding filter_loop
    filter_loop-full full = rw (live, full, filter_loop)

    filter_loop-more :
        leb 499 (length (out ++ tx ∷ [])) ≡ false
        → filter_loop now_ts (tx ∷ txs) out ≡ filter_loop now_ts txs (out ++ tx ∷ [])
    unfolding filter_loop
    filter_loop-more more = rw (live, more, filter_loop)

filter_loop_lem :
    (now_ts : ℕ) (txs out : List Transaction)
    → length out < 499
    → All (IsAdmitted now_ts) out
    → (length (filter_loop now_ts txs out) ≤ 499)
      × All (IsAdmitted now_ts) (filter_loop now_ts txs out)
filter_loop_lem now_ts [] out room h = unfold filter_loop in (omega arith, h)
filter_loop_lem now_ts (tx ∷ txs) out room h = elim (Bool-cases (skipped now_ts tx)) [
  | inl late ↦
      rw (filter_loop-skipped now_ts tx txs out late) (filter_loop_lem now_ts txs out room h)
  | inr live ↦
      let size = length-append out (tx ∷ []) in
      let all = All-append (IsAdmitted now_ts) out (tx ∷ []) h (live, tt) in
      elim (Bool-cases (leb 499 (length (out ++ tx ∷ [])))) [
        | inl full ↦ rw (filter_loop-full now_ts tx txs out live full) (omega (arith, size), all)
        | inr more ↦
            rw (filter_loop-more now_ts tx txs out live more)
              (filter_loop_lem now_ts txs (out ++ tx ∷ []) (ground arith) all)
      ]
]

-- At every time filter_mempool gives at most one transaction less than a block may hold, and none
-- that the condition of its loop skips.
pub filter_mempool_lem :
    (now_ts : ℕ) (mempool : List Transaction)
    → (length (filter_mempool now_ts mempool) ≤ max_transactions_per_block - 1)
      × All (IsAdmitted now_ts) (filter_mempool now_ts mempool)
unfolding filter_mempool
filter_mempool_lem now_ts mempool = filter_loop_lem now_ts mempool [] (omega arith) tt

past-IsAdmitted :
    (now_ts : ℕ) (tx : Transaction)
    → expiration_time_seconds + now_ts < u64_mod
    → tx.timestamp ≤ now_ts
    → skipped now_ts tx ≡ false
unfolding skipped
past-IsAdmitted now_ts tx fits past = ground arith

take_empty : (n : ℕ) → take {A = Transaction} n [] ≡ []
take_empty zero = refl
take_empty (suc n) = refl

filter_loop-take :
    (now_ts : ℕ) (txs out : List Transaction)
    → expiration_time_seconds + now_ts < u64_mod
    → All (λ tx. tx.timestamp ≤ now_ts) txs
    → length out < 499
    → filter_loop now_ts txs out ≡ out ++ take (499 - length out) txs
filter_loop-take now_ts [] out fits past room =
    unfold filter_loop in sym (ap (λ t. out ++ t) (take_empty (499 - length out)) ∙ append-nil out)
filter_loop-take now_ts (tx ∷ txs) out fits (old, past) room =
    let live = past-IsAdmitted now_ts tx fits old in
    let size = length-append out (tx ∷ []) in
    let left = 499 - length (out ++ tx ∷ []) in
    let step : suc left ≡ 499 - length out = omega (arith, size) in
    elim (Bool-cases (leb 499 (length (out ++ tx ∷ [])))) [
      | inl full ↦
          let last : 1 ≡ 499 - length out = ground (arith, size) in
          filter_loop-full now_ts tx txs out live full ∙ ap (λ n. out ++ take n (tx ∷ txs)) last
      | inr more ↦
          filter_loop-more now_ts tx txs out live more
          ∙ filter_loop-take now_ts txs (out ++ tx ∷ []) fits past (ground arith)
          ∙ append_assoc out (tx ∷ []) (take left txs)
          ∙ ap (λ n. out ++ take n (tx ∷ txs)) step
    ]

-- Where no transaction lies in the future, and the time and the expiration time together do not wrap
-- 64 bits, filter_mempool keeps all, up to one less than a block may hold, in their order: it drops
-- none for its age.
pub filter_mempool-take :
    (now_ts : ℕ) (mempool : List Transaction)
    → expiration_time_seconds + now_ts < u64_mod
    → All (λ tx. tx.timestamp ≤ now_ts) mempool
    → filter_mempool now_ts mempool ≡ take (max_transactions_per_block - 1) mempool
unfolding filter_mempool
filter_mempool-take now_ts mempool fits past =
    filter_loop-take now_ts mempool [] fits past (omega arith)
