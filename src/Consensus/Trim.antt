-- ===== src/Consensus/Trim.antt =====
-- trim_expired_transactions of src/crypto.cpp. `none` means that the bound on the Merkle rounds ran
-- out.
use scrig.Base.{
  ℕ, ◌+◌, ◌%◌, ◌<◌, ◌≤◌, Bool, true, false, not, Option, none, some, List, [], ◌∷◌, length, ltb,
  ◌==◌, if◌then◌else◌, All, Bool-cases, ◌⊎◌, inl, inr, ==→eq, ◌≡◌, refl, ap, arith,
}
use scrig.Types.{u64_mod, expiration_time_seconds, Transaction, Block, AddressInclusionFilter}
use scrig.Consensus.Merkle.{build_merkle_root}
use scrig.Consensus.Merkle.Laws.{build_merkle_root_total}

-- The predicate of remove_if.
unfoldable pub expired : (now_ts : ℕ) → Transaction → Bool
expired now_ts tx = ltb ((tx.timestamp + expiration_time_seconds + 10) % u64_mod) now_ts

unfoldable pub remove_if {ℓ} : {A : Type ℓ} → (A → Bool) → List A → List A
remove_if p [] = []
remove_if p (x ∷ xs) = if p x then remove_if p xs else x ∷ remove_if p xs

module _ (address_filter : List Transaction → AddressInclusionFilter) where
  -- The block that the call leaves, and the Boolean that it returns. `address_filter` is
  -- build_address_filter at its sizes.
  unfoldable pub trim_expired_transactions : Block → (now_ts : ℕ) → Option (Block × Bool)
  unfolding expired remove_if
  trim_expired_transactions block now_ts =
      let old_size = length block.transactions in
      let kept = remove_if (expired now_ts) block.transactions in
      let removed = not (length kept == old_size) in
      if removed
      then elim (build_merkle_root kept) [
        | none ↦ none
        | some root ↦ some (
          record block {
            transactions = kept;
            meta = record block.meta {
              merkle_tree_root = root;
              address_inclusion_filter = address_filter kept;
            };
          },
          true,
        )
      ]
      else some (record block { transactions = kept }, false)

length-remove_if {ℓ} :
    {A : Type ℓ} (p : A → Bool) (xs : List A) → length (remove_if p xs) ≤ length xs
unfolding remove_if
length-remove_if p [] = omega arith
length-remove_if p (x ∷ xs) = ground (arith, length-remove_if p xs)

remove_if-All {ℓ} :
    {A : Type ℓ} (p : A → Bool) (xs : List A) → All (λ x. p x ≡ false) (remove_if p xs)
unfolding remove_if
remove_if-All p [] = tt
remove_if-All p (x ∷ xs) = elim (Bool-cases (p x)) [
  | inl h ↦ rw h (remove_if-All p xs)
  | inr h ↦ rw h (h, remove_if-All p xs)
]

-- Nothing was removed exactly if no element passes the test.
remove_if_none {ℓ} :
    {A : Type ℓ} (p : A → Bool) (xs : List A)
    → length (remove_if p xs) ≡ length xs
    → (remove_if p xs ≡ xs) × All (λ x. p x ≡ false) xs
unfolding remove_if
remove_if_none p [] h = (refl, tt)
remove_if_none p (x ∷ xs) h = elim (Bool-cases (p x)) [
  | inl e ↦ absurd (omega (arith, length-remove_if p xs, rw e at h))
  | inr e ↦
      let (same, none_expired) = remove_if_none p xs (omega (arith, rw e at h)) in
      rw e (ap (λ t. x ∷ t) same, (refl, none_expired))
]

-- What a call leaves: of the transactions those that have not expired, in their order; if it
-- returns false none had expired and the block is as it was; if true the root and the filter are
-- those of the transactions kept.
pub record Trimmed (address_filter : List Transaction → AddressInclusionFilter) (before : Block)
    (now_ts : ℕ) (after : Block) (removed : Bool) : Type 0 where
  pub transactions : after.transactions ≡ remove_if (expired now_ts) before.transactions
  pub live : All (λ tx. expired now_ts tx ≡ false) after.transactions
  pub metadata :
      ((removed ≡ false)
        × (after ≡ before)
        × All (λ tx. expired now_ts tx ≡ false) before.transactions)
      ⊎ ((removed ≡ true)
          × (length after.transactions < length before.transactions)
          × (build_merkle_root after.transactions ≡ some after.meta.merkle_tree_root)
          × (after.meta.address_inclusion_filter ≡ address_filter after.transactions))

-- For every block and time, trim_expired_transactions returns and leaves, in their order, the
-- transactions that have not expired. It returns false only if none had expired, and then the block
-- is as it was; it returns true only if there are fewer transactions, and then the root and the
-- filter are those of the transactions left.
pub trim_expired_transactions_lem :
    (address_filter : List Transaction → AddressInclusionFilter) (block : Block) (now_ts : ℕ)
    → (after : Block) × (removed : Bool) × (trim_expired_transactions address_filter block now_ts
        ≡ some (after, removed))
      × Trimmed address_filter block now_ts after removed
unfolding trim_expired_transactions
trim_expired_transactions_lem address_filter block now_ts =
    let txs = block.transactions in
    let kept = remove_if (expired now_ts) txs in
    elim (Bool-cases (length kept == length txs)) [
      | inl same ↦
          let (e, live) = remove_if_none (expired now_ts) txs (==→eq _ _ same) in
          (
            record block { transactions = kept },
            false,
            rw same,
            record {
              transactions = refl;
              live = remove_if-All (expired now_ts) txs;
              metadata = inl (refl, ap (λ t. record block { transactions = t }) e, live);
            },
          )
      | inr fewer ↦
          let (root, e, _) = build_merkle_root_total kept in
          (
            record block {
              transactions = kept;
              meta = record block.meta {
                merkle_tree_root = root;
                address_inclusion_filter = address_filter kept;
              };
            },
            true,
            rw (fewer, e),
            record {
              transactions = refl;
              live = remove_if-All (expired now_ts) txs;
              metadata = inr (refl, ground (arith, length-remove_if (expired now_ts) txs), e, refl);
            },
          )
    ]
