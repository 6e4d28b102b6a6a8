-- ===== src/Consensus/Reward.antt =====
-- get_block_reward and build_reward_transaction.
use Prim.Native.Nat.{max}
use native.Mathlib.Nat.{
  pow-le-pow_right, one-le-pow, le-div_iff_mul-le, div-mul-le_self, mul-le-mul_left, le_trans,
  div-eq_of_lt,
}
use scrig.Base.{
  ℕ, ◌+◌, ◌-◌, ◌/◌, ◌%◌, ◌^◌, ◌<◌, ◌≤◌, none, List, [], ◌∷◌, leb, if◌then◌else◌, ◌≡◌, arith,
  Bool-cases, inl, inr,
}
use scrig.Base.Bytes.{Bytes}
use scrig.Types.{
  u64_mod, initial_reward, halving_interval, min_reward, PublicKey, Transaction, TransactionOutput,
}

unfoldable pub get_block_reward : (height : ℕ) → ℕ
get_block_reward height =
    let halvings = height / halving_interval in
    let reward = if leb 63 halvings then 0 else initial_reward / 2 ^ halvings in
    max reward min_reward

-- kDevWalletBytes
abbrev pub dev_wallet_bytes : Bytes
dev_wallet_bytes =
    237 ∷ 16 ∷ 162 ∷ 56 ∷ 254 ∷ 203 ∷ 62 ∷ 193 ∷ 77 ∷ 162 ∷ 64 ∷ 178 ∷ 25 ∷ 226 ∷ 137 ∷ 184 ∷ 77
    ∷ 191 ∷ 219 ∷ 2 ∷ 54 ∷ 178 ∷ 222 ∷ 164 ∷ 139 ∷ 138 ∷ 195 ∷ 169 ∷ 96 ∷ 66 ∷ 159 ∷ 155 ∷ []

abbrev pub dev_wallet : PublicKey
dev_wallet = record { bytes = dev_wallet_bytes }

-- `calculate_dev_fee` truncates a product of doubles: a parameter. The subtraction is of uint64_t.
unfoldable pub build_reward_transaction :
    (calculate_dev_fee : ℕ → ℕ) → PublicKey → (reward timestamp : ℕ) → Transaction
build_reward_transaction calculate_dev_fee miner reward timestamp = record {
  inputs = [];
  outputs =
      record { amount = calculate_dev_fee reward; receiver = dev_wallet }
      ∷ record {
        amount = (reward + u64_mod - calculate_dev_fee reward) % u64_mod;
        receiver = miner;
      }
      ∷ [];
  transaction_id = none;
  nonce = 0x1_0000_0000;
  timestamp = timestamp;
}

-- The sum of what the outputs pay.
abbrev pub total_amount : List TransactionOutput → ℕ
total_amount [] = 0
total_amount (o ∷ os) = o.amount + total_amount os

wide_pow : (k : ℕ) → 63 ≤ k → initial_reward / 2 ^ k ≡ 0
wide_pow k h = div-eq_of_lt (le_trans (omega arith) (pow-le-pow_right (omega arith) h))

-- The reward of every height is the initial reward halved once for each full interval, and at least
-- the smallest reward: the cut-off at 63 halvings changes nothing.
pub get_block_reward_lem :
    (height : ℕ)
    → get_block_reward height ≡ max (initial_reward / 2 ^ (height / halving_interval)) min_reward
unfolding get_block_reward
get_block_reward_lem height = elim (Bool-cases (leb 63 (height / halving_interval))) [
  | inl h ↦ rw (h, wide_pow (height / halving_interval) (ground arith))
  | inr h ↦ rw h
]

div-antitone : (n a b : ℕ) → 0 < a → a ≤ b → n / b ≤ n / a
div-antitone n a b pos h =
    (le-div_iff_mul-le pos).1 (le_trans (mul-le-mul_left (n / b) h) (div-mul-le_self n b))

-- The reward never rises with the height, and lies between the smallest and the initial reward.
pub get_block_reward_antitone :
    (low high : ℕ)
    → low ≤ high
    → (get_block_reward high ≤ get_block_reward low)
      × (min_reward ≤ get_block_reward high)
      × (get_block_reward low ≤ initial_reward)
get_block_reward_antitone low high h =
    let a = low / halving_interval in
    let b = high / halving_interval in
    let falls =
      div-antitone initial_reward (2 ^ a) (2 ^ b) (one-le-pow a 2 (omega arith))
        (pow-le-pow_right (omega arith) (omega arith)) in
    let start =
      div-antitone initial_reward 1 (2 ^ a) (omega arith) (one-le-pow a 2 (omega arith)) in
    rw (get_block_reward_lem low, get_block_reward_lem high)
      (omega (arith, falls), omega arith, omega (arith, start))

-- Where the fee is at most the reward and the reward fits 64 bits, the two outputs of a reward
-- transaction pay exactly the reward.
pub build_reward_transaction_total :
    (fee : ℕ → ℕ) (miner : PublicKey) (reward timestamp : ℕ)
    → fee reward ≤ reward
    → reward < u64_mod
    → total_amount (build_reward_transaction fee miner reward timestamp).outputs ≡ reward
unfolding build_reward_transaction
build_reward_transaction_total fee miner reward timestamp h w = omega arith
