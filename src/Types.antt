-- ===== src/Types.antt =====
-- The records of include/scrig/types.hpp, the constants beside them, and their operator== in
-- src/types.cpp. A hash, a key, a signature and a difficulty target are byte arrays; an unsigned
-- integer is a number, its range a hypothesis of `IsWord`.
pub mod Equality
pub mod Wellformed
use scrig.Base.{
  ℕ, ◌*◌, ◌^◌, ◌<◌, Bool, Option, none, some, List, [], ◌∷◌, replicate, length, All, ◌≡◌, ◌+◌,
}
use scrig.Base.Bytes.{Bytes, IsArray}

abbrev pub u64_mod : ℕ
u64_mod = 2 ^ 64

abbrev pub nano_per_coin : ℕ
nano_per_coin = 100000000

abbrev pub initial_reward : ℕ
initial_reward = 100 * nano_per_coin

abbrev pub halving_interval : ℕ
halving_interval = 1000000

abbrev pub min_reward : ℕ
min_reward = 1

abbrev pub max_transactions_per_block : ℕ
max_transactions_per_block = 500

abbrev pub expiration_time_seconds : ℕ
expiration_time_seconds = 35 * 10

abbrev pub scip1_migration : ℕ
scip1_migration = 1770375600

abbrev pub DifficultyTarget : Type 0
DifficultyTarget = Bytes

pub record Hash : Type 0 where
  pub bytes : Bytes

-- Hash::zero()
abbrev pub hash_zero : Hash
hash_zero = record { bytes = replicate 32 0 }

pub record PublicKey : Type 0 where
  pub bytes : Bytes

pub record Signature : Type 0 where
  pub bytes : Bytes

pub record TransactionInput : Type 0 where
  pub transaction_id : Hash
  pub output_index : ℕ
  pub signature : Option Signature
  pub output_owner : PublicKey

pub record TransactionOutput : Type 0 where
  pub amount : ℕ
  pub receiver : PublicKey

pub record Transaction : Type 0 where
  pub inputs : List TransactionInput
  pub outputs : List TransactionOutput
  pub transaction_id : Option Hash
  pub nonce : ℕ
  pub timestamp : ℕ

pub record AddressInclusionFilter : Type 0 where
  pub bits : Bytes
  pub num_bits : ℕ
  pub num_hashes : ℕ

pub record BlockMetadata : Type 0 where
  pub block_pow_difficulty : DifficultyTarget
  pub tx_pow_difficulty : DifficultyTarget
  pub previous_block : Hash
  pub hash : Option Hash
  pub merkle_tree_root : Bytes
  pub address_inclusion_filter : AddressInclusionFilter

pub record Block : Type 0 where
  pub transactions : List Transaction
  pub timestamp : ℕ
  pub nonce : ℕ
  pub meta : BlockMetadata

pub data ChainEventKind : Type 0 where
  unknown block transaction transaction_expiration : ChainEventKind

pub record ChainEvent : Type 0 where
  pub kind : ChainEventKind
  pub block : Option Block
  pub transaction : Option Transaction
  pub transaction_id : Option Hash
