-- ===== src/Types/Wellformed.antt =====
-- What the C++ types guarantee of a value: array sizes, bytes below 256, integers in their width.
use scrig.Base.{ℕ, ◌^◌, ◌<◌, Option, none, some, length, All}
use scrig.Base.Bytes.{IsByte, IsArray}
use scrig.Types.{
  u64_mod, Hash, PublicKey, Signature, TransactionInput, TransactionOutput, Transaction,
  AddressInclusionFilter, BlockMetadata, Block,
}

-- uint64_t, size_t
abbrev pub IsWord : ℕ → Type 0
IsWord n = n < u64_mod

abbrev pub IsOptional {ℓ κ} : {A : Type ℓ} → (A → Type κ) → Option A → Type κ
IsOptional P none = Unit
IsOptional P (some a) = P a

abbrev pub IsHash : Hash → Type 0
IsHash h = IsArray 32 h.bytes

abbrev pub IsPublicKey : PublicKey → Type 0
IsPublicKey k = IsArray 32 k.bytes

abbrev pub IsSignature : Signature → Type 0
IsSignature s = IsArray 64 s.bytes

pub record IsInput (input : TransactionInput) : Type 0 where
  pub transaction_id : IsHash input.transaction_id
  pub output_index : IsWord input.output_index
  pub signature : IsOptional IsSignature input.signature
  pub output_owner : IsPublicKey input.output_owner

pub record IsOutput (output : TransactionOutput) : Type 0 where
  pub amount : IsWord output.amount
  pub receiver : IsPublicKey output.receiver

pub record IsTransaction (tx : Transaction) : Type 0 where
  pub input_count : IsWord (length tx.inputs)
  pub inputs : All IsInput tx.inputs
  pub output_count : IsWord (length tx.outputs)
  pub outputs : All IsOutput tx.outputs
  pub transaction_id : IsOptional IsHash tx.transaction_id
  pub nonce : IsWord tx.nonce
  pub timestamp : IsWord tx.timestamp

pub record IsFilter (filter : AddressInclusionFilter) : Type 0 where
  pub size : IsWord (length filter.bits)
  pub bits : All IsByte filter.bits
  pub num_bits : IsWord filter.num_bits
  pub num_hashes : filter.num_hashes < 2 ^ 32

pub record IsMetadata (m : BlockMetadata) : Type 0 where
  pub block_pow_difficulty : IsArray 32 m.block_pow_difficulty
  pub tx_pow_difficulty : IsArray 32 m.tx_pow_difficulty
  pub previous_block : IsHash m.previous_block
  pub hash : IsOptional IsHash m.hash
  pub merkle_tree_root : IsArray 32 m.merkle_tree_root
  pub address_inclusion_filter : IsFilter m.address_inclusion_filter

pub record IsBlock (b : Block) : Type 0 where
  pub transaction_count : IsWord (length b.transactions)
  pub transactions : All IsTransaction b.transactions
  pub timestamp : IsWord b.timestamp
  pub nonce : IsWord b.nonce
  pub metadata : IsMetadata b.meta
