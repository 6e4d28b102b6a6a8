-- ===== src/Codec.antt =====
-- The JSON forms of src/types.cpp: what the node's interface sends and receives.
pub mod Atoms
pub mod Transactions
pub mod Blocks
use scrig.Base.{
  ℕ, ◌+◌, ◌%◌, ◌^◌, Option, none, some, List, [], ◌∷◌, length, foldl, map, ◌==◌, if◌then◌else◌,
}
use scrig.Base.Bytes.{Bytes, codes}
use scrig.Base.Fault.{
  Result, ok, throw, runtime_error, missing_field, rounds_exhausted, ◌>>=◌, traverse,
}
use scrig.Types.{
  DifficultyTarget, Hash, PublicKey, Signature, TransactionInput, TransactionOutput, Transaction,
  AddressInclusionFilter, BlockMetadata, Block, ChainEventKind, ChainEvent,
}
use scrig.Base36.{
  hash_to_base36, hash_from_base36, public_key_to_base36, public_key_from_base36,
  signature_to_base36, signature_from_base36,
}
use scrig.Json.{
  Doubles, JsonValue, null, uint64, string, array, object, JsonArray, nil, cons, JsonObject, empty,
  is_null, as_uint64, as_string, as_array, as_object, find_field,
}
use scrig.Json.Parser.{emplace}

-- A std::vector of values, as an array and back.
unfoldable pub array_of : List JsonValue → JsonArray
array_of [] = nil
array_of (x ∷ xs) = cons x (array_of xs)

unfoldable pub elements : JsonArray → List JsonValue
elements nil = []
elements (cons x xs) = x ∷ elements xs

-- The std::map of an initializer list.
unfoldable pub object_of : List (Bytes × JsonValue) → JsonObject
object_of fields = foldl (λ o (f : Bytes × JsonValue). emplace f.0 f.1 o) empty fields

-- The text of encode_base36, or the error that stands for its bound on the rounds.
unfoldable pub enough {ℓ} : {A : Type ℓ} → Option A → Result A
enough none = throw rounds_exhausted
enough (some a) = ok a

unfoldable pub require_field : JsonObject → (key : Bytes) → Result JsonValue
require_field obj key = elim (find_field obj key) [
  | none ↦ throw (missing_field key)
  | some value ↦ ok value
]

unfoldable pub optional_field : JsonObject → (key : Bytes) → Option JsonValue
optional_field obj key = find_field obj key

unfoldable pub hash_to_json : Hash → Result JsonValue
hash_to_json hash = do text ← enough (hash_to_base36 hash); ok (string text)

unfoldable pub hash_from_json : JsonValue → Result Hash
hash_from_json value = do text ← as_string value; hash_from_base36 text

unfoldable pub public_key_to_json : PublicKey → Result JsonValue
public_key_to_json key = do text ← enough (public_key_to_base36 key); ok (string text)

unfoldable pub public_key_from_json : JsonValue → Result PublicKey
public_key_from_json value = do text ← as_string value; public_key_from_base36 text

unfoldable pub signature_to_json : Signature → Result JsonValue
signature_to_json signature = do text ← enough (signature_to_base36 signature); ok (string text)

unfoldable pub signature_from_json : JsonValue → Result Signature
signature_from_json value = do text ← as_string value; signature_from_base36 text

unfoldable pub optional_hash_to_json : Option Hash → Result JsonValue
optional_hash_to_json none = ok null
optional_hash_to_json (some hash) = hash_to_json hash

unfoldable pub optional_hash_from_json : JsonValue → Result (Option Hash)
optional_hash_from_json value =
    if is_null value then ok none else (do hash ← hash_from_json value; ok (some hash))

unfoldable pub optional_signature_to_json : Option Signature → Result JsonValue
optional_signature_to_json none = ok null
optional_signature_to_json (some signature) = signature_to_json signature

unfoldable pub optional_signature_from_json : JsonValue → Result (Option Signature)
optional_signature_from_json value =
    if is_null value
    then ok none
    else (do signature ← signature_from_json value; ok (some signature))

-- An array of bytes.
unfoldable pub difficulty_target_to_json : DifficultyTarget → JsonValue
difficulty_target_to_json target = array (array_of (map uint64 target))

unfoldable pub input_to_json : TransactionInput → Result JsonValue
input_to_json input = do
  transaction_id ← hash_to_json input.transaction_id
  signature ← optional_signature_to_json input.signature
  output_owner ← public_key_to_json input.output_owner
  ok (
      object (
        object_of (
          (codes "transaction_id", transaction_id)
          ∷ (codes "output_index", uint64 input.output_index)
          ∷ (codes "signature", signature)
          ∷ (codes "output_owner", output_owner)
          ∷ [])))

unfoldable pub output_to_json : TransactionOutput → Result JsonValue
output_to_json output = do
  receiver ← public_key_to_json output.receiver
  ok (
      object
        (object_of ((codes "amount", uint64 output.amount) ∷ (codes "receiver", receiver) ∷ [])))

unfoldable pub transaction_to_json : Transaction → Result JsonValue
transaction_to_json tx = do
  inputs ← traverse input_to_json tx.inputs
  outputs ← traverse output_to_json tx.outputs
  transaction_id ← optional_hash_to_json tx.transaction_id
  ok (
      object (
        object_of (
          (codes "inputs", array (array_of inputs))
          ∷ (codes "outputs", array (array_of outputs))
          ∷ (codes "transaction_id", transaction_id)
          ∷ (codes "nonce", uint64 tx.nonce)
          ∷ (codes "timestamp", uint64 tx.timestamp)
          ∷ [])))

unfoldable pub address_filter_to_json : AddressInclusionFilter → JsonValue
address_filter_to_json filter = object (
    object_of (
      (codes "bits", array (array_of (map uint64 filter.bits)))
      ∷ (codes "num_bits", uint64 filter.num_bits)
      ∷ (codes "num_hashes", uint64 filter.num_hashes)
      ∷ []))

unfoldable pub block_to_json : Block → Result JsonValue
block_to_json block = do
  txs ← traverse transaction_to_json block.transactions
  previous_block ← hash_to_json block.meta.previous_block
  hash ← optional_hash_to_json block.meta.hash
  let meta = object_of (
      (codes "block_pow_difficulty", difficulty_target_to_json block.meta.block_pow_difficulty)
      ∷ (codes "tx_pow_difficulty", difficulty_target_to_json block.meta.tx_pow_difficulty)
      ∷ (codes "previous_block", previous_block)
      ∷ (codes "hash", hash)
      ∷ (codes "merkle_tree_root", array (array_of (map uint64 block.meta.merkle_tree_root)))
      ∷ (
        codes "address_inclusion_filter",
        address_filter_to_json block.meta.address_inclusion_filter,
      )
      ∷ [])
  ok (
      object (
        object_of (
          (codes "transactions", array (array_of txs))
          ∷ (codes "timestamp", uint64 block.timestamp)
          ∷ (codes "nonce", uint64 block.nonce)
          ∷ (codes "meta", object meta)
          ∷ [])))

module _ (doubles : Doubles) where
  -- static_cast<uint8_t>(entry.as_uint64())
  unfoldable pub byte_from_json : JsonValue → Result ℕ
  byte_from_json value = do n ← as_uint64 doubles value; ok (n % 2 ^ 8)

  unfoldable pub bytes_from_json : JsonArray → Result Bytes
  bytes_from_json arr = traverse byte_from_json (elements arr)

  unfoldable pub difficulty_target_from_json : JsonValue → Result DifficultyTarget
  difficulty_target_from_json value = do
    arr ← as_array value
    if length (elements arr) == 32
        then bytes_from_json arr
        else throw (runtime_error "difficulty target must have 32 bytes")

  unfoldable pub uint64_field : JsonObject → (key : Bytes) → Result ℕ
  uint64_field obj key = do value ← require_field obj key; as_uint64 doubles value

  unfoldable pub input_from_json : JsonValue → Result TransactionInput
  input_from_json value = do
    obj ← as_object value
    id_value ← require_field obj (codes "transaction_id")
    transaction_id ← hash_from_json id_value
    output_index ← uint64_field obj (codes "output_index")
    signature_value ← require_field obj (codes "signature")
    signature ← optional_signature_from_json signature_value
    owner_value ← require_field obj (codes "output_owner")
    output_owner ← public_key_from_json owner_value
    ok (record {
      transaction_id = transaction_id;
      output_index = output_index;
      signature = signature;
      output_owner = output_owner;
    })

  unfoldable pub output_from_json : JsonValue → Result TransactionOutput
  output_from_json value = do
    obj ← as_object value
    amount ← uint64_field obj (codes "amount")
    receiver_value ← require_field obj (codes "receiver")
    receiver ← public_key_from_json receiver_value
    ok (record { amount = amount; receiver = receiver })

  unfoldable pub transaction_from_json : JsonValue → Result Transaction
  transaction_from_json value = do
    obj ← as_object value
    input_value ← require_field obj (codes "inputs")
    input_arr ← as_array input_value
    inputs ← traverse input_from_json (elements input_arr)
    output_value ← require_field obj (codes "outputs")
    output_arr ← as_array output_value
    outputs ← traverse output_from_json (elements output_arr)
    id_value ← require_field obj (codes "transaction_id")
    transaction_id ← optional_hash_from_json id_value
    nonce ← uint64_field obj (codes "nonce")
    timestamp ← uint64_field obj (codes "timestamp")
    ok (record {
      inputs = inputs;
      outputs = outputs;
      transaction_id = transaction_id;
      nonce = nonce;
      timestamp = timestamp;
    })

  unfoldable pub address_filter_from_json : JsonValue → Result AddressInclusionFilter
  address_filter_from_json value = do
    obj ← as_object value
    num_bits ← uint64_field obj (codes "num_bits")
    num_hashes ← uint64_field obj (codes "num_hashes")
    bits_value ← require_field obj (codes "bits")
    bits ← as_array bits_value
    bytes ← bytes_from_json bits
    ok (record { bits = bytes; num_bits = num_bits; num_hashes = num_hashes % 2 ^ 32 })

  unfoldable pub metadata_from_json : JsonObject → Result BlockMetadata
  metadata_from_json meta = do
    block_value ← require_field meta (codes "block_pow_difficulty")
    block_pow_difficulty ← difficulty_target_from_json block_value
    tx_value ← require_field meta (codes "tx_pow_difficulty")
    tx_pow_difficulty ← difficulty_target_from_json tx_value
    previous_value ← require_field meta (codes "previous_block")
    previous_block ← hash_from_json previous_value
    hash_value ← require_field meta (codes "hash")
    hash ← optional_hash_from_json hash_value
    root_value ← require_field meta (codes "merkle_tree_root")
    root_arr ← as_array root_value
    root ←
        if length (elements root_arr) == 32
        then bytes_from_json root_arr
        else throw (runtime_error "merkle_tree_root must have 32 bytes")
    filter_value ← require_field meta (codes "address_inclusion_filter")
    filter ← address_filter_from_json filter_value
    ok (record {
      block_pow_difficulty = block_pow_difficulty;
      tx_pow_difficulty = tx_pow_difficulty;
      previous_block = previous_block;
      hash = hash;
      merkle_tree_root = root;
      address_inclusion_filter = filter;
    })

  unfoldable pub block_from_json : JsonValue → Result Block
  block_from_json value = do
    obj ← as_object value
    timestamp ← uint64_field obj (codes "timestamp")
    nonce ← uint64_field obj (codes "nonce")
    txs_value ← require_field obj (codes "transactions")
    txs_arr ← as_array txs_value
    txs ← traverse transaction_from_json (elements txs_arr)
    meta_value ← require_field obj (codes "meta")
    meta_obj ← as_object meta_value
    meta ← metadata_from_json meta_obj
    ok (record { transactions = txs; timestamp = timestamp; nonce = nonce; meta = meta })

  unfoldable pub chain_event_from_json : JsonValue → Result ChainEvent
  chain_event_from_json value = do
    obj ← as_object value
    elim (optional_field obj (codes "Block")) [
      | some block_value ↦ do
        block_obj ← as_object block_value
        inner ← require_field block_obj (codes "block")
        block ← block_from_json inner
        ok (record {
          kind = ChainEventKind.block;
          block = some block;
          transaction = none;
          transaction_id = none;
        })
      | none ↦ elim (optional_field obj (codes "Transaction")) [
        | some tx_value ↦ do
          tx_obj ← as_object tx_value
          inner ← require_field tx_obj (codes "transaction")
          tx ← transaction_from_json inner
          ok (record {
            kind = ChainEventKind.transaction;
            block = none;
            transaction = some tx;
            transaction_id = none;
          })
        | none ↦ elim (optional_field obj (codes "TransactionExpiration")) [
          | some tx_exp ↦ do
            tx_exp_obj ← as_object tx_exp
            inner ← require_field tx_exp_obj (codes "transaction")
            id ← hash_from_json inner
            ok (record {
              kind = ChainEventKind.transaction_expiration;
              block = none;
              transaction = none;
              transaction_id = some id;
            })
          | none ↦ ok (record {
            kind = ChainEventKind.unknown;
            block = none;
            transaction = none;
            transaction_id = none;
          })
        ]
      ]
    ]
