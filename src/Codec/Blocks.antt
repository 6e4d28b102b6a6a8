-- ===== src/Codec/Blocks.antt =====
-- block_from_json of src/types.cpp behind block_to_json.
use scrig.Base.{◌%◌, ◌^◌, [], ◌∷◌, map, length, ◌≡◌, refl, ap, ◌∙◌, arith, length-map}
use scrig.Base.Bytes.{Bytes, codes, bytes_eq, IsArray}
use scrig.Base.Fault.{ok}
use scrig.Types.{AddressInclusionFilter, Block, DifficultyTarget}
use scrig.Types.Wellformed.{IsFilter, IsBlock, IsTransaction}
use scrig.Json.{
  Doubles, JsonValue, uint64, array, object, as_uint64, as_object, as_array, find_field,
}
use scrig.Json.Parser.{emplace}
use scrig.Codec.{
  array_of, elements, object_of, require_field, uint64_field, difficulty_target_to_json,
  difficulty_target_from_json, address_filter_to_json, address_filter_from_json, metadata_from_json,
  transaction_to_json, transaction_from_json, block_to_json, block_from_json,
}
use scrig.Codec.Atoms.{
  hash-Survives, optional_hash-Survives, elements-array_of, traverse-Survives,
  bytes_from_json-array_of,
}
use scrig.Codec.Transactions.{transaction_from_json-transaction_to_json}

length-elements : (bytes : Bytes) → length (elements (array_of (map uint64 bytes))) ≡ length bytes
length-elements bytes = ap length (elements-array_of (map uint64 bytes)) ∙ length-map bytes uint64

pub difficulty_target_from_json_lem :
    (doubles : Doubles) (target : DifficultyTarget)
    → IsArray 32 target
    → difficulty_target_from_json doubles (difficulty_target_to_json target) ≡ ok target
unfolding difficulty_target_from_json difficulty_target_to_json as_array
difficulty_target_from_json_lem doubles target h =
    rw (length-elements target, h.size) (bytes_from_json-array_of doubles target h.bytes)

address_filter_from_json_lem :
    (doubles : Doubles) (f : AddressInclusionFilter)
    → IsFilter f
    → address_filter_from_json doubles (address_filter_to_json f) ≡ ok f
unfolding address_filter_to_json address_filter_from_json object_of emplace require_field
    uint64_field as_uint64 as_object as_array find_field bytes_eq
address_filter_from_json_lem doubles f h =
    let small : f.num_hashes % 2 ^ 32 ≡ f.num_hashes = omega (arith, h.num_hashes) in
    rw (bytes_from_json-array_of doubles f.bits h.bits, small) refl

-- A block whose fields fit their types has a JSON form, and reading that form gives the block back.
pub block_from_json-block_to_json :
    (doubles : Doubles) (b : Block)
    → IsBlock b
    → (value : JsonValue) × (block_to_json b ≡ ok value) × (block_from_json doubles value ≡ ok b)
unfolding block_to_json block_from_json metadata_from_json object_of emplace require_field
    uint64_field as_uint64 as_object as_array find_field bytes_eq
block_from_json-block_to_json doubles b h =
    let (txs, txs_there, txs_back) =
      traverse-Survives transaction_to_json (transaction_from_json doubles) IsTransaction
        (transaction_from_json-transaction_to_json doubles) b.transactions h.transactions in
    let m = h.metadata in
    let (previous, previous_there, previous_back) =
      hash-Survives b.meta.previous_block m.previous_block in
    let (hash, hash_there, hash_back) = optional_hash-Survives b.meta.hash m.hash in
    let meta = object_of (
      (codes "block_pow_difficulty", difficulty_target_to_json b.meta.block_pow_difficulty)
      ∷ (codes "tx_pow_difficulty", difficulty_target_to_json b.meta.tx_pow_difficulty)
      ∷ (codes "previous_block", previous)
      ∷ (codes "hash", hash)
      ∷ (codes "merkle_tree_root", array (array_of (map uint64 b.meta.merkle_tree_root)))
      ∷ (codes "address_inclusion_filter", address_filter_to_json b.meta.address_inclusion_filter)
      ∷ []) in
    (
      object (
          object_of (
            (codes "transactions", array (array_of txs))
            ∷ (codes "timestamp", uint64 b.timestamp)
            ∷ (codes "nonce", uint64 b.nonce)
            ∷ (codes "meta", object meta)
            ∷ [])),
      rw (txs_there, previous_there, hash_there) refl,
      rw
          (
            elements-array_of txs,
            txs_back,
            difficulty_target_from_json_lem doubles b.meta.block_pow_difficulty
                m.block_pow_difficulty,
            difficulty_target_from_json_lem doubles b.meta.tx_pow_difficulty m.tx_pow_difficulty,
            previous_back,
            hash_back,
            length-elements b.meta.merkle_tree_root,
            m.merkle_tree_root.size,
            bytes_from_json-array_of doubles b.meta.merkle_tree_root m.merkle_tree_root.bytes,
            address_filter_from_json_lem doubles b.meta.address_inclusion_filter
                m.address_inclusion_filter,
          )
          refl,
    )
