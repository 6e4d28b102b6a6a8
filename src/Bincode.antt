-- ===== src/Bincode.antt =====
-- BincodeWriter and the encode_* functions of src/crypto.cpp. A writer is its `buffer_`; each
-- method takes the writer and returns it after its last `push_back`.
pub mod Format
pub mod PrefixCode
use scrig.Base.{
  ℕ, zero, suc, ◌+◌, ◌*◌, ◌/◌, ◌%◌, ◌^◌, Bool, true, false, Option, none, some, List, [], ◌∷◌, ◌++◌,
  foldl, map, length, ltb, leb, if◌then◌else◌,
}
use scrig.Base.Bytes.{Bytes}
use scrig.Types.{
  Hash, PublicKey, Signature, TransactionInput, TransactionOutput, Transaction,
  AddressInclusionFilter, BlockMetadata, Block,
}

abbrev pub BincodeWriter : Type 0
BincodeWriter = Bytes

-- static_cast<uint8_t>((value >> (i * 8U)) & 0xFFU)
abbrev pub byte_at : ℕ → ℕ → ℕ
byte_at value i = value / 2 ^ (i * 8) % 256

unfoldable pub write_u8 : BincodeWriter → ℕ → BincodeWriter
write_u8 w value = w ++ value ∷ []

unfoldable pub write_fixed_bytes : BincodeWriter → Bytes → BincodeWriter
write_fixed_bytes w bytes = w ++ bytes

unfoldable pub write_le_u16 : BincodeWriter → ℕ → BincodeWriter
write_le_u16 w value = (w ++ value % 256 ∷ []) ++ (value / 2 ^ 8 % 256) ∷ []

-- for (size_t i = 0; i < n; ++i): `rounds` are left, `i` comes next.
unfoldable pub write_le_loop : (rounds i : ℕ) → BincodeWriter → ℕ → BincodeWriter
write_le_loop zero i w value = w
write_le_loop (suc rounds) i w value =
    write_le_loop rounds (i + 1) (w ++ byte_at value i ∷ []) value

unfoldable pub write_le_u32 : BincodeWriter → ℕ → BincodeWriter
unfolding write_le_loop
write_le_u32 = write_le_loop 4 0

unfoldable pub write_le_u64 : BincodeWriter → ℕ → BincodeWriter
unfolding write_le_loop
write_le_u64 = write_le_loop 8 0

unfoldable pub write_varuint : BincodeWriter → ℕ → BincodeWriter
write_varuint w value =
    if ltb value 251
    then write_u8 w value
    else if leb value 0xFFFF
    then write_le_u16 (write_u8 w 251) value
    else if leb value 0xFFFF_FFFF
    then write_le_u32 (write_u8 w 252) value
    else write_le_u64 (write_u8 w 253) value

unfoldable pub write_usize : BincodeWriter → ℕ → BincodeWriter
write_usize w value = write_varuint w value

unfoldable pub encode_hash : BincodeWriter → Hash → BincodeWriter
encode_hash w hash = write_fixed_bytes w hash.bytes

unfoldable pub encode_public : BincodeWriter → PublicKey → BincodeWriter
encode_public w key = write_fixed_bytes w key.bytes

unfoldable pub encode_signature : BincodeWriter → Signature → BincodeWriter
encode_signature w signature = write_fixed_bytes w signature.bytes

unfoldable pub encode_option_hash : BincodeWriter → Option Hash → BincodeWriter
encode_option_hash w none = write_varuint w 0
encode_option_hash w (some hash) = encode_hash (write_varuint w 1) hash

unfoldable pub encode_option_signature : BincodeWriter → Option Signature → BincodeWriter
encode_option_signature w none = write_varuint w 0
encode_option_signature w (some signature) = encode_signature (write_varuint w 1) signature

unfoldable pub encode_tx_input : BincodeWriter → TransactionInput → BincodeWriter
encode_tx_input w input =
    let w = encode_hash w input.transaction_id in
    let w = write_varuint w input.output_index in
    let w = encode_option_signature w input.signature in encode_public w input.output_owner

unfoldable pub encode_tx_output : BincodeWriter → TransactionOutput → BincodeWriter
encode_tx_output w output = encode_public (write_varuint w output.amount) output.receiver

-- `write_usize(v.size())` and the loop over `v` behind it.
unfoldable pub encode_vector {ℓ} :
    {A : Type ℓ} → (BincodeWriter → A → BincodeWriter) → BincodeWriter → List A → BincodeWriter
encode_vector encode w items = foldl encode (write_usize w (length items)) items

unfoldable pub encode_transaction : BincodeWriter → Transaction → BincodeWriter
encode_transaction w tx =
    let w = encode_vector encode_tx_input w tx.inputs in
    let w = encode_vector encode_tx_output w tx.outputs in
    let w = encode_option_hash w tx.transaction_id in
    let w = write_varuint w tx.nonce in write_varuint w tx.timestamp

unfoldable pub encode_address_filter : BincodeWriter → AddressInclusionFilter → BincodeWriter
encode_address_filter w filter =
    let w = encode_vector write_u8 w filter.bits in
    let w = write_varuint w filter.num_bits in write_varuint w filter.num_hashes

unfoldable pub encode_block_meta : BincodeWriter → BlockMetadata → BincodeWriter
encode_block_meta w m =
    let w = write_fixed_bytes w m.block_pow_difficulty in
    let w = write_fixed_bytes w m.tx_pow_difficulty in
    let w = encode_hash w m.previous_block in
    let w = encode_option_hash w m.hash in
    let w = write_fixed_bytes w m.merkle_tree_root in
    encode_address_filter w m.address_inclusion_filter

-- The writer and `*nonce_offset`, which is the buffer's size before the nonce.
unfoldable pub encode_block : BincodeWriter → Block → BincodeWriter × ℕ
encode_block w block =
    let w = encode_vector encode_transaction w block.transactions in
    let w = write_varuint w block.timestamp in
    let nonce_offset = length w in
    let w = write_varuint w block.nonce in (encode_block_meta w block.meta, nonce_offset)

-- `normalized.transaction_id.reset()`
abbrev pub without_id : Transaction → Transaction
without_id tx = record tx { transaction_id = none }

unfoldable pub encode_transaction_hashing : BincodeWriter → Transaction → BincodeWriter × ℕ
encode_transaction_hashing w tx =
    let normalized = without_id tx in
    let w = encode_vector encode_tx_input w normalized.inputs in
    let w = encode_vector encode_tx_output w normalized.outputs in
    let w = encode_option_hash w normalized.transaction_id in
    let nonce_offset = length w in
    let w = write_varuint w normalized.nonce in (write_varuint w normalized.timestamp, nonce_offset)
