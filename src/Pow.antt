-- ===== src/Pow.antt =====
-- The proof-of-work buffers of src/crypto.cpp: what is hashed for a transaction and for a block,
-- and the in-place change of the nonce. `hash_data` is RandomX in a build that has it, and a
-- parameter here.
pub mod Format
pub mod Patch
pub mod Injective
use scrig.Base.{
  ℕ, zero, suc, ◌+◌, ◌<◌, ◌≤◌, Bool, true, false, Option, none, some, List, [], ◌∷◌, ◌++◌, foldl,
  map, get_or, set, length, ltb, ◌==◌, ◌||◌, not, if◌then◌else◌,
}
use scrig.Base.Bytes.{Bytes}
use scrig.Base.Fault.{Result, ok, throw, runtime_error, ◌>>=◌}
use scrig.Types.{Hash, Transaction, TransactionInput, Block, BlockMetadata, scip1_migration}
use scrig.Bincode.{
  BincodeWriter, byte_at, encode_vector, encode_tx_input, encode_block, encode_transaction_hashing,
}
use scrig.Sha256.{sha256}

-- The writer's buffer and `*nonce_offset`.
unfoldable pub transaction_pow_buffer : Transaction → Bytes × ℕ
transaction_pow_buffer tx = encode_transaction_hashing [] tx

-- for (size_t i = 0; i < 8; ++i): `rounds` are left, `i` comes next.
unfoldable pub patch_loop : (rounds i : ℕ) → Bytes → (offset value : ℕ) → Bytes
patch_loop zero i buffer offset value = buffer
patch_loop (suc rounds) i buffer offset value =
    patch_loop rounds (i + 1) (set buffer (offset + 1 + i) (byte_at value i)) offset value

unfoldable pub patch_varuint_u64_in_place_9 : Bytes → (offset value : ℕ) → Result Bytes
patch_varuint_u64_in_place_9 buffer offset value =
    if ltb (length buffer) (offset + 9)
    then throw (runtime_error "nonce offset is out of range")
    else ok (patch_loop 8 0 (set buffer offset 253) offset value)

-- The buffer behind the call, and the Boolean that it returns.
unfoldable pub patch_nonce_in_pow_buffer : Bytes → (nonce_offset nonce : ℕ) → Result (Bytes × Bool)
patch_nonce_in_pow_buffer pow_buffer nonce_offset nonce =
    if not (ltb nonce_offset (length pow_buffer))
    then ok (pow_buffer, false)
    else if not (get_or pow_buffer nonce_offset 0 == 253)
        || ltb (length pow_buffer) (nonce_offset + 9)
    then ok (pow_buffer, false)
    else (do
      patched ← patch_varuint_u64_in_place_9 pow_buffer nonce_offset nonce
      ok (patched, true))

-- The inputs are written twice, and their digest is taken.
unfoldable pub tx_io_digest : Transaction → Bytes
tx_io_digest tx =
    let tx_io_writer = encode_vector encode_tx_input [] tx.inputs in
    let tx_io_writer = encode_vector encode_tx_input tx_io_writer tx.inputs in sha256 tx_io_writer

-- tx.inputs.clear(); tx.outputs.clear()
abbrev pub cleared : Transaction → Transaction
cleared tx = record tx { inputs = []; outputs = [] }

-- The loop over the transactions appends a digest for each and clears it.
unfoldable pub digest_loop : List Transaction → Bytes → List Transaction × Bytes
unfolding tx_io_digest
digest_loop [] tx_digest = ([], tx_digest)
digest_loop (tx ∷ txs) tx_digest =
    let (rest, all) = digest_loop txs (tx_digest ++ tx_io_digest tx) in (cleared tx ∷ rest, all)

abbrev pub without_hash : Block → Block
without_hash b = record b { meta = record b.meta { hash = none } }

unfoldable pub block_pow_buffer : Block → Bytes × ℕ
unfolding digest_loop
block_pow_buffer block =
    let hash_less = without_hash block in
    let (txs, tx_digest) = digest_loop hash_less.transactions [] in
    let (buffer, nonce_offset) = encode_block [] (record hash_less { transactions = txs }) in
    if ltb scip1_migration block.timestamp
    then (buffer ++ tx_digest, nonce_offset)
    else (buffer, nonce_offset)

module _ (hash_data : Bytes → Hash) where
  unfoldable pub compute_transaction_hash : Transaction → Hash
  compute_transaction_hash tx = hash_data (transaction_pow_buffer tx).0

  unfoldable pub compute_block_hash : Block → Hash
  compute_block_hash block = hash_data (block_pow_buffer block).0
