-- ===== src/Pow/Format.antt =====
-- The proof-of-work buffers as functions of the fields: what precedes the nonce, the nonce, and
-- what follows it.
use scrig.Base.{
  List, [], ◌∷◌, ◌++◌, map, length, ltb, if◌then◌else◌, ◌≡◌, append_assoc, append-nil, inl, inr,
  Bool-cases,
}
use scrig.Base.Bytes.{Bytes}
use scrig.Types.{Transaction, Block, scip1_migration}
use scrig.Bincode.Format.{
  varuint, block, block_head, metadata, concat_map, transaction_head, encode_block-block,
  encode_transaction_hashing-head,
}
use scrig.Pow.{
  transaction_pow_buffer, tx_io_digest, cleared, digest_loop, without_hash, block_pow_buffer,
}

-- A transaction's buffer is its head, its nonce and its timestamp; the offset is the head's size.
pub transaction_pow_buffer_lem :
    (tx : Transaction)
    → transaction_pow_buffer tx ≡ (
      transaction_head tx ++ (varuint tx.nonce ++ varuint tx.timestamp),
      length (transaction_head tx),
    )
unfolding transaction_pow_buffer
transaction_pow_buffer_lem tx = encode_transaction_hashing-head [] tx

digest_loop-map :
    (txs : List Transaction) (acc : Bytes)
    → digest_loop txs acc ≡ (map cleared txs, acc ++ concat_map tx_io_digest txs)
unfolding digest_loop concat_map
digest_loop-map [] acc = rw append-nil
digest_loop-map (tx ∷ txs) acc = rw (digest_loop-map txs (acc ++ tx_io_digest tx), append_assoc)

-- The block that is encoded: no hash, and no inputs or outputs in its transactions.
abbrev pub stripped : Block → Block
stripped b = record (without_hash b) { transactions = map cleared b.transactions }

-- The digests of the inputs, which blocks after the migration carry.
abbrev pub io_digests : Block → Bytes
io_digests b =
    if ltb scip1_migration b.timestamp then concat_map tx_io_digest b.transactions else []

-- A block's buffer is the format of the stripped block and the digests behind it; the offset is
-- the size of what precedes the nonce.
pub block_pow_buffer_lem :
    (b : Block)
    → block_pow_buffer b ≡ (
      block_head (stripped b) ++ (varuint b.nonce ++ (metadata (stripped b).meta ++ io_digests b)),
      length (block_head (stripped b)),
    )
unfolding block_pow_buffer block
block_pow_buffer_lem b = elim (Bool-cases (ltb scip1_migration b.timestamp)) [
  | inl h ↦ rw h (simp (digest_loop-map, encode_block-block, append_assoc))
  | inr h ↦ rw h (simp (digest_loop-map, encode_block-block, append_assoc, append-nil))
]
