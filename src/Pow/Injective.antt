-- ===== src/Pow/Injective.antt =====
-- What the buffers of src/crypto.cpp that are hashed keep of a block and of a transaction.
use scrig.Base.{none, List, [], ◌∷◌, map, length-map, All, ◌≡◌, arith, append_assoc, append-nil}
use scrig.Types.{Transaction, Block}
use scrig.Types.Wellformed.{IsTransaction, IsBlock}
use scrig.Bincode.Format.{block}
use scrig.Bincode.PrefixCode.{hashed-PrefixCode, block-PrefixCode}
use scrig.Pow.{transaction_pow_buffer, cleared, block_pow_buffer}
use scrig.Pow.Format.{transaction_pow_buffer_lem, block_pow_buffer_lem, stripped, io_digests}

-- Two transactions whose fields fit their types have the same buffer only if they agree in all
-- but the id.
pub transaction_pow_buffer-injective :
    (a b : Transaction)
    → IsTransaction a
    → IsTransaction b
    → (transaction_pow_buffer a).0 ≡ (transaction_pow_buffer b).0
    → record a { transaction_id = none } ≡ record b { transaction_id = none }
transaction_pow_buffer-injective a b ha hb h =
    (hashed-PrefixCode a b [] [] ha hb (simp append-nil (simp transaction_pow_buffer_lem at h))).0

cleared-IsTransaction :
    (txs : List Transaction) → All IsTransaction txs → All IsTransaction (map cleared txs)
cleared-IsTransaction [] h = tt
cleared-IsTransaction (tx ∷ txs) (h, hs) = (
  record {
    input_count = omega arith;
    inputs = tt;
    output_count = omega arith;
    outputs = tt;
    transaction_id = h.transaction_id;
    nonce = h.nonce;
    timestamp = h.timestamp;
  },
  cleared-IsTransaction txs hs,
)

stripped-IsBlock : (b : Block) → IsBlock b → IsBlock (stripped b)
stripped-IsBlock b h = record {
  transaction_count = omega (arith, h.transaction_count, length-map b.transactions cleared);
  transactions = cleared-IsTransaction b.transactions h.transactions;
  timestamp = h.timestamp;
  nonce = h.nonce;
  metadata = record {
    block_pow_difficulty = h.metadata.block_pow_difficulty;
    tx_pow_difficulty = h.metadata.tx_pow_difficulty;
    previous_block = h.metadata.previous_block;
    hash = tt;
    merkle_tree_root = h.metadata.merkle_tree_root;
    address_inclusion_filter = h.metadata.address_inclusion_filter;
  };
}

-- Two blocks whose fields fit their types have the same buffer only if they agree in timestamp,
-- nonce, all metadata but the hash, the id, nonce and timestamp of each transaction, and, past the
-- migration, the digests of the inputs.
pub block_pow_buffer-injective :
    (a b : Block)
    → IsBlock a
    → IsBlock b
    → (block_pow_buffer a).0 ≡ (block_pow_buffer b).0
    → (stripped a ≡ stripped b) × (io_digests a ≡ io_digests b)
unfolding block
block_pow_buffer-injective a b ha hb h =
    block-PrefixCode (stripped a) (stripped b) (io_digests a) (io_digests b) (stripped-IsBlock a ha)
      (stripped-IsBlock b hb) (simp append_assoc (simp block_pow_buffer_lem at h))
