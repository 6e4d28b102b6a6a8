-- ===== src/Examples/Run.antt =====
-- Tests, and each theorem of the results at a concrete input.
use Prim.Native.Nat.{max}
use scrig.Base.{
  take, ◌-◌, ◌+◌, ◌*◌, ◌/◌, ◌^◌, ◌<◌, ◌≤◌, Bool, true, false, none, some, [], ◌∷◌, ◌++◌, length,
  get_or, All, ◌≡◌, ◌↔◌, ◌⊎◌, inl, inr, arith, refl,
}
use scrig.Base.Bytes.{bytes_eq, Bytes, IsArray, be_value, codes}
use scrig.Base.Fault.{Result, ok, ◌>>=◌}
use scrig.Types.{max_transactions_per_block, Block, initial_reward, min_reward, halving_interval}
use scrig.Types.Equality.{hash_le, block_eq, block_eq_iff}
use scrig.Bincode.{encode_block}
use scrig.Bincode.Format.{block, block_head, encode_block-block}
use scrig.Sha256.{sha256, compress}
use scrig.Pow.{transaction_pow_buffer, block_pow_buffer, patch_nonce_in_pow_buffer}
use scrig.Pow.Format.{stripped, io_digests}
use scrig.Pow.Patch.{
  patch-block_pow_buffer, patch_total, patch-transaction_pow_buffer, patch-block_pow_buffer_narrow,
}
use scrig.Pow.Injective.{block_pow_buffer-injective, transaction_pow_buffer-injective}
use scrig.Difficulty.{multiply_divide_target, hash_meets_target}
use scrig.Difficulty.Scale.{saturated, multiply_divide_target_lem}
use scrig.Difficulty.Order.{hash_meets_target-hash_le}
use scrig.Difficulty.Meets.{hash_meets_target_iff}
use scrig.Consensus.Merkle.{leaf, build_merkle_root}
use scrig.Consensus.Merkle.Laws.{build_merkle_root_total}
use scrig.Consensus.Merkle.Tree.{
  tip, node, fringe, tree_root, build_merkle_root-tree_root, build_merkle_root_repeated,
}
use scrig.Consensus.Filter.{build_address_filter, count_addresses}
use scrig.Consensus.Filter.Contains.{Covers, build_address_filter-Covers}
use scrig.Consensus.Trim.{trim_expired_transactions, Trimmed, trim_expired_transactions_lem}
use scrig.Consensus.Reward.{
  get_block_reward, build_reward_transaction, dev_wallet, total_amount, get_block_reward_lem,
  get_block_reward_antitone, build_reward_transaction_total,
}
use scrig.Base36.{encode_base36, decode_base36}
use scrig.Base36.Decode.{text_value, Decoded, decode_base36_lem}
use scrig.Base36.RoundTrip.{decode_base36-encode_base36}
use scrig.Json.{JsonValue}
use scrig.Json.Text.{parse_string, escape_string}
use scrig.Json.Strings.{parse_string-escape_string}
use scrig.Json.Parser.{parse_json}
use scrig.Json.Printer.{to_json}
use scrig.Codec.{transaction_to_json, transaction_from_json, block_to_json, block_from_json}
use scrig.Codec.Transactions.{transaction_from_json-transaction_to_json}
use scrig.Codec.Blocks.{block_from_json-block_to_json}
use scrig.Miner.Mempool.{filter_mempool}
use scrig.Miner.Mempool.Kept.{IsAdmitted, filter_mempool_lem, filter_mempool-take}
use scrig.Stratum.{parse_hex, bytes_to_hex}
use scrig.Stratum.Hex.{parse_hex-bytes_to_hex}
use scrig.Examples.{
  no_doubles, ones, threes, payment, candidate, ones-IsArray, threes-IsArray, payment-IsTransaction,
  candidate-IsBlock,
}

sha256_abc :
    sha256 (codes "abc")
    ≡ 0xba ∷ 0x78 ∷ 0x16 ∷ 0xbf ∷ 0x8f ∷ 0x01 ∷ 0xcf ∷ 0xea ∷ 0x41 ∷ 0x41 ∷ 0x40 ∷ 0xde ∷ 0x5d
      ∷ 0xae ∷ 0x22 ∷ 0x23 ∷ 0xb0 ∷ 0x03 ∷ 0x61 ∷ 0xa3 ∷ 0x96 ∷ 0x17 ∷ 0x7a ∷ 0x9c ∷ 0xb4 ∷ 0x10
      ∷ 0xff ∷ 0x61 ∷ 0xf2 ∷ 0x00 ∷ 0x15 ∷ 0xad ∷ []
unfolding sha256 compress
sha256_abc = refl

patch-block_pow_buffer_example :
    patch_nonce_in_pow_buffer (block_pow_buffer candidate).0 (block_pow_buffer candidate).1 (2 ^ 40)
    ≡ ok ((block_pow_buffer (record candidate { nonce = 2 ^ 40 })).0, true)
patch-block_pow_buffer_example =
    patch-block_pow_buffer candidate (2 ^ 40) (omega arith) (omega arith)

block_pow_buffer-injective_example :
    (stripped candidate ≡ stripped candidate) × (io_digests candidate ≡ io_digests candidate)
block_pow_buffer-injective_example =
    block_pow_buffer-injective candidate candidate candidate-IsBlock candidate-IsBlock refl

multiply_divide_target_lem_example :
    let (result, overflowed) = multiply_divide_target threes 1500 1000 in
    (((be_value threes * 1500 < 256 ^ length threes)
        × (overflowed ≡ false)
        × (be_value result ≡ be_value threes * 1500 / 1000))
      ⊎ ((256 ^ length threes ≤ be_value threes * 1500)
          × (overflowed ≡ true)
          × (result ≡ saturated (length threes))))
    × IsArray (length threes) result
multiply_divide_target_lem_example =
    multiply_divide_target_lem threes 1500 1000 threes-IsArray.bytes (omega arith) (omega arith)
      (omega arith)

hash_meets_target-hash_le_example :
    hash_meets_target (record { bytes = threes }) ones
    ≡ hash_le (record { bytes = threes }) (record { bytes = ones })
hash_meets_target-hash_le_example =
    hash_meets_target-hash_le (record { bytes = threes }) (record { bytes = ones }) threes-IsArray
      ones-IsArray

hash_meets_target_iff_example :
    (hash_meets_target (record { bytes = threes }) ones ≡ true) ↔ (be_value threes ≤ be_value ones)
hash_meets_target_iff_example =
    hash_meets_target_iff (record { bytes = threes }) ones threes-IsArray ones-IsArray

build_address_filter-Covers_example :
    let f = build_address_filter (λ n. 15 * n) (λ bits n. 10) (payment ∷ []) in
    All (Covers f) (payment ∷ []) × (f.num_bits ≤ 8 * length f.bits)
unfolding count_addresses
build_address_filter-Covers_example =
    build_address_filter-Covers (λ n. 15 * n) (λ bits n. 10) (payment ∷ [])
      (λ some_addresses. omega arith)

trim_expired_transactions_lem_example :
    (after : Block) × (removed : Bool) × (trim_expired_transactions
        (build_address_filter (λ n. 15 * n) (λ bits n. 10))
        candidate
        1770376000
      ≡ some (after, removed))
    × Trimmed (build_address_filter (λ n. 15 * n) (λ bits n. 10)) candidate 1770376000 after removed
trim_expired_transactions_lem_example =
    trim_expired_transactions_lem (build_address_filter (λ n. 15 * n) (λ bits n. 10)) candidate
      1770376000

decode_base36-encode_base36_example :
    (text : Bytes) × (encode_base36 threes ≡ some text) × (decode_base36 32 text ≡ ok threes)
decode_base36-encode_base36_example = decode_base36-encode_base36 32 threes threes-IsArray

decode_base36_lem_example : Decoded 2 (codes "1ekf") (text_value 0 (codes "1ekf"))
decode_base36_lem_example = decode_base36_lem 2 b'1' (codes "ekf")

build_merkle_root-tree_root_example :
    build_merkle_root (payment ∷ payment ∷ [])
    ≡ some
        (tree_root (node (tip (leaf payment.transaction_id)) (tip (leaf payment.transaction_id))))
unfolding fringe
build_merkle_root-tree_root_example =
    build_merkle_root-tree_root 1
      (node (tip (leaf payment.transaction_id)) (tip (leaf payment.transaction_id)))
      (payment ∷ payment ∷ []) refl

build_merkle_root_repeated_example :
    build_merkle_root ((payment ∷ payment ∷ []) ++ (payment ∷ payment ∷ []))
    ≡ build_merkle_root ((payment ∷ payment ∷ []) ++ (payment ∷ []))
build_merkle_root_repeated_example =
    build_merkle_root_repeated (payment ∷ payment ∷ []) payment refl (omega arith)

build_merkle_root_total_example :
    (root : Bytes) × (build_merkle_root (payment ∷ []) ≡ some root) × IsArray 32 root
build_merkle_root_total_example = build_merkle_root_total (payment ∷ [])

patch_total_example :
    (r : Bytes × Bool) × (patch_nonce_in_pow_buffer threes 1 5 ≡ ok r)
    × (length r.0 ≡ length threes)
    × ((r.1 ≡ true) ↔ ((1 + 9 ≤ length threes) × (get_or threes 1 0 ≡ 253)))
    × ((r.1 ≡ true) ⊎ (r.0 ≡ threes))
patch_total_example = patch_total threes 1 5

patch-transaction_pow_buffer_example :
    patch_nonce_in_pow_buffer
      (transaction_pow_buffer payment).0
      (transaction_pow_buffer payment).1
      (2 ^ 40)
    ≡ ok ((transaction_pow_buffer (record payment { nonce = 2 ^ 40 })).0, true)
patch-transaction_pow_buffer_example =
    patch-transaction_pow_buffer payment (2 ^ 40) (omega arith) (omega arith)

transaction_pow_buffer-injective_example :
    record payment { transaction_id = none } ≡ record payment { transaction_id = none }
transaction_pow_buffer-injective_example =
    transaction_pow_buffer-injective payment payment payment-IsTransaction payment-IsTransaction
      refl

patch-block_pow_buffer_narrow_example :
    patch_nonce_in_pow_buffer
      (block_pow_buffer (record candidate { nonce = 7 })).0
      (block_pow_buffer (record candidate { nonce = 7 })).1
      9
    ≡ ok ((block_pow_buffer (record candidate { nonce = 7 })).0, false)
patch-block_pow_buffer_narrow_example =
    patch-block_pow_buffer_narrow (record candidate { nonce = 7 }) 9 (omega arith)

encode_block-block_example :
    encode_block [] candidate ≡ ([] ++ block candidate, length ([] ++ block_head candidate))
encode_block-block_example = encode_block-block [] candidate

get_block_reward_lem_example :
    get_block_reward 2500000 ≡ max (initial_reward / 2 ^ (2500000 / halving_interval)) min_reward
get_block_reward_lem_example = get_block_reward_lem 2500000

get_block_reward_antitone_example :
    (get_block_reward 2500000 ≤ get_block_reward 7)
    × (min_reward ≤ get_block_reward 2500000)
    × (get_block_reward 7 ≤ initial_reward)
get_block_reward_antitone_example = get_block_reward_antitone 7 2500000 (omega arith)

build_reward_transaction_total_example :
    total_amount (build_reward_transaction (λ r. r * 2 / 100) dev_wallet 5000 8).outputs ≡ 5000
build_reward_transaction_total_example =
    build_reward_transaction_total (λ r. r * 2 / 100) dev_wallet 5000 8 (omega arith) (omega arith)

block_eq_iff_example : (block_eq candidate candidate ≡ true) ↔ (candidate ≡ candidate)
block_eq_iff_example = block_eq_iff candidate candidate

block_from_json-block_to_json_example :
    (value : JsonValue) × (block_to_json candidate ≡ ok value)
    × (block_from_json no_doubles value ≡ ok candidate)
block_from_json-block_to_json_example =
    block_from_json-block_to_json no_doubles candidate candidate-IsBlock

transaction_from_json-transaction_to_json_example :
    (value : JsonValue) × (transaction_to_json payment ≡ ok value)
    × (transaction_from_json no_doubles value ≡ ok payment)
transaction_from_json-transaction_to_json_example =
    transaction_from_json-transaction_to_json no_doubles payment payment-IsTransaction

parse_string-escape_string_example :
    parse_string (record { pos = 4; rest = escape_string (10 ∷ b'a' ∷ []) ++ b',' ∷ [] })
    ≡ ok (
      10 ∷ b'a' ∷ [],
      record { pos = 4 + length (escape_string (10 ∷ b'a' ∷ [])); rest = b',' ∷ [] },
    )
parse_string-escape_string_example =
    parse_string-escape_string (10 ∷ b'a' ∷ []) 4 (b',' ∷ [])
      (inr (omega arith, omega arith, λ h. omega arith), (inl (omega arith), tt))

-- A text with every kind of value but a floating-point number, read and printed again.
printed : Bytes → Result Bytes
unfolding parse_json to_json
printed text = do value ← parse_json no_doubles text; ok (to_json no_doubles false 2 value)

parse_json_example :
    printed (codes " { \"b\" : [1, -20 ,true, []], \"a\":\"x\\ny\", \"b\":null } ")
    ≡ ok (codes "{\"a\":\"x\\ny\",\"b\":[1,-20,true,[]]}")
unfolding printed bytes_eq
parse_json_example = refl

filter_mempool_lem_example :
    (length (filter_mempool 1770376000 (payment ∷ [])) ≤ max_transactions_per_block - 1)
    × All (IsAdmitted 1770376000) (filter_mempool 1770376000 (payment ∷ []))
filter_mempool_lem_example = filter_mempool_lem 1770376000 (payment ∷ [])

-- A week after its timestamp the transaction is still kept.
filter_mempool-take_example :
    filter_mempool 1770980000 (payment ∷ payment ∷ [])
    ≡ take (max_transactions_per_block - 1) (payment ∷ payment ∷ [])
filter_mempool-take_example =
    filter_mempool-take 1770980000 (payment ∷ payment ∷ []) (omega arith)
      (omega arith, (omega arith, tt))

parse_hex-bytes_to_hex_example : parse_hex (bytes_to_hex threes) ≡ some threes
parse_hex-bytes_to_hex_example = parse_hex-bytes_to_hex threes threes-IsArray.bytes
