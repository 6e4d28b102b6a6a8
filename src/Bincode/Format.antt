-- ===== src/Bincode/Format.antt =====
-- The bytes that each encoder of Bincode.antt appends, as a function of the value alone.
use native.Mathlib.Nat.{div-div-eq-div-mul, pow-suc, div-one}
use native.Mathlib.Numerals.{towards_suc}
use scrig.Base.{
  ℕ, ap, ◌∙◌, zero, suc, ◌+◌, ◌*◌, ◌/◌, ◌%◌, ◌^◌, Option, none, some, List, [], ◌∷◌, ◌++◌, foldl,
  length, ltb, leb, if◌then◌else◌, ◌≡◌, refl, sym, arith, append_assoc, append-nil,
}
use scrig.Base.Bytes.{Bytes}
use scrig.Types.{
  Hash, Signature, TransactionInput, TransactionOutput, Transaction, AddressInclusionFilter,
  BlockMetadata, Block,
}
use scrig.Bincode.{
  BincodeWriter, byte_at, write_u8, write_fixed_bytes, write_le_u16, write_le_loop, write_le_u32,
  write_le_u64, write_varuint, write_usize, encode_hash, encode_public, encode_signature,
  encode_option_hash, encode_option_signature, encode_tx_input, encode_tx_output, encode_vector,
  encode_transaction, encode_address_filter, encode_block_meta, encode_block,
  encode_transaction_hashing,
}

-- The `n` low base-256 digits, lowest first.
unfoldable pub le_bytes : ℕ → ℕ → Bytes
le_bytes zero v = []
le_bytes (suc n) v = (v % 256) ∷ le_bytes n (v / 256)

-- The variable-length integer format: a byte below 251, or a tag and 2, 4 or 8 bytes.
unfoldable pub varuint : ℕ → Bytes
varuint v =
    if ltb v 251
    then v ∷ []
    else if leb v 0xFFFF
    then 251 ∷ le_bytes 2 v
    else if leb v 0xFFFF_FFFF
    then 252 ∷ le_bytes 4 v
    else 253 ∷ le_bytes 8 v

unfoldable pub option {ℓ} : {A : Type ℓ} → (A → Bytes) → Option A → Bytes
option f none = varuint 0
option f (some a) = varuint 1 ++ f a

unfoldable pub concat_map {ℓ} : {A : Type ℓ} → (A → Bytes) → List A → Bytes
concat_map f [] = []
concat_map f (x ∷ xs) = f x ++ concat_map f xs

unfoldable pub vector {ℓ} : {A : Type ℓ} → (A → Bytes) → List A → Bytes
vector f xs = varuint (length xs) ++ concat_map f xs

unfoldable pub input : TransactionInput → Bytes
input i =
    i.transaction_id.bytes
    ++ (varuint i.output_index
        ++ (option {A = Signature} (λ s. s.bytes) i.signature ++ i.output_owner.bytes))

unfoldable pub output : TransactionOutput → Bytes
output o = varuint o.amount ++ o.receiver.bytes

unfoldable pub transaction : Transaction → Bytes
transaction tx =
    vector input tx.inputs
    ++ (vector output tx.outputs
        ++ (option {A = Hash} (λ h. h.bytes) tx.transaction_id
            ++ (varuint tx.nonce ++ varuint tx.timestamp)))

unfoldable pub filter : AddressInclusionFilter → Bytes
filter f = vector (λ b. b ∷ []) f.bits ++ (varuint f.num_bits ++ varuint f.num_hashes)

unfoldable pub metadata : BlockMetadata → Bytes
metadata m =
    m.block_pow_difficulty
    ++ (m.tx_pow_difficulty
        ++ (m.previous_block.bytes
            ++ (option {A = Hash} (λ h. h.bytes) m.hash
                ++ (m.merkle_tree_root ++ filter m.address_inclusion_filter))))

-- What stands before a block's nonce.
unfoldable pub block_head : Block → Bytes
block_head b = vector transaction b.transactions ++ varuint b.timestamp

unfoldable pub block : Block → Bytes
block b = block_head b ++ (varuint b.nonce ++ metadata b.meta)

-- What stands before the nonce of a transaction that is hashed.
unfoldable pub transaction_head : Transaction → Bytes
transaction_head tx = vector input tx.inputs ++ (vector output tx.outputs ++ varuint 0)

shift_byte : (value i : ℕ) → value / 2 ^ (i * 8) / 256 ≡ value / 2 ^ ((i + 1) * 8)
shift_byte value i =
    rw (div-div-eq-div-mul value (2 ^ (i * 8)) 256) (ap (λ d. value / d) next_power)
  where
    regroup : (i + 1) * 8 ≡ i * 8 + 8
    regroup = omega arith

    next_power : 2 ^ (i * 8) * 256 ≡ 2 ^ ((i + 1) * 8)
    next_power = rw regroup (simp towards_suc (omega (arith, pow-suc)))

write_le_loop-le_bytes :
    (n i value : ℕ) (w : BincodeWriter)
    → write_le_loop n i w value ≡ w ++ le_bytes n (value / 2 ^ (i * 8))
unfolding write_le_loop le_bytes
write_le_loop-le_bytes zero i value w = sym (append-nil w)
write_le_loop-le_bytes (suc n) i value w = rw (
  write_le_loop-le_bytes n (i + 1) value (w ++ byte_at value i ∷ []),
  append_assoc,
  shift_byte value i,
)

write_le_u16-le_bytes : (w : BincodeWriter) (v : ℕ) → write_le_u16 w v ≡ w ++ le_bytes 2 v
unfolding write_le_u16 le_bytes
write_le_u16-le_bytes w v = append_assoc w (v % 256 ∷ []) (v / 2 ^ 8 % 256 ∷ [])

write_le_u32-le_bytes : (w : BincodeWriter) (v : ℕ) → write_le_u32 w v ≡ w ++ le_bytes 4 v
unfolding write_le_u32
write_le_u32-le_bytes w v = write_le_loop-le_bytes 4 0 v w ∙ ap (λ q. w ++ le_bytes 4 q) (div-one v)

pub write_le_u64-le_bytes : (w : BincodeWriter) (v : ℕ) → write_le_u64 w v ≡ w ++ le_bytes 8 v
unfolding write_le_u64
write_le_u64-le_bytes w v = write_le_loop-le_bytes 8 0 v w ∙ ap (λ q. w ++ le_bytes 8 q) (div-one v)

-- write_varuint appends the variable-length format of its value.
pub write_varuint-varuint : (w : BincodeWriter) (v : ℕ) → write_varuint w v ≡ w ++ varuint v
unfolding write_varuint varuint write_u8
write_varuint-varuint w v = ground (
  arith,
  write_le_u16-le_bytes (w ++ 251 ∷ []) v,
  write_le_u32-le_bytes (w ++ 252 ∷ []) v,
  write_le_u64-le_bytes (w ++ 253 ∷ []) v,
  append_assoc w (251 ∷ []) (le_bytes 2 v),
  append_assoc w (252 ∷ []) (le_bytes 4 v),
  append_assoc w (253 ∷ []) (le_bytes 8 v),
)

-- `encode` appends `format` of its value.
abbrev pub Appends {ℓ} : {A : Type ℓ} → (BincodeWriter → A → BincodeWriter) → (A → Bytes) → Type ℓ
Appends {A = A} encode format = (w : BincodeWriter) (a : A) → encode w a ≡ w ++ format a

module _ {ℓ} {A : Type ℓ} (encode : BincodeWriter → A → BincodeWriter) (format : A → Bytes) where
  foldl-Appends :
      Appends encode format
      → (w : BincodeWriter) (xs : List A) → foldl encode w xs ≡ w ++ concat_map format xs
  unfolding concat_map
  foldl-Appends h w [] = sym (append-nil w)
  foldl-Appends h w (x ∷ xs) =
      rw (h w x, foldl-Appends h (w ++ format x) xs) (append_assoc w (format x) _)

  encode_vector-Appends : Appends encode format → Appends (encode_vector encode) (vector format)
  unfolding encode_vector vector write_usize
  encode_vector-Appends h w xs =
      rw (write_varuint-varuint w (length xs), foldl-Appends h (w ++ varuint (length xs)) xs)
        (append_assoc w (varuint (length xs)) _)

encode_option_hash-Appends : Appends encode_option_hash (option {A = Hash} (λ h. h.bytes))
unfolding encode_option_hash option encode_hash write_fixed_bytes
encode_option_hash-Appends w none = write_varuint-varuint w 0
encode_option_hash-Appends w (some h) = simp (write_varuint-varuint, append_assoc)

encode_option_signature-Appends :
    Appends encode_option_signature (option {A = Signature} (λ s. s.bytes))
unfolding encode_option_signature option encode_signature write_fixed_bytes
encode_option_signature-Appends w none = write_varuint-varuint w 0
encode_option_signature-Appends w (some s) = simp (write_varuint-varuint, append_assoc)

encode_tx_input-Appends : Appends encode_tx_input input
unfolding encode_tx_input input encode_hash encode_public write_fixed_bytes
encode_tx_input-Appends w i =
    simp (write_varuint-varuint, encode_option_signature-Appends, append_assoc)

encode_tx_output-Appends : Appends encode_tx_output output
unfolding encode_tx_output output encode_public write_fixed_bytes
encode_tx_output-Appends w o = simp (write_varuint-varuint, append_assoc)

pub inputs-Appends : Appends (encode_vector encode_tx_input) (vector input)
inputs-Appends = encode_vector-Appends encode_tx_input input encode_tx_input-Appends

outputs-Appends : Appends (encode_vector encode_tx_output) (vector output)
outputs-Appends = encode_vector-Appends encode_tx_output output encode_tx_output-Appends

encode_transaction-Appends : Appends encode_transaction transaction
unfolding encode_transaction transaction
encode_transaction-Appends w tx = simp (
  inputs-Appends, outputs-Appends, encode_option_hash-Appends, write_varuint-varuint, append_assoc,
)

transactions-Appends : Appends (encode_vector encode_transaction) (vector transaction)
transactions-Appends =
    encode_vector-Appends encode_transaction transaction encode_transaction-Appends

write_u8-Appends : Appends write_u8 (λ b. b ∷ [])
unfolding write_u8
write_u8-Appends w b = refl

bits-Appends : Appends (encode_vector write_u8) (vector (λ b. b ∷ []))
bits-Appends = encode_vector-Appends write_u8 (λ b. b ∷ []) write_u8-Appends

encode_block_meta-Appends : Appends encode_block_meta metadata
unfolding encode_block_meta metadata encode_address_filter filter encode_hash write_fixed_bytes
encode_block_meta-Appends w m =
    simp (bits-Appends, encode_option_hash-Appends, write_varuint-varuint, append_assoc)

-- encode_block appends the block's format and reports the size of what stands before the nonce.
pub encode_block-block :
    (w : BincodeWriter) (b : Block) → encode_block w b ≡ (w ++ block b, length (w ++ block_head b))
unfolding encode_block block block_head
encode_block-block w b =
    simp (transactions-Appends, encode_block_meta-Appends, write_varuint-varuint, append_assoc)

-- A transaction is hashed with no id, and its nonce follows its head.
pub encode_transaction_hashing-head :
    (w : BincodeWriter) (tx : Transaction)
    → encode_transaction_hashing w tx ≡ (
      w ++ (transaction_head tx ++ (varuint tx.nonce ++ varuint tx.timestamp)),
      length (w ++ transaction_head tx),
    )
unfolding encode_transaction_hashing transaction_head encode_option_hash
encode_transaction_hashing-head w tx =
    simp (inputs-Appends, outputs-Appends, write_varuint-varuint, append_assoc)
