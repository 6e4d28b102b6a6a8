-- ===== src/Bincode/PrefixCode.antt =====
-- What can be read back from the bytes that the encoders of src/crypto.cpp append.
use native.Mathlib.Nat.{pow-suc}
use scrig.Base.{
  ℕ, zero, suc, ◌/◌, ◌%◌, ◌^◌, ◌<◌, none, some, List, [], ◌∷◌, ◌++◌, length, All, ◌≡◌, refl, ap,
  arith, append_assoc, append-injective,
}
use scrig.Base.Bytes.{Bytes, IsByte, IsArray}
use scrig.Types.{Hash, Signature, Transaction}
use scrig.Types.Wellformed.{
  IsWord, IsOptional, IsHash, IsPublicKey, IsSignature, IsInput, IsOutput, IsTransaction, IsFilter,
  IsMetadata, IsBlock,
}
use scrig.Bincode.Format.{
  le_bytes, varuint, option, concat_map, vector, input, output, transaction, filter, metadata,
  block_head, block, transaction_head,
}

-- Two values that satisfy `P`, with any bytes behind them, are written alike only if they are
-- equal and the bytes behind them are.
abbrev pub IsPrefixCode {ℓ κ} : {A : Type ℓ} → (A → Type κ) → (A → Bytes) → Type (ℓ ⊔ κ)
IsPrefixCode {A = A} P f =
    (a b : A) (r s : Bytes) → P a → P b → f a ++ r ≡ f b ++ s → (a ≡ b) × (r ≡ s)

le_bytes-PrefixCode : (n : ℕ) → IsPrefixCode (λ v. v < 256 ^ n) (le_bytes n)
unfolding le_bytes
le_bytes-PrefixCode zero a b r s ha hb h = (omega arith, h)
le_bytes-PrefixCode (suc n) a b r s ha hb h =
    let (p, q) =
      le_bytes-PrefixCode n (a / 256) (b / 256) r s (omega (arith, pow-suc 256 n))
        (omega (arith, pow-suc 256 n)) (ground arith) in
    let e : a % 256 ≡ b % 256 = ground arith in (omega (arith, p, e), q)

IsArray-PrefixCode : (n : ℕ) → IsPrefixCode (IsArray n) (λ bs. bs)
IsArray-PrefixCode n a b r s ha hb h = append-injective a b r s (omega arith) h

pub varuint-PrefixCode : IsPrefixCode IsWord varuint
unfolding varuint
varuint-PrefixCode a b r s ha hb h = ground (
  arith,
  le_bytes-PrefixCode 2 a b r s,
  le_bytes-PrefixCode 4 a b r s,
  le_bytes-PrefixCode 8 a b r s,
)

module _ {ℓ κ} {A : Type ℓ} (P : A → Type κ) (f : A → Bytes) (code : IsPrefixCode P f) where
  option-PrefixCode : IsPrefixCode (IsOptional P) (option f)
  unfolding option
  option-PrefixCode none none r s ha hb h =
      (refl, (varuint-PrefixCode 0 0 r s (omega arith) (omega arith) h).1)
  option-PrefixCode none (some b) r s ha hb h = absurd (
      omega (
        arith,
        (varuint-PrefixCode 0 1 r (f b ++ s) (omega arith) (omega arith) (rw append_assoc at h)).0,
      ))
  option-PrefixCode (some a) none r s ha hb h = absurd (
      omega (
        arith,
        (varuint-PrefixCode 1 0 (f a ++ r) s (omega arith) (omega arith) (rw append_assoc at h)).0,
      ))
  option-PrefixCode (some a) (some b) r s ha hb h =
      let (_, q) =
        varuint-PrefixCode 1 1 (f a ++ r) (f b ++ s) (omega arith) (omega arith)
          (simp append_assoc at h) in
      let (e, t) = code a b r s ha hb q in (ap some e, t)

  concat_map-PrefixCode :
      (xs ys : List A) (r s : Bytes)
      → All P xs
      → All P ys
      → length xs ≡ length ys
      → concat_map f xs ++ r ≡ concat_map f ys ++ s
      → (xs ≡ ys) × (r ≡ s)
  unfolding concat_map
  concat_map-PrefixCode [] [] r s hx hy n h = (refl, h)
  concat_map-PrefixCode [] (y ∷ ys) r s hx hy n h = absurd (omega arith)
  concat_map-PrefixCode (x ∷ xs) [] r s hx hy n h = absurd (omega arith)
  concat_map-PrefixCode (x ∷ xs) (y ∷ ys) r s (px, hx) (py, hy) n h =
      let (e, q) = code x y _ _ px py (simp append_assoc at h) in
      let (es, t) = concat_map-PrefixCode xs ys r s hx hy (omega arith) q in (cc (e, es), t)

  vector-PrefixCode : IsPrefixCode (λ xs. IsWord (length xs) × All P xs) (vector f)
  unfolding vector
  vector-PrefixCode xs ys r s (nx, hx) (ny, hy) h =
      let (n, q) = varuint-PrefixCode (length xs) (length ys) _ _ nx ny (simp append_assoc at h) in
      concat_map-PrefixCode xs ys r s hx hy n q

IsHash-PrefixCode : IsPrefixCode IsHash (λ h. h.bytes)
IsHash-PrefixCode a b r s ha hb h =
    let (e, t) = IsArray-PrefixCode 32 a.bytes b.bytes r s ha hb h in (ground (arith, e), t)

IsSignature-PrefixCode : IsPrefixCode IsSignature (λ h. h.bytes)
IsSignature-PrefixCode a b r s ha hb h =
    let (e, t) = IsArray-PrefixCode 64 a.bytes b.bytes r s ha hb h in (ground (arith, e), t)

key-PrefixCode : IsPrefixCode IsPublicKey (λ h. h.bytes)
key-PrefixCode a b r s ha hb h =
    let (e, t) = IsArray-PrefixCode 32 a.bytes b.bytes r s ha hb h in (ground (arith, e), t)

option_hash-PrefixCode : IsPrefixCode (IsOptional IsHash) (option {A = Hash} (λ h. h.bytes))
option_hash-PrefixCode = option-PrefixCode IsHash (λ h. h.bytes) IsHash-PrefixCode

option_signature-PrefixCode :
    IsPrefixCode (IsOptional IsSignature) (option {A = Signature} (λ h. h.bytes))
option_signature-PrefixCode = option-PrefixCode IsSignature (λ h. h.bytes) IsSignature-PrefixCode

input-PrefixCode : IsPrefixCode IsInput input
unfolding input
input-PrefixCode a b r s ha hb h =
    let (p₁, h₁) =
      IsHash-PrefixCode a.transaction_id b.transaction_id _ _ ha.transaction_id hb.transaction_id
        (simp append_assoc at h) in
    let (p₂, h₂) =
      varuint-PrefixCode a.output_index b.output_index _ _ ha.output_index hb.output_index h₁ in
    let (p₃, h₃) =
      option_signature-PrefixCode a.signature b.signature _ _ ha.signature hb.signature h₂ in
    let (p₄, h₄) =
      key-PrefixCode a.output_owner b.output_owner r s ha.output_owner hb.output_owner h₃ in
    (ground (arith, p₁, p₂, p₃, p₄), h₄)

output-PrefixCode : IsPrefixCode IsOutput output
unfolding output
output-PrefixCode a b r s ha hb h =
    let (p₁, h₁) =
      varuint-PrefixCode a.amount b.amount _ _ ha.amount hb.amount (simp append_assoc at h) in
    let (p₂, h₂) = key-PrefixCode a.receiver b.receiver r s ha.receiver hb.receiver h₁ in
    (ground (arith, p₁, p₂), h₂)

inputs-PrefixCode : IsPrefixCode (λ xs. IsWord (length xs) × All IsInput xs) (vector input)
inputs-PrefixCode = vector-PrefixCode IsInput input input-PrefixCode

outputs-PrefixCode : IsPrefixCode (λ xs. IsWord (length xs) × All IsOutput xs) (vector output)
outputs-PrefixCode = vector-PrefixCode IsOutput output output-PrefixCode

-- encode_transaction's format is a prefix code on transactions whose fields fit their C++ types.
pub transaction-PrefixCode : IsPrefixCode IsTransaction transaction
unfolding transaction
transaction-PrefixCode a b r s ha hb h =
    let (p₁, h₁) =
      inputs-PrefixCode a.inputs b.inputs _ _ (ha.input_count, ha.inputs)
        (hb.input_count, hb.inputs) (simp append_assoc at h) in
    let (p₂, h₂) =
      outputs-PrefixCode a.outputs b.outputs _ _ (ha.output_count, ha.outputs)
        (hb.output_count, hb.outputs) h₁ in
    let (p₃, h₃) =
      option_hash-PrefixCode a.transaction_id b.transaction_id _ _ ha.transaction_id
        hb.transaction_id h₂ in
    let (p₄, h₄) = varuint-PrefixCode a.nonce b.nonce _ _ ha.nonce hb.nonce h₃ in
    let (p₅, h₅) = varuint-PrefixCode a.timestamp b.timestamp r s ha.timestamp hb.timestamp h₄ in
    (ground (arith, p₁, p₂, p₃, p₄, p₅), h₅)

IsByte-PrefixCode : IsPrefixCode IsByte (λ b. b ∷ [])
IsByte-PrefixCode a b r s ha hb h = (ground arith, ground arith)

filter-PrefixCode : IsPrefixCode IsFilter filter
unfolding filter
filter-PrefixCode a b r s ha hb h =
    let (p₁, h₁) =
      vector-PrefixCode IsByte (λ c. c ∷ []) IsByte-PrefixCode a.bits b.bits _ _ (ha.size, ha.bits)
        (hb.size, hb.bits) (simp append_assoc at h) in
    let (p₂, h₂) = varuint-PrefixCode a.num_bits b.num_bits _ _ ha.num_bits hb.num_bits h₁ in
    let (p₃, h₃) =
      varuint-PrefixCode a.num_hashes b.num_hashes r s (omega (arith, ha.num_hashes))
        (omega (arith, hb.num_hashes)) h₂ in
    (ground (arith, p₁, p₂, p₃), h₃)

pub metadata-PrefixCode : IsPrefixCode IsMetadata metadata
unfolding metadata
metadata-PrefixCode a b r s ha hb h =
    let (p₁, h₁) =
      IsArray-PrefixCode 32 a.block_pow_difficulty b.block_pow_difficulty _ _
        ha.block_pow_difficulty hb.block_pow_difficulty (simp append_assoc at h) in
    let (p₂, h₂) =
      IsArray-PrefixCode 32 a.tx_pow_difficulty b.tx_pow_difficulty _ _ ha.tx_pow_difficulty
        hb.tx_pow_difficulty h₁ in
    let (p₃, h₃) =
      IsHash-PrefixCode a.previous_block b.previous_block _ _ ha.previous_block hb.previous_block
        h₂ in
    let (p₄, h₄) = option_hash-PrefixCode a.hash b.hash _ _ ha.hash hb.hash h₃ in
    let (p₅, h₅) =
      IsArray-PrefixCode 32 a.merkle_tree_root b.merkle_tree_root _ _ ha.merkle_tree_root
        hb.merkle_tree_root h₄ in
    let (p₆, h₆) =
      filter-PrefixCode a.address_inclusion_filter b.address_inclusion_filter r s
        ha.address_inclusion_filter hb.address_inclusion_filter h₅ in
    (ground (arith, p₁, p₂, p₃, p₄, p₅, p₆), h₆)

-- encode_block's format is a prefix code on blocks whose fields fit their C++ types.
pub block-PrefixCode : IsPrefixCode IsBlock block
unfolding block block_head
block-PrefixCode a b r s ha hb h =
    let (p₁, h₁) =
      vector-PrefixCode IsTransaction transaction transaction-PrefixCode a.transactions
        b.transactions _ _ (ha.transaction_count, ha.transactions)
        (hb.transaction_count, hb.transactions) (simp append_assoc at h) in
    let (p₂, h₂) = varuint-PrefixCode a.timestamp b.timestamp _ _ ha.timestamp hb.timestamp h₁ in
    let (p₃, h₃) = varuint-PrefixCode a.nonce b.nonce _ _ ha.nonce hb.nonce h₂ in
    let (p₄, h₄) = metadata-PrefixCode a.meta b.meta r s ha.metadata hb.metadata h₃ in
    (ground (arith, p₁, p₂, p₃, p₄), h₄)

-- What precedes the nonce of a hashed transaction, and its nonce and timestamp, fix everything
-- but the id.
pub hashed-PrefixCode :
    (a b : Transaction) (r s : Bytes)
    → IsTransaction a
    → IsTransaction b
    → transaction_head a ++ (varuint a.nonce ++ (varuint a.timestamp ++ r))
      ≡ transaction_head b ++ (varuint b.nonce ++ (varuint b.timestamp ++ s))
    → (record a { transaction_id = none } ≡ record b { transaction_id = none }) × (r ≡ s)
unfolding transaction_head
hashed-PrefixCode a b r s ha hb h =
    let (p₁, h₁) =
      inputs-PrefixCode a.inputs b.inputs _ _ (ha.input_count, ha.inputs)
        (hb.input_count, hb.inputs) (simp append_assoc at h) in
    let (p₂, h₂) =
      outputs-PrefixCode a.outputs b.outputs _ _ (ha.output_count, ha.outputs)
        (hb.output_count, hb.outputs) h₁ in
    let (p₃, h₃) = varuint-PrefixCode 0 0 _ _ (omega arith) (omega arith) h₂ in
    let (p₄, h₄) = varuint-PrefixCode a.nonce b.nonce _ _ ha.nonce hb.nonce h₃ in
    let (p₅, h₅) = varuint-PrefixCode a.timestamp b.timestamp r s ha.timestamp hb.timestamp h₄ in
    (ground (arith, p₁, p₂, p₄, p₅), h₅)
