-- ===== src/Types/Equality.antt =====
-- The operators == and < of src/types.cpp.
use scrig.Base.{
  Bool, true, false, ◌&&◌, ◌||◌, Option, none, some, List, [], ◌∷◌, ◌≡◌, refl, ◌↔◌, arith, ltb,
  ◌==◌, if◌then◌else◌, ap,
}
use scrig.Base.Bytes.{Bytes, bytes_eq, bytes_eq_iff}
use scrig.Types.{
  Hash, PublicKey, Signature, TransactionInput, TransactionOutput, Transaction,
  AddressInclusionFilter, BlockMetadata, Block,
}

-- std::optional's and std::vector's operator==.
module _ {ℓ} {A : Type ℓ} (eq : A → A → Bool) where
  unfoldable pub option_eq : Option A → Option A → Bool
  option_eq none none = true
  option_eq (some a) (some b) = eq a b
  option_eq _ _ = false

  unfoldable pub list_eq : List A → List A → Bool
  list_eq [] [] = true
  list_eq (x ∷ xs) (y ∷ ys) = eq x y && list_eq xs ys
  list_eq _ _ = false

unfoldable pub hash_eq : Hash → Hash → Bool
hash_eq a b = bytes_eq a.bytes b.bytes

-- std::lexicographical_compare over bytes
unfoldable pub lexicographical_compare : Bytes → Bytes → Bool
lexicographical_compare xs [] = false
lexicographical_compare [] (y ∷ ys) = true
lexicographical_compare (x ∷ xs) (y ∷ ys) =
    let rest = lexicographical_compare xs ys in
    if ltb x y then true else if ltb y x then false else rest

unfoldable pub hash_lt : Hash → Hash → Bool
hash_lt a b = lexicographical_compare a.bytes b.bytes

unfoldable pub hash_le : Hash → Hash → Bool
hash_le a b = hash_lt a b || hash_eq a b

unfoldable pub public_key_eq : PublicKey → PublicKey → Bool
public_key_eq a b = bytes_eq a.bytes b.bytes

unfoldable pub signature_eq : Signature → Signature → Bool
signature_eq a b = bytes_eq a.bytes b.bytes

unfoldable pub input_eq : TransactionInput → TransactionInput → Bool
input_eq a b =
    hash_eq a.transaction_id b.transaction_id
    && (a.output_index == b.output_index
        && (option_eq signature_eq a.signature b.signature
            && public_key_eq a.output_owner b.output_owner))

unfoldable pub output_eq : TransactionOutput → TransactionOutput → Bool
output_eq a b = a.amount == b.amount && public_key_eq a.receiver b.receiver

unfoldable pub transaction_eq : Transaction → Transaction → Bool
transaction_eq a b =
    list_eq input_eq a.inputs b.inputs
    && (list_eq output_eq a.outputs b.outputs
        && (option_eq hash_eq a.transaction_id b.transaction_id
            && (a.nonce == b.nonce && a.timestamp == b.timestamp)))

unfoldable pub filter_eq : AddressInclusionFilter → AddressInclusionFilter → Bool
filter_eq a b = bytes_eq a.bits b.bits && (a.num_bits == b.num_bits && a.num_hashes == b.num_hashes)

unfoldable pub metadata_eq : BlockMetadata → BlockMetadata → Bool
metadata_eq a b =
    bytes_eq a.block_pow_difficulty b.block_pow_difficulty
    && (bytes_eq a.tx_pow_difficulty b.tx_pow_difficulty
        && (hash_eq a.previous_block b.previous_block
            && (option_eq hash_eq a.hash b.hash
                && (bytes_eq a.merkle_tree_root b.merkle_tree_root
                    && filter_eq a.address_inclusion_filter b.address_inclusion_filter))))

unfoldable pub block_eq : Block → Block → Bool
block_eq a b =
    list_eq transaction_eq a.transactions b.transactions
    && (a.timestamp == b.timestamp && (a.nonce == b.nonce && metadata_eq a.meta b.meta))

-- A test decides equality.
abbrev Decides {ℓ} : {A : Type ℓ} → (A → A → Bool) → Type ℓ
Decides {A = A} eq = (a b : A) → (eq a b ≡ true) ↔ (a ≡ b)

module _ {ℓ} {A : Type ℓ} (eq : A → A → Bool) (d : Decides eq) where
  option_eq-Decides : Decides (option_eq eq)
  unfolding option_eq
  option_eq-Decides none none = (λ h. refl, λ h. refl)
  option_eq-Decides (some a) (some b) = (λ h. ap some ((d a b).0 h), λ h. (d a b).1 (cc))
  option_eq-Decides none (some b) = (λ h. cc, λ h. cc)
  option_eq-Decides (some a) none = (λ h. cc, λ h. cc)

  list_eq-Decides : Decides (list_eq eq)
  unfolding list_eq
  list_eq-Decides [] [] = (λ h. refl, λ h. refl)
  list_eq-Decides [] (y ∷ ys) = (λ h. cc, λ h. cc)
  list_eq-Decides (x ∷ xs) [] = (λ h. cc, λ h. cc)
  list_eq-Decides (x ∷ xs) (y ∷ ys) = (
    λ h. ground (arith, d x y, list_eq-Decides xs ys),
    λ h. ground (arith, d x y, list_eq-Decides xs ys),
  )

hash_eq-Decides : Decides hash_eq
unfolding hash_eq
hash_eq-Decides a b = (
  λ h. ground (arith, bytes_eq_iff a.bytes b.bytes),
  λ h. ground (arith, bytes_eq_iff a.bytes b.bytes),
)

signature_eq-Decides : Decides signature_eq
unfolding signature_eq
signature_eq-Decides a b = (
  λ h. ground (arith, bytes_eq_iff a.bytes b.bytes),
  λ h. ground (arith, bytes_eq_iff a.bytes b.bytes),
)

public_key_eq-Decides : Decides public_key_eq
unfolding public_key_eq
public_key_eq-Decides a b = (
  λ h. ground (arith, bytes_eq_iff a.bytes b.bytes),
  λ h. ground (arith, bytes_eq_iff a.bytes b.bytes),
)

input_eq-Decides : Decides input_eq
unfolding input_eq
input_eq-Decides a b =
    let p = hash_eq-Decides a.transaction_id b.transaction_id in
    let q = option_eq-Decides signature_eq signature_eq-Decides a.signature b.signature in
    let r = public_key_eq-Decides a.output_owner b.output_owner in
    (λ h. ground (arith, p, q, r), λ h. ground (arith, p, q, r))

output_eq-Decides : Decides output_eq
unfolding output_eq
output_eq-Decides a b =
    let r = public_key_eq-Decides a.receiver b.receiver in
    (λ h. ground (arith, r), λ h. ground (arith, r))

transaction_eq-Decides : Decides transaction_eq
unfolding transaction_eq
transaction_eq-Decides a b =
    let p = list_eq-Decides input_eq input_eq-Decides a.inputs b.inputs in
    let q = list_eq-Decides output_eq output_eq-Decides a.outputs b.outputs in
    let r = option_eq-Decides hash_eq hash_eq-Decides a.transaction_id b.transaction_id in
    (λ h. ground (arith, p, q, r), λ h. ground (arith, p, q, r))

filter_eq-Decides : Decides filter_eq
unfolding filter_eq
filter_eq-Decides a b =
    let p = bytes_eq_iff a.bits b.bits in (λ h. ground (arith, p), λ h. ground (arith, p))

metadata_eq-Decides : Decides metadata_eq
unfolding metadata_eq
metadata_eq-Decides a b =
    let p = bytes_eq_iff a.block_pow_difficulty b.block_pow_difficulty in
    let q = bytes_eq_iff a.tx_pow_difficulty b.tx_pow_difficulty in
    let r = hash_eq-Decides a.previous_block b.previous_block in
    let s = option_eq-Decides hash_eq hash_eq-Decides a.hash b.hash in
    let t = bytes_eq_iff a.merkle_tree_root b.merkle_tree_root in
    let u = filter_eq-Decides a.address_inclusion_filter b.address_inclusion_filter in
    (λ h. ground (arith, p, q, r, s, t, u), λ h. ground (arith, p, q, r, s, t, u))

-- operator== of Block, which compares field by field and element by element through transactions,
-- inputs, outputs and metadata, is true exactly at equal blocks.
pub block_eq_iff : (a b : Block) → (block_eq a b ≡ true) ↔ (a ≡ b)
unfolding block_eq
block_eq_iff a b =
    let p = list_eq-Decides transaction_eq transaction_eq-Decides a.transactions b.transactions in
    let q = metadata_eq-Decides a.meta b.meta in
    (λ h. ground (arith, p, q), λ h. ground (arith, p, q))
