-- ===== src/Consensus/Merkle/Laws.antt =====
-- The rounds of build_merkle_root of src/crypto.cpp and the size of its result.
use scrig.Base.{
  ℕ, zero, suc, ◌+◌, ◌/◌, ◌<◌, ◌≤◌, Option, none, some, List, [], ◌∷◌, ◌++◌, map, length,
  length-map, replicate, All, ◌≡◌, refl, arith,
}
use scrig.Base.Bytes.{Bytes, IsByte, IsArray}
use scrig.Types.{Hash, Transaction}
use scrig.Sha256.Digest.{sha256-IsArray}
use scrig.Consensus.Merkle.{leaf, next_level, merkle_loop, build_merkle_root}

pub length-next_level : (leaves : List Bytes) → length (next_level leaves) ≡ (length leaves + 1) / 2
unfolding next_level
length-next_level [] = omega arith
length-next_level (a ∷ []) = omega arith
length-next_level (a ∷ b ∷ rest) = omega (arith, length-next_level rest)

next_level-IsDigests : (leaves : List Bytes) → All (IsArray 32) (next_level leaves)
unfolding next_level
next_level-IsDigests [] = tt
next_level-IsDigests (a ∷ []) = (sha256-IsArray (a ++ a), tt)
next_level-IsDigests (a ∷ b ∷ rest) = (sha256-IsArray (a ++ b), next_level-IsDigests rest)

merkle_loop_total :
    (fuel : ℕ) (leaves : List Bytes)
    → 0 < length leaves
    → length leaves ≤ fuel
    → All (IsArray 32) leaves
    → (root : Bytes) × (merkle_loop fuel leaves ≡ some root) × IsArray 32 root
unfolding merkle_loop
merkle_loop_total zero leaves h n d = absurd (omega arith)
merkle_loop_total (suc fuel) [] h n d = absurd (omega arith)
merkle_loop_total (suc fuel) (root ∷ []) h n (d, _) = (root, refl, d)
merkle_loop_total (suc fuel) (a ∷ b ∷ rest) h n d =
    let size = length-next_level (a ∷ b ∷ rest) in
    merkle_loop_total fuel (next_level (a ∷ b ∷ rest)) (omega (arith, size)) (omega (arith, size))
      (next_level-IsDigests (a ∷ b ∷ rest))

zeros-IsByte : (n : ℕ) → All IsByte (replicate n 0)
zeros-IsByte zero = tt
zeros-IsByte (suc n) = (omega arith, zeros-IsByte n)

zeros-IsArray : IsArray 32 (replicate 32 0)
zeros-IsArray = record { size = refl; bytes = zeros-IsByte 32 }

leaf-IsArray : (id : Option Hash) → IsArray 32 (leaf id)
unfolding leaf
leaf-IsArray none = zeros-IsArray
leaf-IsArray (some id) = sha256-IsArray id.bytes

leaves-IsDigests :
    (txs : List Transaction) → All (IsArray 32) (map (λ t. leaf t.transaction_id) txs)
leaves-IsDigests [] = tt
leaves-IsDigests (tx ∷ txs) = (leaf-IsArray tx.transaction_id, leaves-IsDigests txs)

-- For every list of transactions the loop ends within as many rounds as there are leaves, and the
-- root is an array of 32 bytes.
pub build_merkle_root_total :
    (txs : List Transaction)
    → (root : Bytes) × (build_merkle_root txs ≡ some root) × IsArray 32 root
unfolding build_merkle_root
build_merkle_root_total [] = (replicate 32 0, refl, zeros-IsArray)
build_merkle_root_total (tx ∷ txs) =
    let ids = tx ∷ txs in
    let size = length-map ids (λ t. leaf t.transaction_id) in
    merkle_loop_total (suc (length txs)) (map (λ t. leaf t.transaction_id) ids) (omega arith)
      (omega (arith, size)) (leaves-IsDigests ids)
