-- ===== src/Consensus/Merkle.antt =====
-- build_merkle_root of src/crypto.cpp.
pub mod Laws
pub mod Tree
use scrig.Base.{ℕ, zero, suc, Option, none, some, List, [], ◌∷◌, ◌++◌, map, length, replicate}
use scrig.Base.Bytes.{Bytes}
use scrig.Types.{Hash, Transaction}
use scrig.Sha256.{sha256}

unfoldable pub leaf : Option Hash → Bytes
leaf none = replicate 32 0
leaf (some id) = sha256 id.bytes

-- One round of the outer loop: a last leaf with no partner is paired with itself.
unfoldable pub next_level : List Bytes → List Bytes
next_level [] = []
next_level (left ∷ []) = sha256 (left ++ left) ∷ []
next_level (left ∷ right ∷ rest) = sha256 (left ++ right) ∷ next_level rest

-- while (leaves.size() > 1), with a bound on the rounds; `none` means that they ran out.
unfoldable pub merkle_loop : ℕ → List Bytes → Option Bytes
merkle_loop zero leaves = none
merkle_loop (suc fuel) [] = none
merkle_loop (suc fuel) (root ∷ []) = some root
merkle_loop (suc fuel) (a ∷ b ∷ rest) = merkle_loop fuel (next_level (a ∷ b ∷ rest))

unfoldable pub build_merkle_root : List Transaction → Option Bytes
unfolding leaf next_level merkle_loop
build_merkle_root [] = some (replicate 32 0)
build_merkle_root (tx ∷ txs) =
    merkle_loop (suc (length txs)) (map (λ t. leaf t.transaction_id) (tx ∷ txs))
