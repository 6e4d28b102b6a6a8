-- ===== src/Consensus/Merkle/Tree.antt =====
-- build_merkle_root against a definition by complete binary trees.
use native.Mathlib.Nat.{pow-suc, one-le-pow}
use scrig.Base.{
  ℕ, zero, suc, ◌%◌, ◌^◌, ◌<◌, ◌≤◌, some, List, [], ◌∷◌, ◌++◌, map, length, length-append,
  length-map, map-append, ◌≡◌, refl, sym, ap, ◌∙◌, arith,
}
use scrig.Base.Bytes.{Bytes}
use scrig.Types.{Transaction}
use scrig.Sha256.{sha256}
use mathlib.Core.Path.{ap₂}
use scrig.Consensus.Merkle.Laws.{length-next_level}
use scrig.Consensus.Merkle.{leaf, next_level, merkle_loop, build_merkle_root}

-- A complete binary tree of digests, by its depth.
pub data Tree : ℕ → Type 0 where
  tip : Bytes → Tree zero
  node : {k : ℕ} → Tree k → Tree k → Tree (suc k)

-- The leaves from left to right.
unfoldable pub fringe : {k : ℕ} → Tree k → List Bytes
fringe (tip a) = a ∷ []
fringe (node l r) = fringe l ++ fringe r

-- The root: the digest of the two roots below it.
unfoldable pub tree_root : {k : ℕ} → Tree k → Bytes
tree_root (tip a) = a
tree_root (node l r) = sha256 (tree_root l ++ tree_root r)

length-fringe : {k : ℕ} (t : Tree k) → length (fringe t) ≡ 2 ^ k
unfolding fringe
length-fringe (tip a) = refl
length-fringe (node {k} l r) =
    omega
      (arith, length-append (fringe l) (fringe r), length-fringe l, length-fringe r, pow-suc 2 k)

-- The tree without its lowest level.
collapse : {k : ℕ} → Tree (suc k) → Tree k
collapse (node (tip a) (tip b)) = tip (sha256 (a ++ b))
collapse (node (node a b) (node c d)) = node (collapse (node a b)) (collapse (node c d))

root-collapse : {k : ℕ} (t : Tree (suc k)) → tree_root (collapse t) ≡ tree_root t
unfolding tree_root collapse
root-collapse (node (tip a) (tip b)) = refl
root-collapse (node (node a b) (node c d)) = rw (root-collapse (node a b), root-collapse (node c d))

-- Whole pairs are hashed apart from what follows them.
next_level-append :
    (xs ys : List Bytes)
    → length xs % 2 ≡ 0
    → next_level (xs ++ ys) ≡ next_level xs ++ next_level ys
unfolding next_level
next_level-append [] ys h = refl
next_level-append (a ∷ []) ys h = absurd (omega arith)
next_level-append (a ∷ b ∷ xs) ys h = rw (next_level-append xs ys (omega arith))

next_level-fringe : {k : ℕ} (t : Tree (suc k)) → next_level (fringe t) ≡ fringe (collapse t)
unfolding fringe collapse next_level
next_level-fringe (node (tip a) (tip b)) = refl
next_level-fringe (node (node {k} a b) (node c d)) =
    next_level-append (fringe a ++ fringe b) (fringe c ++ fringe d)
      (omega (arith, length-fringe (node a b), pow-suc 2 k))
    ∙ rw (next_level-fringe (node a b), next_level-fringe (node c d))

merkle_loop-long :
    (fuel : ℕ) (xs : List Bytes)
    → 1 < length xs
    → merkle_loop (suc fuel) xs ≡ merkle_loop fuel (next_level xs)
unfolding merkle_loop
merkle_loop-long fuel [] h = absurd (omega arith)
merkle_loop-long fuel (a ∷ []) h = absurd (omega arith)
merkle_loop-long fuel (a ∷ b ∷ xs) h = refl

merkle_loop-fringe :
    {k : ℕ} (fuel : ℕ) (t : Tree k) → k < fuel → merkle_loop fuel (fringe t) ≡ some (tree_root t)
merkle_loop-fringe {k} zero t h = absurd (omega arith)
merkle_loop-fringe (suc fuel) (tip a) h = unfold fringe tree_root merkle_loop in refl
merkle_loop-fringe (suc fuel) (node {k} l r) h =
    let t = node l r in
    merkle_loop-long fuel (fringe t) (omega (arith, length-fringe t, pow-suc 2 k, one-le-pow k 2))
    ∙ rw (next_level-fringe t, merkle_loop-fringe fuel (collapse t) (omega arith), root-collapse t)

depth-lt : (k : ℕ) → k < 2 ^ k
depth-lt zero = omega arith
depth-lt (suc k) = omega (arith, depth-lt k, pow-suc 2 k)

-- Where the leaves of the transactions are those of a complete binary tree, of any depth, the loop
-- by levels gives the root of the tree.
pub build_merkle_root-tree_root :
    (k : ℕ) (t : Tree k) (txs : List Transaction)
    → map (λ (tx : Transaction). leaf tx.transaction_id) txs ≡ fringe t
    → build_merkle_root txs ≡ some (tree_root t)
unfolding build_merkle_root
build_merkle_root-tree_root k t [] h =
    absurd (omega (arith, ap length h, length-fringe t, depth-lt k))
build_merkle_root-tree_root k t (tx ∷ txs) h =
    let size = length-map (tx ∷ txs) (λ (tx : Transaction). leaf tx.transaction_id) in
    ap (merkle_loop (suc (length txs))) h
    ∙ merkle_loop-fringe (suc (length txs)) t
        (omega (arith, ap length h, size, length-fringe t, depth-lt k))

next_level_repeated :
    (xs : List Bytes) (a : Bytes)
    → length xs % 2 ≡ 0
    → next_level (xs ++ (a ∷ a ∷ [])) ≡ next_level (xs ++ (a ∷ []))
unfolding next_level
next_level_repeated xs a h =
    next_level-append xs (a ∷ a ∷ []) h ∙ sym (next_level-append xs (a ∷ []) h)

-- Any two bounds of at least the number of leaves give the same root.
merkle_loop_fuel :
    (f g : ℕ) (xs : List Bytes)
    → length xs ≤ f
    → length xs ≤ g
    → 0 < length xs
    → merkle_loop f xs ≡ merkle_loop g xs
merkle_loop_fuel zero g xs hf hg h = absurd (omega arith)
merkle_loop_fuel (suc f) zero xs hf hg h = absurd (omega arith)
merkle_loop_fuel (suc f) (suc g) [] hf hg h = absurd (omega arith)
merkle_loop_fuel (suc f) (suc g) (a ∷ []) hf hg h = unfold merkle_loop in refl
merkle_loop_fuel (suc f) (suc g) (a ∷ b ∷ xs) hf hg h =
    let size = length-next_level (a ∷ b ∷ xs) in
    merkle_loop-long f (a ∷ b ∷ xs) (omega arith)
    ∙ merkle_loop_fuel f g (next_level (a ∷ b ∷ xs)) (omega (arith, size)) (omega (arith, size))
        (omega (arith, size))
    ∙ sym (merkle_loop-long g (a ∷ b ∷ xs) (omega arith))

merkle_loop_repeated :
    (f g : ℕ) (xs : List Bytes) (a : Bytes)
    → length xs % 2 ≡ 0
    → 0 < length xs
    → length xs ≤ f
    → length xs ≤ g
    → merkle_loop (suc f) (xs ++ (a ∷ a ∷ [])) ≡ merkle_loop (suc g) (xs ++ (a ∷ []))
merkle_loop_repeated f g xs a even nonempty hf hg =
    let size₁ = length-append xs (a ∷ []) in
    let size₂ = length-append xs (a ∷ a ∷ []) in
    let next = length-next_level (xs ++ (a ∷ [])) in
    merkle_loop-long f (xs ++ (a ∷ a ∷ [])) (omega (arith, size₂))
    ∙ ap (merkle_loop f) (next_level_repeated xs a even)
    ∙ merkle_loop_fuel f g (next_level (xs ++ (a ∷ []))) (omega (arith, next, size₁))
        (omega (arith, next, size₁)) (omega (arith, next, size₁))
    ∙ sym (merkle_loop-long g (xs ++ (a ∷ [])) (omega (arith, size₁)))

build-merkle_loop :
    (txs : List Transaction)
    → 0 < length txs
    → build_merkle_root txs
      ≡ merkle_loop (length txs) (map (λ (tx : Transaction). leaf tx.transaction_id) txs)
unfolding build_merkle_root
build-merkle_loop [] h = absurd (omega arith)
build-merkle_loop (tx ∷ txs) h = refl

-- Repeating the last transaction of an odd number of at least three transactions does not change
-- the root: the root alone does not fix the transactions.
pub build_merkle_root_repeated :
    (txs : List Transaction) (tx : Transaction)
    → length txs % 2 ≡ 0
    → 0 < length txs
    → build_merkle_root (txs ++ (tx ∷ tx ∷ [])) ≡ build_merkle_root (txs ++ (tx ∷ []))
build_merkle_root_repeated txs tx even nonempty =
    let leaf_of = λ (t : Transaction). leaf t.transaction_id in
    let a = leaf_of tx in
    let xs = map leaf_of txs in
    let size = length-map txs leaf_of in
    let size₁ = length-append txs (tx ∷ []) in
    let size₂ = length-append txs (tx ∷ tx ∷ []) in
    build-merkle_loop (txs ++ (tx ∷ tx ∷ [])) (omega (arith, size₂))
    ∙ ap₂ merkle_loop {y = suc (suc (length txs))} (omega (arith, size₂))
        (map-append leaf_of txs (tx ∷ tx ∷ []))
    ∙ merkle_loop_repeated (suc (length txs)) (length txs) xs a (omega (arith, size))
        (omega (arith, size)) (omega (arith, size)) (omega (arith, size))
    ∙ sym (
        build-merkle_loop (txs ++ (tx ∷ [])) (omega (arith, size₁))
        ∙ ap₂ merkle_loop {y = suc (length txs)} (omega (arith, size₁))
            (map-append leaf_of txs (tx ∷ [])))
