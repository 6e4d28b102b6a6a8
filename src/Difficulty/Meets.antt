-- ===== src/Difficulty/Meets.antt =====
-- hash_meets_target of src/crypto.cpp and the big-endian numbers of its arguments.
use scrig.Base.{
  ℕ, zero, suc, ◌+◌, ◌*◌, ◌/◌, ◌^◌, ◌<◌, ◌≤◌, true, false, [], ◌∷◌, ◌↔◌, take-append-drop,
  length-drop, drop-drop, All-take, All-drop, length, All, drop, take, ltb, leb, if◌then◌else◌, ◌≡◌,
  refl, sym, ap, ◌∙◌, arith,
}
use scrig.Base.Bits.{bit_or-eq-add}
use scrig.Base.Bytes.{Bytes, IsByte, IsArray, be_value, be_value-lt, be_value-append}
use native.Mathlib.Nat.{mul-le-mul_right}
use native.Mathlib.Decide.{dec_lt}
use scrig.Types.{Hash, DifficultyTarget}
use scrig.Difficulty.{load_be_u64, meets_loop, hash_meets_target}

module _ (a b c d e f g h : ℕ) (rest : Bytes)
    (small : All IsByte (a ∷ b ∷ c ∷ d ∷ e ∷ f ∷ g ∷ h ∷ [])) where
  load_bytes :
      load_be_u64 (a ∷ b ∷ c ∷ d ∷ e ∷ f ∷ g ∷ h ∷ rest)
      ≡ be_value (a ∷ b ∷ c ∷ d ∷ e ∷ f ∷ g ∷ h ∷ [])
  unfolding load_be_u64 be_value
  load_bytes =
      let v₁ = a * 2 ^ 56 + b * 2 ^ 48 in
      let v₂ = v₁ + c * 2 ^ 40 in
      let v₃ = v₂ + d * 2 ^ 32 in
      let v₄ = v₃ + e * 2 ^ 24 in
      let v₅ = v₄ + f * 2 ^ 16 in
      let v₆ = v₅ + g * 2 ^ 8 in
      rw
        (
          bit_or-eq-add 56 a (a * 2 ^ 56) (b * 2 ^ 48) refl (omega arith),
          bit_or-eq-add 48 (v₁ / 2 ^ 48) v₁ (c * 2 ^ 40) (omega arith) (omega arith),
          bit_or-eq-add 40 (v₂ / 2 ^ 40) v₂ (d * 2 ^ 32) (omega arith) (omega arith),
          bit_or-eq-add 32 (v₃ / 2 ^ 32) v₃ (e * 2 ^ 24) (omega arith) (omega arith),
          bit_or-eq-add 24 (v₄ / 2 ^ 24) v₄ (f * 2 ^ 16) (omega arith) (omega arith),
          bit_or-eq-add 16 (v₅ / 2 ^ 16) v₅ (g * 2 ^ 8) (omega arith) (omega arith),
          bit_or-eq-add 8 (v₆ / 2 ^ 8) v₆ h (omega arith) (omega arith),
        )
        (omega arith)

load_be_u64-take :
    (xs : Bytes) → 8 ≤ length xs → All IsByte xs → load_be_u64 xs ≡ be_value (take 8 xs)
load_be_u64-take (a ∷ b ∷ c ∷ d ∷ e ∷ f ∷ g ∷ h ∷ xs) n s =
    load_bytes a b c d e f g h xs (All-take IsByte 8 (a ∷ b ∷ c ∷ d ∷ e ∷ f ∷ g ∷ h ∷ xs) s)
load_be_u64-take _ n s = absurd (omega arith)

-- Words first: the order of two numbers is that of their high parts, then of their low parts.
leb_words :
    (p h t u v : ℕ)
    → u < p
    → v < p
    → leb (h * p + u) (t * p + v) ≡ (if ltb h t then true else if ltb t h then false else leb u v)
leb_words p h t u v hu hv = elim (dec_lt h t) [
  | yes a ↦ ground (arith, mul-le-mul_right p a)
  | no a ↦ elim (dec_lt t h) [
    | yes b ↦ ground (arith, mul-le-mul_right p b)
    | no b ↦ let e : h ≡ t = omega arith in ground (arith, ap (λ (x : ℕ). x * p) e)
  ]
]

-- The first eight bytes and those behind them.
be_value_split :
    (k : ℕ) (xs : Bytes)
    → length xs ≡ 8 + k
    → be_value xs ≡ be_value (take 8 xs) * 256 ^ k + be_value (drop 8 xs)
be_value_split k xs h =
    ap be_value (sym (take-append-drop 8 xs))
    ∙ be_value-append (take 8 xs) (drop 8 xs)
    ∙ ap (λ k. be_value (take 8 xs) * 256 ^ k + be_value (drop 8 xs))
        (length-drop 8 xs ∙ omega arith)

low-lt : (k : ℕ) (xs : Bytes) → length xs ≡ 8 + k → All IsByte xs → be_value (drop 8 xs) < 256 ^ k
low-lt k xs n h =
    let size : length (drop 8 xs) ≡ k = omega (arith, length-drop 8 xs) in
    omega (arith, be_value-lt (drop 8 xs) (All-drop IsByte 8 xs h), ap (λ k. 256 ^ k) size)

leb-be_value :
    (k : ℕ) (xs ys : Bytes)
    → length xs ≡ 8 + k
    → length ys ≡ 8 + k
    → All IsByte xs
    → All IsByte ys
    → leb (be_value xs) (be_value ys) ≡ (
        if ltb (load_be_u64 xs) (load_be_u64 ys)
        then true
        else if ltb (load_be_u64 ys) (load_be_u64 xs)
        then false
        else leb (be_value (drop 8 xs)) (be_value (drop 8 ys)))
leb-be_value k xs ys nx ny hx hy =
    rw
      (
        load_be_u64-take xs (omega arith) hx,
        load_be_u64-take ys (omega arith) hy,
        be_value_split k xs nx,
        be_value_split k ys ny,
      )
      (leb_words (256 ^ k) _ _ _ _ (low-lt k xs nx hx) (low-lt k ys ny hy))

be_value-empty : (xs : Bytes) → length xs ≡ 0 → be_value xs ≡ 0
unfolding be_value
be_value-empty [] h = refl
be_value-empty (x ∷ xs) h = absurd (omega arith)

meets_loop-leb :
    (n i : ℕ) (hash target : Bytes)
    → All IsByte hash
    → All IsByte target
    → length hash ≡ i + n * 8
    → length target ≡ i + n * 8
    → meets_loop n i hash target ≡ leb (be_value (drop i hash)) (be_value (drop i target))
unfolding meets_loop
meets_loop-leb zero i hash target hh ht nh nt = rw (
  be_value-empty (drop i hash) (omega (arith, length-drop i hash)),
  be_value-empty (drop i target) (omega (arith, length-drop i target)),
)
meets_loop-leb (suc n) i hash target hh ht nh nt =
    let x = drop i hash in
    let y = drop i target in
    let words =
      leb-be_value (n * 8) x y (omega (arith, length-drop i hash))
        (omega (arith, length-drop i target)) (All-drop IsByte i hash hh)
        (All-drop IsByte i target ht) in
    rw (words, drop-drop i 8 hash, drop-drop i 8 target)
      (rw (meets_loop-leb n (i + 8) hash target hh ht (omega arith) (omega arith)))

-- For a hash and a target of 32 bytes, hash_meets_target is true exactly if the hash, read as a
-- big-endian number, is at most the target.
pub hash_meets_target_iff :
    (hash : Hash) (target : DifficultyTarget)
    → IsArray 32 hash.bytes
    → IsArray 32 target
    → (hash_meets_target hash target ≡ true) ↔ (be_value hash.bytes ≤ be_value target)
unfolding hash_meets_target
hash_meets_target_iff hash target hh ht =
    let e = meets_loop-leb 4 0 hash.bytes target hh.bytes ht.bytes hh.size ht.size in
    (λ h. ground (arith, e), λ h. ground (arith, e))
