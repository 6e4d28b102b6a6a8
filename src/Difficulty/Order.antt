-- ===== src/Difficulty/Order.antt =====
-- hash_meets_target of src/crypto.cpp and Hash::operator<= of src/types.cpp.
use native.Mathlib.Nat.{mul-le-mul_right}
use native.Mathlib.Decide.{dec_lt}
use scrig.Base.{
  ℕ, ◌+◌, ◌*◌, ◌^◌, ◌<◌, true, false, [], ◌∷◌, length, All, ltb, if◌then◌else◌, ◌≡◌, refl, sym, ap,
  ◌∙◌, arith,
}
use scrig.Base.Bytes.{
  Bytes, IsByte, IsArray, be_value, be_value-lt, be_value-injective, bytes_eq_iff,
}
use scrig.Types.{Hash}
use scrig.Types.Equality.{lexicographical_compare, hash_lt, hash_le, hash_eq}
use scrig.Difficulty.{hash_meets_target}
use scrig.Difficulty.Meets.{hash_meets_target_iff}

ltb_words :
    (p h t u v : ℕ)
    → u < p
    → v < p
    → ltb (h * p + u) (t * p + v) ≡ (if ltb h t then true else if ltb t h then false else ltb u v)
ltb_words p h t u v hu hv = elim (dec_lt h t) [
  | yes a ↦ ground (arith, mul-le-mul_right p a)
  | no a ↦ elim (dec_lt t h) [
    | yes b ↦ ground (arith, mul-le-mul_right p b)
    | no b ↦ let e : h ≡ t = omega arith in ground (arith, ap (λ (x : ℕ). x * p) e)
  ]
]

lexicographical_compare-ltb :
    (xs ys : Bytes)
    → length xs ≡ length ys
    → All IsByte xs
    → All IsByte ys
    → lexicographical_compare xs ys ≡ ltb (be_value xs) (be_value ys)
unfolding lexicographical_compare be_value
lexicographical_compare-ltb [] [] n hx hy = refl
lexicographical_compare-ltb [] (y ∷ ys) n hx hy = absurd (omega arith)
lexicographical_compare-ltb (x ∷ xs) [] n hx hy = absurd (omega arith)
lexicographical_compare-ltb (x ∷ xs) (y ∷ ys) n (hx, hxs) (hy, hys) =
    let m : length xs ≡ length ys = omega arith in
    rw (← m) (
      rw (
        ltb_words (256 ^ length xs) x y (be_value xs) (be_value ys) (be_value-lt xs hxs)
            (rw m (be_value-lt ys hys)),
        lexicographical_compare-ltb xs ys m hxs hys,
      ))

-- For a hash and a target of 32 bytes, the test by eight-byte words is Hash::operator<=, the
-- comparison byte by byte: hash_meets_target is true exactly if the hash is at most the target.
pub hash_meets_target-hash_le :
    (hash target : Hash)
    → IsArray 32 hash.bytes
    → IsArray 32 target.bytes
    → hash_meets_target hash target.bytes ≡ hash_le hash target
unfolding hash_le hash_lt hash_eq
hash_meets_target-hash_le hash target hh ht =
    let x = hash.bytes in
    let y = target.bytes in
    let size : length x ≡ length y = hh.size ∙ sym ht.size in
    ground (
      arith,
      hash_meets_target_iff hash target.bytes hh ht,
      lexicographical_compare-ltb x y size hh.bytes ht.bytes,
      bytes_eq_iff x y,
      be_value-injective x y hh.bytes ht.bytes size,
      ap be_value,
    )
