-- ===== src/Base/Bytes.antt =====
-- Byte strings and fixed-size byte arrays: lists of numbers below 256.
use Prim.Native.Char.{code}
use Prim.Native.String.{String}
use scrig.Base.Tests.{◌==◌}
use scrig.Base.Lists.{length, length-append, All}
use Prim.Native.Nat.{ℕ, zero, suc, ◌+◌, ◌*◌, ◌<◌, ◌^◌}
use mathlib.Core.Bool.{Bool, true, false, ◌&&◌}
use mathlib.Core.List.{List, [], ◌∷◌, ◌++◌}
use mathlib.Core.Logic.{◌↔◌}
use mathlib.Core.Path.{◌≡◌, refl, sym, ap, ◌∙◌}
use native.Mathlib.Omega.{arith}
use native.Mathlib.Nat.{pow-suc, mul-le-mul_right}
use native.Mathlib.Decide.{dec_lt}

abbrev pub Bytes : Type 0
Bytes = List ℕ

-- The bytes of an ASCII text.
abbrev pub codes : String → Bytes
codes String.[] = []
codes (String.◌∷◌ c s) = code c ∷ codes s

abbrev pub IsByte : ℕ → Type 0
IsByte b = b < 256

-- std::array<uint8_t, n>
pub record IsArray (n : ℕ) (xs : Bytes) : Type 0 where
  pub size : length xs ≡ n
  pub bytes : All IsByte xs

-- operator== of std::vector, std::array and std::string over bytes.
unfoldable pub bytes_eq : Bytes → Bytes → Bool
bytes_eq [] [] = true
bytes_eq [] (y ∷ ys) = false
bytes_eq (x ∷ xs) [] = false
bytes_eq (x ∷ xs) (y ∷ ys) = x == y && bytes_eq xs ys

pub bytes_eq_iff : (xs ys : Bytes) → (bytes_eq xs ys ≡ true) ↔ (xs ≡ ys)
unfolding bytes_eq
bytes_eq_iff [] [] = (λ _. refl, λ _. refl)
bytes_eq_iff [] (y ∷ ys) = (λ h. cc, λ h. cc)
bytes_eq_iff (x ∷ xs) [] = (λ h. cc, λ h. cc)
bytes_eq_iff (x ∷ xs) (y ∷ ys) =
    (λ h. ground (arith, bytes_eq_iff xs ys), λ h. ground (arith, bytes_eq_iff xs ys))

-- The number that big-endian bytes spell.
unfoldable pub be_value : Bytes → ℕ
be_value [] = 0
be_value (b ∷ bs) = b * 256 ^ length bs + be_value bs

pub be_value-cons : (b : ℕ) (bs : Bytes) → be_value (b ∷ bs) ≡ b * 256 ^ length bs + be_value bs
unfolding be_value
be_value-cons b bs = refl

pub be_value-lt : (bs : Bytes) → All IsByte bs → be_value bs < 256 ^ length bs
unfolding be_value
be_value-lt [] h = omega arith
be_value-lt (b ∷ bs) (hb, hs) = grind (arith, be_value-lt bs hs, pow-suc 256 (length bs))

pub pow-add : (m n : ℕ) → 256 ^ (m + n) ≡ 256 ^ m * 256 ^ n
pow-add zero n = ap (λ k. 256 ^ k) {y = n} (omega arith) ∙ omega arith
pow-add (suc m) n =
    ap (λ k. 256 ^ k) {y = suc (m + n)} (omega arith)
    ∙ omega (arith, pow-suc 256 (m + n), ap (λ (t : ℕ). t * 256 ^ n) (pow-suc 256 m), pow-add m n)

pub be_value-append :
    (xs ys : Bytes) → be_value (xs ++ ys) ≡ be_value xs * 256 ^ length ys + be_value ys
unfolding be_value
be_value-append [] ys = omega arith
be_value-append (x ∷ xs) ys = omega (
  arith,
  be_value-append xs ys,
  ap (λ (t : ℕ). x * t) (ap (λ k. 256 ^ k) (length-append xs ys) ∙ pow-add (length xs) (length ys)),
)

-- Digits below 256 are those of one number only.
digit_eq : (x y p u v : ℕ) → u < p → v < p → x * p + u ≡ y * p + v → (x ≡ y) × (u ≡ v)
digit_eq x y p u v hu hv h = elim (dec_lt x y) [
  | yes a ↦ absurd (omega (arith, mul-le-mul_right p a))
  | no a ↦ elim (dec_lt y x) [
    | yes b ↦ absurd (omega (arith, mul-le-mul_right p b))
    | no b ↦ let e : x ≡ y = omega arith in (e, omega (arith, ap (λ (t : ℕ). t * p) e))
  ]
]

pub be_value-injective :
    (xs ys : Bytes)
    → All IsByte xs
    → All IsByte ys
    → length xs ≡ length ys
    → be_value xs ≡ be_value ys
    → xs ≡ ys
unfolding be_value
be_value-injective [] [] hx hy n h = refl
be_value-injective [] (y ∷ ys) hx hy n h = absurd (omega arith)
be_value-injective (x ∷ xs) [] hx hy n h = absurd (omega arith)
be_value-injective (x ∷ xs) (y ∷ ys) (hx, hxs) (hy, hys) n h =
    let m : length xs ≡ length ys = omega arith in
    let (p, q) =
      digit_eq x y (256 ^ length xs) (be_value xs) (be_value ys) (be_value-lt xs hxs)
        (rw m (be_value-lt ys hys)) (h ∙ ap (λ k. y * 256 ^ k + be_value ys) (sym m)) in
    cc (p, be_value-injective xs ys hxs hys m q)
