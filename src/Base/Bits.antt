-- ===== src/Base/Bits.antt =====
-- `|` and the bits of a number.
use Prim.Native.Nat.{
  ℕ, zero, suc, ◌+◌, ◌-◌, ◌*◌, ◌/◌, ◌%◌, ◌^◌, ◌≤◌, ◌<◌, max, bit_or, digits, bit_or-bitwise,
}
use mathlib.Core.Path.{◌≡◌, refl, ap, ap₂, ◌∙◌, sym}
use native.Mathlib.Nat.{pow-suc, mul_comm, div-div-eq-div-mul, div-one, div_self, one-le-pow}
use native.Mathlib.Omega.{arith}

-- The binary recursion that the operation stands for, by `n` rounds.
abbrev or_rounds : ℕ → ℕ → ℕ → ℕ
or_rounds n a b = digits (λ y. y) max n a b

no_rounds : (rounds b : ℕ) → or_rounds rounds 0 b ≡ b
no_rounds zero b = refl
no_rounds (suc rounds) b = refl

more_rounds :
    (b a rounds extra : ℕ) → a ≤ rounds → or_rounds rounds a b ≡ or_rounds (rounds + extra) a b
more_rounds b zero rounds extra within = no_rounds rounds b ∙ sym (no_rounds (rounds + extra) b)
more_rounds b (suc a) zero extra within = absurd (omega arith)
more_rounds b (suc a) (suc rounds) extra within =
    let half : suc a / 2 ≤ rounds = omega arith in
    let above = more_rounds (b / 2) (suc a / 2) rounds extra half in
    let next : suc rounds + extra ≡ suc (rounds + extra) = omega arith in
    rw next (omega (above, arith))

-- The rounds that halving saves change nothing.
halved_rounds : (b a : ℕ) → or_rounds (suc a / 2) (suc a / 2) b ≡ or_rounds a (suc a / 2) b
halved_rounds b a =
    more_rounds b (suc a / 2) (suc a / 2) (a - suc a / 2) (omega arith)
    ∙ ap (λ rounds. or_rounds rounds (suc a / 2) b) (omega arith)

-- The lowest bit, and the bits above it.
pub bit_or_step : (a b : ℕ) → bit_or a b ≡ bit_or (a / 2) (b / 2) * 2 + max (a % 2) (b % 2)
bit_or_step zero b =
    let whole = bit_or-bitwise 0 b in
    let half = bit_or-bitwise 0 (b / 2) in omega (whole, half, arith)
bit_or_step (suc a) b =
    let rounds = halved_rounds (b / 2) a in
    let half = bit_or-bitwise (suc a / 2) (b / 2) in
    let whole = bit_or-bitwise (suc a) b in omega (rounds, half, whole, arith)

bit_or-zero_within : (a bound : ℕ) → a ≤ bound → bit_or a 0 ≡ a
bit_or-zero_within zero bound within = refl
bit_or-zero_within (suc a) zero within = absurd (omega arith)
bit_or-zero_within (suc a) (suc bound) within =
    let upper = bit_or-zero_within (suc a / 2) bound (omega arith) in
    omega (bit_or_step (suc a) 0, upper, arith)

pub bit_or-zero : (a : ℕ) → bit_or a 0 ≡ a
bit_or-zero a = bit_or-zero_within a a (omega arith)

bit_or_shifted : (k q r : ℕ) → r < 2 ^ k → bit_or (q * 2 ^ k) r ≡ q * 2 ^ k + r
bit_or_shifted zero q r h =
    ap (λ t. bit_or (q * 1) t) {y = 0} (omega arith) ∙ bit_or-zero (q * 1) ∙ omega arith
bit_or_shifted (suc k) q r h =
    let e : q * 2 ^ suc k ≡ 2 * (q * 2 ^ k) = omega (arith, ap (λ (t : ℕ). q * t) (pow-suc 2 k)) in
    let half : q * 2 ^ suc k / 2 ≡ q * 2 ^ k = omega arith in
    omega (
      arith,
      bit_or_step (q * 2 ^ suc k) r,
      ap (λ t. bit_or t (r / 2)) half,
      bit_or_shifted k q (r / 2) (omega (arith, pow-suc 2 k)),
    )

-- `x | r` for a multiple `x` of 2 ^ k and an `r` below 2 ^ k.
pub bit_or-eq-add : (k q x r : ℕ) → x ≡ q * 2 ^ k → r < 2 ^ k → bit_or x r ≡ x + r
bit_or-eq-add k q x r e h =
    ap (λ t. bit_or t r) e ∙ bit_or_shifted k q r h ∙ ap (λ t. t + r) (sym e)

-- The bit of weight 2 ^ k.
abbrev pub bit : ℕ → ℕ → ℕ
bit x k = x / 2 ^ k % 2

half_bit : (x k : ℕ) → bit x (suc k) ≡ bit (x / 2) k
half_bit x k =
    ap (λ t. t % 2)
      (ap (λ d. x / d) (pow-suc 2 k ∙ mul_comm (2 ^ k) 2) ∙ sym (div-div-eq-div-mul x 2 (2 ^ k)))

-- A bit of `a | b` is set exactly if it is set in one of them.
pub bit-bit_or : (k a b : ℕ) → bit (bit_or a b) k ≡ max (bit a k) (bit b k)
bit-bit_or zero a b = simp div-one (omega (arith, bit_or_step a b))
bit-bit_or (suc k) a b =
    half_bit (bit_or a b) k
    ∙ ap (λ t. bit t k) {y = bit_or (a / 2) (b / 2)} (omega (arith, bit_or_step a b))
    ∙ bit-bit_or k (a / 2) (b / 2)
    ∙ ap₂ max (sym (half_bit a k)) (sym (half_bit b k))

pub bit-pow_self : (k : ℕ) → bit (2 ^ k) k ≡ 1
bit-pow_self k = ap (λ t. t % 2) (div_self (one-le-pow k 2 (omega arith)))
