-- ===== src/Difficulty/Scale.antt =====
-- multiply_divide_target of src/crypto.cpp in big-endian arithmetic.
use native.Mathlib.Nat.{
  pow-suc, mul-add-div_right, div-eq_of_lt, mod-eq_of_lt, mod-lt, mod-add-div, mul-le-mul_right,
  div-lt_iff_lt-mul,
}
use scrig.Base.{
  ℕ, zero, suc, ◌+◌, ◌*◌, ◌/◌, ◌%◌, ◌^◌, ◌<◌, ◌≤◌, true, false, [], ◌∷◌, replicate, length,
  length-replicate, All, ltb, ltb→lt, ◌⊎◌, inl, inr, Bool-cases, ◌≡◌, refl, sym, ap, ◌∙◌, arith,
}
use scrig.Base.Bytes.{Bytes, IsByte, IsArray, be_value, be_value-lt}
use scrig.Difficulty.{multiply_loop, divide_loop, multiply_divide_target}

multiply_step :
    (b m c p v w : ℕ)
    → v + c * p ≡ w * m
    → b * m + c < 2 ^ 128
    → let cur = (b * m + c) % 2 ^ 128 in cur % 256 * p + v + cur / 256 * (p * 256) ≡ (b * p + w) * m
multiply_step b m c p v w h fits =
    rw (mod-eq_of_lt fits) (omega (arith, ap (λ (t : ℕ). t * p) (mod-add-div (b * m + c) 256)))

-- What the loop writes and carries is the product; the carry is at most the factor, so no step
-- leaves the 128 bits.
multiply_loop-eq :
    (bs : Bytes) (m : ℕ)
    → All IsByte bs
    → m < 2 ^ 64
    → let (out, carry) = multiply_loop bs m in
      (be_value out + carry * 256 ^ length bs ≡ be_value bs * m)
      × (carry ≤ m)
      × (length out ≡ length bs)
      × All IsByte out
unfolding multiply_loop be_value
multiply_loop-eq [] m h hm = (omega arith, omega arith, refl, tt)
multiply_loop-eq (b ∷ bs) m (hb, hs) hm =
    let (out, carry) = multiply_loop bs m in
    let (e, small, size, bytes) = multiply_loop-eq bs m hs hm in
    let top : b * m ≤ 255 * m = mul-le-mul_right m (omega arith) in
    (
      rw (size, pow-suc 256 (length bs))
          (multiply_step b m carry (256 ^ length bs) (be_value out) (be_value bs) e (omega arith)),
      omega arith,
      ap suc size,
      (omega arith, bytes),
    )

divide_step :
    (r b d p v w q cur : ℕ)
    → cur ≡ r * 256 + b
    → cur / d < 256
    → v * d + q ≡ cur % d * p + w
    → (cur / d % 256 * p + v) * d + q ≡ r * (p * 256) + (b * p + w)
divide_step r b d p v w q cur fits small h =
    rw (mod-eq_of_lt small)
      (omega (arith, ap (λ (t : ℕ). t * p) (mod-add-div cur d), ap (λ (t : ℕ). t * p) fits))

-- Long division: the quotient's digits, and the remainder that the loop ends with.
divide_loop-eq :
    (bs : Bytes) (d r : ℕ)
    → All IsByte bs
    → r < d
    → d < 2 ^ 64
    → (q : ℕ) × (be_value (divide_loop bs d r) * d + q ≡ r * 256 ^ length bs + be_value bs)
      × (q < d)
      × (length (divide_loop bs d r) ≡ length bs)
      × All IsByte (divide_loop bs d r)
unfolding divide_loop be_value
divide_loop-eq [] d r h hr hd = (r, omega arith, hr, refl, tt)
divide_loop-eq (b ∷ bs) d r (hb, hs) hr hd =
    let cur = (r * 256 + b) % 2 ^ 128 in
    let fits : cur ≡ r * 256 + b = omega arith in
    let below : cur < d * 256 = omega arith in
    let quotient : cur / d < 256 = (div-lt_iff_lt-mul (omega arith)).1 (omega arith) in
    let (q, e, small, size, bytes) =
      divide_loop-eq bs d (cur % d) hs (mod-lt cur (omega arith)) hd in
    (
      q,
      rw (size, pow-suc 256 (length bs))
          (divide_step r b d (256 ^ length bs) (be_value (divide_loop bs d (cur % d))) (be_value bs)
            q cur fits quotient e),
      small,
      ap suc size,
      (omega arith, bytes),
    )

abbrev pub saturated : ℕ → Bytes
saturated n = replicate n 0xFF

be_value-saturated : (n : ℕ) → be_value (saturated n) + 1 ≡ 256 ^ n
unfolding be_value
be_value-saturated zero = omega arith
be_value-saturated (suc n) =
    rw (length-replicate {A = ℕ} n 255) (omega (arith, be_value-saturated n, pow-suc 256 n))

-- The quotient is the only number with a remainder below the divisor.
quotient_eq : (v d q n : ℕ) → v * d + q ≡ n → q < d → v ≡ n / d
quotient_eq v d q n e h = sym (
    ap (λ t. t / d) (sym e)
    ∙ mul-add-div_right (omega arith) v q
    ∙ ap (λ t. v + t) (div-eq_of_lt h)
    ∙ omega arith)

replicate-IsByte : (n b : ℕ) → b < 256 → All IsByte (replicate n b)
replicate-IsByte zero b h = tt
replicate-IsByte (suc n) b h = (h, replicate-IsByte n b h)

module _ (input : Bytes) (m d : ℕ) (h : All IsByte input) (hm : m < 2 ^ 64) (hd : 0 < d)
    (hd' : d < 2 ^ 64) where
  scaled_no_carry :
      ltb 0 (multiply_loop input m).1 ≡ false
      → (be_value input * m < 256 ^ length input)
        × (be_value (divide_loop (multiply_loop input m).0 d 0) ≡ be_value input * m / d)
        × IsArray (length input) (divide_loop (multiply_loop input m).0 d 0)
  scaled_no_carry none_left =
      let (out, carry) = multiply_loop input m in
      let (e, small, size, bytes) = multiply_loop-eq input m h hm in
      let (q, e', small', size', bytes') = divide_loop-eq out d 0 bytes hd hd' in
      let zero_carry : carry ≡ 0 = ground arith in
      let product : be_value out ≡ be_value input * m =
        omega (arith, ap (λ (t : ℕ). t * 256 ^ length input) zero_carry) in
      (
        omega (arith, product, be_value-lt out bytes, ap (λ (t : ℕ). 256 ^ t) size),
        quotient_eq _ d q _ (omega (arith, product, e')) small',
        record { size = size' ∙ size; bytes = bytes' },
      )

  scaled_carry : ltb 0 (multiply_loop input m).1 ≡ true → 256 ^ length input ≤ be_value input * m
  scaled_carry some_left =
      let (out, carry) = multiply_loop input m in
      let (e, small, size, bytes) = multiply_loop-eq input m h hm in
      omega (arith, mul-le-mul_right (256 ^ length input) (ltb→lt 0 carry some_left))

-- For an input of bytes, a 64-bit factor and a positive 64-bit divisor, multiply_divide_target
-- reports overflow exactly if the product does not fit the array; the result is the product divided
-- and rounded down if it fits, and all bytes 255 if not, in an array of the input's size.
pub multiply_divide_target_lem :
    (input : Bytes) (multiply divide : ℕ)
    → All IsByte input
    → multiply < 2 ^ 64
    → 0 < divide
    → divide < 2 ^ 64
    → let (result, overflowed) = multiply_divide_target input multiply divide in
      (((be_value input * multiply < 256 ^ length input)
          × (overflowed ≡ false)
          × (be_value result ≡ be_value input * multiply / divide))
        ⊎ ((256 ^ length input ≤ be_value input * multiply)
            × (overflowed ≡ true)
            × (result ≡ saturated (length input))))
      × IsArray (length input) result
unfolding multiply_divide_target
multiply_divide_target_lem input m d h hm hd hd' =
    elim (Bool-cases (ltb 0 (multiply_loop input m).1)) [
      | inl c ↦
          let wide = scaled_carry input m d h hm hd hd' c in
          let size = (multiply_loop-eq input m h hm).2 in
          rw c (
            inr (wide, refl, ap saturated size),
            record {
              size = length-replicate {A = ℕ} _ 255 ∙ size;
              bytes = replicate-IsByte _ 255 (omega arith);
            },
          )
      | inr c ↦
          let (narrow, quotient, array) = scaled_no_carry input m d h hm hd hd' c in
          rw c (inl (narrow, refl, quotient), array)
    ]
