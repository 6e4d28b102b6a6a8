-- ===== src/Base36/Value.antt =====
-- The arithmetic of the base-36 loops of src/types.cpp on the numbers that byte strings spell.
use native.Mathlib.Nat.{pow-suc, mod-add-div, mul-le-mul_right, pow-le-pow_right}
use native.Mathlib.Decide.{dec_lt}
use scrig.Base.{
  ℕ, suc, ◌+◌, ◌*◌, ◌/◌, ◌%◌, ◌^◌, ◌<◌, ◌≤◌, [], ◌∷◌, length, All, All-append, ltb, ◌==◌, ◌≡◌, refl,
  ap, ◌∙◌, arith, Bool-cases, inl, inr,
}
use scrig.Base.Bytes.{Bytes, IsByte, be_value, be_value-append}
use scrig.Base36.{strip_zeros, push_quotient, divide_36, multiply_36, insert_carry, push_digit}

-- A byte string with no leading zero.
abbrev pub IsTrimmed : Bytes → Type 0
IsTrimmed [] = Unit
IsTrimmed (b ∷ bs) = 0 < b

pub strip_zeros-IsTrimmed : (bs : Bytes) → IsTrimmed (strip_zeros bs)
unfolding strip_zeros
strip_zeros-IsTrimmed [] = tt
strip_zeros-IsTrimmed (b ∷ bs) = elim (Bool-cases (b == 0)) [
  | inl h ↦ rw h (strip_zeros-IsTrimmed bs)
  | inr h ↦ rw h (ground arith)
]

pub strip_zeros-All : (bs : Bytes) → All IsByte bs → All IsByte (strip_zeros bs)
unfolding strip_zeros
strip_zeros-All [] h = tt
strip_zeros-All (b ∷ bs) (hb, hs) = elim (Bool-cases (b == 0)) [
  | inl h ↦ rw h (strip_zeros-All bs hs)
  | inr h ↦ rw h (hb, hs)
]

pub be_value-strip_zeros : (bs : Bytes) → be_value (strip_zeros bs) ≡ be_value bs
unfolding strip_zeros be_value
be_value-strip_zeros [] = refl
be_value-strip_zeros (b ∷ bs) = elim (Bool-cases (b == 0)) [
  | inl h ↦
      let zero_byte : b ≡ 0 = ground arith in
      rw h (omega (arith, be_value-strip_zeros bs, ap (λ (t : ℕ). t * 256 ^ length bs) zero_byte))
  | inr h ↦ rw h refl
]

-- A trimmed string is as short as its number allows.
pub trimmed-le : (bs : Bytes) (n : ℕ) → IsTrimmed bs → be_value bs < 256 ^ n → length bs ≤ n
unfolding be_value
trimmed-le [] n t h = omega arith
trimmed-le (b ∷ bs) n t h = elim (dec_lt (length bs) n) [
  | yes short ↦ short
  | no long ↦ absurd (
      omega (
        arith,
        h,
        mul-le-mul_right (256 ^ length bs) t,
        pow-le-pow_right {n = 256} (omega arith) {i = n} {j = length bs} (omega arith),
      ))
]

push_quotient-eq :
    (quotient : Bytes) (q : ℕ)
    → All IsByte quotient
    → IsTrimmed quotient
    → q < 256
    → (be_value (push_quotient quotient q) ≡ be_value quotient * 256 + q)
      × All IsByte (push_quotient quotient q)
      × IsTrimmed (push_quotient quotient q)
unfolding push_quotient be_value
push_quotient-eq [] q h t hq = elim (Bool-cases (q == 0)) [
  | inl e ↦ rw e (ground arith, tt, tt)
  | inr e ↦ rw e (omega arith, (hq, tt), ground arith)
]
push_quotient-eq (b ∷ bs) q h t hq = (
  omega (arith, be_value-append (b ∷ bs) (q ∷ [])),
  All-append IsByte (b ∷ bs) (q ∷ []) h (hq, tt),
  t,
)

-- The loop of the division, for a quotient so far and a remainder.
pub divide_36-eq :
    (bs : Bytes) (r : ℕ) (q : Bytes)
    → All IsByte bs
    → All IsByte q
    → IsTrimmed q
    → r < 36
    → let (quotient, remainder) = divide_36 bs r q in
      (be_value quotient * 36 + remainder ≡ (be_value q * 36 + r) * 256 ^ length bs + be_value bs)
      × (remainder < 36)
      × All IsByte quotient
      × IsTrimmed quotient
unfolding divide_36 be_value
divide_36-eq [] r q hb hq t hr = (omega arith, hr, hq, t)
divide_36-eq (b ∷ bs) r q (hb, hs) hq t hr =
    let acc = r * 256 + b in
    let digit : acc / 36 < 256 = omega arith in
    let (e, bytes, trimmed) = push_quotient-eq q (acc / 36 % 256) hq t (omega arith) in
    let (e', small, bytes', trimmed') =
      divide_36-eq bs (acc % 36) (push_quotient q (acc / 36 % 256)) hs bytes trimmed
        (omega arith) in
    let whole : acc / 36 % 256 * 36 + acc % 36 ≡ r * 256 + b = omega arith in
    (
      e'
          ∙ rw (e, pow-suc 256 (length bs))
              (omega (arith, ap (λ (t : ℕ). t * 256 ^ length bs) whole)),
      small,
      bytes',
      trimmed',
    )

pub multiply_36-eq :
    (bs : Bytes) (c : ℕ)
    → All IsByte bs
    → c < 256
    → let (out, carry) = multiply_36 bs c in
      (carry * 256 ^ length bs + be_value out ≡ be_value bs * 36 + c)
      × (carry < 256)
      × (length out ≡ length bs)
      × All IsByte out
unfolding multiply_36 be_value
multiply_36-eq [] c h hc = (omega arith, hc, refl, tt)
multiply_36-eq (b ∷ bs) c (hb, hs) hc =
    let (out, carry) = multiply_36 bs c in
    let (e, small, size, bytes) = multiply_36-eq bs c hs hc in
    (
      rw (size, pow-suc 256 (length bs))
          (omega
            (arith, e, ap (λ (t : ℕ). t * 256 ^ length bs) (mod-add-div (b * 36 + carry) 256))),
      omega arith,
      ap suc size,
      (omega arith, bytes),
    )

pub push_digit-eq :
    (value : Bytes) (digit : ℕ)
    → All IsByte value
    → digit < 36
    → (be_value (push_digit value digit) ≡ be_value value * 36 + digit)
      × All IsByte (push_digit value digit)
unfolding push_digit insert_carry be_value
push_digit-eq value digit h hd =
    let (out, carry) = multiply_36 value digit in
    let (e, small, size, bytes) = multiply_36-eq value digit h (omega arith) in
    elim (Bool-cases (ltb 0 carry)) [
      | inl some_left ↦
          let gone : carry / 256 ≡ 0 = omega arith in
          let byte : carry % 256 ≡ carry = omega arith in
          rw some_left (
            rw gone (
              omega (
                arith,
                e,
                ap (λ (t : ℕ). carry % 256 * 256 ^ t) size,
                ap (λ (t : ℕ). t * 256 ^ length value) byte,
              ),
              (omega arith, bytes),
            ))
      | inr none_left ↦
          let empty : carry ≡ 0 = ground arith in
          rw none_left (omega (arith, e, ap (λ (t : ℕ). t * 256 ^ length value) empty), bytes)
    ]
