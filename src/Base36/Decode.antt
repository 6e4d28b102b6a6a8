-- ===== src/Base36/Decode.antt =====
-- decode_base36 of src/types.cpp, read as arithmetic in base 36.
use native.Mathlib.Nat.{pow-le-pow_right}
use native.Mathlib.Decide.{dec_lt}
use scrig.Base.{
  ℕ, zero, suc, ◌+◌, ◌-◌, ◌*◌, ◌^◌, ◌<◌, ◌≤◌, true, Option, none, some, [], ◌∷◌, ◌++◌, length,
  length-append, replicate, length-replicate, All, All-append, ltb, ◌==◌, ==→eq, holds_below,
  holds_below_sound, Option-cases, lt→ltb, le→ltb, if◌then◌else◌, ◌⊎◌, ◌≡◌, refl, sym, ap, ◌∙◌,
  arith, inl, inr,
}
use scrig.Base.Bytes.{Bytes, IsByte, IsArray, be_value, be_value-lt, be_value-cons}
use scrig.Base.Fault.{ok, throw, runtime_error}
use scrig.Base36.{base36_digit, digit_char, strip_zeros, push_digit, decode_loop, decode_base36}
use scrig.Base36.Value.{
  strip_zeros-IsTrimmed, strip_zeros-All, be_value-strip_zeros, trimmed-le, push_digit-eq,
}

-- The number that a text spells behind `acc`, in base 36; `none` at a character that is no digit.
unfoldable pub text_value : (acc : ℕ) → Bytes → Option ℕ
text_value acc [] = some acc
text_value acc (c ∷ text) = elim (base36_digit c) [
  | none ↦ none
  | some digit ↦ text_value (acc * 36 + digit) text
]

pub base36_digit-lt : (c d : ℕ) → base36_digit c ≡ some d → d < 36
unfolding base36_digit
base36_digit-lt c d h = ground arith

abbrev digit_code : ℕ → ℕ
digit_code d = if ltb d 10 then b'0' + d else b'a' - 10 + d

digit_table : holds_below (λ d. digit_char d == digit_code d) 36 ≡ true
unfolding holds_below digit_char
digit_table = refl

pub base36_digit-digit_char : (d : ℕ) → d < 36 → base36_digit (digit_char d) ≡ some d
unfolding base36_digit
base36_digit-digit_char d h =
    rw (==→eq _ _ (holds_below_sound (λ d. digit_char d == digit_code d) 36 d h digit_table))
      (ground arith)

module _ (c d : ℕ) (good : base36_digit c ≡ some d) where
  pub text_value-digit :
      (acc : ℕ) (text : Bytes) → text_value acc (c ∷ text) ≡ text_value (acc * 36 + d) text
  unfolding text_value
  text_value-digit acc text = rw (good, text_value)

  decode_loop-digit :
      (text value : Bytes) → decode_loop (c ∷ text) value ≡ decode_loop text (push_digit value d)
  unfolding decode_loop
  decode_loop-digit text value = rw (good, decode_loop)

module _ (c : ℕ) (bad : base36_digit c ≡ none) where
  pub text_value-invalid : (acc : ℕ) (text : Bytes) → text_value acc (c ∷ text) ≡ none
  unfolding text_value
  text_value-invalid acc text = rw (bad, text_value)

  decode_loop-invalid :
      (text value : Bytes)
      → decode_loop (c ∷ text) value ≡ throw (runtime_error "invalid base36 character")
  unfolding decode_loop
  decode_loop-invalid text value = rw (bad, decode_loop)

-- decode_loop follows the number: it fails where the text has no value, and else its bytes spell it.
decode_loop_value :
    (text value : Bytes) (n : ℕ)
    → All IsByte value
    → text_value (be_value value) text ≡ some n
    → (out : Bytes) × (decode_loop text value ≡ ok out) × (be_value out ≡ n) × All IsByte out
decode_loop_value [] value n h e =
    (value, unfold decode_loop in refl, unfold text_value in ground arith, h)
decode_loop_value (c ∷ text) value n h e = elim (Option-cases (base36_digit c)) [
  | inl bad ↦ cc (text_value-invalid c bad (be_value value) text)
  | inr (d, good) ↦
      let (pushed, bytes) = push_digit-eq value d h (base36_digit-lt c d good) in
      let (out, run, same, ok_bytes) = decode_loop_value text (push_digit value d) n bytes (
        ap (λ v. text_value v text) pushed
        ∙ sym (text_value-digit c d good (be_value value) text)
        ∙ e) in
      (out, decode_loop-digit c d good text value ∙ run, same, ok_bytes)
]

-- A text with a character that is no digit makes decode_loop throw.
decode_loop_invalid :
    (text value : Bytes) (acc : ℕ)
    → text_value acc text ≡ none
    → decode_loop text value ≡ throw (runtime_error "invalid base36 character")
decode_loop_invalid [] value acc e = unfold text_value in cc e
decode_loop_invalid (c ∷ text) value acc e = elim (Option-cases (base36_digit c)) [
  | inl bad ↦ decode_loop-invalid c bad text value
  | inr (d, good) ↦
      decode_loop-digit c d good text value
      ∙ decode_loop_invalid text (push_digit value d) (acc * 36 + d)
          (sym (text_value-digit c d good acc text) ∙ e)
]

pub zeros-be_value : (k : ℕ) (bs : Bytes) → be_value (replicate k 0 ++ bs) ≡ be_value bs
zeros-be_value zero bs = refl
zeros-be_value (suc k) bs =
    be_value-cons 0 (replicate k 0 ++ bs) ∙ omega (arith, zeros-be_value k bs)

zeros-IsByte : (k : ℕ) → All IsByte (replicate k 0)
zeros-IsByte zero = tt
zeros-IsByte (suc k) = (omega arith, zeros-IsByte k)

pub padded-IsArray :
    (n : ℕ) (bs : Bytes)
    → length bs ≤ n
    → All IsByte bs
    → IsArray n (replicate (n - length bs) 0 ++ bs)
padded-IsArray n bs h b = record {
  size = omega (
    arith,
    length-append (replicate (n - length bs) 0) bs,
    length-replicate {A = ℕ} (n - length bs) 0,
  );
  bytes = All-append IsByte (replicate (n - length bs) 0) bs (zeros-IsByte (n - length bs)) b;
}

long : (n : ℕ) (bs : Bytes) (v : ℕ) → be_value bs ≡ v → All IsByte bs → 256 ^ n ≤ v → n < length bs
long n bs v e h wide = elim (dec_lt n (length bs)) [
  | yes above ↦ above
  | no below ↦ absurd (
      omega (
        arith,
        be_value-lt bs h,
        pow-le-pow_right {n = 256} (omega arith) {i = length bs} {j = n} (omega arith),
      ))
]

-- What decode_base36 makes of a text: an error for an empty text, for a character that is no digit
-- and for a number of more than `n` bytes, and else the array of `n` bytes that spells the number.
unfoldable pub Decoded : (n : ℕ) → Bytes → Option ℕ → Type 0
Decoded n text none = decode_base36 n text ≡ throw (runtime_error "invalid base36 character")
Decoded n text (some v) =
    ((256 ^ n ≤ v) × (decode_base36 n text ≡ throw (runtime_error "base36 value is too large")))
    ⊎ ((v < 256 ^ n)
        × ((out : Bytes) × (decode_base36 n text ≡ ok out) × (be_value out ≡ v) × IsArray n out))

-- For every size n and every text that is not empty, decode_base36 throws the error of an invalid
-- character if the text has one; else it throws the error of a value too large if the number that
-- the text spells in base 36 is at least 256 ^ n, and otherwise gives the n bytes that spell that
-- number in base 256.
pub decode_base36_lem : (n c : ℕ) (text : Bytes) → Decoded n (c ∷ text) (text_value 0 (c ∷ text))
unfolding decode_base36 Decoded
decode_base36_lem n c text = elim (Option-cases (text_value 0 (c ∷ text))) [
  | inl bad ↦ rw bad (rw (decode_loop_invalid (c ∷ text) (0 ∷ []) 0 bad))
  | inr (v, good) ↦
      let start : be_value (0 ∷ []) ≡ 0 = be_value-cons 0 [] ∙ unfold be_value in omega arith in
      let (out, run, same, bytes) =
        decode_loop_value (c ∷ text) (0 ∷ []) v (omega arith, tt)
          (ap (λ a. text_value a (c ∷ text)) start ∙ good) in
      let short = strip_zeros out in
      let value : be_value short ≡ v = be_value-strip_zeros out ∙ same in
      let small = strip_zeros-All out bytes in
      rw (good, run)
        (elim (dec_lt v (256 ^ n)) [
          | no above ↦
              let wide : 256 ^ n ≤ v = omega arith in
              inl (wide, rw (lt→ltb n (length short) (long n short v value small wide)) refl)
          | yes fits ↦
              let size = trimmed-le short n (strip_zeros-IsTrimmed out) (omega (arith, value)) in
              inr (
                fits,
                (
                  replicate (n - length short) 0 ++ short,
                  rw (le→ltb n (length short) size) refl,
                  zeros-be_value (n - length short) short ∙ value,
                  padded-IsArray n short size small,
                ),
              )
        ])
]
