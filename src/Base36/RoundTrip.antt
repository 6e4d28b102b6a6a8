-- ===== src/Base36/RoundTrip.antt =====
-- encode_base36 of src/types.cpp, and decode_base36 behind it.
use mathlib.Core.Option
use mathlib.Core.List.{reverse-cons}
use native.Mathlib.Nat.{pow-suc, mul-le-mul_right, pow-le-pow_right}
use scrig.Base.{
  ℕ, zero, suc, ◌+◌, ◌*◌, ◌^◌, ◌<◌, ◌≤◌, some, [], ◌∷◌, ◌++◌, length, reverse, All, Option-cases,
  ◌≡◌, refl, subst, sym, ap, ◌∙◌, arith, inl, inr, append-nil, append_assoc,
}
use scrig.Base.Bytes.{Bytes, IsByte, IsArray, codes, be_value, be_value-lt, be_value-injective}
use scrig.Base.Fault.{ok}
use scrig.Base36.{
  base36_digit, strip_zeros, divide_36, digit_char, encode_loop, encode_base36, decode_base36,
}
use scrig.Base36.Value.{
  IsTrimmed, strip_zeros-IsTrimmed, strip_zeros-All, be_value-strip_zeros, divide_36-eq,
}
use scrig.Base36.Decode.{
  text_value, text_value-digit, text_value-invalid, base36_digit-digit_char, Decoded,
  decode_base36_lem,
}

text_value-push :
    (text : Bytes) (acc c d v : ℕ)
    → base36_digit c ≡ some d
    → text_value acc text ≡ some v
    → text_value acc (text ++ c ∷ []) ≡ some (v * 36 + d)
text_value-push [] acc c d v digit e =
    text_value-digit c d digit acc [] ∙ unfold text_value in ground arith
text_value-push (a ∷ text) acc c d v digit e = elim (Option-cases (base36_digit a)) [
  | inl bad ↦ absurd (cc (text_value-invalid a bad acc text, e))
  | inr (da, good) ↦
      text_value-digit a da good acc (text ++ c ∷ [])
      ∙ text_value-push text (acc * 36 + da) c d v digit
          (sym (text_value-digit a da good acc text) ∙ e)
]

pow-pos : (n : ℕ) → 0 < 256 ^ n
pow-pos n = pow-le-pow_right {n = 256} (omega arith) {i = 0} {j = n} (omega arith)

be_value-pos : (b : ℕ) (bs : Bytes) → 0 < b → 0 < be_value (b ∷ bs)
unfolding be_value
be_value-pos b bs h = omega (arith, mul-le-mul_right (256 ^ length bs) h, pow-pos (length bs))

not_empty :
    (text : Bytes) (v : ℕ)
    → text_value 0 text ≡ some v
    → 0 < v
    → (c : ℕ) × (rest : Bytes) × (text ≡ c ∷ rest)
unfolding text_value
not_empty [] v e h = absurd (ground arith)
not_empty (c ∷ rest) v e h = (c, rest, refl)

-- The remainder that a round finds is the next digit of the number.
encode_loop_value :
    (fuel : ℕ) (value out : Bytes)
    → All IsByte value
    → IsTrimmed value
    → be_value value < 36 ^ fuel
    → (text : Bytes) × (encode_loop fuel value out ≡ some (out ++ text))
      × (text_value 0 (reverse text) ≡ some (be_value value))
unfolding encode_loop
encode_loop_value fuel [] out h t small =
    ([], ap some (sym (append-nil out)), unfold text_value be_value in refl)
encode_loop_value zero (b ∷ bs) out h t small = absurd (omega (arith, be_value-pos b bs t))
encode_loop_value (suc fuel) (b ∷ bs) out h t small =
    let (quotient, remainder) = divide_36 (b ∷ bs) 0 [] in
    let (e, digit, bytes, trimmed) = divide_36-eq (b ∷ bs) 0 [] h tt tt (omega arith) in
    let whole : be_value quotient * 36 + remainder ≡ be_value (b ∷ bs) =
      e ∙ unfold be_value in omega arith in
    let (text, run, value) =
      encode_loop_value fuel quotient (out ++ digit_char remainder ∷ []) bytes trimmed
        (omega (arith, whole, small, pow-suc 36 fuel)) in
    (
      digit_char remainder ∷ text,
      run ∙ ap some (append_assoc out (digit_char remainder ∷ []) text),
      ap (text_value 0) (reverse-cons (digit_char remainder) text)
          ∙ text_value-push (reverse text) 0 (digit_char remainder) remainder (be_value quotient)
              (base36_digit-digit_char remainder digit) value
          ∙ ap some whole,
    )

bytes-digits : (n : ℕ) → 256 ^ n ≤ 36 ^ (2 * n)
bytes-digits zero = omega arith
bytes-digits (suc n) =
    let two : 2 * suc n ≡ suc (suc (2 * n)) = omega arith in
    rw two
      (omega (arith, bytes-digits n, pow-suc 256 n, pow-suc 36 (2 * n), pow-suc 36 (suc (2 * n))))

trimmed_value :
    (value : Bytes)
    → All IsByte value
    → IsTrimmed value
    → (c : ℕ) × (text : Bytes) × ((let text =
            Option.map reverse (encode_loop (2 * length value) value []) in
          elim value [ [] ↦ some (codes "0") | _ ∷ _ ↦ text ])
        ≡ some (c ∷ text))
      × (text_value 0 (c ∷ text) ≡ some (be_value value))
trimmed_value [] h t = (b'0', [], refl, unfold text_value base36_digit be_value in refl)
trimmed_value (b ∷ bs) h t =
    let (text, run, value) =
      encode_loop_value (2 * length (b ∷ bs)) (b ∷ bs) [] h t
        (omega (arith, be_value-lt (b ∷ bs) h, bytes-digits (length (b ∷ bs)))) in
    let (c, rest, same) =
      not_empty (reverse text) (be_value (b ∷ bs)) value (be_value-pos b bs t) in
    (c, rest, rw run (ap some same), ap (text_value 0) (sym same) ∙ value)

-- Leading zeros do not count, and an array of zeros is the text "0".
encode_base36_value :
    (bs : Bytes)
    → All IsByte bs
    → (c : ℕ) × (text : Bytes) × (encode_base36 bs ≡ some (c ∷ text))
      × (text_value 0 (c ∷ text) ≡ some (be_value bs))
unfolding encode_base36
encode_base36_value bs h =
    let (c, text, run, value) =
      trimmed_value (strip_zeros bs) (strip_zeros-All bs h) (strip_zeros-IsTrimmed bs) in
    (c, text, run, value ∙ ap some (be_value-strip_zeros bs))

-- Every array of bytes has a text in base 36, and decode_base36 reads the array back from it.
pub decode_base36-encode_base36 :
    (n : ℕ) (bs : Bytes)
    → IsArray n bs
    → (text : Bytes) × (encode_base36 bs ≡ some text) × (decode_base36 n text ≡ ok bs)
unfolding Decoded
decode_base36-encode_base36 n bs h =
    let (c, text, run, value) = encode_base36_value bs h.bytes in
    let size : length bs ≡ n = h.size in
    let decoded : Decoded n (c ∷ text) (some (be_value bs)) =
      subst (Decoded n (c ∷ text)) value (decode_base36_lem n c text) in
    elim decoded [
      | inl (wide, _) ↦ absurd (omega (arith, be_value-lt bs h.bytes, ap (λ (t : ℕ). 256 ^ t) size))
      | inr (_, (out, back, same, array)) ↦ (
        c ∷ text,
        run,
        back ∙ ap ok (be_value-injective out bs array.bytes h.bytes (array.size ∙ sym size) same),
      )
    ]
