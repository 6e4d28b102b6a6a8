-- ===== src/Stratum/Hex.antt =====
-- parse_hex of src/stratum_client.cpp behind bytes_to_hex of src/miner.cpp.
use scrig.Base.{
  ℕ, ◌+◌, ◌-◌, ◌*◌, ◌/◌, ◌%◌, ◌<◌, true, false, some, [], ◌∷◌, length, All, ltb, ◌==◌, ==→eq,
  holds_below, holds_below_sound, if◌then◌else◌, ◌≡◌, ◌≢◌, refl, arith,
}
use scrig.Base.Bytes.{Bytes, IsByte}
use scrig.Json.Text.{is_space}
use scrig.Stratum.{
  trim_start, trim_end, trim, hex_val, strip_prefix, hex_pairs, parse_hex, hex_char, bytes_to_hex,
}

abbrev hex_code : ℕ → ℕ
hex_code d = if ltb d 10 then b'0' + d else b'a' - 10 + d

hex_table : holds_below (λ d. hex_char d == hex_code d) 16 ≡ true
unfolding holds_below hex_char
hex_table = refl

hex_char-eq : (d : ℕ) → d < 16 → hex_char d ≡ hex_code d
hex_char-eq d h = ==→eq _ _ (holds_below_sound (λ d. hex_char d == hex_code d) 16 d h hex_table)

hex_val-hex_char : (d : ℕ) → d < 16 → hex_val (hex_char d) ≡ some d
unfolding hex_val
hex_val-hex_char d h = rw (hex_char-eq d h) (ground arith)

-- No space, and no letter x.
abbrev IsHexLike : ℕ → Type 0
IsHexLike c = (32 < c) × (c ≢ b'x') × (c ≢ b'X')

hex_char-IsHexLike : (d : ℕ) → d < 16 → IsHexLike (hex_char d)
hex_char-IsHexLike d h = rw (hex_char-eq d h) (ground arith, ground arith, ground arith)

bytes_to_hex-IsHexLike : (bytes : Bytes) → All IsHexLike (bytes_to_hex bytes)
unfolding bytes_to_hex
bytes_to_hex-IsHexLike [] = tt
bytes_to_hex-IsHexLike (b ∷ bytes) = (
  hex_char-IsHexLike (b / 16 % 16) (omega arith),
  (hex_char-IsHexLike (b % 16) (omega arith), bytes_to_hex-IsHexLike bytes),
)

is_space-IsHexLike : (c : ℕ) → IsHexLike c → is_space c ≡ false
is_space-IsHexLike c h = ground arith

trim_end_lem : (text : Bytes) → All IsHexLike text → trim_end text ≡ text
unfolding trim_end
trim_end_lem [] h = refl
trim_end_lem (c ∷ []) (hc, h) = rw (is_space-IsHexLike c hc) refl
trim_end_lem (c ∷ d ∷ text) (hc, h) = rw (trim_end_lem (d ∷ text) h, trim_end) refl

trim_lem : (text : Bytes) → All IsHexLike text → trim text ≡ text
unfolding trim trim_start
trim_lem [] h = trim_end_lem [] h
trim_lem (c ∷ text) (hc, h) = rw (is_space-IsHexLike c hc) (trim_end_lem (c ∷ text) (hc, h))

strip_prefix_lem : (text : Bytes) → All IsHexLike text → strip_prefix text ≡ text
unfolding strip_prefix
strip_prefix_lem [] h = refl
strip_prefix_lem (a ∷ []) h = refl
strip_prefix_lem (a ∷ b ∷ text) (ha, (hb, h)) = ground (arith, hb)

length-bytes_to_hex : (bytes : Bytes) → length (bytes_to_hex bytes) ≡ length bytes * 2
unfolding bytes_to_hex
length-bytes_to_hex [] = refl
length-bytes_to_hex (b ∷ bytes) = omega (arith, length-bytes_to_hex bytes)

hex_pairs-bytes_to_hex :
    (bytes : Bytes) → All IsByte bytes → hex_pairs (bytes_to_hex bytes) ≡ some bytes
unfolding hex_pairs bytes_to_hex
hex_pairs-bytes_to_hex [] h = refl
hex_pairs-bytes_to_hex (b ∷ bytes) (hb, hs) =
    let hi = hex_val-hex_char (b / 16 % 16) (omega arith) in
    let lo = hex_val-hex_char (b % 16) (omega arith) in
    let whole : b / 16 % 16 * 16 + b % 16 ≡ b = omega arith in
    rw (hi, hex_pairs) (rw (lo, hex_pairs) (rw (hex_pairs-bytes_to_hex bytes hs, whole) refl))

-- parse_hex reads back every byte string from the text that bytes_to_hex writes.
pub parse_hex-bytes_to_hex :
    (bytes : Bytes) → All IsByte bytes → parse_hex (bytes_to_hex bytes) ≡ some bytes
unfolding parse_hex
parse_hex-bytes_to_hex bytes h =
    let like = bytes_to_hex-IsHexLike bytes in
    let text = bytes_to_hex bytes in
    let even : (length text % 2 == 0) ≡ true = ground (arith, length-bytes_to_hex bytes) in
    rw (trim_lem text like)
      (rw (strip_prefix_lem text like) (rw even (hex_pairs-bytes_to_hex bytes h)))
