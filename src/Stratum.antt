-- ===== src/Stratum.antt =====
-- Hexadecimal text: trim and parse_hex of src/stratum_client.cpp, and bytes_to_hex of
-- src/miner.cpp.
pub mod Hex
pub mod Text
pub mod Job
pub mod Network
pub mod Client
pub mod Login
pub mod Submit
use scrig.Base.{
  ℕ, ◌+◌, ◌-◌, ◌*◌, ◌/◌, ◌%◌, Bool, true, false, ◌&&◌, ◌||◌, Option, none, some, [], ◌∷◌, length,
  get_or, leb, ◌==◌, if◌then◌else◌,
}
use scrig.Base.Bytes.{Bytes, codes}
use scrig.Json.Text.{is_space}

-- The loop over `start`.
unfoldable pub trim_start : Bytes → Bytes
trim_start [] = []
trim_start (c ∷ text) = if is_space c then trim_start text else c ∷ text

-- The loop over `end`.
unfoldable pub trim_end : Bytes → Bytes
trim_end [] = []
trim_end (c ∷ text) = elim (trim_end text) [
  | [] ↦ if is_space c then [] else c ∷ []
  | d ∷ rest ↦ c ∷ d ∷ rest
]

unfoldable pub trim : Bytes → Bytes
unfolding trim_start trim_end
trim text = trim_end (trim_start text)

-- `none` is the result -1.
unfoldable pub hex_val : ℕ → Option ℕ
hex_val c =
    if leb b'0' c && leb c b'9'
    then some (c - b'0')
    else if leb b'a' c && leb c b'f'
    then some (c - b'a' + 10)
    else if leb b'A' c && leb c b'F'
    then some (c - b'A' + 10)
    else none

-- clean.substr(2) behind 0x or 0X.
unfoldable pub strip_prefix : Bytes → Bytes
strip_prefix [] = []
strip_prefix (a ∷ []) = a ∷ []
strip_prefix (a ∷ b ∷ rest) = if a == b'0' && (b == b'x' || b == b'X') then rest else a ∷ b ∷ rest

-- The loop over pairs, on a text of even length; `(hi << 4) | lo` joins numbers that share no bit.
unfoldable pub hex_pairs : Bytes → Option Bytes
unfolding hex_val
hex_pairs [] = some []
hex_pairs (a ∷ []) = none
hex_pairs (a ∷ b ∷ rest) = elim (hex_val a) [
  | none ↦ none
  | some hi ↦ elim (hex_val b) [
    | none ↦ none
    | some lo ↦ elim (hex_pairs rest) [ none ↦ none | some out ↦ some ((hi * 16 + lo) ∷ out) ]
  ]
]

-- `none` is the result false.
unfoldable pub parse_hex : Bytes → Option Bytes
unfolding trim strip_prefix hex_pairs
parse_hex hex =
    let clean = strip_prefix (trim hex) in if length clean % 2 == 0 then hex_pairs clean else none

-- kHex[digit]
unfoldable pub hex_char : ℕ → ℕ
hex_char digit = get_or (codes "0123456789abcdef") digit 0

unfoldable pub bytes_to_hex : Bytes → Bytes
unfolding hex_char
bytes_to_hex [] = []
bytes_to_hex (b ∷ bytes) = hex_char (b / 16 % 16) ∷ hex_char (b % 16) ∷ bytes_to_hex bytes
