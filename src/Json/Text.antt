-- ===== src/Json/Text.antt =====
-- The lexical level of src/json.cpp: the parser's cursor, string literals both ways, and decimal
-- numbers.
use Prim.Native.String.{String}
use scrig.Base.{
  ℕ, zero, suc, ◌+◌, ◌/◌, ◌%◌, Bool, true, false, ◌&&◌, ◌||◌, [], ◌∷◌, ◌++◌, leb, ltb, ◌==◌, get_or,
  drop, if◌then◌else◌,
}
use scrig.Base.Bytes.{Bytes, codes}
use scrig.Base.Fault.{Error, Result, ok, throw, json_error_at, ◌>>=◌}

-- `pos_`, and the text from there on.
pub record Cursor : Type 0 where
  pub pos : ℕ
  pub rest : Bytes

-- Parser::error
abbrev pub error_at : Cursor → String → Error
error_at cursor message = json_error_at message cursor.pos

-- The character 0 at the end.
unfoldable pub peek : Cursor → ℕ
peek cursor = elim cursor.rest [ [] ↦ 0 | c ∷ _ ↦ c ]

-- ++pos_
unfoldable pub advance : Cursor → Cursor
advance cursor = record { pos = cursor.pos + 1; rest = drop 1 cursor.rest }

unfoldable pub next : Cursor → Result (ℕ × Cursor)
next cursor = elim cursor.rest [
  | [] ↦ throw (error_at cursor "unexpected end of input")
  | c ∷ rest ↦ ok (c, record { pos = cursor.pos + 1; rest = rest })
]

-- std::isspace, std::isdigit and std::isxdigit in the C locale.
abbrev pub is_space : ℕ → Bool
is_space c = leb 9 c && leb c 13 || c == 32

abbrev pub is_digit : ℕ → Bool
is_digit c = leb b'0' c && leb c b'9'

abbrev pub is_xdigit : ℕ → Bool
is_xdigit c = is_digit c || leb b'a' c && leb c b'f' || leb b'A' c && leb c b'F'

-- while (!eof() && test(text_[pos_])) ++pos_
unfoldable pub skip_while : (ℕ → Bool) → (pos : ℕ) → Bytes → Cursor
skip_while test pos [] = record { pos = pos; rest = [] }
skip_while test pos (c ∷ rest) =
    if test c then skip_while test (pos + 1) rest else record { pos = pos; rest = c ∷ rest }

unfoldable pub skip_ws : Cursor → Cursor
unfolding skip_while
skip_ws cursor = skip_while is_space cursor.pos cursor.rest

unfoldable pub parse_literal : (lit : Bytes) → Cursor → Result Cursor
unfolding next
parse_literal [] cursor = ok cursor
parse_literal (l ∷ lit) cursor = do
  (c, cursor) ← next cursor
  if c == l then parse_literal lit cursor else throw (error_at cursor "invalid literal")

-- Where the loop of parse_string stands: between characters, behind a backslash, or in the digits
-- of an escape `u`.
pub data StringMode : Type 0 where
  plain : StringMode
  escaped : StringMode
  unicode : (left : ℕ) → StringMode

-- What an escape stands for, but `u`; 0 is an escape that the switch does not know.
unfoldable pub unescape : ℕ → ℕ
unescape esc =
    if esc == b'"' || esc == 0x5c || esc == b'/'
    then esc
    else if esc == b'b'
    then 8
    else if esc == b'f'
    then 12
    else if esc == b'n'
    then 10
    else if esc == b'r'
    then 13
    else if esc == b't'
    then 9
    else 0

unfoldable pub string_loop :
    StringMode → (pos : ℕ) → Bytes → (out : Bytes) → Result (Bytes × Cursor)
unfolding unescape
string_loop plain pos [] out = throw (json_error_at "unterminated string" pos)
string_loop escaped pos [] out = throw (json_error_at "unexpected end of input" pos)
string_loop (unicode left) pos [] out = throw (json_error_at "unexpected end of input" pos)
string_loop plain pos (c ∷ rest) out = elim (c == b'"') [
  | true ↦ ok (out, record { pos = pos + 1; rest = rest })
  | false ↦ elim (c == 0x5c) [
    | true ↦ string_loop escaped (pos + 1) rest out
    | false ↦ string_loop plain (pos + 1) rest (out ++ c ∷ [])
  ]
]
string_loop escaped pos (esc ∷ rest) out = elim (esc == b'u') [
  | true ↦ string_loop (unicode 3) (pos + 1) rest (out ++ 0x5c ∷ b'u' ∷ [])
  | false ↦ elim (unescape esc == 0) [
    | true ↦ throw (json_error_at "invalid string escape" (pos + 1))
    | false ↦ string_loop plain (pos + 1) rest (out ++ unescape esc ∷ [])
  ]
]
string_loop (unicode zero) pos (h ∷ rest) out = elim (is_xdigit h) [
  | true ↦ string_loop plain (pos + 1) rest (out ++ h ∷ [])
  | false ↦ throw (json_error_at "invalid unicode escape" (pos + 1))
]
string_loop (unicode (suc left)) pos (h ∷ rest) out = elim (is_xdigit h) [
  | true ↦ string_loop (unicode left) (pos + 1) rest (out ++ h ∷ [])
  | false ↦ throw (json_error_at "invalid unicode escape" (pos + 1))
]

unfoldable pub parse_string : Cursor → Result (Bytes × Cursor)
unfolding next string_loop
parse_string cursor = do
  (c, cursor) ← next cursor
  if c == b'"'
      then string_loop plain cursor.pos cursor.rest []
      else throw (error_at cursor "expected string")

-- The text of one character in a string literal.
unfoldable pub escape_char : ℕ → Bytes
escape_char c =
    if c == b'"'
    then 0x5c ∷ b'"' ∷ []
    else if c == 0x5c
    then 0x5c ∷ 0x5c ∷ []
    else if c == 8
    then 0x5c ∷ b'b' ∷ []
    else if c == 12
    then 0x5c ∷ b'f' ∷ []
    else if c == 10
    then 0x5c ∷ b'n' ∷ []
    else if c == 13
    then 0x5c ∷ b'r' ∷ []
    else if c == 9
    then 0x5c ∷ b't' ∷ []
    else if ltb c 0x20
    then 0x5c
      ∷ b'u'
      ∷ b'0'
      ∷ b'0'
      ∷ (b'0' + c / 16)
      ∷ get_or (codes "0123456789ABCDEF") (c % 16) 0
      ∷ []
    else c ∷ []

unfoldable pub escape_loop : Bytes → Bytes
unfolding escape_char
escape_loop [] = b'"' ∷ []
escape_loop (c ∷ text) = escape_char c ++ escape_loop text

-- What is appended to `out`.
unfoldable pub escape_string : Bytes → Bytes
unfolding escape_loop
escape_string text = b'"' ∷ escape_loop text

-- std::to_string of a uint64_t, which has at most 20 digits.
unfoldable pub decimal_loop : (rounds : ℕ) → ℕ → (out : Bytes) → Bytes
decimal_loop zero n out = out
decimal_loop (suc rounds) n out =
    let digit = b'0' + n % 10 in
    elim (ltb n 10) [ true ↦ digit ∷ out | false ↦ decimal_loop rounds (n / 10) (digit ∷ out) ]

unfoldable pub decimal : ℕ → Bytes
unfolding decimal_loop
decimal n = decimal_loop 20 n []
