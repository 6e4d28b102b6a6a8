-- ===== src/Json/Parser.antt =====
-- class Parser of src/json.cpp: numbers, arrays, objects and whole texts.
use Prim.Native.String.{String}
use scrig.Base.{
  ℕ, zero, suc, ◌+◌, ◌-◌, ◌*◌, ◌^◌, Bool, true, false, ◌||◌, none, some, [], ◌∷◌, foldl, leb, ltb,
  ◌==◌, length, take, if◌then◌else◌,
}
use scrig.Base.Bytes.{Bytes, codes}
use scrig.Base.Fault.{Result, ok, throw, rounds_exhausted, ◌>>=◌}
use scrig.Types.Equality.{lexicographical_compare}
use scrig.Json.{
  ℤ, pos, negsuc, Doubles, JsonValue, null, bool, int64, uint64, double, string, array, object,
  JsonArray, nil, cons, JsonObject, empty, field, find_field,
}
use scrig.Json.Text.{
  Cursor, error_at, peek, advance, next, is_digit, skip_while, skip_ws, parse_literal, parse_string,
}

unfoldable pub skip_digits : Cursor → Cursor
unfolding skip_while
skip_digits cursor = skip_while is_digit cursor.pos cursor.rest

-- One digit at least, and those behind it.
unfoldable pub some_digits : Cursor → Result Cursor
unfolding skip_digits peek
some_digits cursor =
    if is_digit (peek cursor)
    then ok (skip_digits cursor)
    else throw (error_at cursor "invalid number")

-- The integer part: a single 0, or digits.
unfoldable pub integer_part : Cursor → Result Cursor
unfolding peek advance some_digits
integer_part cursor = if peek cursor == b'0' then ok (advance cursor) else some_digits cursor

-- A fraction, if a point follows, and whether it does.
unfoldable pub fraction : Cursor → Result (Bool × Cursor)
unfolding peek advance some_digits
fraction cursor =
    if peek cursor == b'.'
    then (do cursor ← some_digits (advance cursor); ok (true, cursor))
    else ok (false, cursor)

abbrev pub skip_sign : Cursor → Cursor
skip_sign cursor = if peek cursor == b'+' || peek cursor == b'-' then advance cursor else cursor

unfoldable pub exponent : Cursor → Result (Bool × Cursor)
unfolding peek advance some_digits
exponent cursor =
    if peek cursor == b'e' || peek cursor == b'E'
    then (do cursor ← some_digits (skip_sign (advance cursor)); ok (true, cursor))
    else ok (false, cursor)

-- The value that std::from_chars reads from digits.
unfoldable pub digits_value : Bytes → ℕ
digits_value digits = foldl (λ n c. n * 10 + (c - b'0')) 0 digits

abbrev pub negated : ℕ → ℤ
negated zero = pos 0
negated (suc n) = negsuc n

module _ (doubles : Doubles) where
  -- The value of a token, with the cursor behind it.
  unfoldable pub number_value : (is_float : Bool) → (token : Bytes) → Cursor → Result JsonValue
  unfolding digits_value
  number_value true token cursor = elim (doubles.from_chars token) [
    | none ↦ throw (error_at cursor "invalid floating-point number")
    | some out ↦ ok (double out)
  ]
  number_value false [] cursor = throw (error_at cursor "invalid unsigned number")
  number_value false (c ∷ digits) cursor =
      if c == b'-'
      then if leb (digits_value digits) (2 ^ 63)
        then ok (int64 (negated (digits_value digits)))
        else throw (error_at cursor "invalid signed number")
      else if ltb (digits_value (c ∷ digits)) (2 ^ 64)
      then ok (uint64 (digits_value (c ∷ digits)))
      else throw (error_at cursor "invalid unsigned number")

  unfoldable pub parse_number : Cursor → Result (JsonValue × Cursor)
  unfolding peek advance integer_part fraction exponent number_value
  parse_number start = do
    cursor ← integer_part (if peek start == b'-' then advance start else start)
    (with_fraction, cursor) ← fraction cursor
    (with_exponent, cursor) ← exponent cursor
    value ←
        number_value (with_fraction || with_exponent) (take (cursor.pos - start.pos) start.rest)
          cursor
    ok (value, cursor)

-- std::map::emplace: in the order of the keys, and a key that is there keeps its value.
unfoldable pub insert_sorted : (key : Bytes) → JsonValue → JsonObject → JsonObject
unfolding lexicographical_compare
insert_sorted key value empty = field key value empty
insert_sorted key value (field k v rest) =
    if lexicographical_compare key k
    then field key value (field k v rest)
    else field k v (insert_sorted key value rest)

unfoldable pub emplace : (key : Bytes) → JsonValue → JsonObject → JsonObject
unfolding insert_sorted find_field
emplace key value fields = elim (find_field fields key) [
  | none ↦ insert_sorted key value fields
  | some _ ↦ fields
]

-- The cases of the switch on the next character; `at_end` is the test before it.
pub data Start : Type 0 where
  at_end : Start
  letter_n : Start
  letter_t : Start
  letter_f : Start
  quote : Start
  bracket : Start
  brace : Start
  digit_or_minus : Start
  other : Start

unfoldable pub start_of : Cursor → Start
start_of cursor = elim cursor.rest [
  | [] ↦ at_end
  | c ∷ rest ↦
      if c == b'n'
      then letter_n
      else if c == b't'
      then letter_t
      else if c == b'f'
      then letter_f
      else if c == b'"'
      then quote
      else if c == b'['
      then bracket
      else if c == b'{'
      then brace
      else if c == b'-' || is_digit c
      then digit_or_minus
      else other
]

-- What follows an element: the closing character, a comma, or an error.
unfoldable pub closes : (close : ℕ) → (message : String) → Cursor → Result (Bool × Cursor)
unfolding next
closes close message cursor = do
  (c, cursor) ← next cursor
  if c == close
      then ok (true, cursor)
      else if c == b','
      then ok (false, cursor)
      else throw (error_at cursor message)

-- skip_ws, a string, skip_ws, a colon, skip_ws
unfoldable pub parse_key : Cursor → Result (Bytes × Cursor)
unfolding skip_ws peek parse_string next
parse_key cursor =
    let cursor = skip_ws cursor in
    if peek cursor == b'"'
    then (do
      (key, cursor) ← parse_string cursor
      (c, cursor) ← next (skip_ws cursor)
      if c == b':'
          then ok (key, skip_ws cursor)
          else throw (error_at cursor "expected ':' after object key"))
    else throw (error_at cursor "expected object key")

module _ (doubles : Doubles) where
  -- The mutual recursion, with a bound on the calls.
  unfoldable mutual
    unfolding start_of parse_literal parse_string parse_number skip_ws next peek advance closes
        parse_key emplace

    pub parse_value : (calls : ℕ) → Cursor → Result (JsonValue × Cursor)
    parse_value zero cursor = throw rounds_exhausted
    parse_value (suc calls) cursor = elim (start_of cursor) [
      | at_end ↦ throw (error_at cursor "unexpected end of input")
      | letter_n ↦ do cursor ← parse_literal (codes "null") cursor; ok (null, cursor)
      | letter_t ↦ do cursor ← parse_literal (codes "true") cursor; ok (bool true, cursor)
      | letter_f ↦ do cursor ← parse_literal (codes "false") cursor; ok (bool false, cursor)
      | quote ↦ do (text, cursor) ← parse_string cursor; ok (string text, cursor)
      | bracket ↦ do (elements, cursor) ← parse_array calls cursor; ok (array elements, cursor)
      | brace ↦ do (fields, cursor) ← parse_object calls cursor; ok (object fields, cursor)
      | digit_or_minus ↦ parse_number doubles cursor
      | other ↦ throw (error_at cursor "unexpected token")
    ]

    pub parse_array : (calls : ℕ) → Cursor → Result (JsonArray × Cursor)
    parse_array zero cursor = throw rounds_exhausted
    parse_array (suc calls) cursor = do
      (c, cursor) ← next cursor
      let inside = skip_ws cursor
      elim (c == b'[') [
        | false ↦ throw (error_at cursor "expected array")
        | true ↦ elim (peek inside == b']') [
          | true ↦ ok (nil, advance inside)
          | false ↦ array_loop calls inside
        ]
      ]

    -- The elements from here on.
    pub array_loop : (calls : ℕ) → Cursor → Result (JsonArray × Cursor)
    array_loop zero cursor = throw rounds_exhausted
    array_loop (suc calls) cursor = do
      (value, cursor) ← parse_value calls (skip_ws cursor)
      (closed, cursor) ← closes b']' "expected ',' or ']' in array" (skip_ws cursor)
      elim closed [
        | true ↦ ok (cons value nil, cursor)
        | false ↦ do (rest, cursor) ← array_loop calls cursor; ok (cons value rest, cursor)
      ]

    pub parse_object : (calls : ℕ) → Cursor → Result (JsonObject × Cursor)
    parse_object zero cursor = throw rounds_exhausted
    parse_object (suc calls) cursor = do
      (c, cursor) ← next cursor
      let inside = skip_ws cursor
      elim (c == b'{') [
        | false ↦ throw (error_at cursor "expected object")
        | true ↦ elim (peek inside == b'}') [
          | true ↦ ok (empty, advance inside)
          | false ↦ object_loop calls inside empty
        ]
      ]

    pub object_loop : (calls : ℕ) → Cursor → (out : JsonObject) → Result (JsonObject × Cursor)
    object_loop zero cursor out = throw rounds_exhausted
    object_loop (suc calls) cursor out = do
      (key, cursor) ← parse_key cursor
      (value, cursor) ← parse_value calls cursor
      (closed, cursor) ← closes b'}' "expected ',' or '}' in object" (skip_ws cursor)
      elim closed [
        | true ↦ ok (emplace key value out, cursor)
        | false ↦ object_loop calls cursor (emplace key value out)
      ]

  -- The bound is three calls for each character: a value, its array or object, and the loop.
  unfoldable pub parse_json : (text : Bytes) → Result JsonValue
  unfolding parse_value skip_ws
  parse_json text = do
    (value, cursor) ← parse_value (3 * length text + 3) (skip_ws (record { pos = 0; rest = text }))
    let cursor = skip_ws cursor
    elim cursor.rest [ [] ↦ ok value | _ ∷ _ ↦ throw (error_at cursor "unexpected trailing data") ]
