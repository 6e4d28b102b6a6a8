-- ===== src/Stratum/Text.antt =====
-- The helpers of src/stratum_client.cpp on replies, numbers and error texts.
use scrig.Base.{
  ℕ, zero, suc, ◌+◌, ◌-◌, ◌*◌, ◌^◌, Bool, true, false, ◌&&◌, ◌||◌, Option, none, some, [], ◌∷◌, map,
  leb, ltb, ◌==◌, if◌then◌else◌,
}
use scrig.Base.Bytes.{Bytes, codes, bytes_eq}
use scrig.Base.Fault.{ok, throw}
use scrig.Json.{
  pos, Doubles, below_one, beyond, whole_part, JsonValue, int64, uint64, double, string, object,
  JsonObject, empty, field, is_null, as_double, find_field,
}
use scrig.Json.Parser.{insert_sorted}
use scrig.Json.Printer.{signed_decimal}
use scrig.Json.Text.{decimal}

-- obj.find(key), where the value is a string, an object, or anything but null.
unfoldable pub find_string : JsonObject → (key : Bytes) → Option Bytes
find_string obj key = elim (find_field obj key) [ some (string s) ↦ some s | _ ↦ none ]

unfoldable pub find_object : JsonObject → (key : Bytes) → Option JsonObject
find_object obj key = elim (find_field obj key) [ some (object fields) ↦ some fields | _ ↦ none ]

-- `none` also where the error is null or the message is no object.
unfoldable pub find_error : JsonValue → Option JsonValue
find_error message = elim message [
  | object obj ↦ elim (find_field obj (codes "error")) [
    | some error ↦ if is_null error then none else some error
    | none ↦ none
  ]
  | _ ↦ none
]

unfoldable pub json_has_error : JsonValue → Bool
unfolding find_error
json_has_error message = elim (find_error message) [ some _ ↦ true | none ↦ false ]

unfoldable pub error_text : (error : JsonValue) → Bytes
unfolding find_string
error_text error = elim error [
  | string text ↦ text
  | object fields ↦ elim (find_string fields (codes "message")) [
    | some text ↦ text
    | none ↦ codes "pool returned error"
  ]
  | _ ↦ codes "pool returned error"
]

unfoldable pub json_error_text : JsonValue → Bytes
unfolding find_error error_text
json_error_text message = elim message [
  | object obj ↦ elim (find_error (object obj)) [ some error ↦ error_text error | none ↦ [] ]
  | _ ↦ codes "invalid response"
]

-- `none` is the result false.
unfoldable pub parse_json_rpc_id : JsonValue → Option Bytes
parse_json_rpc_id value = elim value [
  | uint64 n ↦ some (decimal n)
  | int64 i ↦ some (signed_decimal i)
  | string text ↦ some text
  | _ ↦ none
]

-- The loop over `i` of a prefix of eight bytes: byte `i` has the weight 256 ^ i. The bytes share no bit.
unfoldable pub prefix_le : (rounds : ℕ) → Bytes → ℕ
prefix_le zero bytes = 0
prefix_le (suc rounds) [] = 0
prefix_le (suc rounds) (b ∷ bytes) = b + 256 * prefix_le rounds bytes

unfoldable pub parse_target_prefix_le : Bytes → ℕ
unfolding prefix_le
parse_target_prefix_le bytes = prefix_le 8 bytes

unfoldable pub prefix_be : (rounds : ℕ) → Bytes → (value : ℕ) → ℕ
prefix_be zero bytes value = value
prefix_be (suc rounds) [] value = value
prefix_be (suc rounds) (b ∷ bytes) value = prefix_be rounds bytes (value * 2 ^ 8 + b)

unfoldable pub parse_target_prefix_be : Bytes → ℕ
unfolding prefix_be
parse_target_prefix_be bytes = prefix_be 8 bytes 0

unfoldable pub distance_u64 : ℕ → ℕ → ℕ
distance_u64 a b = if ltb b a then a - b else b - a

module _ (doubles : Doubles) where
  unfoldable pub difficulty_to_target_le : (diff : ℕ) → ℕ
  difficulty_to_target_le diff =
      if doubles.is_positive diff
      then elim (doubles.max_over diff) [ below_one ↦ 1 | beyond ↦ 2 ^ 64 - 1 | whole_part n ↦ n ]
      else 0

  unfoldable pub json_number_to_u64 : JsonValue → Option ℕ
  json_number_to_u64 value = elim value [
    | uint64 n ↦ some n
    | int64 (pos n) ↦ some n
    | double d ↦ if doubles.is_nonnegative d then some (doubles.to_uint64 d) else none
    | _ ↦ none
  ]

  unfoldable pub json_number_to_double : JsonValue → Option ℕ
  json_number_to_double value = elim (as_double doubles value) [ ok d ↦ some d | throw _ ↦ none ]

-- obj[key] = value
unfoldable pub replace_field : JsonObject → (key : Bytes) → JsonValue → JsonObject
replace_field empty key value = empty
replace_field (field k v rest) key value =
    if bytes_eq k key then field k value rest else field k v (replace_field rest key value)

unfoldable pub assign : JsonObject → (key : Bytes) → JsonValue → JsonObject
unfolding replace_field
assign obj key value = elim (find_field obj key) [
  | some _ ↦ replace_field obj key value
  | none ↦ insert_sorted key value obj
]

-- std::tolower in the C locale.
abbrev pub to_lower : ℕ → ℕ
to_lower c = if leb b'A' c && leb c b'Z' then c + 32 else c

unfoldable pub to_lower_copy : Bytes → Bytes
to_lower_copy text = map to_lower text

unfoldable pub starts_with : Bytes → (prefix : Bytes) → Bool
starts_with text [] = true
starts_with [] (p ∷ prefix) = false
starts_with (c ∷ text) (p ∷ prefix) = c == p && starts_with text prefix

-- text.find(word) != std::string::npos
unfoldable pub contains : Bytes → (word : Bytes) → Bool
unfolding starts_with
contains [] word = starts_with [] word
contains (c ∷ text) word = starts_with (c ∷ text) word || contains text word

unfoldable pub looks_like_method_missing : (error : Bytes) → Bool
looks_like_method_missing error =
    let lower = to_lower_copy error in
    contains lower (codes "method not found")
    || contains lower (codes "unknown method")
    || contains lower (codes "no such method")

unfoldable pub looks_like_connection_problem : (error : Bytes) → Bool
looks_like_connection_problem error =
    let lower = to_lower_copy error in
    contains lower (codes "connection closed")
    || contains lower (codes "failed to send")
    || contains lower (codes "not connected")
    || contains lower (codes "timeout waiting for pool message")
    || contains lower (codes "reconnect failed")

unfoldable pub is_retryable_error : (message : Bytes) → Bool
is_retryable_error message =
    let lower = to_lower_copy message in
    contains lower (codes "method not found")
    || contains lower (codes "unknown method")
    || contains lower (codes "invalid params")
    || contains lower (codes "invalid argument")

unfoldable pub is_stratum_pool_host : (host : Bytes) → (port : ℕ) → Bool
is_stratum_pool_host host port =
    if contains (to_lower_copy host) (codes "luckypool.io")
    then true
    else port == 5110 || port == 5111
