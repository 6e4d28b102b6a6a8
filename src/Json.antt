-- ===== src/Json.antt =====
-- JsonValue of include/scrig/json.hpp and src/json.cpp: its alternatives and its accessors.
pub mod Text
pub mod Strings
pub mod Parser
pub mod Printer
use scrig.Base.{
  ℕ, zero, suc, ◌+◌, ◌-◌, ◌^◌, Bool, true, false, ◌||◌, Option, none, some, ltb, if◌then◌else◌,
}
use scrig.Base.Bytes.{Bytes, bytes_eq}
use scrig.Base.Fault.{Result, ok, throw, json_error}

-- An int64_t: `negsuc n` is - n - 1.
pub data ℤ : Type 0 where
  pos : ℕ → ℤ
  negsuc : ℕ → ℤ

-- 2 ^ 64 - 1 divided by a positive double, as a long double: below 1, at least 2 ^ 64 - 1, or between
-- these with its whole part.
pub data Quotient : Type 0 where
  below_one : Quotient
  beyond : Quotient
  whole_part : ℕ → Quotient

-- A double is kept as its 64 bits. What the source does with it is the platform's: conversions as
-- by static_cast, std::from_chars, and output to a stream with 16 digits.
pub record Doubles : Type 0 where
  pub to_int64 : ℕ → ℤ
  pub to_uint64 : ℕ → ℕ
  pub of_int64 : ℤ → ℕ
  pub of_uint64 : ℕ → ℕ
  pub is_negative : ℕ → Bool
  pub is_positive : ℕ → Bool
  pub is_nonnegative : ℕ → Bool
  pub is_zero : ℕ → Bool
  pub max_over : ℕ → Quotient
  pub print : ℕ → Bytes
  pub from_chars : Bytes → Option ℕ

-- The alternatives of `storage`; an object's fields stand in the order of their keys.
mutual
  pub data JsonValue : Type 0 where
    null : JsonValue
    bool : Bool → JsonValue
    int64 : ℤ → JsonValue
    uint64 : ℕ → JsonValue
    double : (bits : ℕ) → JsonValue
    string : Bytes → JsonValue
    array : JsonArray → JsonValue
    object : JsonObject → JsonValue

  pub data JsonArray : Type 0 where
    nil : JsonArray
    cons : JsonValue → JsonArray → JsonArray

  pub data JsonObject : Type 0 where
    empty : JsonObject
    field : (key : Bytes) → JsonValue → JsonObject → JsonObject

unfoldable pub is_null : JsonValue → Bool
is_null value = elim value [ null ↦ true | _ ↦ false ]

unfoldable pub as_bool : JsonValue → Result Bool
as_bool value = elim value [ bool b ↦ ok b | _ ↦ throw (json_error "expected bool") ]

module _ (doubles : Doubles) where
  unfoldable pub as_int64 : JsonValue → Result ℤ
  as_int64 value = elim value [
    | int64 i ↦ ok i
    | uint64 n ↦
        if ltb (2 ^ 63 - 1) n
        then throw (json_error "number out of range for int64")
        else ok (pos n)
    | double d ↦ ok (doubles.to_int64 d)
    | _ ↦ throw (json_error "expected int64")
  ]

  unfoldable pub as_uint64 : JsonValue → Result ℕ
  as_uint64 value = elim value [
    | uint64 n ↦ ok n
    | int64 (pos n) ↦ ok n
    | int64 (negsuc n) ↦ throw (json_error "negative number for uint64")
    | double d ↦
        if doubles.is_negative d
        then throw (json_error "negative number for uint64")
        else ok (doubles.to_uint64 d)
    | _ ↦ throw (json_error "expected uint64")
  ]

  unfoldable pub as_double : JsonValue → Result ℕ
  as_double value = elim value [
    | double d ↦ ok d
    | int64 i ↦ ok (doubles.of_int64 i)
    | uint64 n ↦ ok (doubles.of_uint64 n)
    | _ ↦ throw (json_error "expected double")
  ]

unfoldable pub as_string : JsonValue → Result Bytes
as_string value = elim value [ string s ↦ ok s | _ ↦ throw (json_error "expected string") ]

unfoldable pub as_array : JsonValue → Result JsonArray
as_array value = elim value [ array xs ↦ ok xs | _ ↦ throw (json_error "expected array") ]

unfoldable pub as_object : JsonValue → Result JsonObject
as_object value = elim value [ object fs ↦ ok fs | _ ↦ throw (json_error "expected object") ]

-- obj.find(key) on the map.
unfoldable pub find_field : JsonObject → (key : Bytes) → Option JsonValue
find_field empty key = none
find_field (field k value rest) key = if bytes_eq k key then some value else find_field rest key

-- JsonValue::find; `none` is the null pointer.
unfoldable pub find : JsonValue → (key : Bytes) → Option JsonValue
unfolding find_field
find value key = elim value [ object fs ↦ find_field fs key | _ ↦ none ]
