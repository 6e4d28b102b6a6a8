-- ===== src/Json/Printer.antt =====
-- to_json of src/json.cpp, compact and indented.
use scrig.Base.{ℕ, suc, ◌+◌, ◌*◌, Bool, [], ◌∷◌, ◌++◌, replicate, if◌then◌else◌}
use scrig.Base.Bytes.{Bytes, codes}
use scrig.Json.{
  ℤ, pos, negsuc, Doubles, JsonValue, null, bool, int64, uint64, double, string, array, object,
  JsonArray, nil, cons, JsonObject, empty, field,
}
use scrig.Json.Text.{escape_string, decimal}

unfoldable pub signed_decimal : ℤ → Bytes
unfolding decimal
signed_decimal (pos n) = decimal n
signed_decimal (negsuc n) = b'-' ∷ decimal (suc n)

-- if (i + 1 != arr.size()) out.push_back(',')
abbrev pub comma_before : JsonArray → Bytes
comma_before nil = []
comma_before (cons _ _) = b',' ∷ []

abbrev pub comma_before_field : JsonObject → Bytes
comma_before_field empty = []
comma_before_field (field _ _ _) = b',' ∷ []

module _ (doubles : Doubles) (pretty : Bool) (indent : ℕ) where
  -- A new line and append_indent, where `pretty` is set.
  unfoldable pub new_line : (level : ℕ) → Bytes
  new_line level = if pretty then 10 ∷ replicate (level * indent) b' ' else []

  -- What is appended to `out`.
  unfoldable mutual
    unfolding new_line escape_string decimal signed_decimal

    pub stringify : JsonValue → (level : ℕ) → Bytes
    stringify null level = codes "null"
    stringify (bool b) level = if b then codes "true" else codes "false"
    stringify (int64 i) level = signed_decimal i
    stringify (uint64 n) level = decimal n
    stringify (double d) level = doubles.print d
    stringify (string s) level = escape_string s
    stringify (array nil) level = codes "[]"
    stringify (array (cons x xs)) level =
        b'[' ∷ stringify_array (cons x xs) (level + 1) ++ new_line level ++ b']' ∷ []
    stringify (object empty) level = codes "{}"
    stringify (object (field k v rest)) level =
        b'{' ∷ stringify_object (field k v rest) (level + 1) ++ new_line level ++ b'}' ∷ []

    pub stringify_array : JsonArray → (level : ℕ) → Bytes
    stringify_array nil level = []
    stringify_array (cons x rest) level =
        new_line level ++ stringify x level ++ comma_before rest ++ stringify_array rest level

    pub stringify_object : JsonObject → (level : ℕ) → Bytes
    stringify_object empty level = []
    stringify_object (field key child rest) level =
        new_line level
        ++ escape_string key
        ++ b':' ∷ (if pretty then b' ' ∷ [] else [])
        ++ stringify child level
        ++ comma_before_field rest
        ++ stringify_object rest level

  unfoldable pub to_json : JsonValue → Bytes
  unfolding stringify
  to_json value = stringify value 0
