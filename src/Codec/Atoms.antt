-- ===== src/Codec/Atoms.antt =====
-- The JSON forms of hashes, keys, signatures and byte arrays.
use scrig.Base.{◌%◌, ◌^◌, Option, none, some, List, [], ◌∷◌, map, All, ◌≡◌, refl, ap, arith}
use scrig.Base.Bytes.{Bytes, IsByte}
use scrig.Base.Fault.{Result, ok, traverse}
use scrig.Types.{Hash, PublicKey, Signature}
use scrig.Types.Wellformed.{IsHash, IsPublicKey, IsSignature, IsOptional}
use scrig.Base36.{
  hash_to_base36, hash_from_base36, public_key_to_base36, public_key_from_base36,
  signature_to_base36, signature_from_base36,
}
use scrig.Base36.RoundTrip.{decode_base36-encode_base36}
use scrig.Json.{Doubles, JsonValue, null, uint64, string, as_uint64, as_string, is_null}
use scrig.Codec.{
  array_of, elements, enough, hash_to_json, hash_from_json, public_key_to_json,
  public_key_from_json, signature_to_json, signature_from_json, optional_hash_to_json,
  optional_hash_from_json, optional_signature_to_json, optional_signature_from_json, byte_from_json,
  bytes_from_json,
}

-- Writing gives a value, and reading it gives back what was written.
abbrev pub Survives {ℓ} :
    {A : Type ℓ} → (A → Result JsonValue) → (JsonValue → Result A) → A → Type ℓ
Survives to from a = (value : JsonValue) × (to a ≡ ok value) × (from value ≡ ok a)

pub hash-Survives : (x : Hash) → IsHash x → Survives hash_to_json hash_from_json x
unfolding hash_to_json hash_from_json hash_to_base36 hash_from_base36 enough as_string
hash-Survives x array =
    let (text, there, back) = decode_base36-encode_base36 32 x.bytes array in
    (string text, rw there refl, rw back refl)

pub public_key-Survives :
    (x : PublicKey) → IsPublicKey x → Survives public_key_to_json public_key_from_json x
unfolding public_key_to_json public_key_from_json public_key_to_base36 public_key_from_base36 enough
    as_string
public_key-Survives x array =
    let (text, there, back) = decode_base36-encode_base36 32 x.bytes array in
    (string text, rw there refl, rw back refl)

pub signature-Survives :
    (x : Signature) → IsSignature x → Survives signature_to_json signature_from_json x
unfolding signature_to_json signature_from_json signature_to_base36 signature_from_base36 enough
    as_string
signature-Survives x array =
    let (text, there, back) = decode_base36-encode_base36 64 x.bytes array in
    (string text, rw there refl, rw back refl)

pub optional_hash-Survives :
    (x : Option Hash)
    → IsOptional IsHash x
    → Survives optional_hash_to_json optional_hash_from_json x
unfolding optional_hash_to_json optional_hash_from_json hash_to_json hash_from_json hash_to_base36
    hash_from_base36 enough as_string is_null
optional_hash-Survives none array = (null, refl, refl)
optional_hash-Survives (some x) array =
    let (text, there, back) = decode_base36-encode_base36 32 x.bytes array in
    (string text, rw there refl, rw back refl)

pub optional_signature-Survives :
    (x : Option Signature)
    → IsOptional IsSignature x
    → Survives optional_signature_to_json optional_signature_from_json x
unfolding optional_signature_to_json optional_signature_from_json signature_to_json
    signature_from_json signature_to_base36 signature_from_base36 enough as_string is_null
optional_signature-Survives none array = (null, refl, refl)
optional_signature-Survives (some x) array =
    let (text, there, back) = decode_base36-encode_base36 64 x.bytes array in
    (string text, rw there refl, rw back refl)

pub elements-array_of : (values : List JsonValue) → elements (array_of values) ≡ values
unfolding elements array_of
elements-array_of [] = refl
elements-array_of (x ∷ xs) = ap (λ t. x ∷ t) (elements-array_of xs)

pub traverse-Survives {ℓ κ} :
    {A : Type ℓ} (to : A → Result JsonValue) (from : JsonValue → Result A) (P : A → Type κ)
    → ((a : A) → P a → Survives to from a)
    → (xs : List A) → All P xs
    → (values : List JsonValue) × (traverse to xs ≡ ok values) × (traverse from values ≡ ok xs)
traverse-Survives to from P each [] h = ([], refl, refl)
traverse-Survives to from P each (x ∷ xs) (hx, hxs) =
    let (value, there, back) = each x hx in
    let (values, all_there, all_back) = traverse-Survives to from P each xs hxs in
    (value ∷ values, rw (there, all_there) refl, rw (back, all_back) refl)

pub bytes_from_json-array_of :
    (doubles : Doubles) (bytes : Bytes)
    → All IsByte bytes
    → bytes_from_json doubles (array_of (map uint64 bytes)) ≡ ok bytes
unfolding bytes_from_json byte_from_json as_uint64 array_of elements
bytes_from_json-array_of doubles [] h = refl
bytes_from_json-array_of doubles (b ∷ bytes) (hb, hs) =
    let small : b % 2 ^ 8 ≡ b = omega arith in
    rw (bytes_from_json-array_of doubles bytes hs, small) refl
