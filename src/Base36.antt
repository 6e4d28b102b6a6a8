-- ===== src/Base36.antt =====
-- base36_digit, encode_base36 and decode_base36 of src/types.cpp, and the conversions of hashes, keys and
-- signatures.
pub mod Value
pub mod Decode
pub mod RoundTrip
use mathlib.Core.Option
use scrig.Base.{
  Bool, ℕ, zero, suc, ◌+◌, ◌-◌, ◌*◌, ◌/◌, ◌%◌, ◌^◌, Option, none, some, List, [], ◌∷◌, ◌++◌, length,
  reverse, replicate, get_or, leb, ltb, ◌==◌, ◌&&◌, if◌then◌else◌,
}
use scrig.Base.Bytes.{Bytes, codes}
use scrig.Base.Fault.{Result, ok, throw, runtime_error, ◌>>=◌}
use scrig.Types.{Hash, PublicKey, Signature}

-- `none` is the result -1.
unfoldable pub base36_digit : ℕ → Option ℕ
base36_digit c =
    if leb b'0' c && leb c b'9'
    then some (c - b'0')
    else if leb b'a' c && leb c b'z'
    then some (10 + (c - b'a'))
    else if leb b'A' c && leb c b'Z'
    then some (10 + (c - b'A'))
    else none

-- kBase36Digits[remainder]
unfoldable pub digit_char : ℕ → ℕ
digit_char remainder = get_or (codes "0123456789abcdefghijklmnopqrstuvwxyz") remainder 0

-- while (!value.empty() && value.front() == 0)
unfoldable pub strip_zeros : Bytes → Bytes
strip_zeros [] = []
strip_zeros (b ∷ bs) = if b == 0 then strip_zeros bs else b ∷ bs

-- if (!quotient.empty() || q != 0) quotient.push_back(q)
unfoldable pub push_quotient : Bytes → (q : ℕ) → Bytes
push_quotient [] q = if q == 0 then [] else q ∷ []
push_quotient (b ∷ bs) q = b ∷ (bs ++ q ∷ [])

-- The loop over the bytes of `value`: the quotient and the remainder of the division by 36.
unfoldable pub divide_36 : Bytes → (remainder : ℕ) → (quotient : Bytes) → Bytes × ℕ
unfolding push_quotient
divide_36 [] remainder quotient = (quotient, remainder)
divide_36 (byte ∷ bytes) remainder quotient =
    let acc = remainder * 256 + byte in
    divide_36 bytes (acc % 36) (push_quotient quotient (acc / 36 % 256))

-- while (!value.empty()): the digits pushed on `out`, lowest first, with a bound on the rounds;
-- `none` means that they ran out.
unfoldable pub encode_loop : ℕ → Bytes → (out : Bytes) → Option Bytes
encode_loop fuel [] out = some out
encode_loop zero (b ∷ bs) out = none
encode_loop (suc fuel) (b ∷ bs) out =
    let (quotient, remainder) = divide_36 (b ∷ bs) 0 [] in
    encode_loop fuel quotient (out ++ digit_char remainder ∷ [])

-- 36 * 36 exceeds 256, so two rounds for each byte are enough.
unfoldable pub encode_base36 : Bytes → Option Bytes
unfolding strip_zeros encode_loop divide_36 digit_char
encode_base36 bytes =
    let value = strip_zeros bytes in
    let text = Option.map reverse (encode_loop (2 * length value) value []) in
    elim value [ [] ↦ some (codes "0") | _ ∷ _ ↦ text ]

-- The loop over `value` from its last byte, with the carry that goes in and the one that comes out.
unfoldable pub multiply_36 : Bytes → (carry : ℕ) → Bytes × ℕ
multiply_36 [] carry = ([], carry)
multiply_36 (b ∷ bs) carry =
    let (out, carry) = multiply_36 bs carry in
    let acc = b * 36 + carry in ((acc % 256) ∷ out, acc / 2 ^ 8)

-- while (carry > 0): a uint32_t has four bytes at most.
unfoldable pub insert_carry : (rounds : ℕ) → (carry : ℕ) → Bytes → Bytes
insert_carry zero carry value = value
insert_carry (suc rounds) carry value =
    let rest = insert_carry rounds (carry / 2 ^ 8) ((carry % 256) ∷ value) in
    if ltb 0 carry then rest else value

-- One character's digit.
unfoldable pub push_digit : Bytes → (digit : ℕ) → Bytes
unfolding multiply_36 insert_carry
push_digit value digit = let (value, carry) = multiply_36 value digit in insert_carry 4 carry value

unfoldable pub decode_loop : (text value : Bytes) → Result Bytes
unfolding base36_digit push_digit
decode_loop [] value = ok value
decode_loop (c ∷ text) value = elim (base36_digit c) [
  | none ↦ throw (runtime_error "invalid base36 character")
  | some digit ↦ decode_loop text (push_digit value digit)
]

-- std::array<uint8_t, n>, filled from the right.
unfoldable pub decode_base36 : (n : ℕ) → (text : Bytes) → Result Bytes
unfolding decode_loop strip_zeros
decode_base36 n [] = throw (runtime_error "base36 string is empty")
decode_base36 n (c ∷ text) = do
  value ← decode_loop (c ∷ text) (0 ∷ [])
  let value = strip_zeros value
  if ltb n (length value)
      then throw (runtime_error "base36 value is too large")
      else ok (replicate (n - length value) 0 ++ value)

unfoldable pub hash_to_base36 : Hash → Option Bytes
hash_to_base36 hash = encode_base36 hash.bytes

unfoldable pub hash_from_base36 : Bytes → Result Hash
hash_from_base36 text = do bytes ← decode_base36 32 text; ok (record { bytes = bytes })

unfoldable pub public_key_to_base36 : PublicKey → Option Bytes
public_key_to_base36 key = encode_base36 key.bytes

unfoldable pub public_key_from_base36 : Bytes → Result PublicKey
public_key_from_base36 text = do bytes ← decode_base36 32 text; ok (record { bytes = bytes })

unfoldable pub signature_to_base36 : Signature → Option Bytes
signature_to_base36 signature = encode_base36 signature.bytes

unfoldable pub signature_from_base36 : Bytes → Result Signature
signature_from_base36 text = do bytes ← decode_base36 64 text; ok (record { bytes = bytes })
