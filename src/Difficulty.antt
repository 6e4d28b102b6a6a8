-- ===== src/Difficulty.antt =====
-- Difficulty targets of src/crypto.cpp: scaling a target by the number of transactions, in the
-- branch with unsigned __int128, and the test of a hash against a target.
pub mod Scale
pub mod Meets
pub mod Order
use Prim.Native.Nat.{bit_or}
use scrig.Base.{
  get_or, drop, ℕ, zero, suc, ◌+◌, ◌*◌, ◌/◌, ◌%◌, ◌^◌, Bool, true, false, List, [], ◌∷◌, ◌++◌,
  replicate, length, ltb, if◌then◌else◌,
}
use scrig.Base.Bytes.{Bytes}
use scrig.Types.{DifficultyTarget, Hash}

-- The loop from the last byte to the first: the bytes that it writes and the carry behind it.
unfoldable pub multiply_loop : Bytes → (multiply : ℕ) → Bytes × ℕ
multiply_loop [] multiply = ([], 0)
multiply_loop (b ∷ bs) multiply =
    let (multiplied, carry) = multiply_loop bs multiply in
    let cur = (b * multiply + carry) % 2 ^ 128 in ((cur % 256) ∷ multiplied, cur / 2 ^ 8)

-- The loop from the first byte to the last.
unfoldable pub divide_loop : Bytes → (divide remainder : ℕ) → Bytes
divide_loop [] divide remainder = []
divide_loop (b ∷ bs) divide remainder =
    let cur = (remainder * 256 + b) % 2 ^ 128 in
    (cur / divide % 256) ∷ divide_loop bs divide (cur % divide)

-- The result and `*overflowed`.
unfoldable pub multiply_divide_target : Bytes → (multiply divide : ℕ) → Bytes × Bool
multiply_divide_target input multiply divide =
    let (multiplied, carry) = multiply_loop input multiply in
    if ltb 0 carry
    then (replicate (length multiplied) 0xFF, true)
    else (divide_loop multiplied divide 0, false)

-- `scaled` is the truncated double (1.0 + SNAP_DIFFICULTY_DECAY_PER_TRANSACTION * tx_count) * 1000.0:
-- floating-point arithmetic, and a parameter here.
unfoldable pub calculate_block_difficulty_target :
    (scaled : ℕ → ℕ) → DifficultyTarget → (tx_count : ℕ) → DifficultyTarget
calculate_block_difficulty_target scaled block_difficulty tx_count =
    let (result, overflowed) = multiply_divide_target block_difficulty (scaled tx_count) 1000 in
    if overflowed then replicate (length result) 0xFF else result

-- Eight bytes at a pointer, highest first.
unfoldable pub load_be_u64 : Bytes → ℕ
load_be_u64 bytes =
    bit_or
      (bit_or
        (bit_or
          (bit_or
            (bit_or
              (bit_or (bit_or (get_or bytes 0 0 * 2 ^ 56) (get_or bytes 1 0 * 2 ^ 48))
                (get_or bytes 2 0 * 2 ^ 40))
              (get_or bytes 3 0 * 2 ^ 32))
            (get_or bytes 4 0 * 2 ^ 24))
          (get_or bytes 5 0 * 2 ^ 16))
        (get_or bytes 6 0 * 2 ^ 8))
      (get_or bytes 7 0)

-- for (size_t i = 0; i < 32; i += 8): `rounds` are left, `i` comes next.
unfoldable pub meets_loop : (rounds i : ℕ) → Bytes → Bytes → Bool
meets_loop zero i hash target = true
meets_loop (suc rounds) i hash target =
    let h = load_be_u64 (drop i hash) in
    let t = load_be_u64 (drop i target) in
    let rest = meets_loop rounds (i + 8) hash target in
    if ltb h t then true else if ltb t h then false else rest

unfoldable pub hash_meets_target : Hash → DifficultyTarget → Bool
unfolding meets_loop load_be_u64
hash_meets_target hash target = meets_loop 4 0 hash.bytes target
