-- ===== src/Miner/Nonce.antt =====
-- Nonces in src/miner.cpp: where a search starts, their bytes and their texts.
use Prim.Native.Nat.{bit_xor}
use scrig.Base.{ℕ, ◌+◌, ◌*◌, ◌/◌, ◌%◌, ◌^◌, [], ◌∷◌, ◌++◌, take, drop, ltb, ◌==◌, if◌then◌else◌}
use scrig.Base.Bytes.{Bytes}

abbrev pub nonce_step : ℕ
nonce_step = 0x9E3779B97F4A7C15

-- The base for a seed of g_nonce_seed, and the next seed.
unfoldable pub next_nonce_base : (seed : ℕ) → ℕ × ℕ
next_nonce_base seed =
    let x = bit_xor seed (seed / 2 ^ 30) in
    let x = x * 0xBF58476D1CE4E5B9 % 2 ^ 64 in
    let x = bit_xor x (x / 2 ^ 27) in
    let x = x * 0x94D049BB133111EB % 2 ^ 64 in
    let x = bit_xor x (x / 2 ^ 31) in (2 ^ 32 + x % 2 ^ 32, (seed + nonce_step) % 2 ^ 64)

-- The bytes of a 64-bit number, the least significant first.
unfoldable pub le_bytes : (n : ℕ) → Bytes
le_bytes n =
    n % 256
    ∷ n / 2 ^ 8 % 256
    ∷ n / 2 ^ 16 % 256
    ∷ n / 2 ^ 24 % 256
    ∷ n / 2 ^ 32 % 256
    ∷ n / 2 ^ 40 % 256
    ∷ n / 2 ^ 48 % 256
    ∷ n / 2 ^ 56 % 256
    ∷ []

-- The eight bytes of a buffer that begin at `dest`.
unfoldable pub write_nonce_le : (buffer : Bytes) → (dest nonce : ℕ) → Bytes
unfolding le_bytes
write_nonce_le buffer dest nonce = take dest buffer ++ (le_bytes nonce ++ drop (dest + 8) buffer)

-- kRandomXPipelineBatchDefault is `default`: it depends on the processor.
unfoldable pub clamp_pipeline_batch : (default batch : ℕ) → ℕ
clamp_pipeline_batch default batch =
    if batch == 0 then default else if ltb batch 4 then 4 else if ltb 32 batch then 32 else batch
