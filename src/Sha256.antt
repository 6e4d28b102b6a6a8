-- ===== src/Sha256.antt =====
-- `sha256` of src/crypto.cpp: its context, its lambdas and its loops. A uint32_t is a number below
-- 2 ^ 32, and each sum wraps by `word`.
pub mod Digest
use Prim.Native.Nat.{bit_and, bit_or, bit_xor}
use scrig.Base.{
  ℕ, zero, suc, ◌+◌, ◌-◌, ◌*◌, ◌/◌, ◌%◌, ◌^◌, Bool, List, [], ◌∷◌, ◌++◌, foldl, map, get_or, set,
  replicate, ◌==◌, ltb, if◌then◌else◌, ◌≡◌, refl,
}
use scrig.Base.Bytes.{Bytes, codes}

-- state[0] to state[7], and the working variables a to h.
pub record Registers : Type 0 where
  pub a : ℕ
  pub b : ℕ
  pub c : ℕ
  pub d : ℕ
  pub e : ℕ
  pub f : ℕ
  pub g : ℕ
  pub h : ℕ

pub record Sha256Ctx : Type 0 where
  pub state : Registers
  pub block : Bytes
  pub bit_length : ℕ
  pub block_len : ℕ

-- static_cast<uint32_t>
abbrev pub word : ℕ → ℕ
word x = x % 2 ^ 32

abbrev pub round_constants : List ℕ
round_constants =
    0x428a2f98 ∷ 0x71374491 ∷ 0xb5c0fbcf ∷ 0xe9b5dba5 ∷ 0x3956c25b ∷ 0x59f111f1 ∷ 0x923f82a4
    ∷ 0xab1c5ed5 ∷ 0xd807aa98 ∷ 0x12835b01 ∷ 0x243185be ∷ 0x550c7dc3 ∷ 0x72be5d74 ∷ 0x80deb1fe
    ∷ 0x9bdc06a7 ∷ 0xc19bf174 ∷ 0xe49b69c1 ∷ 0xefbe4786 ∷ 0x0fc19dc6 ∷ 0x240ca1cc ∷ 0x2de92c6f
    ∷ 0x4a7484aa ∷ 0x5cb0a9dc ∷ 0x76f988da ∷ 0x983e5152 ∷ 0xa831c66d ∷ 0xb00327c8 ∷ 0xbf597fc7
    ∷ 0xc6e00bf3 ∷ 0xd5a79147 ∷ 0x06ca6351 ∷ 0x14292967 ∷ 0x27b70a85 ∷ 0x2e1b2138 ∷ 0x4d2c6dfc
    ∷ 0x53380d13 ∷ 0x650a7354 ∷ 0x766a0abb ∷ 0x81c2c92e ∷ 0x92722c85 ∷ 0xa2bfe8a1 ∷ 0xa81a664b
    ∷ 0xc24b8b70 ∷ 0xc76c51a3 ∷ 0xd192e819 ∷ 0xd6990624 ∷ 0xf40e3585 ∷ 0x106aa070 ∷ 0x19a4c116
    ∷ 0x1e376c08 ∷ 0x2748774c ∷ 0x34b0bcb5 ∷ 0x391c0cb3 ∷ 0x4ed8aa4a ∷ 0x5b9cca4f ∷ 0x682e6ff3
    ∷ 0x748f82ee ∷ 0x78a5636f ∷ 0x84c87814 ∷ 0x8cc70208 ∷ 0x90befffa ∷ 0xa4506ceb ∷ 0xbef9a3f7
    ∷ 0xc67178f2 ∷ []

abbrev pub initial_state : Registers
initial_state = record {
  a = 0x6a09e667;
  b = 0xbb67ae85;
  c = 0x3c6ef372;
  d = 0xa54ff53a;
  e = 0x510e527f;
  f = 0x9b05688c;
  g = 0x1f83d9ab;
  h = 0x5be0cd19;
}

unfoldable pub rotr : ℕ → ℕ → ℕ
rotr x n = bit_or (x / 2 ^ n) (word (x * 2 ^ (32 - n)))

-- w[i] for i < 16: four bytes of the block, highest first.
unfoldable pub load_word : Bytes → ℕ → ℕ
load_word block i =
    bit_or
      (bit_or (bit_or (get_or block (i * 4) 0 * 2 ^ 24) (get_or block (i * 4 + 1) 0 * 2 ^ 16))
        (get_or block (i * 4 + 2) 0 * 2 ^ 8))
      (get_or block (i * 4 + 3) 0)

-- for (size_t i = first; i < first + rounds; ++i)
unfoldable pub load_words : (rounds i : ℕ) → Bytes → List ℕ → List ℕ
unfolding load_word
load_words zero i block w = w
load_words (suc rounds) i block w = load_words rounds (i + 1) block (set w i (load_word block i))

unfoldable pub schedule_word : List ℕ → ℕ → ℕ
unfolding rotr
schedule_word w i =
    let x = get_or w (i - 15) 0 in
    let y = get_or w (i - 2) 0 in
    let s0 = bit_xor (bit_xor (rotr x 7) (rotr x 18)) (x / 2 ^ 3) in
    let s1 = bit_xor (bit_xor (rotr y 17) (rotr y 19)) (y / 2 ^ 10) in
    word (get_or w (i - 16) 0 + s0 + get_or w (i - 7) 0 + s1)

unfoldable pub extend_words : (rounds i : ℕ) → List ℕ → List ℕ
unfolding schedule_word
extend_words zero i w = w
extend_words (suc rounds) i w = extend_words rounds (i + 1) (set w i (schedule_word w i))

unfoldable pub round : Registers → ℕ → ℕ → Registers
unfolding rotr
round r k w =
    let s1 = bit_xor (bit_xor (rotr r.e 6) (rotr r.e 11)) (rotr r.e 25) in
    let ch = bit_xor (bit_and r.e r.f) (bit_and (bit_xor r.e 0xFFFF_FFFF) r.g) in
    let temp1 = word (r.h + s1 + ch + k + w) in
    let s0 = bit_xor (bit_xor (rotr r.a 2) (rotr r.a 13)) (rotr r.a 22) in
    let maj = bit_xor (bit_xor (bit_and r.a r.b) (bit_and r.a r.c)) (bit_and r.b r.c) in
    let temp2 = word (s0 + maj) in
    record {
      a = word (temp1 + temp2);
      b = r.a;
      c = r.b;
      d = r.c;
      e = word (r.d + temp1);
      f = r.e;
      g = r.f;
      h = r.g;
    }

-- for (size_t i = 0; i < 64; ++i), over K and w.
unfoldable pub rounds : List ℕ → List ℕ → Registers → Registers
unfolding round
rounds [] w r = r
rounds (k ∷ ks) [] r = r
rounds (k ∷ ks) (x ∷ w) r = rounds ks w (round r k x)

-- The state that `transform` leaves; it changes nothing else of the context.
unfoldable pub compress : Registers → Bytes → Registers
unfolding load_words extend_words rounds
compress s block =
    let w = extend_words 48 16 (load_words 16 0 block (replicate 64 0)) in
    let r = rounds round_constants w s in
    record {
      a = word (s.a + r.a);
      b = word (s.b + r.b);
      c = word (s.c + r.c);
      d = word (s.d + r.d);
      e = word (s.e + r.e);
      f = word (s.f + r.f);
      g = word (s.g + r.g);
      h = word (s.h + r.h);
    }

unfoldable pub transform : Sha256Ctx → Sha256Ctx
transform ctx = record ctx { state = compress ctx.state ctx.block }

-- One round of the loop over `data`.
unfoldable pub absorb : Sha256Ctx → ℕ → Sha256Ctx
unfolding transform
absorb ctx byte =
    let ctx = record ctx {
      block = set ctx.block ctx.block_len byte;
      block_len = ctx.block_len + 1;
    } in
    if ctx.block_len == 64
    then (let ctx = transform ctx in
        record ctx { bit_length = (ctx.bit_length + 512) % 2 ^ 64; block_len = 0 })
    else ctx

-- while (i < i + rounds) block[i++] = 0
unfoldable pub clear_from : (rounds i : ℕ) → Bytes → Bytes
clear_from zero i block = block
clear_from (suc rounds) i block = clear_from rounds (i + 1) (set block i 0)

-- The two branches on ctx.block_len behind the loop.
unfoldable pub pad : Sha256Ctx → Sha256Ctx
unfolding transform clear_from
pad ctx =
    let i = ctx.block_len in
    let block = set ctx.block i 0x80 in
    if ltb ctx.block_len 56
    then record ctx { block = clear_from (56 - (i + 1)) (i + 1) block }
    else (let ctx = transform (record ctx { block = clear_from (64 - (i + 1)) (i + 1) block }) in
        record ctx { block = replicate 64 0 })

-- block[63] down to block[56]: the bit length, lowest byte at 63.
unfoldable pub store_length : Bytes → ℕ → Bytes
store_length block n =
    set
      (set
        (set
          (set
            (set (set (set (set block 63 (n % 256)) 62 (n / 2 ^ 8 % 256)) 61 (n / 2 ^ 16 % 256)) 60
              (n / 2 ^ 24 % 256))
            59 (n / 2 ^ 32 % 256))
          58 (n / 2 ^ 40 % 256))
        57 (n / 2 ^ 48 % 256))
      56 (n / 2 ^ 56 % 256)

-- (state >> (24U - j * 8U)) & 0xFFU for j = 0, 1, 2, 3
unfoldable pub word_bytes : ℕ → Bytes
word_bytes s = (s / 2 ^ 24 % 256) ∷ (s / 2 ^ 16 % 256) ∷ (s / 2 ^ 8 % 256) ∷ (s / 2 ^ 0 % 256) ∷ []

unfoldable pub digest : Registers → Bytes
unfolding word_bytes
digest s =
    word_bytes s.a
    ++ (word_bytes s.b
        ++ (word_bytes s.c
            ++ (word_bytes s.d
                ++ (word_bytes s.e ++ (word_bytes s.f ++ (word_bytes s.g ++ word_bytes s.h))))))

abbrev pub initial_ctx : Sha256Ctx
initial_ctx = record {
  state = initial_state;
  block = replicate 64 0;
  bit_length = 0;
  block_len = 0;
}

-- What follows the loop over `data`.
unfoldable pub finish : Sha256Ctx → Bytes
unfolding pad store_length digest transform
finish ctx =
    let ctx = pad ctx in
    let bits = (ctx.bit_length + ctx.block_len * 8) % 2 ^ 64 in
    let ctx = record ctx { bit_length = bits; block = store_length ctx.block bits } in
    digest (transform ctx).state

unfoldable pub sha256 : Bytes → Bytes
unfolding absorb finish
sha256 bytes = finish (foldl absorb initial_ctx bytes)
