-- ===== src/Pow/Patch.antt =====
-- patch_nonce_in_pow_buffer against writing the buffer again with the new nonce.
use scrig.Base.{
  ℕ, zero, suc, ◌+◌, ◌^◌, ◌<◌, ◌≤◌, Bool, true, false, ◌&&◌, ◌↔◌, ◌≢◌, [], ◌∷◌, ◌++◌, get_or, set,
  length, length-append, ltb, leb, ◌==◌, if◌then◌else◌, ◌≡◌, refl, ap, ◌∙◌, arith, le→ltb,
  get_or-append_right, ◌⊎◌, inl, inr, Bool-cases,
}
use scrig.Base.Bytes.{Bytes}
use scrig.Base.Fault.{ok}
use scrig.Types.{Transaction, Block}
use scrig.Bincode.{byte_at, write_le_u64}
use scrig.Bincode.Format.{le_bytes, varuint, block_head, transaction_head, write_le_u64-le_bytes}
use scrig.Pow.Format.{transaction_pow_buffer_lem, block_pow_buffer_lem, stripped}
use scrig.Pow.{
  transaction_pow_buffer, patch_loop, patch_varuint_u64_in_place_9, patch_nonce_in_pow_buffer,
  block_pow_buffer,
}

set-append : (p xs : Bytes) (i v : ℕ) → set (p ++ xs) (length p + i) v ≡ p ++ set xs i v
set-append [] xs i v = ap (λ k. set xs k v) {y = i} (omega arith)
set-append (x ∷ p) xs i v =
    ap (λ k. set (x ∷ (p ++ xs)) k v) {y = suc (length p + i)} (omega arith)
    ∙ ap (λ t. x ∷ t) (set-append p xs i v)

patch_loop-append :
    (n i : ℕ) (p xs : Bytes) (value : ℕ)
    → patch_loop n i (p ++ xs) (length p) value ≡ p ++ patch_loop n i xs 0 value
unfolding patch_loop
patch_loop-append zero i p xs value = refl
patch_loop-append (suc n) i p xs value =
    ap (λ t. patch_loop n (i + 1) t (length p) value)
      (ap (λ k. set (p ++ xs) k (byte_at value i)) {y = length p + (1 + i)} (omega arith)
        ∙ set-append p xs (1 + i) (byte_at value i))
    ∙ patch_loop-append n (i + 1) p (set xs (0 + 1 + i) (byte_at value i)) value

patch_le_bytes :
    (rest : Bytes) (v n : ℕ)
    → patch_loop 8 0 (253 ∷ (le_bytes 8 v ++ rest)) 0 n ≡ 253 ∷ (le_bytes 8 n ++ rest)
unfolding patch_loop le_bytes write_le_u64
patch_le_bytes rest v n = ap (λ bs. 253 ∷ (bs ++ rest)) (write_le_u64-le_bytes [] n)

wide_size :
    (p rest : Bytes) (v : ℕ)
    → length (p ++ (253 ∷ (le_bytes 8 v ++ rest))) ≡ length p + 9 + length rest
unfolding le_bytes
wide_size p rest v = omega (arith, length-append p (253 ∷ (le_bytes 8 v ++ rest)))

patch_in_place :
    (p rest : Bytes) (v n : ℕ)
    → patch_varuint_u64_in_place_9 (p ++ (253 ∷ (le_bytes 8 v ++ rest))) (length p) n
      ≡ ok (p ++ (253 ∷ (le_bytes 8 n ++ rest)))
unfolding patch_varuint_u64_in_place_9
patch_in_place p rest v n =
    rw (le→ltb _ _ room) (ap ok (ap (λ t. patch_loop 8 0 t (length p) n) tag ∙ (loop ∙ bytes)))
  where
    wide : Bytes
    wide = 253 ∷ (le_bytes 8 v ++ rest)

    room : length p + 9 ≤ length (p ++ wide)
    room = omega (arith, wide_size p rest v)

    tag : set (p ++ wide) (length p) 253 ≡ p ++ wide
    tag = ap (λ k. set (p ++ wide) k 253) {y = length p + 0} (omega arith) ∙ set-append p wide 0 253

    loop : patch_loop 8 0 (p ++ wide) (length p) n ≡ p ++ patch_loop 8 0 wide 0 n
    loop = patch_loop-append 8 0 p wide n

    bytes : p ++ patch_loop 8 0 wide 0 n ≡ p ++ (253 ∷ (le_bytes 8 n ++ rest))
    bytes = ap (λ t. p ++ t) (patch_le_bytes rest v n)

-- The nine bytes of a wide nonce become those of another, whatever stands around them.
patch_wide :
    (p rest : Bytes) (v n : ℕ)
    → patch_nonce_in_pow_buffer (p ++ (253 ∷ (le_bytes 8 v ++ rest))) (length p) n
      ≡ ok (p ++ (253 ∷ (le_bytes 8 n ++ rest)), true)
unfolding patch_nonce_in_pow_buffer
patch_wide p rest v n = ground (
  arith,
  wide_size p rest v,
  get_or-append_right p (253 ∷ (le_bytes 8 v ++ rest)) 0,
  patch_in_place p rest v n,
)

varuint-wide : (v : ℕ) → 2 ^ 32 ≤ v → varuint v ≡ 253 ∷ le_bytes 8 v
unfolding varuint
varuint-wide v h = ground arith

patch_varuint :
    (p rest : Bytes) (v n : ℕ)
    → 2 ^ 32 ≤ v
    → 2 ^ 32 ≤ n
    → patch_nonce_in_pow_buffer (p ++ (varuint v ++ rest)) (length p) n
      ≡ ok (p ++ (varuint n ++ rest), true)
patch_varuint p rest v n hv hn = rw (varuint-wide v hv, varuint-wide n hn) (patch_wide p rest v n)

-- For a transaction whose nonce and whose new nonce are at least 2 ^ 32, patching its buffer at the
-- reported offset gives the buffer of the transaction with the new nonce, and reports success.
pub patch-transaction_pow_buffer :
    (tx : Transaction) (nonce : ℕ)
    → 2 ^ 32 ≤ tx.nonce
    → 2 ^ 32 ≤ nonce
    → let (buffer, nonce_offset) = transaction_pow_buffer tx in
      patch_nonce_in_pow_buffer buffer nonce_offset nonce
      ≡ ok ((transaction_pow_buffer (record tx { nonce = nonce })).0, true)
unfolding transaction_head
patch-transaction_pow_buffer tx nonce ht hn =
    simp transaction_pow_buffer_lem (patch_varuint (transaction_head tx) _ tx.nonce nonce ht hn)

-- For a block whose nonce and whose new nonce are at least 2 ^ 32, patching its buffer at the
-- reported offset gives the buffer of the block with the new nonce, and reports success.
pub patch-block_pow_buffer :
    (b : Block) (nonce : ℕ)
    → 2 ^ 32 ≤ b.nonce
    → 2 ^ 32 ≤ nonce
    → let (buffer, nonce_offset) = block_pow_buffer b in
      patch_nonce_in_pow_buffer buffer nonce_offset nonce
      ≡ ok ((block_pow_buffer (record b { nonce = nonce })).0, true)
unfolding block_head
patch-block_pow_buffer b nonce hb hn =
    simp block_pow_buffer_lem (patch_varuint (block_head (stripped b)) _ b.nonce nonce hb hn)

length-set : (xs : Bytes) (i v : ℕ) → length (set xs i v) ≡ length xs
length-set [] i v = refl
length-set (x ∷ xs) zero v = refl
length-set (x ∷ xs) (suc i) v = ap suc (length-set xs i v)

length-patch_loop :
    (n i : ℕ) (buffer : Bytes) (offset value : ℕ)
    → length (patch_loop n i buffer offset value) ≡ length buffer
unfolding patch_loop
length-patch_loop zero i buffer offset value = refl
length-patch_loop (suc n) i buffer offset value =
    length-patch_loop n (i + 1) _ offset value ∙ length-set buffer _ _

-- The buffer and the Boolean that patching any buffer at any offset returns.
patch_result : Bytes → ℕ → ℕ → Bytes × Bool
patch_result buffer offset nonce =
    if ltb offset (length buffer)
      && (get_or buffer offset 0 == 253 && leb (offset + 9) (length buffer))
    then (patch_loop 8 0 (set buffer offset 253) offset nonce, true)
    else (buffer, false)

-- For every buffer, offset and nonce patching throws nothing and keeps the buffer's size; and it
-- fails, leaving the buffer alone, exactly unless nine bytes stand at the offset and the first is
-- the tag 253.
pub patch_total :
    (buffer : Bytes) (offset nonce : ℕ)
    → (r : Bytes × Bool) × (patch_nonce_in_pow_buffer buffer offset nonce ≡ ok r)
      × (length r.0 ≡ length buffer)
      × ((r.1 ≡ true) ↔ ((offset + 9 ≤ length buffer) × (get_or buffer offset 0 ≡ 253)))
      × ((r.1 ≡ true) ⊎ (r.0 ≡ buffer))
unfolding patch_nonce_in_pow_buffer patch_varuint_u64_in_place_9 patch_result
patch_total buffer offset nonce =
    let size =
      length-patch_loop 8 0 (set buffer offset 253) offset nonce ∙ length-set buffer offset 253 in
    (
      patch_result buffer offset nonce,
      ground arith,
      ground (arith, size),
      (λ h. ground arith, λ h. ground arith),
      elim (Bool-cases (patch_result buffer offset nonce).1) [
        | inl h ↦ inl h
        | inr h ↦ inr (ground arith)
      ],
    )

get_or-varuint_narrow : (v : ℕ) (rest : Bytes) → v < 2 ^ 32 → get_or (varuint v ++ rest) 0 0 ≢ 253
unfolding varuint
get_or-varuint_narrow v rest h = ground arith

patch_narrow :
    (p rest : Bytes) (v n : ℕ)
    → v < 2 ^ 32
    → patch_nonce_in_pow_buffer (p ++ (varuint v ++ rest)) (length p) n
      ≡ ok (p ++ (varuint v ++ rest), false)
unfolding patch_nonce_in_pow_buffer
patch_narrow p rest v n h =
    ground (arith, get_or-append_right p (varuint v ++ rest) 0, get_or-varuint_narrow v rest h)

-- For a block whose nonce is below 2 ^ 32, patching its buffer at the reported offset fails and
-- leaves it alone.
pub patch-block_pow_buffer_narrow :
    (b : Block) (nonce : ℕ)
    → b.nonce < 2 ^ 32
    → let (buffer, nonce_offset) = block_pow_buffer b in
      patch_nonce_in_pow_buffer buffer nonce_offset nonce ≡ ok (buffer, false)
unfolding block_head
patch-block_pow_buffer_narrow b nonce h =
    simp block_pow_buffer_lem (patch_narrow (block_head (stripped b)) _ b.nonce nonce h)
