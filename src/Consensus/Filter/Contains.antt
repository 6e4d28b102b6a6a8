-- ===== src/Consensus/Filter/Contains.antt =====
-- The bits that build_address_filter of src/crypto.cpp sets, and what a reader of the filter tests.
use Prim.Native.Nat.{bit_or}
use native.Mathlib.Decide.{ℕ_discrete, dec_lt}
use scrig.Base.{
  ℕ, zero, suc, ◌+◌, ◌*◌, ◌/◌, ◌%◌, ◌^◌, ◌<◌, ◌≤◌, List, [], ◌∷◌, foldl, length, get_or, set,
  Bool-cases, inl, inr, ne→==, replicate, length-replicate, length-set, get_or-set_self,
  get_or-set_ne, set_beyond, All, ◌==◌, ◌≡◌, refl, sym, ap, ◌∙◌, arith,
}
use scrig.Base.Bits.{bit, bit-bit_or, bit-pow_self}
use scrig.Base.Bytes.{Bytes}
use scrig.Types.{u64_mod, Transaction, TransactionInput, TransactionOutput, AddressInclusionFilter}
use scrig.Consensus.Filter.{
  hash_filter_index, set_bit, insert_loop, insert_address, insert_transaction, count_addresses,
  build_address_filter,
}

-- The bit at a position of a bit array.
abbrev pub IsMarked : Bytes → ℕ → Type 0
IsMarked bits at = bit (get_or bits (at / 8) 0) (at % 8) ≡ 1

-- What a reader of the filter tests: all the bits of an address are set.
abbrev pub Contains : AddressInclusionFilter → Bytes → Type 0
Contains f address =
    (k : ℕ) → k < f.num_hashes → IsMarked f.bits (hash_filter_index address k % f.num_bits)

set_bit-IsMarked_self :
    (bits : Bytes) (at : ℕ) → at / 8 < length bits → IsMarked (set_bit bits at) at
unfolding set_bit
set_bit-IsMarked_self bits at h =
    ap (λ t. bit t (at % 8)) (get_or-set_self bits (at / 8) _ 0 h)
    ∙ bit-bit_or (at % 8) (get_or bits (at / 8) 0) (2 ^ (at % 8))
    ∙ omega (arith, bit-pow_self (at % 8))

set_bit-IsMarked : (bits : Bytes) (at b : ℕ) → IsMarked bits b → IsMarked (set_bit bits at) b
unfolding set_bit
set_bit-IsMarked bits at b h =
    let v = bit_or (get_or bits (at / 8) 0) (2 ^ (at % 8)) in
    elim (ℕ_discrete (at / 8) (b / 8)) [
      | no ne ↦ ap (λ t. bit t (b % 8)) (get_or-set_ne bits (at / 8) (b / 8) v 0 ne) ∙ h
      | yes e ↦ elim (dec_lt (at / 8) (length bits)) [
        | no out ↦
            ap (λ t. bit (get_or t (b / 8) 0) (b % 8)) (set_beyond bits (at / 8) v (omega arith))
            ∙ h
        | yes inside ↦
            ap (λ t. bit (get_or (set bits (at / 8) v) t 0) (b % 8)) (sym e)
            ∙ ap (λ t. bit t (b % 8)) (get_or-set_self bits (at / 8) v 0 inside)
            ∙ bit-bit_or (b % 8) (get_or bits (at / 8) 0) (2 ^ (at % 8))
            ∙ omega (arith, h, ap (λ t. bit (get_or bits t 0) (b % 8)) e)
      ]
    ]

length-set_bit : (bits : Bytes) (at : ℕ) → length (set_bit bits at) ≡ length bits
unfolding set_bit
length-set_bit bits at = length-set bits (at / 8) _

-- Later bits have the earlier ones, in an array of the same size.
pub record Grows (old new : Bytes) : Type 0 where
  pub size : length new ≡ length old
  pub keeps : (b : ℕ) → IsMarked old b → IsMarked new b

Grows-refl : (bits : Bytes) → Grows bits bits
Grows-refl bits = record { size = refl; keeps = λ b h. h }

Grows-trans : {a b c : Bytes} → Grows a b → Grows b c → Grows a c
Grows-trans g h = record { size = h.size ∙ g.size; keeps = λ b s. h.keeps b (g.keeps b s) }

insert_loop-Grows :
    (n i num_bits : ℕ) (bits address : Bytes) → Grows bits (insert_loop n i num_bits bits address)
unfolding insert_loop
insert_loop-Grows zero i num_bits bits address = Grows-refl bits
insert_loop-Grows (suc n) i num_bits bits address =
    let at = hash_filter_index address i % num_bits in
    Grows-trans
      (record { size = length-set_bit bits at; keeps = λ b h. set_bit-IsMarked bits at b h })
      (insert_loop-Grows n (i + 1) num_bits (set_bit bits at) address)

insert_loop-IsMarked :
    (n i num_bits : ℕ) (bits address : Bytes)
    → 0 < num_bits
    → num_bits ≤ 8 * length bits
    → (k : ℕ) → i ≤ k
    → k < i + n
    → IsMarked (insert_loop n i num_bits bits address) (hash_filter_index address k % num_bits)
unfolding insert_loop
insert_loop-IsMarked zero i num_bits bits address p room k lo hi = absurd (omega arith)
insert_loop-IsMarked (suc n) i num_bits bits address p room k lo hi =
    let at = hash_filter_index address i % num_bits in
    let next = set_bit bits at in
    let below : at < num_bits = omega arith in
    elim (ℕ_discrete i k) [
      | yes e ↦ rw (← e) (
          (insert_loop-Grows n (i + 1) num_bits next address).keeps at
            (set_bit-IsMarked_self bits at (omega arith)))
      | no ne ↦
          insert_loop-IsMarked n (i + 1) num_bits next address p
            (omega (arith, length-set_bit bits at)) k (omega arith) (omega arith)
    ]

-- A filter with the same sizes, and at least the same bits.
record Extends (f g : AddressInclusionFilter) : Type 0 where
  num_bits : g.num_bits ≡ f.num_bits
  num_hashes : g.num_hashes ≡ f.num_hashes
  bits : Grows f.bits g.bits

Extends-refl : (f : AddressInclusionFilter) → Extends f f
Extends-refl f = record { num_bits = refl; num_hashes = refl; bits = Grows-refl f.bits }

Extends-trans : {f g h : AddressInclusionFilter} → Extends f g → Extends g h → Extends f h
Extends-trans p q = record {
  num_bits = q.num_bits ∙ p.num_bits;
  num_hashes = q.num_hashes ∙ p.num_hashes;
  bits = Grows-trans p.bits q.bits;
}

Extends-Contains :
    {f g : AddressInclusionFilter} (address : Bytes)
    → Extends f g
    → Contains f address
    → Contains g address
Extends-Contains address e c k h =
    rw e.num_bits (e.bits.keeps _ (c k (omega (arith, e.num_hashes, h))))

-- The array has a byte for each bit position.
record IsRoomy (f : AddressInclusionFilter) : Type 0 where
  some_bits : 0 < f.num_bits
  room : f.num_bits ≤ 8 * length f.bits

Extends-IsRoomy : {f g : AddressInclusionFilter} → Extends f g → IsRoomy f → IsRoomy g
Extends-IsRoomy e r = record {
  some_bits = omega (arith, e.num_bits, r.some_bits);
  room = omega (arith, e.num_bits, e.bits.size, r.room);
}

insert_address-Extends :
    (f : AddressInclusionFilter) (address : Bytes) → Extends f (insert_address f address)
unfolding insert_address
insert_address-Extends f address = elim (Bool-cases (f.num_bits == 0)) [
  | inl h ↦ rw h (Extends-refl f)
  | inr h ↦ rw h (record {
    num_bits = refl;
    num_hashes = refl;
    bits = insert_loop-Grows f.num_hashes 0 f.num_bits f.bits address;
  })
]

insert_address-Contains :
    (f : AddressInclusionFilter) (address : Bytes)
    → IsRoomy f
    → Contains (insert_address f address) address
unfolding insert_address
insert_address-Contains f address r = rw (ne→== f.num_bits 0 (omega (arith, r.some_bits))) (λ k h.
    insert_loop-IsMarked f.num_hashes 0 f.num_bits f.bits address r.some_bits r.room k (omega arith)
      (omega (arith, h)))

-- A loop of insertions, of the address that each element has.
module _ {A : Type 0} (address_of : A → Bytes) where
  abbrev insert_all : AddressInclusionFilter → List A → AddressInclusionFilter
  insert_all = foldl (λ f a. insert_address f (address_of a))

  insert_all-Extends : (f : AddressInclusionFilter) (xs : List A) → Extends f (insert_all f xs)
  insert_all-Extends f [] = Extends-refl f
  insert_all-Extends f (x ∷ xs) =
      Extends-trans (insert_address-Extends f (address_of x))
        (insert_all-Extends (insert_address f (address_of x)) xs)

  insert_all-Contains :
      (f : AddressInclusionFilter) (xs : List A)
      → IsRoomy f
      → All (λ a. Contains (insert_all f xs) (address_of a)) xs
  insert_all-Contains f [] r = tt
  insert_all-Contains f (x ∷ xs) r =
      let g = insert_address f (address_of x) in
      (
        Extends-Contains (address_of x) (insert_all-Extends g xs)
            (insert_address-Contains f (address_of x) r),
        insert_all-Contains g xs (Extends-IsRoomy (insert_address-Extends f (address_of x)) r),
      )

All-map {ℓ κ} :
    {A : Type ℓ} (P Q : A → Type κ) (xs : List A) → ((a : A) → P a → Q a) → All P xs → All Q xs
All-map P Q [] f h = tt
All-map P Q (x ∷ xs) f (p, h) = (f x p, All-map P Q xs f h)

-- Every address of a transaction is found in the filter.
abbrev pub Covers : AddressInclusionFilter → Transaction → Type 0
Covers f tx =
    All (λ (i : TransactionInput). Contains f i.output_owner.bytes) tx.inputs
    × All (λ (o : TransactionOutput). Contains f o.receiver.bytes) tx.outputs

abbrev owner : TransactionInput → Bytes
owner i = i.output_owner.bytes

abbrev receiver : TransactionOutput → Bytes
receiver o = o.receiver.bytes

Extends-Covers :
    {f g : AddressInclusionFilter} (tx : Transaction) → Extends f g → Covers f tx → Covers g tx
Extends-Covers tx e (i, o) = (
  All-map _ _ tx.inputs (λ a c. Extends-Contains (owner a) e c) i,
  All-map _ _ tx.outputs (λ a c. Extends-Contains (receiver a) e c) o,
)

insert_transaction-Extends :
    (f : AddressInclusionFilter) (tx : Transaction) → Extends f (insert_transaction f tx)
unfolding insert_transaction
insert_transaction-Extends f tx =
    Extends-trans (insert_all-Extends owner f tx.inputs)
      (insert_all-Extends receiver (insert_all owner f tx.inputs) tx.outputs)

insert_transaction-Covers :
    (f : AddressInclusionFilter) (tx : Transaction)
    → IsRoomy f
    → Covers (insert_transaction f tx) tx
unfolding insert_transaction
insert_transaction-Covers f tx r =
    let g = insert_all owner f tx.inputs in
    let grown = insert_all-Extends receiver g tx.outputs in
    (
      All-map _ _ tx.inputs (λ a c. Extends-Contains (owner a) grown c)
          (insert_all-Contains owner f tx.inputs r),
      insert_all-Contains receiver g tx.outputs
          (Extends-IsRoomy (insert_all-Extends owner f tx.inputs) r),
    )

transactions-Extends :
    (f : AddressInclusionFilter) (txs : List Transaction)
    → Extends f (foldl insert_transaction f txs)
transactions-Extends f [] = Extends-refl f
transactions-Extends f (tx ∷ txs) =
    Extends-trans (insert_transaction-Extends f tx)
      (transactions-Extends (insert_transaction f tx) txs)

transactions-Covers :
    (f : AddressInclusionFilter) (txs : List Transaction)
    → IsRoomy f
    → All (Covers (foldl insert_transaction f txs)) txs
transactions-Covers f [] r = tt
transactions-Covers f (tx ∷ txs) r =
    let g = insert_transaction f tx in
    (
      Extends-Covers tx (transactions-Extends g txs) (insert_transaction-Covers f tx r),
      transactions-Covers g txs (Extends-IsRoomy (insert_transaction-Extends f tx) r),
    )

All-empty {ℓ κ} : {A : Type ℓ} (P : A → Type κ) (xs : List A) → length xs ≡ 0 → All P xs
All-empty P [] h = tt
All-empty P (x ∷ xs) h = absurd (omega arith)

no_addresses-Covers :
    (f : AddressInclusionFilter) (txs : List Transaction)
    → count_addresses txs ≡ 0
    → All (Covers f) txs
unfolding count_addresses
no_addresses-Covers f [] h = tt
no_addresses-Covers f (tx ∷ txs) h = (
  (All-empty _ tx.inputs (omega arith), All-empty _ tx.outputs (omega arith)),
  no_addresses-Covers f txs (omega arith),
)

-- Where the number of bits chosen for the addresses, if there are any, is positive and fits 64 bits
-- when rounded up to bytes, the filter built from the transactions contains the address of every input and output, and has a byte for each of
-- its bits.
pub build_address_filter-Covers :
    (bits_for : ℕ → ℕ) (hashes_for : ℕ → ℕ → ℕ) (txs : List Transaction)
    → (0 < count_addresses txs
        → (0 < bits_for (count_addresses txs)) × (bits_for (count_addresses txs) + 7 < u64_mod))
    → let f = build_address_filter bits_for hashes_for txs in
      All (Covers f) txs × (f.num_bits ≤ 8 * length f.bits)
unfolding build_address_filter
build_address_filter-Covers bits_for hashes_for txs sizes =
    let n = count_addresses txs in
    elim (ℕ_discrete n 0) [
      | yes e ↦ rw e (
        no_addresses-Covers (record { bits = []; num_bits = 0; num_hashes = 0 }) txs e,
        omega arith,
      )
      | no ne ↦
          let (pos, fits) = sizes (omega arith) in
          let start : AddressInclusionFilter = record {
            bits = replicate ((bits_for n + 7) % u64_mod / 8) 0;
            num_bits = bits_for n;
            num_hashes = hashes_for (bits_for n) n;
          } in
          let r : IsRoomy start = record {
            some_bits = pos;
            room = omega (arith, length-replicate {A = ℕ} ((bits_for n + 7) % u64_mod / 8) 0);
          } in
          rw (ne→== n 0 ne) (
            transactions-Covers start txs r,
            (Extends-IsRoomy (transactions-Extends start txs) r).room,
          )
    ]
