-- ===== src/Consensus/Filter.antt =====
-- build_address_filter of src/crypto.cpp. The two sizes come from std::log and std::ceil on
-- doubles: they are the parameters `bits_for`, of the number of addresses, and `hashes_for`, of the
-- number of bits and the number of addresses.
pub mod Contains
use Prim.Native.Nat.{bit_or}
use scrig.Base.{
  ℕ, zero, suc, ◌+◌, ◌*◌, ◌/◌, ◌%◌, ◌^◌, List, [], ◌∷◌, ◌++◌, foldl, length, get_or, set, replicate,
  ◌==◌, if◌then◌else◌,
}
use scrig.Base.Bytes.{Bytes}
use scrig.Types.{u64_mod, Transaction, TransactionInput, TransactionOutput, AddressInclusionFilter}
use scrig.Sha256.{sha256}

-- for (size_t i = 0; i < 8; ++i)
unfoldable pub prefix_loop : (rounds i : ℕ) → Bytes → ℕ → ℕ
prefix_loop zero i bytes out = out
prefix_loop (suc rounds) i bytes out =
    prefix_loop rounds (i + 1) bytes (bit_or out (get_or bytes i 0 * 2 ^ (i * 8)))

unfoldable pub little_endian_u64_prefix : Bytes → ℕ
unfolding prefix_loop
little_endian_u64_prefix bytes = prefix_loop 8 0 bytes 0

unfoldable pub hash_filter_index : Bytes → ℕ → ℕ
unfolding little_endian_u64_prefix
hash_filter_index address i = little_endian_u64_prefix (
    sha256
      (address ++ ((i % 256) ∷ (i / 2 ^ 8 % 256) ∷ (i / 2 ^ 16 % 256) ∷ (i / 2 ^ 24 % 256) ∷ [])))

-- bits[bit / 8] |= 1U << (bit % 8)
unfoldable pub set_bit : Bytes → ℕ → Bytes
set_bit bits at = set bits (at / 8) (bit_or (get_or bits (at / 8) 0) (2 ^ (at % 8)))

-- for (uint32_t i = 0; i < num_hashes; ++i): `rounds` are left, `i` comes next.
unfoldable pub insert_loop : (rounds i num_bits : ℕ) → Bytes → (address : Bytes) → Bytes
unfolding set_bit
insert_loop zero i num_bits bits address = bits
insert_loop (suc rounds) i num_bits bits address =
    insert_loop rounds (i + 1) num_bits (set_bit bits (hash_filter_index address i % num_bits))
      address

-- The lambda `insert`.
unfoldable pub insert_address : AddressInclusionFilter → Bytes → AddressInclusionFilter
unfolding insert_loop
insert_address filter address = if filter.num_bits == 0 then filter else record filter {
  bits = insert_loop filter.num_hashes 0 filter.num_bits filter.bits address;
}

unfoldable pub insert_transaction : AddressInclusionFilter → Transaction → AddressInclusionFilter
unfolding insert_address
insert_transaction filter tx =
    let filter =
      foldl (λ f (i : TransactionInput). insert_address f i.output_owner.bytes) filter tx.inputs in
    foldl (λ f (o : TransactionOutput). insert_address f o.receiver.bytes) filter tx.outputs

unfoldable pub count_addresses : List Transaction → ℕ
count_addresses [] = 0
count_addresses (tx ∷ txs) = length tx.inputs + length tx.outputs + count_addresses txs

module _ (bits_for : ℕ → ℕ) (hashes_for : ℕ → ℕ → ℕ) where
  unfoldable pub build_address_filter : List Transaction → AddressInclusionFilter
  unfolding insert_transaction count_addresses
  build_address_filter txs =
      let address_count = count_addresses txs in
      let num_bits = bits_for address_count in
      if address_count == 0
      then record { bits = []; num_bits = 0; num_hashes = 0 }
      else foldl insert_transaction
          (record {
            bits = replicate ((num_bits + 7) % u64_mod / 8) 0;
            num_bits = num_bits;
            num_hashes = hashes_for num_bits address_count;
          })
          txs
