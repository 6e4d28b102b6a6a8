-- ===== src/Examples.antt =====
-- Concrete transactions, blocks and arrays, the theorems at them, and known digests.
pub mod Run
pub mod Pool
pub mod Mining
pub mod Node
use scrig.Base.{
  true, ltb, ◌==◌, ◌/◌, false, ℕ, ◌^◌, ◌<◌, Option, none, some, List, [], ◌∷◌, replicate, arith,
  refl,
}
use scrig.Base.Bytes.{Bytes, IsArray}
use scrig.Types.{
  Hash, PublicKey, Signature, TransactionInput, TransactionOutput, Transaction,
  AddressInclusionFilter, BlockMetadata, Block,
}
use scrig.Json.{pos, Doubles, whole_part}
use scrig.Types.Wellformed.{IsTransaction, IsBlock}

-- For texts without floating-point numbers.
abbrev pub no_doubles : Doubles
no_doubles = record {
  to_int64 = λ d. pos d;
  to_uint64 = λ d. d;
  of_int64 = λ i. 0;
  of_uint64 = λ n. n;
  is_negative = λ d. false;
  is_positive = λ d. ltb 0 d;
  is_nonnegative = λ d. true;
  is_zero = λ d. d == 0;
  max_over = λ d. whole_part (18446744073709551615 / d);
  print = λ d. [];
  from_chars = λ token. none;
}

abbrev pub ones : Bytes
ones = replicate 32 1

abbrev pub threes : Bytes
threes = 0 ∷ 7 ∷ replicate 30 3

abbrev pub payment : Transaction
payment = record {
  inputs =
      record {
        transaction_id = record { bytes = ones };
        output_index = 2;
        signature = some (record { bytes = replicate 64 9 });
        output_owner = record { bytes = threes };
      }
      ∷ [];
  outputs = record { amount = 300; receiver = record { bytes = ones } } ∷ [];
  transaction_id = some (record { bytes = threes });
  nonce = 2 ^ 32;
  timestamp = 1770375601;
}

abbrev pub candidate : Block
candidate = record {
  transactions = payment ∷ [];
  timestamp = 1770375700;
  nonce = 2 ^ 32;
  meta = record {
    block_pow_difficulty = ones;
    tx_pow_difficulty = threes;
    previous_block = record { bytes = threes };
    hash = none;
    merkle_tree_root = ones;
    address_inclusion_filter = record { bits = 5 ∷ []; num_bits = 8; num_hashes = 2 };
  };
}

pub ones-IsArray : IsArray 32 ones
ones-IsArray = record { size = refl; bytes = omega arith }

pub threes-IsArray : IsArray 32 threes
threes-IsArray = record { size = refl; bytes = omega arith }

pub payment-IsTransaction : IsTransaction payment
payment-IsTransaction = record {
  input_count = omega arith;
  inputs = (
    record {
      transaction_id = ones-IsArray;
      output_index = omega arith;
      signature = record { size = refl; bytes = omega arith };
      output_owner = threes-IsArray;
    },
    tt,
  );
  output_count = omega arith;
  outputs = (record { amount = omega arith; receiver = ones-IsArray }, tt);
  transaction_id = threes-IsArray;
  nonce = omega arith;
  timestamp = omega arith;
}

pub candidate-IsBlock : IsBlock candidate
candidate-IsBlock = record {
  transaction_count = omega arith;
  transactions = (payment-IsTransaction, tt);
  timestamp = omega arith;
  nonce = omega arith;
  metadata = record {
    block_pow_difficulty = ones-IsArray;
    tx_pow_difficulty = threes-IsArray;
    previous_block = threes-IsArray;
    hash = tt;
    merkle_tree_root = ones-IsArray;
    address_inclusion_filter = record {
      size = omega arith;
      bits = omega arith;
      num_bits = omega arith;
      num_hashes = omega arith;
    };
  };
}
