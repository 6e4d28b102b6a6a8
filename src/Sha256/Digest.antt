-- ===== src/Sha256/Digest.antt =====
-- The size of a digest of sha256 of src/crypto.cpp.
use scrig.Base.{ℕ, All, refl, arith}
use scrig.Base.Bytes.{Bytes, IsByte, IsArray}
use scrig.Sha256.{Registers, word_bytes, digest, finish, sha256}

word_bytes-IsByte : (s : ℕ) → All IsByte (word_bytes s)
unfolding word_bytes
word_bytes-IsByte s = omega arith

digest-IsArray : (s : Registers) → IsArray 32 (digest s)
unfolding digest
digest-IsArray s = record { size = refl; bytes = omega arith }

pub sha256-IsArray : (bytes : Bytes) → IsArray 32 (sha256 bytes)
unfolding sha256 finish
sha256-IsArray bytes = digest-IsArray _
