-- ===== src/Encoding/Zeros.antt =====
-- Sequences of zero bytes, such as the `ZeroHash` of src/common/types.cpp.
use blockchain_demo.Prelude.{ℕ, zero, suc, refl, Bytes, arith, All, replicate}
use blockchain_demo.Encoding.{IsByte, IsHash, zero_hash}

abbrev pub zeros : ℕ → Bytes
zeros n = replicate n 0

pub zeros_are_bytes : (n : ℕ) → All IsByte (zeros n)
zeros_are_bytes zero = tt
zeros_are_bytes (suc n) = (omega arith, zeros_are_bytes n)

pub zero_hash-IsHash : IsHash zero_hash
unfolding zero_hash
zero_hash-IsHash = (refl, zeros_are_bytes 32)
