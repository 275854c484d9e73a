-- ===== src/Smt/Bits.antt =====
-- src/smt/sparse_merkle_tree.cpp: a key is determined by its 256 bits.
use blockchain_demo.Prelude.{
  ℕ, suc, ◌+◌, ◌-◌, ◌*◌, ◌/◌, ◌%◌, ◌^◌, ◌≡◌, ◌<◌, refl, [], ◌∷◌, Bytes, arith, length, All, ◌==◌,
}
use blockchain_demo.Encoding.{IsByte, IsHash}
use blockchain_demo.Smt.{get_bit}

bit_eq : (a b : ℕ) → (a % 2 == 1) ≡ (b % 2 == 1) → a % 2 ≡ b % 2
bit_eq a b h = ground arith

-- A byte is determined by its bits, from the highest to the lowest.
byte_bits :
    (x y : ℕ)
    → x < 256
    → y < 256
    → ((i : ℕ) → i < 8 → ((x / 2 ^ (7 - i)) % 2 == 1) ≡ ((y / 2 ^ (7 - i)) % 2 == 1))
    → x ≡ y
byte_bits x y hx hy h = omega (
  arith,
  bit_eq (x / 128) (y / 128) (h 0 (omega arith)),
  bit_eq (x / 64) (y / 64) (h 1 (omega arith)),
  bit_eq (x / 32) (y / 32) (h 2 (omega arith)),
  bit_eq (x / 16) (y / 16) (h 3 (omega arith)),
  bit_eq (x / 8) (y / 8) (h 4 (omega arith)),
  bit_eq (x / 4) (y / 4) (h 5 (omega arith)),
  bit_eq (x / 2) (y / 2) (h 6 (omega arith)),
  bit_eq (x / 1) (y / 1) (h 7 (omega arith)),
)

get_bit-head :
    (x : ℕ) (xs : Bytes) (i : ℕ) → i < 8 → get_bit (x ∷ xs) i ≡ ((x / 2 ^ (7 - i)) % 2 == 1)
unfolding get_bit
get_bit-head x xs i h =
    let here : i / 8 ≡ 0 = omega arith in let same : i % 8 ≡ i = omega arith in rw (here, same)

get_bit-tail : (x : ℕ) (xs : Bytes) (d : ℕ) → get_bit (x ∷ xs) (d + 8) ≡ get_bit xs d
unfolding get_bit
get_bit-tail x xs d =
    let next : (d + 8) / 8 ≡ suc (d / 8) = omega arith in
    let same : (d + 8) % 8 ≡ d % 8 = omega arith in rw (next, same)

bytes_bits :
    (xs ys : Bytes)
    → length xs ≡ length ys
    → All IsByte xs
    → All IsByte ys
    → ((d : ℕ) → d < length xs * 8 → get_bit xs d ≡ get_bit ys d)
    → xs ≡ ys
bytes_bits [] [] len bx by h = refl
bytes_bits [] (y ∷ ys) len bx by h = absurd (omega arith)
bytes_bits (x ∷ xs) [] len bx by h = absurd (omega arith)
bytes_bits (x ∷ xs) (y ∷ ys) len bx by h = cc (
  byte_bits x y bx.0 by.0 (λ i small.
      rw (← get_bit-head x xs i small, ← get_bit-head y ys i small) (h i (omega arith))),
  bytes_bits xs ys (omega arith) bx.1 by.1
      (λ d small. rw (← get_bit-tail x xs d, ← get_bit-tail y ys d) (h (d + 8) (omega arith))),
)

-- Two keys with the same bit at every depth are equal.
pub key_of_bits :
    (j k : Bytes) → IsHash j → IsHash k → ((d : ℕ) → d < 256 → get_bit j d ≡ get_bit k d) → j ≡ k
key_of_bits j k hj hk h =
    bytes_bits j k (omega (arith, hj.0, hk.0)) hj.1 hk.1 (λ d small. h d (omega (arith, hj.0)))
