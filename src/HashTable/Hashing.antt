-- ===== src/HashTable/Hashing.antt =====
-- The template parameter `K` of include/datastructure/custom_hash_table.h: a type with `operator==`
-- and `std::hash`. The hash function belongs to the C++ library, so it is any function.
use blockchain_demo.Prelude.{ℕ, ◌≡◌, ◌↔◌, Bool, true, arith, Bytes, bytes_eq, bytes_eq_iff}

pub record Key {ℓ} (K : Type ℓ) : Type ℓ where
  pub equal : K → K → Bool
  pub hash : K → ℕ
  pub equal_iff : (a b : K) → (equal a b ≡ true) ↔ (a ≡ b)

infix 50 ◌===◌
abbrev pub ◌===◌ {ℓ} : {K : Type ℓ} ⦃key : Key K⦄ → K → K → Bool
◌===◌ ⦃key⦄ = key.equal

module _ {ℓ} {K : Type ℓ} ⦃key : Key K⦄ where
  pub equal_refl : (a : K) → (a === a) ≡ true
  equal_refl a = (key.equal_iff a a).1 (λ i. a)

  pub equal_sym : (a b : K) → (a === b) ≡ (b === a)
  equal_sym a b = ground (arith, key.equal_iff a b, key.equal_iff b a)

-- Keys that are `std::string`, under any hash function.
abbrev pub string_key : (Bytes → ℕ) → Key Bytes
string_key h = record { equal = bytes_eq; hash = h; equal_iff = bytes_eq_iff }
