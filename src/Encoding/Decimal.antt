-- ===== src/Encoding/Decimal.antt =====
-- Decimal text as the serialisers of src/tx/transaction.cpp, src/block/block.cpp and
-- src/consensus/consensus.cpp print it: no two numbers share one.
use blockchain_demo.Prelude.{
  ℕ, zero, suc, ◌+◌, ◌-◌, ◌*◌, ◌/◌, ◌≡◌, ◌<◌, ◌≤◌, refl, sym, ap, ◌∙◌, [], ◌∷◌, ◌++◌, Bytes, arith,
  All, All-append, ltb, Bool-cases, inl, inr,
}
use blockchain_demo.Encoding.{decimal, decimal_fuel}

-- The number that a row of digits stands for, after a prefix worth `acc`.
value : ℕ → Bytes → ℕ
value acc [] = acc
value acc (c ∷ s) = value (acc * 10 + (c - b'0')) s

value-append : (acc : ℕ) (xs ys : Bytes) → value acc (xs ++ ys) ≡ value (value acc xs) ys
unfolding value
value-append acc [] ys = refl
value-append acc (c ∷ xs) ys = value-append (acc * 10 + (c - b'0')) xs ys

value-decimal_fuel : (f n : ℕ) → n < f → value 0 (decimal_fuel f n) ≡ n
unfolding decimal_fuel value
value-decimal_fuel zero n h = elim h [ ]
value-decimal_fuel (suc f) n h = elim (Bool-cases (ltb n 10)) [
  | inl e ↦ rw (e, decimal_fuel) (omega arith)
  | inr e ↦ rw (e, decimal_fuel, value-append) (ground (arith, value-decimal_fuel f (n / 10)))
]

-- `decimal` determines its number.
pub decimal-injective : (m n : ℕ) → decimal m ≡ decimal n → m ≡ n
unfolding decimal
decimal-injective m n h =
    sym (value-decimal_fuel (suc m) m (omega arith))
    ∙ ap (value 0) h
    ∙ value-decimal_fuel (suc n) n (omega arith)

abbrev pub IsDigit : ℕ → Type 0
IsDigit c = (b'0' ≤ c) × (c ≤ b'9')

decimal_fuel-IsDigit : (f n : ℕ) → All IsDigit (decimal_fuel f n)
unfolding decimal_fuel
decimal_fuel-IsDigit zero n = tt
decimal_fuel-IsDigit (suc f) n = elim (Bool-cases (ltb n 10)) [
  | inl e ↦ rw (e, decimal_fuel) (ground arith)
  | inr e ↦
      rw (e, decimal_fuel)
        (All-append IsDigit (decimal_fuel f (n / 10)) _ (decimal_fuel-IsDigit f (n / 10))
          (omega arith))
]

pub decimal-IsDigit : (n : ℕ) → All IsDigit (decimal n)
unfolding decimal
decimal-IsDigit n = decimal_fuel-IsDigit (suc n) n
