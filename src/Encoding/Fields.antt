-- ===== src/Encoding/Fields.antt =====
-- The texts that are hashed and signed: fields joined by '|'.
use blockchain_demo.Prelude.{ℕ, ◌≡◌, ◌≢◌, refl, [], ◌∷◌, ◌++◌, Bytes, arith, All}
use blockchain_demo.Encoding.{decimal}
use blockchain_demo.Encoding.Decimal.{decimal-IsDigit, IsDigit}

abbrev pub bar : ℕ
bar = b'|'

abbrev pub LacksBar : Bytes → Type 0
LacksBar = All (λ c. c ≢ bar)

-- The first field of a text is determined by it, and so is the rest.
pub split_at_bar :
    (a b r s : Bytes)
    → LacksBar a
    → LacksBar b
    → a ++ (bar ∷ r) ≡ b ++ (bar ∷ s)
    → (a ≡ b) × (r ≡ s)
split_at_bar [] [] r s ha hb e = (refl, ground arith)
split_at_bar [] (y ∷ b) r s ha hb e = ground arith
split_at_bar (x ∷ a) [] r s ha hb e = ground arith
split_at_bar (x ∷ a) (y ∷ b) r s ha hb e =
    ground (arith, split_at_bar a b r s ha.1 hb.1 (ground arith))

LacksBar-IsDigit : (s : Bytes) → All IsDigit s → LacksBar s
LacksBar-IsDigit [] h = tt
LacksBar-IsDigit (c ∷ s) h = (omega arith, LacksBar-IsDigit s h.1)

pub decimal-LacksBar : (n : ℕ) → LacksBar (decimal n)
decimal-LacksBar n = LacksBar-IsDigit (decimal n) (decimal-IsDigit n)

LacksZero-IsDigit : (s : Bytes) → All IsDigit s → All (λ c. c ≢ 0) s
LacksZero-IsDigit [] h = tt
LacksZero-IsDigit (c ∷ s) h = (omega arith, LacksZero-IsDigit s h.1)

pub decimal-LacksZero : (n : ℕ) → All (λ c. c ≢ 0) (decimal n)
decimal-LacksZero n = LacksZero-IsDigit (decimal n) (decimal-IsDigit n)
