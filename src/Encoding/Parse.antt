-- ===== src/Encoding/Parse.antt =====
-- `std::stoull` in base 10, which src/consensus/consensus.cpp calls on a stored number.
use blockchain_demo.Prelude.{
  ℕ, ◌+◌, ◌-◌, ◌*◌, ◌%◌, Bool, ◌&&◌, ◌||◌, [], ◌∷◌, Option, none, some, Bytes, ltb, leb, ◌==◌,
  if◌then◌else◌,
}

unfoldable pub is_digit : ℕ → Bool
is_digit c = leb b'0' c && leb c b'9'

-- the value of the leading digits, after a value that is already read
unfoldable pub digits_value : ℕ → Bytes → ℕ
unfolding is_digit
digits_value n [] = n
digits_value n (c ∷ s) =
    let rest = digits_value (n * 10 + (c - b'0')) s in if is_digit c then rest else n

-- `none` is `invalid_argument`, where no digit leads, or `out_of_range`.
unfoldable pub unsigned_value : Bytes → Option ℕ
unfolding digits_value is_digit
unsigned_value [] = none
unsigned_value (c ∷ s) =
    if is_digit c
    then if ltb (digits_value 0 (c ∷ s)) 18446744073709551616
      then some (digits_value 0 (c ∷ s))
      else none
    else none

-- a sign, where there is one: a minus negates in 64 bits
unfoldable pub signed_value : Bytes → Option ℕ
unfolding unsigned_value
signed_value [] = none
signed_value (c ∷ s) =
    if c == b'+'
    then unsigned_value s
    else if c == b'-'
    then elim (unsigned_value s) [
      | none ↦ none
      | some n ↦ some ((18446744073709551616 - n) % 18446744073709551616)
    ]
    else unsigned_value (c ∷ s)

-- white space is skipped: the codes 9 to 13 and 32
unfoldable pub stoull : Bytes → Option ℕ
unfolding signed_value
stoull [] = none
stoull (c ∷ s) =
    let rest = stoull s in if (leb 9 c && leb c 13) || c == 32 then rest else signed_value (c ∷ s)
