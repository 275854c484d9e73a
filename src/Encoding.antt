-- ===== src/Encoding.antt =====
-- src/common/types.cpp: hashes as 32 bytes and their hexadecimal text; and the decimal text that
-- `std::ostream` and `std::to_string` print for an unsigned integer.
pub mod Hex
pub mod Decimal
pub mod Fields
pub mod Zeros
pub mod Parse
use blockchain_demo.Prelude.{
  ℕ, zero, suc, ◌+◌, ◌-◌, ◌*◌, ◌/◌, ◌%◌, ◌≡◌, ◌<◌, Bool, true, false, ◌&&◌, List, [], ◌∷◌, ◌++◌,
  Option, none, some, Bytes, length, All, replicate, ltb, leb, ◌==◌, if◌then◌else◌,
}

-- The values of `Hash`, a `std::array<unsigned char, 32>`.
abbrev pub IsByte : ℕ → Type 0
IsByte b = b < 256

abbrev pub IsHash : Bytes → Type 0
IsHash h = (length h ≡ 32) × All IsByte h

-- `ZeroHash`
unfoldable pub zero_hash : Bytes
zero_hash = replicate 32 0

-- `FromHex`; `none` is the exception.
unfoldable pub from_hex : ℕ → Option ℕ
from_hex c =
    if leb b'0' c && leb c b'9'
    then some (c - b'0')
    else if leb b'a' c && leb c b'f'
    then some (c - b'a' + 10)
    else if leb b'A' c && leb c b'F'
    then some (c - b'A' + 10)
    else none

-- an entry of `table`
unfoldable pub hex_digit : ℕ → ℕ
hex_digit n = if ltb n 10 then b'0' + n else b'a' + (n - 10)

-- `BytesToHex`
unfoldable pub bytes_to_hex : Bytes → Bytes
unfolding hex_digit
bytes_to_hex [] = []
bytes_to_hex (b ∷ bs) = hex_digit (b / 16) ∷ hex_digit (b % 16) ∷ bytes_to_hex bs

-- the loop of `HexToBytes`, on a text of even length
unfoldable pub hex_pairs : Bytes → Option Bytes
unfolding from_hex
hex_pairs [] = some []
hex_pairs (c ∷ []) = none
hex_pairs (c ∷ d ∷ rest) = elim (from_hex c) [
  | none ↦ none
  | some hi ↦ elim (from_hex d) [
    | none ↦ none
    | some lo ↦ elim (hex_pairs rest) [ none ↦ none | some bs ↦ some ((hi * 16 + lo) ∷ bs) ]
  ]
]

-- `HexToBytes`; `none` is one of its exceptions.
unfoldable pub hex_to_bytes : Bytes → Option Bytes
unfolding hex_pairs
hex_to_bytes hex = if length hex % 2 == 0 then hex_pairs hex else none

-- `HashToHex`
unfoldable pub hash_to_hex : Bytes → Bytes
unfolding bytes_to_hex
hash_to_hex h = bytes_to_hex h

-- `HexToHash`
unfoldable pub hex_to_hash : Bytes → Option Bytes
unfolding hex_to_bytes
hex_to_hash hex = elim (hex_to_bytes hex) [
  | none ↦ none
  | some bytes ↦ if length bytes == 32 then some bytes else none
]

-- `os << n`; a number below `10 ^ fuel` needs no more fuel.
unfoldable pub decimal_fuel : ℕ → ℕ → Bytes
decimal_fuel zero n = []
decimal_fuel (suc f) n = elim (ltb n 10) [
  | true ↦ (b'0' + n) ∷ []
  | false ↦ decimal_fuel f (n / 10) ++ (b'0' + n % 10) ∷ []
]

unfoldable pub decimal : ℕ → Bytes
unfolding decimal_fuel
decimal n = decimal_fuel (suc n) n
