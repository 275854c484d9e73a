-- ===== src/Encoding/Hex.antt =====
-- src/common/types.cpp: hexadecimal text and bytes are inverse to one another, up to letter case.
use blockchain_demo.Prelude.{
  ℕ, ◌+◌, ◌*◌, ◌/◌, ◌%◌, ◌≡◌, ◌≢◌, ◌<◌, refl, subst, Option-cases, eq_of_some, none-ne-some, inl,
  inr, ◌&&◌, [], ◌∷◌, some, Bytes, arith, length, All, map, leb, if◌then◌else◌,
}
use blockchain_demo.Encoding.{
  IsByte, IsHash, from_hex, hex_digit, bytes_to_hex, hex_pairs, hex_to_bytes, hash_to_hex,
  hex_to_hash,
}

from_hex-hex_digit : (n : ℕ) → n < 16 → from_hex (hex_digit n) ≡ some n
unfolding from_hex hex_digit
from_hex-hex_digit n h = ground arith

hex_pairs-bytes_to_hex : (bs : Bytes) → All IsByte bs → hex_pairs (bytes_to_hex bs) ≡ some bs
unfolding hex_pairs bytes_to_hex
hex_pairs-bytes_to_hex [] h = refl
hex_pairs-bytes_to_hex (b ∷ bs) h =
    ground (
      arith,
      from_hex-hex_digit (b / 16),
      from_hex-hex_digit (b % 16),
      hex_pairs-bytes_to_hex bs h.1,
    )

length-bytes_to_hex : (bs : Bytes) → length (bytes_to_hex bs) ≡ length bs * 2
unfolding bytes_to_hex
length-bytes_to_hex [] = refl
length-bytes_to_hex (b ∷ bs) = omega (arith, length-bytes_to_hex bs)

-- `HexToBytes` reads back every string of bytes that `BytesToHex` wrote.
pub hex_to_bytes-bytes_to_hex :
    (bs : Bytes) → All IsByte bs → hex_to_bytes (bytes_to_hex bs) ≡ some bs
unfolding hex_to_bytes
hex_to_bytes-bytes_to_hex bs h = ground (arith, length-bytes_to_hex bs, hex_pairs-bytes_to_hex bs h)

-- `HexToHash` reads back every hash that `HashToHex` wrote.
pub hex_to_hash-hash_to_hex : (h : Bytes) → IsHash h → hex_to_hash (hash_to_hex h) ≡ some h
unfolding hex_to_hash hash_to_hex
hex_to_hash-hash_to_hex h v = ground (arith, hex_to_bytes-bytes_to_hex h v.1)

-- What `HexToBytes` does not distinguish: the case of a digit.
abbrev pub lower : ℕ → ℕ
lower c = if leb b'A' c && leb c b'F' then c + 32 else c

hex_digit-from_hex : (c n : ℕ) → from_hex c ≡ some n → (hex_digit n ≡ lower c) × (n < 16)
unfolding from_hex hex_digit
hex_digit-from_hex c n h = ground arith

digits_of : (hi lo : ℕ) → lo < 16 → ((hi * 16 + lo) / 16 ≡ hi) × ((hi * 16 + lo) % 16 ≡ lo)
digits_of hi lo h = omega arith

pair_digits :
    (c d hi lo : ℕ)
    → from_hex c ≡ some hi
    → from_hex d ≡ some lo
    → (bs s : Bytes) → (bytes_to_hex bs ≡ map lower s) × All IsByte bs
    → (bytes_to_hex ((hi * 16 + lo) ∷ bs) ≡ lower c ∷ lower d ∷ map lower s)
      × All IsByte ((hi * 16 + lo) ∷ bs)
unfolding bytes_to_hex
pair_digits c d hi lo e e' bs s ih =
    let (high, small) = hex_digit-from_hex c hi e in
    let (low, small') = hex_digit-from_hex d lo e' in
    let (first, second) = digits_of hi lo small' in
    (rw (first, second, high, low, ih.0), (omega arith, ih.1))

bytes_to_hex-hex_pairs :
    (s bs : Bytes) → hex_pairs s ≡ some bs → (bytes_to_hex bs ≡ map lower s) × All IsByte bs
unfolding hex_pairs bytes_to_hex
bytes_to_hex-hex_pairs [] bs h = ground arith
bytes_to_hex-hex_pairs (c ∷ []) bs h = cc
bytes_to_hex-hex_pairs (c ∷ d ∷ rest) bs h = elim (Option-cases (from_hex c)) [
  | inl e ↦ absurd (none-ne-some (rw (e, hex_pairs) at h))
  | inr (hi, e) ↦ elim (Option-cases (from_hex d)) [
    | inl e' ↦ absurd (none-ne-some (rw (e, e', hex_pairs) at h))
    | inr (lo, e') ↦ elim (Option-cases (hex_pairs rest)) [
      | inl e'' ↦ absurd (none-ne-some (rw (e, e', e'', hex_pairs) at h))
      | inr (bs', e'') ↦
          subst (λ out. (bytes_to_hex out ≡ map lower (c ∷ d ∷ rest)) × All IsByte out)
            (eq_of_some (rw (e, e', e'', hex_pairs) at h))
            (pair_digits c d hi lo e e' bs' rest (bytes_to_hex-hex_pairs rest bs' e''))
    ]
  ]
]

-- `BytesToHex` gives back the text that `HexToBytes` accepted, its letters in lower case, and
-- what `HexToBytes` returned are bytes.
pub bytes_to_hex-hex_to_bytes :
    (s bs : Bytes) → hex_to_bytes s ≡ some bs → (bytes_to_hex bs ≡ map lower s) × All IsByte bs
unfolding hex_to_bytes
bytes_to_hex-hex_to_bytes s bs h = bytes_to_hex-hex_pairs s bs (ground arith)

hex_digit-positive : (n : ℕ) → hex_digit n ≢ 0
unfolding hex_digit
hex_digit-positive n = ground arith

bytes_to_hex-LacksZero : (bs : Bytes) → All (λ c. c ≢ 0) (bytes_to_hex bs)
unfolding bytes_to_hex
bytes_to_hex-LacksZero [] = tt
bytes_to_hex-LacksZero (b ∷ bs) =
    (hex_digit-positive (b / 16), (hex_digit-positive (b % 16), bytes_to_hex-LacksZero bs))

pub hash_to_hex-LacksZero : (h : Bytes) → All (λ c. c ≢ 0) (hash_to_hex h)
unfolding hash_to_hex
hash_to_hex-LacksZero h = bytes_to_hex-LacksZero h
