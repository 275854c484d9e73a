-- ===== src/Crypto/Collision.antt =====
-- src/crypto/crypto_utils.cpp: what it means that inputs of SHA-256 collide. Collisions exist, since
-- there are more inputs than hashes: the theorems on proofs end in a collision between inputs that the
-- computations in question have hashed, where a cryptographer would assume that none is ever found.
use mathlib.Core.List.{Memᴰ}
use mathlib.Core.List.Memᴰ
use blockchain_demo.Prelude.{
  List, [], ◌∷◌, ◌++◌, refl, sym, ◌∙◌, length, ◌≡◌, ◌≢◌, ◌⊎◌, inl, inr, Bytes, arith, bytes_eq,
  bytes_eq_iff, Bool-cases,
}
use blockchain_demo.Crypto.{Sodium, sha256}

pub tail_eq {ℓ} : {A : Type ℓ} {a b : A} {x y : List A} → (a ∷ x) ≡ (b ∷ y) → x ≡ y
tail_eq h = cc

pub append-injective :
    (l l' r r' : Bytes) → length l ≡ length l' → l ++ r ≡ l' ++ r' → (l ≡ l') × (r ≡ r')
append-injective [] [] r r' h e = (refl, e)
append-injective [] (y ∷ l') r r' h e = absurd (omega arith)
append-injective (x ∷ l) [] r r' h e = absurd (omega arith)
append-injective (x ∷ l) (y ∷ l') r r' h e =
    ground (arith, append-injective l l' r r' (omega arith) (tail_eq e))

module _ ⦃sodium : Sodium⦄ where
  -- Two different inputs with one hash.
  abbrev pub Clash : Bytes → Bytes → Type 0
  Clash x y = (x ≢ y) × (sha256 x ≡ sha256 y)

  -- Two different inputs with one hash, one among the first and one among the second: the inputs that
  -- two given computations hash.
  pub record Collision (xs ys : List Bytes) : Type 0 where
    pub first : Bytes
    pub second : Bytes
    pub in_first : Memᴰ first xs
    pub in_second : Memᴰ second ys
    pub clash : Clash first second

  pub collide :
      {xs ys : List Bytes} (x y : Bytes) → Memᴰ x xs → Memᴰ y ys → Clash x y → Collision xs ys
  collide x y mx my c = record { first = x; second = y; in_first = mx; in_second = my; clash = c }

  pub collide_first : {xs ys : List Bytes} (x y : Bytes) → Clash x y → Collision (x ∷ xs) (y ∷ ys)
  collide_first x y c = collide x y (Memᴰ.head refl) (Memᴰ.head refl) c

  pub collide_later :
      {xs ys : List Bytes} (x y : Bytes) → Collision xs ys → Collision (x ∷ xs) (y ∷ ys)
  collide_later x y c =
      collide c.first c.second (Memᴰ.tail c.in_first) (Memᴰ.tail c.in_second) c.clash

  pub collide_left :
      {xs ys : List Bytes} (zs ws : List Bytes) → Collision xs ys → Collision (xs ++ zs) (ys ++ ws)
  collide_left zs ws c =
      collide c.first c.second (Memᴰ.append_left zs c.in_first) (Memᴰ.append_left ws c.in_second)
        c.clash

  pub collide_right :
      {zs ws : List Bytes} (xs ys : List Bytes) → Collision zs ws → Collision (xs ++ zs) (ys ++ ws)
  collide_right xs ys c =
      collide c.first c.second (Memᴰ.append_right xs c.in_first) (Memᴰ.append_right ys c.in_second)
        c.clash

  pub collide_turned : {xs ys : List Bytes} → Collision xs ys → Collision ys xs
  collide_turned c =
      collide c.second c.first c.in_second c.in_first ((λ e. c.clash.0 (sym e)), sym c.clash.1)

  -- Equal hashes come from equal inputs, or the two inputs collide.
  pub sha256_or : (x y : Bytes) → sha256 x ≡ sha256 y → (x ≡ y) ⊎ Clash x y
  sha256_or x y h = elim (Bool-cases (bytes_eq x y)) [
    | inl e ↦ inl ((bytes_eq_iff x y).0 e)
    | inr e ↦ inr ((λ p. ground (arith, bytes_eq_iff x y)), h)
  ]

  -- The two halves of an inner node, both 32 bytes, are determined by its hash.
  pub node_or :
      (l r l' r' : Bytes)
      → length l ≡ 32
      → length l' ≡ 32
      → sha256 (1 ∷ (l ++ r)) ≡ sha256 (1 ∷ (l' ++ r'))
      → ((l ≡ l') × (r ≡ r')) ⊎ Clash (1 ∷ (l ++ r)) (1 ∷ (l' ++ r'))
  node_or l r l' r' hl hl' h = elim (sha256_or (1 ∷ (l ++ r)) (1 ∷ (l' ++ r')) h) [
    | inl e ↦ inl (append-injective l l' r r' (hl ∙ sym hl') (tail_eq e))
    | inr c ↦ inr c
  ]
