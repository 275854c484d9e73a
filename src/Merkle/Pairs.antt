-- ===== src/Merkle/Pairs.antt =====
-- src/merkle/merkle_tree.cpp: one round of the loop of `BuildLevels`.
use blockchain_demo.Prelude.{
  ℕ, zero, suc, ◌+◌, ◌/◌, ◌%◌, ◌≡◌, refl, List, [], ◌∷◌, some, Bytes, arith, length, get_elem?, All,
  ◌==◌, if◌then◌else◌, none-ne-some,
}
use blockchain_demo.Encoding.{IsHash}
use blockchain_demo.Crypto.{Sodium}
use blockchain_demo.Merkle.{sibling_of, parent_hash, pair_up}

sibling_of_further : (n i : ℕ) → sibling_of (suc (suc n)) (suc (suc i)) ≡ suc (suc (sibling_of n i))
unfolding sibling_of
sibling_of_further n i = ground arith

sibling_only : sibling_of 1 0 ≡ 0
unfolding sibling_of
sibling_only = refl

sibling_first : (n : ℕ) → sibling_of (suc (suc n)) 0 ≡ 1
unfolding sibling_of
sibling_first n = ground arith

sibling_second : (n : ℕ) → sibling_of (suc (suc n)) 1 ≡ 0
unfolding sibling_of
sibling_second n = ground arith

half_further : (i : ℕ) → (suc (suc i) / 2 ≡ suc (i / 2)) × (suc (suc i) % 2 ≡ i % 2)
half_further i = omega arith

module _ ⦃sodium : Sodium⦄ where
  pub length-pair_up : (l : List Bytes) → length (pair_up l) ≡ (length l + 1) / 2
  unfolding pair_up
  length-pair_up [] = refl
  length-pair_up (a ∷ []) = refl
  length-pair_up (a ∷ b ∷ rest) = omega (arith, length-pair_up rest)

  -- The node above position `i`, from the node there and its sibling.
  abbrev pub joined : ℕ → Bytes → Bytes → Bytes
  joined i s h = if i % 2 == 1 then parent_hash s h else parent_hash h s

  -- Where a node stands, its sibling stands too, and the node above is the hash of both.
  pub pair_up-joined :
      (l : List Bytes) (i : ℕ) (h : Bytes)
      → get_elem? l i ≡ some h
      → (s : Bytes) × (get_elem? l (sibling_of (length l) i) ≡ some s)
        × (get_elem? (pair_up l) (i / 2) ≡ some (joined i s h))
  unfolding pair_up
  pair_up-joined [] i h e = absurd (none-ne-some e)
  pair_up-joined (a ∷ []) zero h e = (h, rw sibling_only e, ground arith)
  pair_up-joined (a ∷ []) (suc i) h e = absurd (none-ne-some e)
  pair_up-joined (a ∷ b ∷ rest) zero h e = (b, rw sibling_first, ground arith)
  pair_up-joined (a ∷ b ∷ rest) (suc zero) h e = (a, rw sibling_second, ground arith)
  pair_up-joined (a ∷ b ∷ rest) (suc (suc i)) h e =
      let (s, at, above) = pair_up-joined rest i h e in
      (s, rw sibling_of_further at, rw ((half_further i).0, (half_further i).1) above)

  pub pair_up-IsHash : (l : List Bytes) → All IsHash (pair_up l)
  unfolding pair_up parent_hash
  pair_up-IsHash [] = tt
  pair_up-IsHash (a ∷ []) = (sodium.hash_sha256-IsHash _, tt)
  pair_up-IsHash (a ∷ b ∷ rest) = (sodium.hash_sha256-IsHash _, pair_up-IsHash rest)
