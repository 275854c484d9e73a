-- ===== src/Merkle/Duplicate.antt =====
-- src/merkle/merkle_tree.cpp: the rule for odd levels gives two lists one root.
use blockchain_demo.Prelude.{
  ℕ, zero, suc, ◌%◌, ◌≡◌, ◌≤◌, ◌<◌, refl, ap, List, [], ◌∷◌, ◌++◌, map, Bytes, arith, length,
  length-map, length-append,
}
use mathlib.Core.List.{map-append}
use blockchain_demo.Crypto.{Sodium}
use blockchain_demo.Transaction.{Transaction}
use blockchain_demo.Merkle.{
  leaf_hash, leaves, levels_above, compute_root, top, pair_up, parent_hash,
}
use blockchain_demo.Merkle.Pairs.{length-pair_up}
use blockchain_demo.Merkle.Path.{top_many}

module _ ⦃sodium : Sodium⦄ where
  pair_up_twice :
      (m : List Bytes) (x : Bytes)
      → length m % 2 ≡ 0
      → pair_up (m ++ (x ∷ [])) ≡ pair_up (m ++ (x ∷ x ∷ []))
  unfolding pair_up
  pair_up_twice [] x even = refl
  pair_up_twice (a ∷ []) x even = absurd (omega arith)
  pair_up_twice (a ∷ b ∷ m) x even = ap (◌∷◌ (parent_hash a b)) (pair_up_twice m x (omega arith))

  -- More rounds than the level has nodes change nothing.
  levels_above_enough :
      (f g : ℕ) (l : List Bytes)
      → length l ≤ suc f
      → length l ≤ suc g
      → levels_above f l ≡ levels_above g l
  unfolding levels_above
  levels_above_enough zero zero l hf hg = refl
  levels_above_enough zero (suc g) l hf hg = ground arith
  levels_above_enough (suc f) zero l hf hg = ground arith
  levels_above_enough (suc f) (suc g) l hf hg =
      ground (arith, length-pair_up l, levels_above_enough f g (pair_up l))

  top_twice :
      (f g : ℕ) (m : List Bytes) (x : Bytes)
      → length m % 2 ≡ 0
      → 0 < length m
      → length m ≤ suc f
      → length m ≤ g
      → top (m ++ (x ∷ [])) (levels_above (suc f) (m ++ (x ∷ [])))
        ≡ top (m ++ (x ∷ x ∷ [])) (levels_above (suc g) (m ++ (x ∷ x ∷ [])))
  top_twice f g m x even pos hf hg =
      let one = length-append m (x ∷ []) in
      let two = length-append m (x ∷ x ∷ []) in
      rw
        (
          top_many f (m ++ (x ∷ [])) (omega (arith, one)),
          top_many g (m ++ (x ∷ x ∷ [])) (omega (arith, two)),
          pair_up_twice m x even,
        )
        (ap (top (pair_up (m ++ (x ∷ x ∷ [])))) (
          levels_above_enough f g (pair_up (m ++ (x ∷ x ∷ [])))
            (omega (arith, two, length-pair_up (m ++ (x ∷ x ∷ []))))
            (omega (arith, two, length-pair_up (m ++ (x ∷ x ∷ []))))))

  -- A block whose number of transactions is odd and above one has the root of the block in which
  -- the last transaction is repeated.
  pub compute_root_twice :
      (txs : List Transaction) (tx : Transaction)
      → length txs % 2 ≡ 0
      → 0 < length txs
      → compute_root (txs ++ (tx ∷ [])) ≡ compute_root (txs ++ (tx ∷ tx ∷ []))
  unfolding compute_root leaves
  compute_root_twice [] tx even pos = absurd (omega arith)
  compute_root_twice (t ∷ txs) tx even pos =
      rw (map-append leaf_hash txs (tx ∷ []), map-append leaf_hash txs (tx ∷ tx ∷ []))
        (top_twice (length (txs ++ (tx ∷ []))) (length (txs ++ (tx ∷ tx ∷ [])))
          (leaf_hash t ∷ map leaf_hash txs) (leaf_hash tx) (omega (arith, length-map leaf_hash txs))
          (omega arith) (omega (arith, length-map leaf_hash txs, length-append txs (tx ∷ [])))
          (omega (arith, length-map leaf_hash txs, length-append txs (tx ∷ tx ∷ []))))
