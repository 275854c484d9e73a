-- ===== src/Merkle/Root.antt =====
-- src/merkle/merkle_tree.cpp: the root binds the list of transactions, once its length is known.
use blockchain_demo.Prelude.{
  ℕ, zero, suc, ◌≡◌, ◌≤◌, ◌⊎◌, ◌∙◌, sym, refl, ap, List, [], ◌∷◌, ◌++◌, map, Bytes, arith, length,
  All, true, false, ltb, inl, inr, length-map, Bool-cases, eq_of_some, ltb→lt, subst,
}
use blockchain_demo.Encoding.{IsHash}
use blockchain_demo.Crypto.{Sodium}
use blockchain_demo.Crypto.Collision.{
  Collision, collide_first, collide_later, collide_left, collide_right, sha256_or, node_or, tail_eq,
}
use blockchain_demo.Transaction.{Transaction, serialize_transaction_full}
use blockchain_demo.Merkle.{
  leaf_hash, leaves, levels_above, compute_root, top, pair_up, parent_hash,
}
use blockchain_demo.Merkle.Pairs.{length-pair_up, pair_up-IsHash}
use blockchain_demo.Merkle.Path.{top_many}

head_eq {ℓ} : {A : Type ℓ} {a b : A} {x y : List A} → (a ∷ x) ≡ (b ∷ y) → a ≡ b
head_eq h = cc

module _ ⦃sodium : Sodium⦄ where
  -- What is hashed for the level above, for all the levels above, and for a root.
  unfoldable pub level_messages : List Bytes → List Bytes
  level_messages [] = []
  level_messages (a ∷ []) = (1 ∷ (a ++ a)) ∷ []
  level_messages (a ∷ b ∷ rest) = (1 ∷ (a ++ b)) ∷ level_messages rest

  unfoldable pub tree_messages : ℕ → List Bytes → List Bytes
  unfolding level_messages pair_up
  tree_messages zero nodes = []
  tree_messages (suc f) nodes = elim (ltb 1 (length nodes)) [
    | true ↦ level_messages nodes ++ tree_messages f (pair_up nodes)
    | false ↦ []
  ]

  unfoldable pub leaf_messages : List Transaction → List Bytes
  leaf_messages [] = []
  leaf_messages (tx ∷ txs) = (0 ∷ serialize_transaction_full tx) ∷ leaf_messages txs

  unfoldable pub root_messages : List Transaction → List Bytes
  unfolding leaf_messages tree_messages leaves
  root_messages txs = leaf_messages txs ++ tree_messages (length txs) (leaves txs)

  pair_up_or :
      (l r : List Bytes)
      → length l ≡ length r
      → All IsHash l
      → All IsHash r
      → pair_up l ≡ pair_up r
      → (l ≡ r) ⊎ Collision (level_messages l) (level_messages r)
  unfolding pair_up parent_hash level_messages
  pair_up_or [] [] same hl hr e = inl refl
  pair_up_or [] (b ∷ r) same hl hr e = absurd (omega arith)
  pair_up_or (a ∷ l) [] same hl hr e = absurd (omega arith)
  pair_up_or (a ∷ []) (b ∷ []) same hl hr e = elim (node_or a a b b hl.0.0 hr.0.0 (head_eq e)) [
    | inl p ↦ inl (ap (λ x. x ∷ []) p.0)
    | inr c ↦ inr (collide_first _ _ c)
  ]
  pair_up_or (a ∷ []) (b ∷ c ∷ r) same hl hr e = absurd (omega arith)
  pair_up_or (a ∷ c ∷ l) (b ∷ []) same hl hr e = absurd (omega arith)
  pair_up_or (a ∷ c ∷ l) (b ∷ d ∷ r) same hl hr e =
      elim (node_or a c b d hl.0.0 hr.0.0 (head_eq e)) [
        | inl p ↦ elim (pair_up_or l r (omega arith) hl.1.1 hr.1.1 (tail_eq e)) [
          | inl rest ↦ inl (λ i. p.0 i ∷ p.1 i ∷ rest i)
          | inr c ↦ inr (collide_later _ _ c)
        ]
        | inr c ↦ inr (collide_first _ _ c)
      ]

  singles_eq : (l r : List Bytes) → length l ≡ length r → length l ≤ 1 → top l [] ≡ top r [] → l ≡ r
  unfolding top
  singles_eq [] [] same few e = refl
  singles_eq [] (b ∷ r) same few e = absurd (omega arith)
  singles_eq (a ∷ l) [] same few e = absurd (omega arith)
  singles_eq (a ∷ []) (b ∷ []) same few e = ap (λ x. x ∷ []) (eq_of_some e)
  singles_eq (a ∷ []) (b ∷ d ∷ r) same few e = absurd (omega arith)
  singles_eq (a ∷ c ∷ l) (b ∷ r) same few e = absurd (omega arith)

  climbed :
      (f : ℕ) (l r : List Bytes)
      → ltb 1 (length l) ≡ true
      → length l ≡ length r
      → Collision
          (level_messages l ++ tree_messages f (pair_up l))
          (level_messages r ++ tree_messages f (pair_up r))
      → Collision (tree_messages (suc f) l) (tree_messages (suc f) r)
  unfolding tree_messages
  climbed f l r many same c =
      let many' : ltb 1 (length r) ≡ true = subst (λ n. ltb 1 n ≡ true) same many in
      rw (many, tree_messages, many') c

  top_or :
      (f : ℕ) (l r : List Bytes)
      → length l ≡ length r
      → length l ≤ suc f
      → All IsHash l
      → All IsHash r
      → top l (levels_above f l) ≡ top r (levels_above f r)
      → (l ≡ r) ⊎ Collision (tree_messages f l) (tree_messages f r)
  unfolding levels_above
  top_or zero l r same room hl hr e = inl (singles_eq l r same room e)
  top_or (suc f) l r same room hl hr e = elim (Bool-cases (ltb 1 (length l))) [
    | inr few ↦ inl (singles_eq l r same (ground arith) (rw (few, ← same, few, levels_above) at e))
    | inl many ↦
        elim (top_or f (pair_up l) (pair_up r) (omega (arith, length-pair_up l, length-pair_up r))
          (omega (arith, length-pair_up l, ltb→lt 1 (length l) many)) (pair_up-IsHash l)
          (pair_up-IsHash r)
          (sym (top_many f l (ltb→lt 1 (length l) many))
            ∙ e
            ∙ top_many f r (omega (arith, ltb→lt 1 (length l) many)))) [
              | inl paired ↦ elim (pair_up_or l r same hl hr paired) [
                | inl eq ↦ inl eq
                | inr c ↦ inr (climbed f l r many same (collide_left _ _ c))
              ]
              | inr c ↦ inr (climbed f l r many same (collide_right _ _ c))
            ]
  ]

  leaves_or :
      (xs ys : List Transaction)
      → length xs ≡ length ys
      → map leaf_hash xs ≡ map leaf_hash ys
      → (map serialize_transaction_full xs ≡ map serialize_transaction_full ys)
        ⊎ Collision (leaf_messages xs) (leaf_messages ys)
  unfolding leaf_hash leaf_messages
  leaves_or [] [] same e = inl refl
  leaves_or [] (y ∷ ys) same e = absurd (omega arith)
  leaves_or (x ∷ xs) [] same e = absurd (omega arith)
  leaves_or (x ∷ xs) (y ∷ ys) same e =
      elim (sha256_or (0 ∷ serialize_transaction_full x) (0 ∷ serialize_transaction_full y)
        (head_eq e)) [
          | inl p ↦ elim (leaves_or xs ys (omega arith) (tail_eq e)) [
            | inl rest ↦ inl (λ i. tail_eq p i ∷ rest i)
            | inr c ↦ inr (collide_later _ _ c)
          ]
          | inr c ↦ inr (collide_first _ _ c)
        ]

  leaves-IsHash : (txs : List Transaction) → All IsHash (map leaf_hash txs)
  unfolding leaf_hash
  leaves-IsHash [] = tt
  leaves-IsHash (tx ∷ txs) = (sodium.hash_sha256-IsHash _, leaves-IsHash txs)

  -- Two lists of the same number of transactions with one root have the same serialisations in the
  -- same order, or SHA-256 collides on an input that is hashed for the root of the one list and one
  -- that is hashed for the root of the other.
  pub compute_root_binding :
      (xs ys : List Transaction)
      → length xs ≡ length ys
      → compute_root xs ≡ compute_root ys
      → (map serialize_transaction_full xs ≡ map serialize_transaction_full ys)
        ⊎ Collision (root_messages xs) (root_messages ys)
  unfolding compute_root leaves root_messages
  compute_root_binding [] [] same e = inl refl
  compute_root_binding [] (y ∷ ys) same e = absurd (omega arith)
  compute_root_binding (x ∷ xs) [] same e = absurd (omega arith)
  compute_root_binding (x ∷ xs) (y ∷ ys) same e =
      let right = map leaf_hash (y ∷ ys) in
      elim (top_or (suc (length xs)) (map leaf_hash (x ∷ xs)) right
        (omega (arith, length-map leaf_hash xs, length-map leaf_hash ys))
        (omega (arith, length-map leaf_hash xs)) (leaves-IsHash (x ∷ xs)) (leaves-IsHash (y ∷ ys))
        (e ∙ ap (λ n. top right (levels_above n right)) (sym same))) [
          | inl eq ↦ elim (leaves_or (x ∷ xs) (y ∷ ys) same eq) [
            | inl texts ↦ inl texts
            | inr c ↦ inr (collide_left _ _ c)
          ]
          | inr c ↦ inr (
              collide_right (leaf_messages (x ∷ xs)) (leaf_messages (y ∷ ys)) (
                subst
                  (λ n.
                    Collision (tree_messages (suc (length xs)) (map leaf_hash (x ∷ xs)))
                      (tree_messages n right))
                  same c))
        ]
