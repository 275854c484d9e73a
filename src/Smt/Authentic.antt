-- ===== src/Smt/Authentic.antt =====
-- src/smt/sparse_merkle_tree.cpp: against the root of a tree, the two verifiers decide what the tree
-- holds.
use blockchain_demo.Prelude.{
  ℕ, zero, suc, ◌≡◌, ◌⊎◌, ap, sym, subst, ◌∙◌, true, List, [], ◌∷◌, none, some, Bytes, arith, All,
  All-append, Option-cases, inl, inr,
}
use mathlib.Core.List.{reverse, reverse-cons}
use blockchain_demo.Encoding.{IsHash}
use blockchain_demo.Encoding.Zeros.{zero_hash-IsHash}
use blockchain_demo.Crypto.{Sodium}
use blockchain_demo.Crypto.Collision.{Collision, collide_turned}
use blockchain_demo.Smt.Hashed.{
  existence_messages, absence_messages, tree_messages_for, tree_messages,
}
use blockchain_demo.Smt.{
  Leaf, SmtProof, leaf_hash, parent_hash, default_hash, compute_root_for_leaves, get_root, top_down,
  find_leaf, get, generate_existence_proof, generate_non_existence_proof, verify_existence_proof,
  verify_non_existence_proof,
}
use blockchain_demo.Smt.Complete.{
  IsTree, verify-generate_existence_proof, verify-generate_non_existence_proof,
}
use blockchain_demo.Smt.Sound.{IsProof, proofs_exclude, verify_existence_proof_binding}

All-reverse : (xs : List Bytes) → All IsHash xs → All IsHash (reverse xs)
All-reverse [] a = tt
All-reverse (x ∷ xs) a =
    rw (reverse-cons x xs) (All-append IsHash (reverse xs) (x ∷ []) (All-reverse xs a.1) (a.0, tt))

module _ ⦃sodium : Sodium⦄ where
  default_hash-IsHash : (h : ℕ) → IsHash (default_hash h)
  unfolding default_hash
  default_hash-IsHash zero = sodium.hash_sha256-IsHash _
  default_hash-IsHash (suc h) = sodium.hash_sha256-IsHash _

  compute_root_for_leaves-IsHash :
      (h : ℕ) (leaves : List Leaf) → IsHash (compute_root_for_leaves h leaves)
  unfolding compute_root_for_leaves
  compute_root_for_leaves-IsHash h [] = default_hash-IsHash h
  compute_root_for_leaves-IsHash zero (l ∷ leaves) =
      unfold leaf_hash in (sodium.hash_sha256-IsHash _)
  compute_root_for_leaves-IsHash (suc h) (l ∷ leaves) =
      unfold parent_hash in (sodium.hash_sha256-IsHash _)

  top_down-IsHash : (key : Bytes) (h : ℕ) (leaves : List Leaf) → All IsHash (top_down key h leaves)
  unfolding top_down
  top_down-IsHash key zero leaves = tt
  top_down-IsHash key (suc h) leaves = (compute_root_for_leaves-IsHash h _, top_down-IsHash key h _)

  pub existence-IsProof :
      (leaves : List Leaf) (key : Bytes) → IsProof (generate_existence_proof leaves key)
  unfolding generate_existence_proof
  existence-IsProof leaves key = record {
    siblings = All-reverse (top_down key 256 leaves) (top_down-IsHash key 256 leaves);
    collision_key = zero_hash-IsHash;
    collision_value = zero_hash-IsHash;
  }

  pub absence-IsProof :
      (leaves : List Leaf) (key : Bytes)
      → find_leaf key leaves ≡ none
      → IsProof (generate_non_existence_proof leaves key)
  unfolding generate_non_existence_proof
  absence-IsProof leaves key e = record {
    siblings = All-reverse (top_down key 256 leaves) (top_down-IsHash key 256 leaves);
    collision_key = rw (e, generate_non_existence_proof) zero_hash-IsHash;
    collision_value = rw (e, generate_non_existence_proof) zero_hash-IsHash;
  }

  pub find_leaf_of_get :
      (key : Bytes) (leaves : List Leaf) → get key leaves ≡ none → find_leaf key leaves ≡ none
  unfolding get
  find_leaf_of_get key leaves e = ground arith

  -- A value that `VerifyExistenceProof` accepts against the root of a tree whose keys are hashes
  -- and whose value hashes are those of its values, by a proof whose hashes are of 32 bytes, is
  -- the value that the tree holds under the key, or SHA-256 collides on an input that this
  -- verification hashes and one that is hashed when the tree's own proof for the key is verified.
  pub verify_existence_proof-get :
      (leaves : List Leaf) (key value : Bytes) (proof : SmtProof)
      → IsTree leaves
      → IsHash key
      → IsProof proof
      → verify_existence_proof (get_root leaves) key value proof ≡ some true
      → (get key leaves ≡ some value)
        ⊎ Collision (tree_messages leaves key) (existence_messages key value proof)
  unfolding tree_messages tree_messages_for
  verify_existence_proof-get leaves key value proof t hk hp e =
      let own = tree_messages_for leaves key in
      let seen = existence_messages key value proof in
      elim (Option-cases (get key leaves)) [
        | inl absent ↦ inr (
            subst (λ o. Collision (own o) seen) (sym absent)
              (collide_turned (
                proofs_exclude (get_root leaves) key value proof
                  (generate_non_existence_proof leaves key) hk hp
                  (absence-IsProof leaves key (find_leaf_of_get key leaves absent)) e
                  (verify-generate_non_existence_proof leaves key t hk absent))))
        | inr (held, found) ↦
            elim (verify_existence_proof_binding (get_root leaves) key held value
              (generate_existence_proof leaves key) proof hk (existence-IsProof leaves key) hp
              (verify-generate_existence_proof leaves key held t hk found) e) [
                | inl same ↦ inl (found ∙ ap some same)
                | inr c ↦ inr (subst (λ o. Collision (own o) seen) (sym found) c)
              ]
      ]

  -- Where `VerifyNonExistenceProof` accepts a proof whose hashes are of 32 bytes against the root
  -- of a tree whose keys are hashes and whose value hashes are those of its values, the tree
  -- holds nothing under the key, or SHA-256 collides on an input that this verification hashes and
  -- one that is hashed when the tree's own proof for the key is verified.
  pub verify_non_existence_proof-get :
      (leaves : List Leaf) (key : Bytes) (proof : SmtProof)
      → IsTree leaves
      → IsHash key
      → IsProof proof
      → verify_non_existence_proof (get_root leaves) key proof ≡ some true
      → (get key leaves ≡ none) ⊎ Collision (tree_messages leaves key) (absence_messages key proof)
  unfolding tree_messages tree_messages_for
  verify_non_existence_proof-get leaves key proof t hk hp e = elim (Option-cases (get key leaves)) [
    | inl absent ↦ inl absent
    | inr (held, found) ↦ inr (
        subst (λ o. Collision (tree_messages_for leaves key o) (absence_messages key proof))
          (sym found)
          (proofs_exclude (get_root leaves) key held (generate_existence_proof leaves key) proof hk
            (existence-IsProof leaves key) hp
            (verify-generate_existence_proof leaves key held t hk found) e))
  ]
