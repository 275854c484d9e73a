-- ===== src/Smt/Hashed.antt =====
-- src/smt/sparse_merkle_tree.cpp: the inputs of SHA-256 in a verification.
use blockchain_demo.Prelude.{
  ℕ, zero, suc, ◌-◌, Bool, List, [], ◌∷◌, ◌++◌, Option, none, some, Bytes, codes, get_elem?, true,
  false, if◌then◌else◌,
}
use blockchain_demo.Crypto.{Sodium, sha256}
use blockchain_demo.Smt.{
  Leaf, SmtProof, get_bit, get, leaf_hash, parent_hash, empty_leaf, generate_existence_proof,
  generate_non_existence_proof,
}

-- for a node above `current`
unfoldable pub turn_message : Bool → Bytes → Bytes → Bytes
turn_message true sibling current = 1 ∷ (sibling ++ current)
turn_message false sibling current = 1 ∷ (current ++ sibling)

-- where `VerifyNonExistenceProof` starts
unfoldable pub start_message : ⦃sodium : Sodium⦄ → SmtProof → Bytes
start_message proof =
    if proof.has_collision
    then 0 ∷ (proof.collision_leaf_key ++ proof.collision_leaf_value_hash)
    else codes "SMT_EMPTY_LEAF"

module _ ⦃sodium : Sodium⦄ where
  -- The hash from which the other verifier starts.
  unfoldable pub start_of : SmtProof → Bytes
  unfolding leaf_hash empty_leaf
  start_of proof =
      if proof.has_collision
      then leaf_hash proof.collision_leaf_key proof.collision_leaf_value_hash
      else empty_leaf

  -- in the loop of both verifiers
  unfoldable pub fold_messages : Bytes → List Bytes → ℕ → Bytes → List Bytes
  unfolding turn_message get_bit parent_hash
  fold_messages key siblings zero current = []
  fold_messages key siblings (suc depth) current = elim (get_elem? siblings (255 - depth)) [
    | none ↦ []
    | some sibling ↦
        turn_message (get_bit key depth) sibling current
        ∷ fold_messages key siblings depth
            (if get_bit key depth then parent_hash sibling current else parent_hash current sibling)
  ]

  -- in `VerifyExistenceProof`
  unfoldable pub existence_messages : Bytes → Bytes → SmtProof → List Bytes
  unfolding fold_messages leaf_hash
  existence_messages key value proof =
      value
      ∷ (0 ∷ (key ++ sha256 value))
      ∷ fold_messages key proof.sibling_hashes 256 (leaf_hash key (sha256 value))

  -- in `VerifyNonExistenceProof`
  unfoldable pub absence_messages : Bytes → SmtProof → List Bytes
  unfolding start_message start_of fold_messages
  absence_messages key proof =
      start_message proof ∷ fold_messages key proof.sibling_hashes 256 (start_of proof)

  -- in the verification of the proof that the tree itself generates for a key
  unfoldable pub tree_messages_for : List Leaf → Bytes → Option Bytes → List Bytes
  unfolding existence_messages absence_messages generate_existence_proof
      generate_non_existence_proof
  tree_messages_for leaves key none = absence_messages key (generate_non_existence_proof leaves key)
  tree_messages_for leaves key (some held) =
      existence_messages key held (generate_existence_proof leaves key)

  unfoldable pub tree_messages : List Leaf → Bytes → List Bytes
  unfolding tree_messages_for get
  tree_messages leaves key = tree_messages_for leaves key (get key leaves)
