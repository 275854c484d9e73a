-- ===== src/Merkle.antt =====
-- src/merkle/merkle_tree.cpp: the Merkle tree over the transactions of a block.
pub mod Pairs
pub mod Path
pub mod Proof
pub mod Root
pub mod Duplicate
use blockchain_demo.Prelude.{
  ℕ, zero, suc, ◌+◌, ◌-◌, ◌/◌, ◌%◌, Bool, true, false, List, [], ◌∷◌, ◌++◌, Option, none, some, map,
  Bytes, bytes_eq, length, get_elem?, ltb, leb, ◌==◌, if◌then◌else◌,
}
use blockchain_demo.Encoding.{zero_hash}
use blockchain_demo.Crypto.{Sodium, sha256}
use blockchain_demo.Transaction.{Transaction, serialize_transaction_full}

-- `MerkleProofItem::Position`
pub data Position : Type 0 where
  left right : Position

pub record MerkleProofItem : Type 0 where
  pub position : Position
  pub sibling_hash : Bytes

-- `sibling` in `GenerateProof`, on a level of `n` nodes: an odd last node is its own sibling.
unfoldable pub sibling_of : ℕ → ℕ → ℕ
sibling_of n idx =
    let sibling = if idx % 2 == 1 then idx - 1 else idx + 1 in
    if leb n sibling then idx else sibling

-- `levels.back().front()` of `nodes` and the levels above it; `none` if there is no front.
unfoldable pub top : List Bytes → List (List Bytes) → Option Bytes
top nodes [] = get_elem? nodes 0
top nodes (next ∷ above) = top next above

-- the loop of `GenerateProof` over `nodes` and the levels above; `none` is a read out of bounds
unfoldable pub climb : List Bytes → List (List Bytes) → ℕ → Option (List MerkleProofItem)
unfolding sibling_of
climb nodes [] idx = some []
climb nodes (next ∷ above) idx = elim (get_elem? nodes (sibling_of (length nodes) idx)) [
  | none ↦ none
  | some h ↦ elim (climb next above (idx / 2)) [
    | none ↦ none
    | some items ↦
        some (record { position = if idx % 2 == 1 then left else right; sibling_hash = h } ∷ items)
  ]
]

module _ ⦃sodium : Sodium⦄ where
  -- `LeafHash`
  unfoldable pub leaf_hash : Transaction → Bytes
  leaf_hash tx = sha256 (0 ∷ serialize_transaction_full tx)

  -- `ParentHash`
  unfoldable pub parent_hash : Bytes → Bytes → Bytes
  parent_hash l r = sha256 (1 ∷ (l ++ r))

  -- one round of the `while` loop: the level above; an odd last node is paired with itself
  unfoldable pub pair_up : List Bytes → List Bytes
  pair_up [] = []
  pair_up (a ∷ []) = parent_hash a a ∷ []
  pair_up (a ∷ b ∷ rest) = parent_hash a b ∷ pair_up rest

  -- the levels that the `while` loop pushes above `nodes`, in at most `fuel` rounds
  unfoldable pub levels_above : ℕ → List Bytes → List (List Bytes)
  unfolding pair_up
  levels_above zero nodes = []
  levels_above (suc f) nodes = elim (ltb 1 (length nodes)) [
    | true ↦ let next = pair_up nodes in next ∷ levels_above f next
    | false ↦ []
  ]

  -- `levels[0]`
  unfoldable pub leaves : List Transaction → List Bytes
  unfolding leaf_hash zero_hash
  leaves [] = zero_hash ∷ []
  leaves (tx ∷ txs) = map leaf_hash (tx ∷ txs)

  -- `BuildLevels`: every round shortens the level, so its length is fuel enough.
  unfoldable pub build_levels : List Transaction → List (List Bytes)
  unfolding leaves levels_above
  build_levels txs = leaves txs ∷ levels_above (length txs) (leaves txs)

  -- `ComputeRoot`
  unfoldable pub compute_root : List Transaction → Option Bytes
  unfolding leaves levels_above top
  compute_root txs = top (leaves txs) (levels_above (length txs) (leaves txs))

  -- `GenerateProof`; `none` is the exception, or a read out of bounds.
  unfoldable pub generate_proof : List Transaction → ℕ → Option (List MerkleProofItem)
  unfolding leaves levels_above climb
  generate_proof txs tx_index =
      if leb (length txs) tx_index
      then none
      else climb (leaves txs) (levels_above (length txs) (leaves txs)) tx_index

  -- the loop of `VerifyProof`
  unfoldable pub replay : Bytes → List MerkleProofItem → Bytes
  unfolding parent_hash
  replay current [] = current
  replay current (item ∷ proof) =
      replay
        (elim item.position [
          | left ↦ parent_hash item.sibling_hash current
          | right ↦ parent_hash current item.sibling_hash
        ])
        proof

  -- `VerifyProof`
  unfoldable pub verify_proof : Transaction → List MerkleProofItem → Bytes → Bool
  unfolding leaf_hash replay
  verify_proof tx proof expected_root = bytes_eq (replay (leaf_hash tx) proof) expected_root
