-- ===== src/Smt.antt =====
-- src/smt/sparse_merkle_tree.cpp: the sparse Merkle tree over the account states, of depth 256.
pub mod Bits
pub mod Split
pub mod Store
pub mod Complete
pub mod Hashed
pub mod Sound
pub mod Authentic
use blockchain_demo.Prelude.{
  ℕ, zero, suc, ◌+◌, ◌-◌, ◌/◌, ◌%◌, ◌^◌, min, Bool, true, false, ◌&&◌, ◌||◌, not, List, [], ◌∷◌,
  ◌++◌, Option, none, some, Bytes, codes, bytes_eq, length, get_or, get_elem?, ◌==◌, if◌then◌else◌,
}
use mathlib.Core.List.{reverse}
use blockchain_demo.Encoding.{zero_hash}
use blockchain_demo.Crypto.{Sodium, sha256, sha256_string}

-- `SMTProofType`
pub data SmtProofType : Type 0 where
  existence non_existence : SmtProofType

-- `SMTProof`
pub record SmtProof : Type 0 where
  pub type : SmtProofType
  pub key : Bytes
  pub value_hash : Bytes
  pub sibling_hashes : List Bytes
  pub has_collision : Bool
  pub collision_leaf_key : Bytes
  pub collision_leaf_value_hash : Bytes

-- `SparseMerkleTree::Leaf`
pub record Leaf : Type 0 where
  pub key : Bytes
  pub value_hash : Bytes
  pub value : Bytes

-- `GetBit`
unfoldable pub get_bit : Bytes → ℕ → Bool
get_bit key depth = (get_or key (depth / 8) 0 / 2 ^ (7 - depth % 8)) % 2 == 1

-- the loop that sorts leaves by their bit at a depth: those on the given side, in order
unfoldable pub side : Bool → ℕ → List Leaf → List Leaf
side right depth [] = []
side true depth (leaf ∷ leaves) =
    if get_bit leaf.key depth then leaf ∷ side true depth leaves else side true depth leaves
side false depth (leaf ∷ leaves) =
    if get_bit leaf.key depth then side false depth leaves else leaf ∷ side false depth leaves

-- `FindLeaf`, with the leaf that stands at the index
unfoldable pub find_leaf : Bytes → List Leaf → Option Leaf
find_leaf key [] = none
find_leaf key (leaf ∷ leaves) = if bytes_eq leaf.key key then some leaf else find_leaf key leaves

-- `Get`; `none` is its `false`.
unfoldable pub get : Bytes → List Leaf → Option Bytes
unfolding find_leaf
get key leaves = elim (find_leaf key leaves) [ none ↦ none | some leaf ↦ some leaf.value ]

-- `LoadLeaf`
unfoldable pub load_leaf : Bytes → Bytes → Bytes → List Leaf → List Leaf
load_leaf key value_hash value leaves =
    leaves ++ (record { key = key; value_hash = value_hash; value = value } ∷ [])

module _ ⦃sodium : Sodium⦄ where
  -- `LeafHash`
  unfoldable pub leaf_hash : Bytes → Bytes → Bytes
  leaf_hash key value_hash = sha256 (0 ∷ (key ++ value_hash))

  -- `ParentHash`
  unfoldable pub parent_hash : Bytes → Bytes → Bytes
  parent_hash l r = sha256 (1 ∷ (l ++ r))

  unfoldable pub empty_leaf : Bytes
  unfolding sha256_string
  empty_leaf = sha256_string (codes "SMT_EMPTY_LEAF")

  -- `default_hashes_[256 - h]`, as the loop of the constructor fills it: the root of an empty
  -- subtree of height `h`
  unfoldable pub default_hash : ℕ → Bytes
  unfolding empty_leaf parent_hash
  default_hash zero = empty_leaf
  default_hash (suc h) = let below = default_hash h in parent_hash below below

  -- `ComputeRootForLeaves` at depth `256 - h`
  unfoldable pub compute_root_for_leaves : ℕ → List Leaf → Bytes
  unfolding default_hash side leaf_hash parent_hash
  compute_root_for_leaves h [] = default_hash h
  compute_root_for_leaves zero (leaf ∷ leaves) = leaf_hash leaf.key leaf.value_hash
  compute_root_for_leaves (suc h) (leaf ∷ leaves) =
      let left_hash = compute_root_for_leaves h (side false (255 - h) (leaf ∷ leaves)) in
      let right_hash = compute_root_for_leaves h (side true (255 - h) (leaf ∷ leaves)) in
      parent_hash left_hash right_hash

  -- `GetRoot`
  unfoldable pub get_root : List Leaf → Bytes
  get_root leaves = compute_root_for_leaves 256 leaves

  -- `Update`: the first leaf with the key, or a new last one, gets the value.
  unfoldable pub update : Bytes → Bytes → List Leaf → List Leaf
  update key value [] = record { key = key; value_hash = sha256 value; value = value } ∷ []
  update key value (leaf ∷ leaves) =
      if bytes_eq leaf.key key
      then record leaf { value_hash = sha256 value; value = value } ∷ leaves
      else leaf ∷ update key value leaves

  -- `top_down` from depth `256 - h` on: the roots of the subtrees beside the path of `key`
  unfoldable pub top_down : Bytes → ℕ → List Leaf → List Bytes
  unfolding side
  top_down key zero current = []
  top_down key (suc h) current =
      let target_right = get_bit key (255 - h) in
      compute_root_for_leaves h (side (not target_right) (255 - h) current)
      ∷ top_down key h (side target_right (255 - h) current)

  -- `GenerateExistenceProof`
  unfoldable pub generate_existence_proof : List Leaf → Bytes → SmtProof
  generate_existence_proof leaves key = record {
    type = existence;
    key = key;
    value_hash = elim (find_leaf key leaves) [ none ↦ zero_hash | some leaf ↦ leaf.value_hash ];
    sibling_hashes = reverse (top_down key 256 leaves);
    has_collision = false;
    collision_leaf_key = zero_hash;
    collision_leaf_value_hash = zero_hash;
  }

  -- `GenerateNonExistenceProof`
  unfoldable pub generate_non_existence_proof : List Leaf → Bytes → SmtProof
  generate_non_existence_proof leaves key = record {
    type = non_existence;
    key = key;
    value_hash = zero_hash;
    sibling_hashes = reverse (top_down key 256 leaves);
    has_collision = elim (find_leaf key leaves) [ none ↦ false | some leaf ↦ true ];
    collision_leaf_key = elim (find_leaf key leaves) [ none ↦ zero_hash | some leaf ↦ leaf.key ];
    collision_leaf_value_hash = elim (find_leaf key leaves) [
      | none ↦ zero_hash
      | some leaf ↦ leaf.value_hash
    ];
  }

  -- the loop of both verifiers, with `n` rounds left: depth `n - 1` reads sibling `256 - n`.
  -- `none` is a read past the end of `sibling_hashes`.
  unfoldable pub fold_siblings : Bytes → List Bytes → ℕ → Bytes → Option Bytes
  unfolding parent_hash
  fold_siblings key siblings zero current = some current
  fold_siblings key siblings (suc depth) current = elim (get_elem? siblings (255 - depth)) [
    | none ↦ none
    | some sibling ↦
        fold_siblings key siblings depth
          (if get_bit key depth then parent_hash sibling current else parent_hash current sibling)
  ]

  -- `VerifyExistenceProof`; `none` is the read past the end.
  unfoldable pub verify_existence_proof : Bytes → Bytes → Bytes → SmtProof → Option Bool
  verify_existence_proof root key value proof = elim proof.type [
    | non_existence ↦ some false
    | existence ↦ elim (fold_siblings key proof.sibling_hashes 256 (leaf_hash key (sha256 value))) [
      | none ↦ none
      | some current ↦ some (bytes_eq current root)
    ]
  ]

  -- `VerifyNonExistenceProof`
  unfoldable pub verify_non_existence_proof : Bytes → Bytes → SmtProof → Option Bool
  verify_non_existence_proof root key proof = elim proof.type [
    | existence ↦ some false
    | non_existence ↦
        elim (fold_siblings key proof.sibling_hashes 256 (
          if proof.has_collision
          then leaf_hash proof.collision_leaf_key proof.collision_leaf_value_hash
          else empty_leaf)) [
            | none ↦ none
            | some current ↦ some (
                bytes_eq current root
                && (not proof.has_collision || not (bytes_eq proof.collision_leaf_key key)))
          ]
  ]
