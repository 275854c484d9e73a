-- ===== src/Smt/Store.antt =====
-- src/smt/sparse_merkle_tree.cpp: the tree as a map from keys to values.
use blockchain_demo.Prelude.{
  ◌≡◌, refl, List, [], ◌∷◌, some, Bytes, arith, bytes_eq, bytes_eq_iff, if◌then◌else◌, Bool-cases,
  inl, inr,
}
use blockchain_demo.Encoding.{IsHash}
use blockchain_demo.Crypto.{Sodium, sha256}
use blockchain_demo.Smt.{Leaf, find_leaf, update, get}
use blockchain_demo.Smt.Complete.{IsTree}

module _ ⦃sodium : Sodium⦄ where
  get-cons :
      (k : Bytes) (l : Leaf) (leaves : List Leaf)
      → get k (l ∷ leaves) ≡ (if bytes_eq l.key k then some l.value else get k leaves)
  unfolding get find_leaf
  get-cons k l leaves = ground arith

  -- `Update` sets the value under its key and leaves every other key.
  pub get-update :
      (k q value : Bytes) (leaves : List Leaf)
      → get q (update k value leaves) ≡ (if bytes_eq k q then some value else get q leaves)
  unfolding update
  get-update k q value [] = unfold get find_leaf in (ground arith)
  get-update k q value (l ∷ leaves) = ground (
    arith,
    get-update k q value leaves,
    get-cons q l leaves,
    get-cons q (record l { value_hash = sha256 value; value = value }) leaves,
    get-cons q l (update k value leaves),
    bytes_eq_iff l.key k,
    bytes_eq_iff l.key q,
    bytes_eq_iff k q,
  )

  -- `Update` keeps the tree well formed.
  pub update-IsTree :
      (k value : Bytes) (leaves : List Leaf)
      → IsHash k
      → IsTree leaves
      → IsTree (update k value leaves)
  unfolding update
  update-IsTree k value [] hk t = ((hk, refl), tt)
  update-IsTree k value (l ∷ leaves) hk t = elim (Bool-cases (bytes_eq l.key k)) [
    | inl e ↦ rw (e, update) ((t.0.0, refl), t.1)
    | inr e ↦ rw (e, update) (t.0, update-IsTree k value leaves hk t.1)
  ]
