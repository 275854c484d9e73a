-- ===== src/Tests/Sparse.antt =====
-- A sparse Merkle tree that holds one entry.
use blockchain_demo.Prelude.{
  ◌≡◌, ◌⊎◌, refl, [], ◌∷◌, true, false, none, some, List, Bytes, codes, if◌then◌else◌, bytes_eq,
  bytes_eq_refl, bytes_eq_iff, Bool-cases, inl, inr, ap, get_or, Bool, arith, ◌<◌, ◌-◌, get_elem?,
  length-append, All, length, suc, zero, ℕ,
}
use blockchain_demo.Encoding.{zero_hash, IsHash}
use blockchain_demo.Encoding.Zeros.{zero_hash-IsHash, zeros}
use blockchain_demo.Crypto.Collision.{Collision}
use blockchain_demo.Smt.{
  Leaf, parent_hash, leaf_hash, empty_leaf, fold_siblings, get_bit, SmtProof, existence,
  non_existence, get, update, get_root, generate_existence_proof, generate_non_existence_proof,
  verify_existence_proof, verify_non_existence_proof,
}
use blockchain_demo.Crypto.{sha256, sha256_string}
use blockchain_demo.Smt.Store.{get-update, update-IsTree}
use blockchain_demo.Smt.Complete.{
  IsTree, verify-generate_existence_proof, verify-generate_non_existence_proof,
}
use blockchain_demo.Smt.Hashed.{existence_messages, absence_messages, tree_messages}
use blockchain_demo.Smt.Sound.{IsProof}
use blockchain_demo.Smt.Authentic.{
  existence-IsProof, absence-IsProof, find_leaf_of_get, verify_existence_proof-get,
  verify_non_existence_proof-get,
}
use blockchain_demo.Tests.Toy.{toy, measure, measure-IsHash}

abbrev alice : Bytes
alice = zero_hash

abbrev bob : Bytes
bob = measure (codes "bob")

abbrev tree : List Leaf
tree = update alice (codes "100") []

tree-IsTree : IsTree tree
tree-IsTree = update-IsTree alice (codes "100") [] zero_hash-IsHash tt

get-update_example :
    get bob (update alice (codes "100") tree)
    ≡ (if bytes_eq alice bob then some (codes "100") else get bob tree)
get-update_example = get-update alice bob (codes "100") tree

held : get alice tree ≡ some (codes "100")
held = rw (get-update alice alice (codes "100") [], bytes_eq_refl alice) refl

free : get bob tree ≡ none
unfolding zero_hash get
free = elim (Bool-cases (bytes_eq alice bob)) [
  | inl e ↦ absurd (omega (arith, ap (λ (s : Bytes). get_or s 0 0) ((bytes_eq_iff alice bob).0 e)))
  | inr e ↦ rw (get-update alice bob (codes "100") [], e) refl
]

verify-generate_existence_proof_example :
    verify_existence_proof (get_root tree) alice (codes "100") (generate_existence_proof tree alice)
    ≡ some true
verify-generate_existence_proof_example =
    verify-generate_existence_proof tree alice (codes "100") tree-IsTree zero_hash-IsHash held

verify-generate_non_existence_proof_example :
    verify_non_existence_proof (get_root tree) bob (generate_non_existence_proof tree bob)
    ≡ some true
verify-generate_non_existence_proof_example =
    verify-generate_non_existence_proof tree bob tree-IsTree (measure-IsHash (codes "bob")) free

abbrev padded : ℕ → List Bytes
padded zero = []
padded (suc n) = zero_hash ∷ padded n

padded-IsHash : (n : ℕ) → All IsHash (padded n)
padded-IsHash zero = tt
padded-IsHash (suc n) = (zero_hash-IsHash, padded-IsHash n)

abbrev present : SmtProof
present = record {
  type = existence;
  key = alice;
  value_hash = zero_hash;
  sibling_hashes = padded 256;
  has_collision = false;
  collision_leaf_key = zero_hash;
  collision_leaf_value_hash = zero_hash;
}

abbrev absent : SmtProof
absent = record present { type = non_existence }

present-IsProof : IsProof present
present-IsProof = record {
  siblings = padded-IsHash 256;
  collision_key = zero_hash-IsHash;
  collision_value = zero_hash-IsHash;
}

absent-IsProof : IsProof absent
absent-IsProof = record {
  siblings = padded-IsHash 256;
  collision_key = zero_hash-IsHash;
  collision_value = zero_hash-IsHash;
}

abbrev root : Bytes
root = 65 ∷ zeros 31

get_padded : (n i : ℕ) → i < n → get_elem? (padded n) i ≡ some zero_hash
get_padded zero i h = absurd (omega arith)
get_padded (suc n) zero h = refl
get_padded (suc n) (suc i) h = get_padded n i (omega arith)

joined : (l r : Bytes) → length l ≡ 32 → length r ≡ 32 → parent_hash l r ≡ root
unfolding parent_hash
joined l r hl hr = rw (length-append l r, hl, hr) refl

turned :
    (b : Bool) (x : Bytes)
    → length x ≡ 32
    → (if b then parent_hash zero_hash x else parent_hash x zero_hash) ≡ root
turned true x h = joined zero_hash x zero_hash-IsHash.0 h
turned false x h = joined x zero_hash h zero_hash-IsHash.0

-- Under the toy hash every path ends in one root.
all_roads :
    (key : Bytes) (ss : List Bytes) (n : ℕ) (x : Bytes)
    → ((i : ℕ) → i < 256 → get_elem? ss i ≡ some zero_hash)
    → length x ≡ 32
    → fold_siblings key ss (suc n) x ≡ some root
unfolding fold_siblings
all_roads key ss zero x reads h =
    rw (reads 255 (omega arith), fold_siblings, turned (get_bit key 0) x h) refl
all_roads key ss (suc n) x reads h =
    rw (reads (255 - suc n) (omega arith), fold_siblings)
      (all_roads key ss n _ reads (ap length (turned (get_bit key (suc n)) x h)))

length-leaf_hash : (k v : Bytes) → length (leaf_hash k v) ≡ 32
unfolding leaf_hash
length-leaf_hash k v = refl

length-empty_leaf : length empty_leaf ≡ 32
unfolding empty_leaf sha256_string
length-empty_leaf = refl

shown_present : verify_existence_proof root alice (codes "100") present ≡ some true
unfolding verify_existence_proof
shown_present =
    rw
      (
        all_roads alice (padded 256) 255 (leaf_hash alice (sha256 (codes "100"))) (get_padded 256)
            (length-leaf_hash alice (sha256 (codes "100"))),
        verify_existence_proof,
        bytes_eq_refl root,
      )
      refl

shown_absent : verify_non_existence_proof root alice absent ≡ some true
unfolding verify_non_existence_proof
shown_absent =
    rw
      (
        all_roads alice (padded 256) 255 empty_leaf (get_padded 256) length-empty_leaf,
        verify_non_existence_proof,
        bytes_eq_refl root,
      )
      refl

verify_existence_proof-get_example :
    (get alice tree ≡ some (codes "100"))
    ⊎ Collision
        (tree_messages tree alice)
        (existence_messages alice (codes "100") (generate_existence_proof tree alice))
verify_existence_proof-get_example =
    verify_existence_proof-get tree alice (codes "100") (generate_existence_proof tree alice)
      tree-IsTree zero_hash-IsHash (existence-IsProof tree alice)
      (verify-generate_existence_proof tree alice (codes "100") tree-IsTree zero_hash-IsHash held)

verify_non_existence_proof-get_example :
    (get bob tree ≡ none)
    ⊎ Collision
        (tree_messages tree bob)
        (absence_messages bob (generate_non_existence_proof tree bob))
verify_non_existence_proof-get_example =
    verify_non_existence_proof-get tree bob (generate_non_existence_proof tree bob) tree-IsTree
      (measure-IsHash (codes "bob")) (absence-IsProof tree bob (find_leaf_of_get bob tree free))
      (verify-generate_non_existence_proof tree bob tree-IsTree (measure-IsHash (codes "bob")) free)
