-- ===== src/Smt/Split.antt =====
-- src/smt/sparse_merkle_tree.cpp: splitting leaves by a bit, and following the path of a key.
use blockchain_demo.Prelude.{
  ℕ, zero, suc, ◌-◌, ◌≡◌, ◌<◌, refl, ap, ◌∙◌, Bool, true, false, List, [], ◌∷◌, Option, none, some,
  Bytes, arith, All, bytes_eq_iff, ==_iff, ◌==◌, Bool-cases, inl, inr,
}
use blockchain_demo.Encoding.{IsHash}
use blockchain_demo.Crypto.{Sodium}
use blockchain_demo.Smt.{
  Leaf, get_bit, side, find_leaf, leaf_hash, parent_hash, default_hash, compute_root_for_leaves,
}
use blockchain_demo.Smt.Bits.{key_of_bits}

-- The leaves left after the first `d` splits along the path of a key.
unfoldable pub followed : Bytes → ℕ → List Leaf → List Leaf
followed key zero leaves = leaves
followed key (suc d) leaves = side (get_bit key d) d (followed key d leaves)

find_leaf-side :
    (b : Bool) (key : Bytes) (d : ℕ) (leaves : List Leaf)
    → get_bit key d ≡ b
    → find_leaf key (side b d leaves) ≡ find_leaf key leaves
unfolding side find_leaf
find_leaf-side true key d [] e = refl
find_leaf-side false key d [] e = refl
find_leaf-side true key d (l ∷ leaves) e =
    ground (arith, find_leaf-side true key d leaves e, bytes_eq_iff l.key key)
find_leaf-side false key d (l ∷ leaves) e =
    ground (arith, find_leaf-side false key d leaves e, bytes_eq_iff l.key key)

-- Following the path of a key loses no leaf with that key.
pub find_leaf-followed :
    (key : Bytes) (d : ℕ) (leaves : List Leaf)
    → find_leaf key (followed key d leaves) ≡ find_leaf key leaves
unfolding followed
find_leaf-followed key zero leaves = refl
find_leaf-followed key (suc d) leaves =
    find_leaf-side (get_bit key d) key d (followed key d leaves) refl
    ∙ find_leaf-followed key d leaves

module _ (P : Leaf → Type 0) where
  pub All-side : (b : Bool) (d : ℕ) (leaves : List Leaf) → All P leaves → All P (side b d leaves)
  unfolding side
  All-side true d [] a = tt
  All-side false d [] a = tt
  All-side true d (l ∷ leaves) a = ground (arith, All-side true d leaves a.1)
  All-side false d (l ∷ leaves) a = ground (arith, All-side false d leaves a.1)

  pub All-followed :
      (key : Bytes) (d : ℕ) (leaves : List Leaf) → All P leaves → All P (followed key d leaves)
  unfolding followed
  All-followed key zero leaves a = a
  All-followed key (suc d) leaves a =
      All-side (get_bit key d) d (followed key d leaves) (All-followed key d leaves a)

  side_bits :
      (b : Bool) (d : ℕ) (leaves : List Leaf)
      → All P leaves
      → All (λ l. P l × (get_bit l.key d ≡ b)) (side b d leaves)
  unfolding side
  side_bits true d [] a = tt
  side_bits false d [] a = tt
  side_bits true d (l ∷ leaves) a = elim (Bool-cases (get_bit l.key d)) [
    | inl e ↦ rw (e, side) ((a.0, e), side_bits true d leaves a.1)
    | inr e ↦ rw (e, side) (side_bits true d leaves a.1)
  ]
  side_bits false d (l ∷ leaves) a = elim (Bool-cases (get_bit l.key d)) [
    | inl e ↦ rw (e, side) (side_bits false d leaves a.1)
    | inr e ↦ rw (e, side) ((a.0, e), side_bits false d leaves a.1)
  ]

-- A leaf agrees with a key on the first `d` bits.
abbrev pub Agrees : Bytes → ℕ → Leaf → Type 0
Agrees key d l = (i : ℕ) → i < d → get_bit l.key i ≡ get_bit key i

All-map :
    (P Q : Leaf → Type 0) (leaves : List Leaf)
    → ((l : Leaf) → P l → Q l)
    → All P leaves
    → All Q leaves
All-map P Q [] f a = tt
All-map P Q (l ∷ leaves) f a = (f l a.0, All-map P Q leaves f a.1)

one_more :
    (key : Bytes) (d : ℕ) (l : Leaf)
    → Agrees key d l
    → get_bit l.key d ≡ get_bit key d
    → Agrees key (suc d) l
one_more key d l h e i small = elim (Bool-cases (i == d)) [
  | inl p ↦ rw ((==_iff i d).0 p) e
  | inr p ↦ h i (ground arith)
]

Agrees-zero : (key : Bytes) (leaves : List Leaf) → All (Agrees key 0) leaves
Agrees-zero key [] = tt
Agrees-zero key (l ∷ leaves) = ((λ i h. elim h [ ]), Agrees-zero key leaves)

pub followed-Agrees :
    (key : Bytes) (d : ℕ) (leaves : List Leaf) → All (Agrees key d) (followed key d leaves)
unfolding followed
followed-Agrees key zero leaves = Agrees-zero key leaves
followed-Agrees key (suc d) leaves =
    All-map (λ l. Agrees key d l × (get_bit l.key d ≡ get_bit key d)) (Agrees key (suc d)) _
      (λ l h. one_more key d l h.0 h.1)
      (side_bits (Agrees key d) (get_bit key d) d (followed key d leaves)
        (followed-Agrees key d leaves))

-- At the end of the path of a key stand only leaves with that key.
end_of_path :
    (key : Bytes) (leaves : List Leaf)
    → IsHash key
    → All (λ l. IsHash l.key) leaves
    → All (Agrees key 256) leaves
    → All (λ l. l.key ≡ key) leaves
end_of_path key [] hk hl a = tt
end_of_path key (l ∷ leaves) hk hl a =
    (key_of_bits l.key key hl.0 hk a.0, end_of_path key leaves hk hl.1 a.1)

module _ ⦃sodium : Sodium⦄ where
  -- The hash at the end of a path: that of the leaf with the key, or the one for no leaf.
  abbrev pub end_hash : Bytes → Option Leaf → Bytes
  end_hash key found = elim found [ none ↦ default_hash 0 | some l ↦ leaf_hash key l.value_hash ]

  root_of_end :
      (key : Bytes) (leaves : List Leaf)
      → All (λ l. l.key ≡ key) leaves
      → compute_root_for_leaves 0 leaves ≡ end_hash key (find_leaf key leaves)
  unfolding compute_root_for_leaves find_leaf
  root_of_end key [] a = refl
  root_of_end key (l ∷ leaves) a = ground (arith, bytes_eq_iff l.key key, a.0)

  pub root_at_end :
      (key : Bytes) (leaves : List Leaf)
      → IsHash key
      → All (λ l. IsHash l.key) leaves
      → compute_root_for_leaves 0 (followed key 256 leaves) ≡ end_hash key (find_leaf key leaves)
  root_at_end key leaves hk hl =
      root_of_end key (followed key 256 leaves) (
        end_of_path key (followed key 256 leaves) hk
          (All-followed (λ l. IsHash l.key) key 256 leaves hl) (followed-Agrees key 256 leaves))
      ∙ ap (end_hash key) (find_leaf-followed key 256 leaves)

  -- The root of a subtree is the hash of the roots of its halves, also where it is empty.
  pub root_split :
      (h : ℕ) (leaves : List Leaf)
      → compute_root_for_leaves (suc h) leaves
        ≡ parent_hash
            (compute_root_for_leaves h (side false (255 - h) leaves))
            (compute_root_for_leaves h (side true (255 - h) leaves))
  unfolding compute_root_for_leaves side
  root_split h [] = refl
  root_split h (l ∷ leaves) = refl
