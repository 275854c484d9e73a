-- ===== src/Smt/Complete.antt =====
-- src/smt/sparse_merkle_tree.cpp: the proofs that the tree generates are accepted.
use blockchain_demo.Prelude.{
  ℕ, zero, suc, ◌+◌, ◌-◌, ◌≡◌, ◌<◌, refl, sym, ap, ◌∙◌, subst, true, false, not, List, [], ◌∷◌,
  ◌++◌, none, some, Bytes, arith, length, get_elem?, All, bytes_eq_refl, if◌then◌else◌, Bool-cases,
  Option-cases, inl, inr, length-append, none-ne-some, eq_of_some,
}
use mathlib.Core.List.{reverse, reverse-cons}
use blockchain_demo.Encoding.{IsHash}
use blockchain_demo.Crypto.{Sodium, sha256}
use blockchain_demo.Smt.{
  Leaf, SmtProof, existence, non_existence, get_bit, side, find_leaf, leaf_hash, parent_hash,
  default_hash, compute_root_for_leaves, empty_leaf, get_root, top_down, fold_siblings,
  generate_existence_proof, generate_non_existence_proof, verify_existence_proof,
  verify_non_existence_proof, get,
}
use blockchain_demo.Smt.Split.{followed, root_split, root_at_end, end_hash}

module _ {ℓ} {A : Type ℓ} where
  length-reverse : (xs : List A) → length (reverse xs) ≡ length xs
  length-reverse [] = refl
  length-reverse (x ∷ xs) =
      ap length (reverse-cons x xs)
      ∙ omega (arith, length-append (reverse xs) (x ∷ []), length-reverse xs)

  get_elem?-append_left :
      (xs ys : List A) (i : ℕ) → i < length xs → get_elem? (xs ++ ys) i ≡ get_elem? xs i
  get_elem?-append_left [] ys i h = elim h [ ]
  get_elem?-append_left (x ∷ xs) ys zero h = refl
  get_elem?-append_left (x ∷ xs) ys (suc i) h = get_elem?-append_left xs ys i (omega arith)

  get_elem?-append_end : (xs : List A) (y : A) → get_elem? (xs ++ (y ∷ [])) (length xs) ≡ some y
  get_elem?-append_end [] y = refl
  get_elem?-append_end (x ∷ xs) y = get_elem?-append_end xs y

  -- A list read backwards.
  get_elem?-reverse :
      (xs : List A) (i j : ℕ) → suc (i + j) ≡ length xs → get_elem? (reverse xs) i ≡ get_elem? xs j
  get_elem?-reverse [] i j h = absurd (omega arith)
  get_elem?-reverse (x ∷ xs) i zero h = rw (reverse-cons x xs) (
      subst (λ n. get_elem? (reverse xs ++ (x ∷ [])) n ≡ some x) (omega (arith, length-reverse xs))
        (get_elem?-append_end (reverse xs) x))
  get_elem?-reverse (x ∷ xs) i (suc j) h = rw (reverse-cons x xs) (
      get_elem?-append_left (reverse xs) (x ∷ []) i (omega (arith, length-reverse xs))
      ∙ get_elem?-reverse xs i j (omega arith))

module _ ⦃sodium : Sodium⦄ where
  length-top_down : (key : Bytes) (h : ℕ) (leaves : List Leaf) → length (top_down key h leaves) ≡ h
  unfolding top_down
  length-top_down key zero leaves = refl
  length-top_down key (suc h) leaves = ap suc (length-top_down key h _)

  -- The root of the subtree beside the path of a key at depth `d`.
  beside : Bytes → ℕ → List Leaf → Bytes
  beside key d leaves =
      compute_root_for_leaves (255 - d) (side (not (get_bit key d)) d (followed key d leaves))

  get_elem?-top_down :
      (key : Bytes) (leaves : List Leaf) (h d j : ℕ)
      → d + h ≡ 256
      → j < h
      → get_elem? (top_down key h (followed key d leaves)) j ≡ some (beside key (d + j) leaves)
  unfolding top_down beside followed
  get_elem?-top_down key leaves zero d j whole inside = elim inside [ ]
  get_elem?-top_down key leaves (suc h) d zero whole inside =
      let here : 255 - h ≡ d = omega arith in
      let there : 255 - d ≡ h = omega arith in
      let same : d + 0 ≡ d = omega arith in rw (here, same, there)
  get_elem?-top_down key leaves (suc h) d (suc j) whole inside =
      let here : 255 - h ≡ d = omega arith in
      let next : d + suc j ≡ suc d + j = omega arith in
      rw (here, next) (get_elem?-top_down key leaves h (suc d) j (omega arith) (omega arith))

  -- What a verifier reads at round `d` of a generated proof.
  sibling_at :
      (key : Bytes) (leaves : List Leaf) (d : ℕ)
      → d < 256
      → get_elem? (reverse (top_down key 256 leaves)) (255 - d) ≡ some (beside key d leaves)
  unfolding followed
  sibling_at key leaves d inside =
      get_elem?-reverse (top_down key 256 leaves) (255 - d) d
        (omega (arith, length-top_down key 256 leaves))
      ∙ get_elem?-top_down key leaves 256 0 d refl inside
      ∙ ap (λ n. some (beside key n leaves)) (omega arith)

  -- One round of the verifier goes from the subtree at depth `d + 1` to that at depth `d`.
  join_halves :
      (key : Bytes) (leaves : List Leaf) (d h : ℕ)
      → d + h ≡ 255
      → (if get_bit key d
          then parent_hash
              (beside key d leaves)
              (compute_root_for_leaves h (followed key (suc d) leaves))
          else parent_hash
              (compute_root_for_leaves h (followed key (suc d) leaves))
              (beside key d leaves))
        ≡ compute_root_for_leaves (suc h) (followed key d leaves)
  unfolding beside followed
  join_halves key leaves d h whole =
      let here : 255 - h ≡ d = omega arith in
      let there : 255 - d ≡ h = omega arith in
      rw (root_split, here, there)
        (elim (Bool-cases (get_bit key d)) [ inl e ↦ rw e | inr e ↦ rw e ])

  fold_siblings-root :
      (key : Bytes) (leaves : List Leaf) (d h : ℕ)
      → d + h ≡ 256
      → fold_siblings key
          (reverse (top_down key 256 leaves))
          d
          (compute_root_for_leaves h (followed key d leaves))
        ≡ some (compute_root_for_leaves 256 leaves)
  unfolding fold_siblings followed
  fold_siblings-root key leaves zero h whole = let all : h ≡ 256 = omega arith in rw all
  fold_siblings-root key leaves (suc d) h whole =
      rw
        (
          sibling_at key leaves d (omega arith),
          fold_siblings,
          join_halves key leaves d h (omega arith),
        )
        (fold_siblings-root key leaves d (suc h) (omega arith))

  -- What the code relies on: keys are hashes, and every leaf carries the hash of its value.
  abbrev pub IsTree : List Leaf → Type 0
  IsTree = All (λ l. IsHash l.key × (l.value_hash ≡ sha256 l.value))

  keys_are_hashes : (leaves : List Leaf) → IsTree leaves → All (λ l. IsHash l.key) leaves
  keys_are_hashes [] t = tt
  keys_are_hashes (l ∷ leaves) t = (t.0.0, keys_are_hashes leaves t.1)

  pub find_leaf_hashed :
      (key : Bytes) (leaves : List Leaf) (l : Leaf)
      → IsTree leaves
      → find_leaf key leaves ≡ some l
      → l.value_hash ≡ sha256 l.value
  unfolding find_leaf
  find_leaf_hashed key [] l t e = cc
  find_leaf_hashed key (m ∷ leaves) l t e = ground (arith, find_leaf_hashed key leaves l t.1, t.0.1)

  -- The verifier's loop over a generated proof, from the end of the path, gives the root.
  pub fold_siblings-get_root :
      (key : Bytes) (leaves : List Leaf)
      → IsHash key
      → IsTree leaves
      → fold_siblings key
          (reverse (top_down key 256 leaves))
          256
          (end_hash key (find_leaf key leaves))
        ≡ some (get_root leaves)
  unfolding get_root
  fold_siblings-get_root key leaves hk t =
      subst
        (λ x.
          fold_siblings key (reverse (top_down key 256 leaves)) 256 x
          ≡ some (compute_root_for_leaves 256 leaves))
        (root_at_end key leaves hk (keys_are_hashes leaves t))
        (fold_siblings-root key leaves 256 0 refl)

  accepts :
      (root key value : Bytes) (proof : SmtProof)
      → proof.type ≡ existence
      → fold_siblings key proof.sibling_hashes 256 (leaf_hash key (sha256 value)) ≡ some root
      → verify_existence_proof root key value proof ≡ some true
  unfolding verify_existence_proof
  accepts root key value proof kind folded =
      rw (kind, folded, verify_existence_proof) (ap some (bytes_eq_refl root))

  accepts_absence :
      (root key : Bytes) (proof : SmtProof)
      → proof.type ≡ non_existence
      → proof.has_collision ≡ false
      → fold_siblings key proof.sibling_hashes 256 empty_leaf ≡ some root
      → verify_non_existence_proof root key proof ≡ some true
  unfolding verify_non_existence_proof
  accepts_absence root key proof kind free folded =
      rw (kind, free, folded, verify_non_existence_proof) (ground (arith, bytes_eq_refl root))

  -- Where the tree holds a value under a key, the generated existence proof is accepted for that
  -- value against the tree's root.
  pub verify-generate_existence_proof :
      (leaves : List Leaf) (key value : Bytes)
      → IsTree leaves
      → IsHash key
      → get key leaves ≡ some value
      → verify_existence_proof (get_root leaves) key value (generate_existence_proof leaves key)
        ≡ some true
  unfolding verify_existence_proof generate_existence_proof get
  verify-generate_existence_proof leaves key value t hk e =
      elim (Option-cases (find_leaf key leaves)) [
        | inl absent ↦ absurd (none-ne-some (rw (absent, get) at e))
        | inr (l, found) ↦
            let folded = rw found at (fold_siblings-get_root key leaves hk t) in
            let hashed : l.value_hash ≡ sha256 value =
              find_leaf_hashed key leaves l t found
              ∙ ap (λ v. sha256 v) (eq_of_some (rw (found, get) at e)) in
            accepts (get_root leaves) key value (generate_existence_proof leaves key) refl (
              subst
                (λ v.
                  fold_siblings key (reverse (top_down key 256 leaves)) 256 (leaf_hash key v)
                  ≡ some (get_root leaves))
                hashed folded)
      ]

  -- Where the tree holds nothing under a key, the generated non-existence proof is accepted.
  pub verify-generate_non_existence_proof :
      (leaves : List Leaf) (key : Bytes)
      → IsTree leaves
      → IsHash key
      → get key leaves ≡ none
      → verify_non_existence_proof (get_root leaves) key (generate_non_existence_proof leaves key)
        ≡ some true
  unfolding verify_non_existence_proof generate_non_existence_proof get
  verify-generate_non_existence_proof leaves key t hk e =
      elim (Option-cases (find_leaf key leaves)) [
        | inl absent ↦
            let folded : fold_siblings key (reverse (top_down key 256 leaves)) 256 empty_leaf
                ≡ some (get_root leaves) =
              unfold default_hash in (rw absent at (fold_siblings-get_root key leaves hk t)) in
            accepts_absence (get_root leaves) key (generate_non_existence_proof leaves key) refl
              (rw (absent, generate_non_existence_proof)) folded
        | inr (l, found) ↦ absurd (none-ne-some (sym (rw (found, get) at e)))
      ]
