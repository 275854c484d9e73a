-- ===== src/Smt/Sound.antt =====
-- src/smt/sparse_merkle_tree.cpp: what an accepted proof says about the tree.
use blockchain_demo.Prelude.{
  ℕ, zero, suc, ◌-◌, ◌≡◌, ◌⊎◌, refl, sym, ap, subst, ◌∙◌, Bool, true, false, not, ◌&&◌, ◌||◌, List,
  [], ◌∷◌, ◌++◌, Option, none, some, Bytes, codes, arith, get_elem?, get_or, All, bytes_eq,
  bytes_eq_iff, if◌then◌else◌, Bool-cases, Option-cases, inl, inr, none-ne-some, eq_of_some,
}
use mathlib.Core.List.Memᴰ
use blockchain_demo.Encoding.{IsHash}
use blockchain_demo.Crypto.{Sodium, sha256, sha256_string}
use blockchain_demo.Crypto.Collision.{
  Clash, Collision, collide, collide_first, collide_later, sha256_or, node_or, tail_eq,
  append-injective,
}
use blockchain_demo.Smt.Hashed.{
  turn_message, fold_messages, existence_messages, start_of, start_message, absence_messages,
}
use blockchain_demo.Smt.{
  SmtProof, SmtProofType, existence, non_existence, get_bit, leaf_hash, parent_hash, empty_leaf,
  fold_siblings, verify_existence_proof, verify_non_existence_proof,
}

-- The hashes of a proof, each of 32 bytes as its type demands.
pub record IsProof (proof : SmtProof) : Type 0 where
  pub siblings : All IsHash proof.sibling_hashes
  pub collision_key : IsHash proof.collision_leaf_key
  pub collision_value : IsHash proof.collision_leaf_value_hash

get_elem?-All :
    (xs : List Bytes) (i : ℕ) (x : Bytes) → All IsHash xs → get_elem? xs i ≡ some x → IsHash x
get_elem?-All [] i x a e = cc
get_elem?-All (y ∷ xs) zero x a e = subst IsHash (eq_of_some e) a.0
get_elem?-All (y ∷ xs) (suc i) x a e = get_elem?-All xs i x a.1 e

of_existence :
    (k : SmtProofType) (o : Option Bool)
    → elim k [ non_existence ↦ some false | existence ↦ o ] ≡ some true
    → o ≡ some true
of_existence existence o e = e
of_existence non_existence o e = cc

of_non_existence :
    (k : SmtProofType) (o : Option Bool)
    → elim k [ existence ↦ some false | non_existence ↦ o ] ≡ some true
    → o ≡ some true
of_non_existence existence o e = cc
of_non_existence non_existence o e = e

checked :
    (root : Bytes) (o : Option Bytes)
    → elim o [ none ↦ none | some current ↦ some (bytes_eq current root) ] ≡ some true
    → o ≡ some root
checked root none e = cc
checked root (some current) e = ap some ((bytes_eq_iff current root).0 (eq_of_some e))

checked_and :
    (root : Bytes) (b : Bool) (o : Option Bytes)
    → elim o [ none ↦ none | some current ↦ some (bytes_eq current root && b) ] ≡ some true
    → (o ≡ some root) × (b ≡ true)
checked_and root b none e = cc
checked_and root b (some current) e = ground (arith, bytes_eq_iff current root)

differs : (j k : Bytes) (b : Bool) → b ≡ true → (not b || not (bytes_eq j k)) ≡ true → k ≡ j → ⊥
differs j k b has other same = ground (arith, bytes_eq_iff j k)

module _ ⦃sodium : Sodium⦄ where
  turn_or :
      (b : Bool) (s s' x x' : Bytes)
      → IsHash s
      → IsHash s'
      → IsHash x
      → IsHash x'
      → (if b then parent_hash s x else parent_hash x s)
        ≡ (if b then parent_hash s' x' else parent_hash x' s')
      → (x ≡ x') ⊎ Clash (turn_message b s x) (turn_message b s' x')
  unfolding parent_hash turn_message
  turn_or true s s' x x' hs hs' hx hx' e = elim (node_or s x s' x' hs.0 hs'.0 e) [
    | inl (_, eq) ↦ inl eq
    | inr c ↦ inr c
  ]
  turn_or false s s' x x' hs hs' hx hx' e = elim (node_or x s x' s' hx.0 hx'.0 e) [
    | inl (eq, _) ↦ inl eq
    | inr c ↦ inr c
  ]

  turn-IsHash : (b : Bool) (s x : Bytes) → IsHash (if b then parent_hash s x else parent_hash x s)
  unfolding parent_hash
  turn-IsHash true s x = sodium.hash_sha256-IsHash _
  turn-IsHash false s x = sodium.hash_sha256-IsHash _

  -- Two runs of the verifiers' loop along one path that end in one hash began with one hash, or
  -- SHA-256 collides.
  fold_siblings_or :
      (key : Bytes) (ss ts : List Bytes) (n : ℕ) (x y root : Bytes)
      → All IsHash ss
      → All IsHash ts
      → IsHash x
      → IsHash y
      → fold_siblings key ss n x ≡ some root
      → fold_siblings key ts n y ≡ some root
      → (x ≡ y) ⊎ Collision (fold_messages key ss n x) (fold_messages key ts n y)
  unfolding fold_siblings fold_messages
  fold_siblings_or key ss ts zero x y root hs ht hx hy e f = inl (eq_of_some (e ∙ sym f))
  fold_siblings_or key ss ts (suc d) x y root hs ht hx hy e f =
      elim (Option-cases (get_elem? ss (255 - d))) [
        | inl p ↦ absurd (none-ne-some (rw (p, fold_siblings) at e))
        | inr (s, p) ↦ elim (Option-cases (get_elem? ts (255 - d))) [
          | inl q ↦ absurd (none-ne-some (rw (q, fold_siblings) at f))
          | inr (t, q) ↦
              elim (fold_siblings_or key ss ts d _ _ root hs ht (turn-IsHash (get_bit key d) s x)
                (turn-IsHash (get_bit key d) t y) (rw (p, fold_siblings) at e)
                (rw (q, fold_siblings) at f)) [
                  | inl eq ↦
                      elim (turn_or (get_bit key d) s t x y (get_elem?-All ss _ s hs p)
                        (get_elem?-All ts _ t ht q) hx hy eq) [
                          | inl same ↦ inl same
                          | inr c ↦ inr (rw (p, fold_messages, q) (collide_first _ _ c))
                        ]
                  | inr c ↦ inr (rw (p, fold_messages, q) (collide_later _ _ c))
                ]
        ]
      ]

  -- What acceptance means for the loop.
  existence_folds :
      (root key value : Bytes) (proof : SmtProof)
      → verify_existence_proof root key value proof ≡ some true
      → fold_siblings key proof.sibling_hashes 256 (leaf_hash key (sha256 value)) ≡ some root
  unfolding verify_existence_proof
  existence_folds root key value proof e = checked root _ (of_existence proof.type _ e)

  non_existence_folds :
      (root key : Bytes) (proof : SmtProof)
      → verify_non_existence_proof root key proof ≡ some true
      → (fold_siblings key proof.sibling_hashes 256 (start_of proof) ≡ some root)
        × ((not proof.has_collision || not (bytes_eq proof.collision_leaf_key key)) ≡ true)
  unfolding verify_non_existence_proof start_of
  non_existence_folds root key proof e = checked_and root _ _ (of_non_existence proof.type _ e)

  leaf_hash-IsHash : (k v : Bytes) → IsHash (leaf_hash k v)
  unfolding leaf_hash
  leaf_hash-IsHash k v = sodium.hash_sha256-IsHash _

  start_of-IsHash : (proof : SmtProof) → IsHash (start_of proof)
  unfolding start_of empty_leaf sha256_string
  start_of-IsHash proof = elim (Bool-cases proof.has_collision) [
    | inl e ↦ rw e (leaf_hash-IsHash proof.collision_leaf_key proof.collision_leaf_value_hash)
    | inr e ↦ rw e (sodium.hash_sha256-IsHash _)
  ]

  -- A leaf is not the empty leaf, nor a leaf under another key, unless SHA-256 collides.
  leaf_not_start :
      (key value : Bytes) (proof : SmtProof)
      → IsHash key
      → IsProof proof
      → (not proof.has_collision || not (bytes_eq proof.collision_leaf_key key)) ≡ true
      → leaf_hash key (sha256 value) ≡ start_of proof
      → Clash (0 ∷ (key ++ sha256 value)) (start_message proof)
  unfolding leaf_hash empty_leaf sha256_string start_of start_message
  leaf_not_start key value proof hk hp other e = elim (Bool-cases proof.has_collision) [
    | inl has ↦ elim (sha256_or (0 ∷ (key ++ sha256 value)) _ (rw has at e)) [
      | inl eq ↦ absurd (
          differs proof.collision_leaf_key key proof.has_collision has other
            (append-injective key proof.collision_leaf_key (sha256 value)
              proof.collision_leaf_value_hash (omega (arith, hk.0, hp.collision_key.0))
              (tail_eq eq)).0)
      | inr c ↦ rw has c
    ]
    | inr free ↦
        elim (sha256_or (0 ∷ (key ++ sha256 value)) (codes "SMT_EMPTY_LEAF") (rw free at e)) [
          | inl eq ↦ absurd (omega (arith, ap (λ (l : Bytes). get_or l 0 0) eq))
          | inr c ↦ rw free c
        ]
  ]

  -- No key is proved both present and absent against one root, by proofs whose hashes are of 32
  -- bytes, unless SHA-256 collides on inputs
  -- that the two verifications hash.
  pub proofs_exclude :
      (root key value : Bytes) (present absent : SmtProof)
      → IsHash key
      → IsProof present
      → IsProof absent
      → verify_existence_proof root key value present ≡ some true
      → verify_non_existence_proof root key absent ≡ some true
      → Collision (existence_messages key value present) (absence_messages key absent)
  unfolding existence_messages absence_messages
  proofs_exclude root key value present absent hk hp ha ep ea =
      let (folded, other) = non_existence_folds root key absent ea in
      elim (fold_siblings_or key present.sibling_hashes absent.sibling_hashes 256 _ _ root
        hp.siblings ha.siblings (leaf_hash-IsHash key (sha256 value)) (start_of-IsHash absent)
        (existence_folds root key value present ep) folded) [
          | inl eq ↦
              collide (0 ∷ (key ++ sha256 value)) (start_message absent)
                (Memᴰ.tail (Memᴰ.head refl)) (Memᴰ.head refl)
                (leaf_not_start key value absent hk ha other eq)
          | inr c ↦
              collide c.first c.second (Memᴰ.tail (Memᴰ.tail c.in_first)) (Memᴰ.tail c.in_second)
                c.clash
        ]

  -- Two values that `VerifyExistenceProof` accepts for one key against one root, by proofs whose
  -- hashes are of 32 bytes, are equal, unless SHA-256 collides on inputs
  -- that the two verifications hash.
  pub verify_existence_proof_binding :
      (root key v w : Bytes) (p q : SmtProof)
      → IsHash key
      → IsProof p
      → IsProof q
      → verify_existence_proof root key v p ≡ some true
      → verify_existence_proof root key w q ≡ some true
      → (v ≡ w) ⊎ Collision (existence_messages key v p) (existence_messages key w q)
  unfolding leaf_hash existence_messages
  verify_existence_proof_binding root key v w p q hk hp hq ep eq =
      elim (fold_siblings_or key p.sibling_hashes q.sibling_hashes 256 (leaf_hash key (sha256 v))
        (leaf_hash key (sha256 w)) root hp.siblings hq.siblings (leaf_hash-IsHash key (sha256 v))
        (leaf_hash-IsHash key (sha256 w)) (existence_folds root key v p ep)
        (existence_folds root key w q eq)) [
          | inl same ↦ elim (sha256_or (0 ∷ (key ++ sha256 v)) (0 ∷ (key ++ sha256 w)) same) [
            | inl bytes ↦
                elim (sha256_or v w
                  (append-injective key key (sha256 v) (sha256 w) refl (tail_eq bytes)).1) [
                    | inl eq ↦ inl eq
                    | inr c ↦ inr (collide_first _ _ c)
                  ]
            | inr c ↦ inr (collide_later _ _ (collide_first _ _ c))
          ]
          | inr c ↦ inr (collide_later _ _ (collide_later _ _ c))
        ]
