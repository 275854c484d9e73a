-- ===== src/Merkle/Proof.antt =====
-- src/merkle/merkle_tree.cpp: inclusion proofs are complete, and bind the transaction.
use blockchain_demo.Prelude.{
  ℕ, zero, suc, ◌≡◌, ◌≤◌, ◌<◌, ◌⊎◌, ◌∙◌, sym, true, List, [], ◌∷◌, ◌++◌, none, some, map, Bytes,
  arith, length, get_elem?, All, inl, inr, length-map, bytes_eq_iff,
}
use blockchain_demo.Encoding.{IsHash}
use blockchain_demo.Crypto.{Sodium}
use blockchain_demo.Crypto.Collision.{
  Clash, Collision, collide_first, collide_later, sha256_or, node_or, tail_eq,
}
use blockchain_demo.Transaction.{Transaction, serialize_transaction_full}
use blockchain_demo.Merkle.{
  MerkleProofItem, Position, left, right, leaf_hash, leaves, compute_root, generate_proof,
  verify_proof, replay, parent_hash,
}
use blockchain_demo.Merkle.Path.{levels_above-Leads}

module _ ⦃sodium : Sodium⦄ where
  length-leaves : (txs : List Transaction) → length (leaves txs) ≤ suc (length txs)
  unfolding leaves
  length-leaves [] = omega arith
  length-leaves (tx ∷ txs) = omega (arith, length-map leaf_hash txs)

  get_elem?-map :
      (txs : List Transaction) (i : ℕ) (tx : Transaction)
      → get_elem? txs i ≡ some tx
      → get_elem? (map leaf_hash txs) i ≡ some (leaf_hash tx)
  get_elem?-map [] i tx e = cc
  get_elem?-map (t ∷ txs) zero tx e = ground arith
  get_elem?-map (t ∷ txs) (suc i) tx e = get_elem?-map txs i tx e

  get_elem?-leaves :
      (txs : List Transaction) (i : ℕ) (tx : Transaction)
      → get_elem? txs i ≡ some tx
      → get_elem? (leaves txs) i ≡ some (leaf_hash tx)
  unfolding leaves
  get_elem?-leaves [] i tx e = cc
  get_elem?-leaves (t ∷ txs) i tx e = get_elem?-map (t ∷ txs) i tx e

  lt_of_get :
      (txs : List Transaction) (i : ℕ) (tx : Transaction)
      → get_elem? txs i ≡ some tx
      → i < length txs
  lt_of_get [] i tx e = cc
  lt_of_get (t ∷ txs) zero tx e = omega arith
  lt_of_get (t ∷ txs) (suc i) tx e = omega (arith, lt_of_get txs i tx e)

  -- For the transaction at every index, `GenerateProof` returns a proof and `ComputeRoot` a root,
  -- and `VerifyProof` accepts the proof for that transaction against that root.
  pub verify_proof-generate_proof :
      (txs : List Transaction) (i : ℕ) (tx : Transaction)
      → get_elem? txs i ≡ some tx
      → (proof : List MerkleProofItem) × (root : Bytes) × (generate_proof txs i ≡ some proof)
        × (compute_root txs ≡ some root)
        × (verify_proof tx proof root ≡ true)
  unfolding generate_proof compute_root verify_proof
  verify_proof-generate_proof txs i tx e =
      let way =
        levels_above-Leads (length txs) (leaves txs) i (leaf_hash tx) (length-leaves txs)
          (get_elem?-leaves txs i tx e) in
      let inside = lt_of_get txs i tx e in
      (
        way.proof,
        way.root,
        ground (arith, way.climbed),
        way.topped,
        (bytes_eq_iff _ _).1 way.replayed,
      )

  -- `GenerateProof` throws for every index past the end.
  pub generate_proof_past :
      (txs : List Transaction) (i : ℕ) → length txs ≤ i → generate_proof txs i ≡ none
  unfolding generate_proof
  generate_proof_past txs i h = ground arith

  -- Two proofs that turn the same way at every level.
  abbrev pub SameTurns : List MerkleProofItem → List MerkleProofItem → Type 0
  SameTurns [] [] = Unit
  SameTurns [] (q ∷ qs) = ⊥
  SameTurns (p ∷ ps) [] = ⊥
  SameTurns (p ∷ ps) (q ∷ qs) = (p.position ≡ q.position) × SameTurns ps qs

  -- Every sibling is a 32-byte hash, as the type of `sibling_hash` demands.
  abbrev pub HashProof : List MerkleProofItem → Type 0
  HashProof = All (λ item. IsHash item.sibling_hash)

  -- What is hashed for a node above `h`.
  unfoldable joined_message : Position → Bytes → Bytes → Bytes
  joined_message left s h = 1 ∷ (s ++ h)
  joined_message right s h = 1 ∷ (h ++ s)

  -- What the loop of `VerifyProof` hashes, and what all of `VerifyProof` does.
  unfoldable pub replay_messages : Bytes → List MerkleProofItem → List Bytes
  unfolding joined_message parent_hash
  replay_messages current [] = []
  replay_messages current (item ∷ proof) =
      joined_message item.position item.sibling_hash current
      ∷ replay_messages
          (elim item.position [
            | left ↦ parent_hash item.sibling_hash current
            | right ↦ parent_hash current item.sibling_hash
          ])
          proof

  unfoldable pub verify_messages : Transaction → List MerkleProofItem → List Bytes
  unfolding leaf_hash replay_messages
  verify_messages tx proof =
      (0 ∷ serialize_transaction_full tx) ∷ replay_messages (leaf_hash tx) proof

  joined_or :
      (p q : Position) (s s' h h' : Bytes)
      → p ≡ q
      → IsHash s
      → IsHash s'
      → IsHash h
      → IsHash h'
      → elim p [ left ↦ parent_hash s h | right ↦ parent_hash h s ]
        ≡ elim q [ left ↦ parent_hash s' h' | right ↦ parent_hash h' s' ]
      → (h ≡ h') ⊎ Clash (joined_message p s h) (joined_message q s' h')
  unfolding parent_hash joined_message
  joined_or left left s s' h h' same hs hs' hh hh' e = elim (node_or s h s' h' hs.0 hs'.0 e) [
    | inl (_, eq) ↦ inl eq
    | inr c ↦ inr c
  ]
  joined_or right right s s' h h' same hs hs' hh hh' e = elim (node_or h s h' s' hh.0 hh'.0 e) [
    | inl (eq, _) ↦ inl eq
    | inr c ↦ inr c
  ]
  joined_or left right s s' h h' same hs hs' hh hh' e = cc
  joined_or right left s s' h h' same hs hs' hh hh' e = cc

  joined-IsHash :
      (p : Position) (s h : Bytes)
      → IsHash (elim p [ left ↦ parent_hash s h | right ↦ parent_hash h s ])
  unfolding parent_hash
  joined-IsHash left s h = sodium.hash_sha256-IsHash _
  joined-IsHash right s h = sodium.hash_sha256-IsHash _

  replay_or :
      (ps qs : List MerkleProofItem) (h h' : Bytes)
      → SameTurns ps qs
      → HashProof ps
      → HashProof qs
      → IsHash h
      → IsHash h'
      → replay h ps ≡ replay h' qs
      → (h ≡ h') ⊎ Collision (replay_messages h ps) (replay_messages h' qs)
  unfolding replay replay_messages
  replay_or [] [] h h' same hp hq hh hh' e = inl e
  replay_or [] (q ∷ qs) h h' same hp hq hh hh' e = absurd same
  replay_or (p ∷ ps) [] h h' same hp hq hh hh' e = absurd same
  replay_or (p ∷ ps) (q ∷ qs) h h' same hp hq hh hh' e =
      elim (replay_or ps qs _ _ same.1 hp.1 hq.1 (joined-IsHash p.position p.sibling_hash h)
        (joined-IsHash q.position q.sibling_hash h') e) [
          | inl eq ↦
              elim (joined_or p.position q.position p.sibling_hash q.sibling_hash h h' same.0 hp.0
                hq.0 hh hh' eq) [ inl x ↦ inl x | inr c ↦ inr (collide_first _ _ c) ]
          | inr c ↦ inr (collide_later _ _ c)
        ]

  -- Two transactions that `VerifyProof` accepts against one root, by proofs that turn the same
  -- way and whose hashes are of 32 bytes, have the same serialisation, or SHA-256 collides
  -- on an input that the one verification hashes and one that the other does.
  pub verify_proof_binding :
      (a b : Transaction) (ps qs : List MerkleProofItem) (root : Bytes)
      → SameTurns ps qs
      → HashProof ps
      → HashProof qs
      → verify_proof a ps root ≡ true
      → verify_proof b qs root ≡ true
      → (serialize_transaction_full a ≡ serialize_transaction_full b)
        ⊎ Collision (verify_messages a ps) (verify_messages b qs)
  unfolding verify_proof leaf_hash verify_messages
  verify_proof_binding a b ps qs root same hp hq va vb =
      elim (replay_or ps qs (leaf_hash a) (leaf_hash b) same hp hq (sodium.hash_sha256-IsHash _)
        (sodium.hash_sha256-IsHash _) ((bytes_eq_iff _ _).0 va ∙ sym ((bytes_eq_iff _ _).0 vb))) [
          | inl e ↦
              elim (sha256_or (0 ∷ serialize_transaction_full a) (0 ∷ serialize_transaction_full b)
                e) [ inl eq ↦ inl (tail_eq eq) | inr c ↦ inr (collide_first _ _ c) ]
          | inr c ↦ inr (collide_later _ _ c)
        ]
