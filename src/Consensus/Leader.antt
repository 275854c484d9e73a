-- ===== src/Consensus/Leader.antt =====
-- src/consensus/consensus.cpp: the primary of a view.
use blockchain_demo.Prelude.{
  ℕ, zero, suc, ◌+◌, ◌%◌, ◌<◌, ◌≡◌, refl, sym, ap, ◌∙◌, Bool, true, false, not, ◌&&◌, List, [], ◌∷◌,
  Bytes, arith, length, get_or, map, bytes_eq, bytes_eq_iff, bytes_eq_refl, Bool-cases, inl, inr,
}
use blockchain_demo.Consensus.{ConsensusEngine, NodeConfig, PeerConfig}
use blockchain_demo.Consensus.Sets.{member, member-place}
use blockchain_demo.Consensus.Engine.{is_quarantined, active_of, node_ids, primary, wrap, sort}

member-active_of :
    (q : Bytes) (out xs : List Bytes)
    → member q (active_of out xs) ≡ (member q xs && not (member q out))
unfolding active_of member
member-active_of q out [] = refl
member-active_of q out (x ∷ xs) = elim (Bool-cases (bytes_eq q x)) [
  | inl e ↦
      ground (arith, member-active_of q out xs, e, ap (λ s. member s out) ((bytes_eq_iff q x).0 e))
  | inr e ↦ ground (arith, member-active_of q out xs, e)
]

member-sort : (q : Bytes) (xs : List Bytes) → member q (sort xs) ≡ member q xs
unfolding sort member
member-sort q [] = refl
member-sort q (x ∷ xs) = rw (member-place q x (sort xs), member-sort q xs) refl

member-get_or : (xs : List Bytes) (i : ℕ) → i < length xs → member (get_or xs i []) xs ≡ true
unfolding member
member-get_or [] i h = absurd (omega arith)
member-get_or (x ∷ xs) zero h = rw (bytes_eq_refl x) refl
member-get_or (x ∷ xs) (suc i) h = ground (arith, member-get_or xs i (omega arith))

head_member : (x : Bytes) (xs : List Bytes) → member x (x ∷ xs) ≡ true
unfolding member
head_member x xs = rw (bytes_eq_refl x) refl

-- The nodes of the network as the configuration of one node lists them.
abbrev pub configured : NodeConfig → List Bytes
configured config = config.node_id ∷ map (λ (p : PeerConfig). p.node_id) config.peers

lt_mod : (t n : ℕ) → 0 < n → t % n < n
lt_mod t n h = omega arith

chosen :
    (active nodes : List Bytes) (turn : ℕ) (q : Bytes)
    → member q active ≡ true
    → member
        (elim active [
          | [] ↦ get_or nodes (turn % length nodes) []
          | x ∷ xs ↦ get_or (x ∷ xs) (turn % length (x ∷ xs)) []
        ])
        active
      ≡ true
chosen [] nodes turn q h = unfold member in cc
chosen (x ∷ xs) nodes turn q h =
    member-get_or (x ∷ xs) (turn % length (x ∷ xs)) (lt_mod turn (length (x ∷ xs)) (omega arith))

both : (a b : Bool) → (a && not b) ≡ true → (a ≡ true) × (b ≡ false)
both a b h = ground arith

module _ {D : Type 0} where
  active : ConsensusEngine D → List Bytes
  active e = active_of e.quarantined_nodes (node_ids e.config)

  member-active :
      (e : ConsensusEngine D) (q : Bytes)
      → member q (active e) ≡ (member q (configured e.config) && not (is_quarantined q e))
  unfolding active node_ids is_quarantined
  member-active e q =
      member-active_of q e.quarantined_nodes (sort (configured e.config))
      ∙ ap (λ b. b && not (member q e.quarantined_nodes)) (member-sort q (configured e.config))

  primary-active :
      (e : ConsensusEngine D) (view instance_id : ℕ) (q : Bytes)
      → member q (active e) ≡ true
      → member (primary e view instance_id) (active e) ≡ true
  unfolding primary active
  primary-active e view instance_id q h =
      chosen (active_of e.quarantined_nodes (node_ids e.config)) (node_ids e.config)
        (wrap (view + instance_id)) q h

  -- If some configured node is not in quarantine, the primary of every view and instance is a
  -- configured node that is not in quarantine.
  pub primary-is_quarantined :
      (e : ConsensusEngine D) (view instance_id : ℕ) (q : Bytes)
      → member q (configured e.config) ≡ true
      → is_quarantined q e ≡ false
      → (member (primary e view instance_id) (configured e.config) ≡ true)
        × (is_quarantined (primary e view instance_id) e ≡ false)
  primary-is_quarantined e view instance_id q known free =
      both (member (primary e view instance_id) (configured e.config))
        (is_quarantined (primary e view instance_id) e)
        (sym (member-active e (primary e view instance_id))
          ∙ primary-active e view instance_id q (member-active e q ∙ rw (known, free) refl))
