-- ===== src/Merkle/Path.antt =====
-- src/merkle/merkle_tree.cpp: the levels of the tree, and the way from a leaf to the root.
use blockchain_demo.Prelude.{
  ℕ, zero, suc, ◌/◌, ◌%◌, ◌≡◌, ◌≤◌, ◌<◌, refl, List, [], ◌∷◌, some, Bytes, arith, length, get_elem?,
  ltb, ◌==◌, if◌then◌else◌, Bool-cases, inl, inr, none-ne-some,
}
use blockchain_demo.Crypto.{Sodium}
use blockchain_demo.Merkle.{
  MerkleProofItem, left, right, sibling_of, top, climb, pair_up, levels_above, replay,
}
use blockchain_demo.Merkle.Pairs.{length-pair_up, joined, pair_up-joined}

module _ ⦃sodium : Sodium⦄ where
  -- A proof that leads from the node `h` at position `i` of `nodes` to the root.
  pub record Leads (nodes : List Bytes) (above : List (List Bytes)) (i : ℕ) (h : Bytes)
      : Type 0 where
    pub proof : List MerkleProofItem
    pub climbed : climb nodes above i ≡ some proof
    pub root : Bytes
    pub topped : top nodes above ≡ some root
    pub replayed : replay h proof ≡ root

  -- On the topmost level there is one node.
  only_node :
      (l : List Bytes) (i : ℕ) (h : Bytes) → length l ≤ 1 → get_elem? l i ≡ some h → Leads l [] i h
  unfolding climb top replay
  only_node [] i h few e = absurd (none-ne-some e)
  only_node (a ∷ []) zero h e' e = record {
    proof = [];
    climbed = refl;
    root = h;
    topped = e;
    replayed = refl;
  }
  only_node (a ∷ []) (suc i) h few e = absurd (none-ne-some e)
  only_node (a ∷ b ∷ l) i h few e = absurd (omega arith)

  -- One level of the climb.
  step :
      (nodes next : List Bytes) (above : List (List Bytes)) (i : ℕ) (s h : Bytes)
      → get_elem? nodes (sibling_of (length nodes) i) ≡ some s
      → Leads next above (i / 2) (joined i s h)
      → Leads nodes (next ∷ above) i h
  unfolding climb top replay
  step nodes next above i s h at rest = record {
    proof = record { position = if i % 2 == 1 then left else right; sibling_hash = s } ∷ rest.proof;
    climbed = rw (at, climb, rest.climbed);
    root = rest.root;
    topped = rest.topped;
    replayed = elim (Bool-cases (i % 2 == 1)) [
      | inl e ↦ rw e (rw e at rest.replayed)
      | inr e ↦ rw e (rw e at rest.replayed)
    ];
  }

  -- With a round for every node the climb reaches the root from every position.
  pub levels_above-Leads :
      (f : ℕ) (nodes : List Bytes) (i : ℕ) (h : Bytes)
      → length nodes ≤ suc f
      → get_elem? nodes i ≡ some h
      → Leads nodes (levels_above f nodes) i h
  unfolding levels_above
  levels_above-Leads zero nodes i h room e = only_node nodes i h room e
  levels_above-Leads (suc f) nodes i h room e = elim (Bool-cases (ltb 1 (length nodes))) [
    | inr few ↦ rw (few, levels_above) (only_node nodes i h (ground arith) e)
    | inl many ↦
        let (s, at, up) = pair_up-joined nodes i h e in
        rw (many, levels_above)
          (step nodes (pair_up nodes) (levels_above f (pair_up nodes)) i s h at (
            levels_above-Leads f (pair_up nodes) (i / 2) (joined i s h)
              (ground (arith, length-pair_up nodes)) up))
  ]

  -- The topmost node of a level of several is that of the level above it.
  pub top_many :
      (f : ℕ) (l : List Bytes)
      → 1 < length l
      → top l (levels_above (suc f) l) ≡ top (pair_up l) (levels_above f (pair_up l))
  unfolding levels_above top
  top_many f l h = ground arith
