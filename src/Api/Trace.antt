-- ===== src/Api/Trace.antt =====
-- src/api/api_server.cpp: the recomputation of a root step by step, which the pages of proofs show.
use blockchain_demo.Prelude.{
  ℕ, zero, suc, ◌+◌, ◌-◌, ◌/◌, ◌%◌, ◌^◌, ◌==◌, ◌≡◌, ◌<◌, refl, ap, sym, subst, ◌∙◌, bytes_eq, Bool,
  true, false, List, [], ◌∷◌, Option, none, some, Bytes, get_elem?, get_or, ltb, if◌then◌else◌,
  arith, Option-cases, inl, inr,
}
use blockchain_demo.Crypto.{Sodium}
use blockchain_demo.Transaction.{Transaction}
use blockchain_demo.Merkle as Merkle
use blockchain_demo.Merkle.{Position, MerkleProofItem, left, right, replay, verify_proof}
use blockchain_demo.Smt as Smt
use blockchain_demo.Smt.{get_bit, fold_siblings}

-- A step of the page: `on_left` says that the sibling stands on the left.
pub record TraceStep : Type 0 where
  pub level : ℕ
  pub on_left : Bool
  pub current_before : Bytes
  pub sibling : Bytes
  pub parent : Bytes

-- The steps of a loop, and the hash that it ends with.
pub record Trace : Type 0 where
  pub steps : List TraceStep
  pub computed_root : Bytes

unfoldable pub with_step : TraceStep → Trace → Trace
with_step step t = record t { steps = step ∷ t.steps }

-- The loop of `SMTRecomputeSteps`: it has ended, has read past the end of `sibling_hashes`, or is still
-- running.
pub data SmtTrace : Type 0 where
  ended : Trace → SmtTrace
  past_end : SmtTrace
  running : SmtTrace

unfoldable pub with_smt_step : TraceStep → SmtTrace → SmtTrace
unfolding with_step
with_smt_step step (ended t) = ended (with_step step t)
with_smt_step step past_end = past_end
with_smt_step step running = running

-- `HashBit`
unfoldable pub hash_bit : Bytes → ℕ → Bool
hash_bit key depth =
    let byte_index = depth / 8 in
    let bit_index = 7 - depth % 8 in (get_or key byte_index 0 / 2 ^ bit_index) % 2 == 1

unfoldable pub is_left : Position → Bool
is_left left = true
is_left right = false

module _ ⦃sodium : Sodium⦄ where
  -- the loop of `MerkleRecomputeSteps`
  unfoldable pub merkle_steps : ℕ → Bytes → List MerkleProofItem → Trace
  unfolding with_step is_left Merkle.parent_hash
  merkle_steps level current [] = record { steps = []; computed_root = current }
  merkle_steps level current (item ∷ proof) =
      let next =
        if is_left item.position
        then Merkle.parent_hash item.sibling_hash current
        else Merkle.parent_hash current item.sibling_hash in
      with_step
        (record {
          level = level;
          on_left = is_left item.position;
          current_before = current;
          sibling = item.sibling_hash;
          parent = next;
        })
        (merkle_steps (level + 1) next proof)

  -- `MerkleRecomputeSteps`
  unfoldable pub merkle_recompute_steps : Transaction → List MerkleProofItem → Trace
  unfolding merkle_steps Merkle.leaf_hash
  merkle_recompute_steps tx proof = merkle_steps 0 (Merkle.leaf_hash tx) proof

  -- the loop of `SMTRecomputeSteps`, whose counter wraps below 0, with fuel for its rounds
  unfoldable pub smt_steps : ℕ → ℕ → Bytes → List Bytes → Bytes → SmtTrace
  unfolding with_smt_step hash_bit Smt.parent_hash
  smt_steps zero depth key siblings current = running
  smt_steps (suc fuel) depth key siblings current =
      if ltb depth 256
      then elim (get_elem? siblings (255 - depth)) [
        | none ↦ past_end
        | some sibling ↦
            let next =
              if hash_bit key depth
              then Smt.parent_hash sibling current
              else Smt.parent_hash current sibling in
            with_smt_step
              (record {
                level = depth;
                on_left = hash_bit key depth;
                current_before = current;
                sibling = sibling;
                parent = next;
              })
              (smt_steps fuel ((depth + (2 ^ 64 - 1)) % 2 ^ 64) key siblings next)
      ]
      else ended (record { steps = []; computed_root = current })

  -- `SMTRecomputeSteps`
  unfoldable pub smt_recompute_steps : Bytes → Bytes → List Bytes → SmtTrace
  unfolding smt_steps
  smt_recompute_steps key current siblings = smt_steps 257 255 key siblings current

-- The root of a loop that has ended; the inner `none` is a read past the end, the outer one a loop that
-- is still running.
abbrev pub root_of : SmtTrace → Option (Option Bytes)
root_of (ended t) = some (some t.computed_root)
root_of past_end = some none
root_of running = none

root_of-with_smt_step :
    (step : TraceStep) (t : SmtTrace) → root_of (with_smt_step step t) ≡ root_of t
unfolding with_smt_step
root_of-with_smt_step step (ended t) = refl
root_of-with_smt_step step past_end = refl
root_of-with_smt_step step running = refl

hash_bit-get_bit : (key : Bytes) (depth : ℕ) → hash_bit key depth ≡ get_bit key depth
unfolding hash_bit get_bit
hash_bit-get_bit key depth = refl

turned :
    (p : Position) (l r : Bytes) → (if is_left p then l else r) ≡ elim p [ left ↦ l | right ↦ r ]
unfolding is_left
turned left l r = refl
turned right l r = refl

module _ ⦃sodium : Sodium⦄ where
  -- Steps that lead from a hash to a root: each starts at the hash that the one before has given.
  abbrev pub Leads : ℕ → Bytes → List TraceStep → Bytes → Type 0
  Leads level current [] root = current ≡ root
  Leads level current (step ∷ steps) root =
      (step.level ≡ level)
      × (step.current_before ≡ current)
      × (step.parent ≡ (
          if step.on_left
          then Merkle.parent_hash step.sibling current
          else Merkle.parent_hash current step.sibling))
      × Leads (level + 1) step.parent steps root

  replay-next :
      (item : MerkleProofItem) (current : Bytes) (proof : List MerkleProofItem)
      → replay
          (if is_left item.position
            then Merkle.parent_hash item.sibling_hash current
            else Merkle.parent_hash current item.sibling_hash)
          proof
        ≡ replay current (item ∷ proof)
  unfolding replay
  replay-next item current proof =
      ap (λ x. replay x proof)
        (turned item.position (Merkle.parent_hash item.sibling_hash current)
          (Merkle.parent_hash current item.sibling_hash))

  merkle_steps-Leads :
      (level : ℕ) (current : Bytes) (proof : List MerkleProofItem)
      → Leads level current (merkle_steps level current proof).steps (replay current proof)
  unfolding merkle_steps replay
  merkle_steps-Leads level current [] = refl
  merkle_steps-Leads level current (item ∷ proof) =
      let next =
        if is_left item.position
        then Merkle.parent_hash item.sibling_hash current
        else Merkle.parent_hash current item.sibling_hash in
      (
        refl,
        refl,
        refl,
        subst (Leads (level + 1) next (merkle_steps (level + 1) next proof).steps)
            (replay-next item current proof) (merkle_steps-Leads (level + 1) next proof),
      )

  merkle_steps-replay :
      (level : ℕ) (current : Bytes) (proof : List MerkleProofItem)
      → (merkle_steps level current proof).computed_root ≡ replay current proof
  unfolding merkle_steps replay
  merkle_steps-replay level current [] = refl
  merkle_steps-replay level current (item ∷ proof) =
      let next =
        if is_left item.position
        then Merkle.parent_hash item.sibling_hash current
        else Merkle.parent_hash current item.sibling_hash in
      merkle_steps-replay (level + 1) next proof ∙ replay-next item current proof

  -- The steps of `MerkleRecomputeSteps` are numbered from 0 and lead from the hash of the transaction to
  -- its root, and `VerifyProof` accepts the proof for exactly that root.
  pub merkle_recompute_steps-Leads :
      (tx : Transaction) (proof : List MerkleProofItem) (root : Bytes)
      → Leads 0
          (Merkle.leaf_hash tx)
          (merkle_recompute_steps tx proof).steps
          (merkle_recompute_steps tx proof).computed_root
        × (verify_proof tx proof root
            ≡ bytes_eq (merkle_recompute_steps tx proof).computed_root root)
  unfolding merkle_recompute_steps verify_proof
  merkle_recompute_steps-Leads tx proof root =
      let same = merkle_steps-replay 0 (Merkle.leaf_hash tx) proof in
      (
        subst (Leads 0 (Merkle.leaf_hash tx) (merkle_recompute_steps tx proof).steps) (sym same)
            (merkle_steps-Leads 0 (Merkle.leaf_hash tx) proof),
        ap (λ x. bytes_eq x root) (sym same),
      )

  smt_steps-ended :
      (key : Bytes) (siblings : List Bytes) (current : Bytes)
      → root_of (smt_steps 1 ((0 + (2 ^ 64 - 1)) % 2 ^ 64) key siblings current)
        ≡ some (fold_siblings key siblings 0 current)
  unfolding smt_steps fold_siblings
  smt_steps-ended key siblings current = refl

  smt_steps-missing :
      (fuel d : ℕ) (key : Bytes) (siblings : List Bytes) (current : Bytes)
      → d < 256
      → get_elem? siblings (255 - d) ≡ none
      → root_of (smt_steps (suc fuel) d key siblings current)
        ≡ some (fold_siblings key siblings (suc d) current)
  unfolding smt_steps fold_siblings
  smt_steps-missing fuel d key siblings current h missing =
      let inside : ltb d 256 ≡ true = ground arith in rw (inside, missing, fold_siblings) refl

  smt_steps-found :
      (fuel d : ℕ) (key : Bytes) (siblings : List Bytes) (current sibling : Bytes)
      → d < 256
      → get_elem? siblings (255 - d) ≡ some sibling
      → ((next : Bytes)
          → root_of (smt_steps fuel ((d + (2 ^ 64 - 1)) % 2 ^ 64) key siblings next)
            ≡ some (fold_siblings key siblings d next))
      → root_of (smt_steps (suc fuel) d key siblings current)
        ≡ some (fold_siblings key siblings (suc d) current)
  unfolding smt_steps fold_siblings
  smt_steps-found fuel d key siblings current sibling h found rest =
      let inside : ltb d 256 ≡ true = ground arith in
      rw (inside, found, fold_siblings, hash_bit-get_bit key d) (root_of-with_smt_step _ _ ∙ rest _)

  smt_steps-fold_siblings :
      (n : ℕ) (key : Bytes) (siblings : List Bytes) (current : Bytes)
      → n < 257
      → root_of (smt_steps (suc n) ((n + (2 ^ 64 - 1)) % 2 ^ 64) key siblings current)
        ≡ some (fold_siblings key siblings n current)
  smt_steps-fold_siblings zero key siblings current h = smt_steps-ended key siblings current
  smt_steps-fold_siblings (suc d) key siblings current h =
      let depth : (suc d + (2 ^ 64 - 1)) % 2 ^ 64 ≡ d = omega arith in
      subst
        (λ x.
          root_of (smt_steps (suc (suc d)) x key siblings current)
          ≡ some (fold_siblings key siblings (suc d) current))
        (sym depth)
        (elim (Option-cases (get_elem? siblings (255 - d))) [
          | inl missing ↦ smt_steps-missing (suc d) d key siblings current (omega arith) missing
          | inr (sibling, found) ↦
              smt_steps-found (suc d) d key siblings current sibling (omega arith) found
                (λ next. smt_steps-fold_siblings d key siblings next (omega arith))
        ])

  -- `SMTRecomputeSteps` ends within 257 rounds, and its root is the hash that the verifiers of the sparse
  -- Merkle tree compare with the expected root; where a sibling is missing both read past the end.
  pub smt_recompute_steps-fold_siblings :
      (key current : Bytes) (siblings : List Bytes)
      → root_of (smt_recompute_steps key current siblings)
        ≡ some (fold_siblings key siblings 256 current)
  unfolding smt_recompute_steps
  smt_recompute_steps-fold_siblings key current siblings =
      smt_steps-fold_siblings 256 key siblings current (omega arith)
