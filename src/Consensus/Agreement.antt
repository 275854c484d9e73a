-- ===== src/Consensus/Agreement.antt =====
-- src/consensus/consensus.cpp: the decisions of a node, and what a conflicting vote leads to.
use blockchain_demo.Prelude.{
  ℕ, ◌≡◌, sym, subst, ap, true, List, some, Bytes, codes, ◌++◌, arith, if_cases, option_cases,
  Always, of_Always,
}
use blockchain_demo.Encoding.{decimal}
use blockchain_demo.Crypto.{Sodium}
use blockchain_demo.Block.{NodeSignature}
use blockchain_demo.HashTable.Hashing.{Key}
use blockchain_demo.Storage.{Sqlite}
use blockchain_demo.Consensus.{ConsensusEngine, ConsensusMessage, ConsensusRound, Evidence}
use blockchain_demo.Consensus.Engine.{quarantine_node}
use blockchain_demo.Consensus.Voting.{Recorded, Handled, record_vote, fits_round}
use blockchain_demo.Consensus.Messages.{on_commit}
use blockchain_demo.Consensus.Counting.{IsCounted}
use blockchain_demo.Consensus.Decision.{IsDecided, count_commit-IsDecided}
use blockchain_demo.Consensus.Recording.{SameRound, record_vote-SameRound}
use blockchain_demo.Consensus.Steps.{Reachable}
use blockchain_demo.Consensus.Invariant.{Reachable-IsCounted}

module _ {D : Type 0} ⦃sqlite : Sqlite D⦄ ⦃key : Key Bytes⦄ where
  on_commit-Always :
      (dump : Evidence → Bytes) (now : ℕ) (msg : ConsensusMessage) (sigs : List NodeSignature)
      (e : ConsensusEngine D)
      → IsCounted e.current_round
      → Always
          (λ (h : Handled D). h.quorum_reached ≡ true → IsDecided e msg h)
          (on_commit dump now msg sigs e)
  unfolding on_commit
  on_commit-Always dump now msg sigs e c =
      let P : Handled D → Type 0 = λ h. h.quorum_reached ≡ true → IsDecided e msg h in
      option_cases (Always P) (record_vote dump now msg e) _ _ (λ _. tt)
        (λ r h.
          let kept =
            of_Always (λ (r : Recorded D). SameRound e r.engine) _ r
              (record_vote-SameRound dump now msg e) h in
          if_cases (Always P) r.recorded _ _
            (λ _ q.
              let d =
                count_commit-IsDecided now msg sigs r.engine (subst IsCounted (sym kept.round) c)
                  q in
              record {
                accepted = d.accepted;
                committed = d.committed;
                fits = subst (λ (x : ConsensusRound). fits_round msg x ≡ true) kept.round d.fits;
                enough = omega (arith, d.enough, ap (λ c. c.f) kept.config);
                signers_once = d.signers_once;
                kept = d.kept;
                last_signer = d.last_signer;
              })
            (λ _.
              option_cases (Always P)
                (quarantine_node now msg.sender_id
                  (codes "equivocation in COMMIT at height " ++ decimal msg.height) r.engine)
                _ _ (λ _. tt) (λ e' _ q. cc)))

module _ {D : Type 0} ⦃sqlite : Sqlite D⦄ ⦃key : Key Bytes⦄ ⦃sodium : Sodium⦄ where
  -- When `OnCommit` reports a quorum, in any state that a node reaches, the vote was accepted and
  -- fits the round, the round is committed, and the signatures handed out are those of the round:
  -- at least 2f + 1, of different nodes, the sender of the last vote among them.
  pub on_commit-IsDecided :
      (dump : Evidence → Bytes) (now : ℕ) (msg : ConsensusMessage) (sigs : List NodeSignature)
      (e : ConsensusEngine D) (h : Handled D)
      → Reachable dump e
      → on_commit dump now msg sigs e ≡ some h
      → h.quorum_reached ≡ true
      → IsDecided e msg h
  on_commit-IsDecided dump now msg sigs e h r eq q =
      of_Always (λ (h : Handled D). h.quorum_reached ≡ true → IsDecided e msg h) _ h
        (on_commit-Always dump now msg sigs e (Reachable-IsCounted dump r)) eq q
