-- ===== src/Consensus/Decision.antt =====
-- src/consensus/consensus.cpp: when a COMMIT decides, 2f + 1 nodes have signed.
use blockchain_demo.Prelude.{
  ℕ, ◌+◌, ◌*◌, ◌≡◌, ◌≤◌, refl, ◌∙◌, true, not, List, [], arith, length, leb, leb→le, if_cases,
  eq_true_of, leb→le,
}
use blockchain_demo.Block.{NodeSignature}
use blockchain_demo.Consensus.{ConsensusEngine, ConsensusMessage}
use blockchain_demo.Consensus.Sets.{member, insert, NoRepeat}
use blockchain_demo.Consensus.Engine.{add_event, quorum}
use blockchain_demo.Consensus.Voting.{Handled, count_commit, fits_round, is_drop_commit}
use blockchain_demo.Consensus.Counting.{IsCounted, signers, commit_more, member-insert}

module _ {D : Type 0} where
  -- What a quorum of COMMIT votes means for what the handler leaves and hands out.
  pub record IsDecided (e : ConsensusEngine D) (msg : ConsensusMessage) (h : Handled D)
      : Type 0 where
    pub accepted : h.accepted ≡ true
    pub committed : h.engine.current_round.committed ≡ true
    pub fits : fits_round msg e.current_round ≡ true
    pub enough : 2 * e.config.f + 1 ≤ length h.signatures
    pub signers_once : NoRepeat (signers h.signatures)
    pub kept : h.signatures ≡ h.engine.current_round.commit_signatures
    pub last_signer : member msg.sender_id (signers h.signatures) ≡ true

  pub count_commit-IsDecided :
      (now : ℕ) (msg : ConsensusMessage) (sigs : List NodeSignature) (e : ConsensusEngine D)
      → IsCounted e.current_round
      → (count_commit now msg sigs e).quorum_reached ≡ true
      → IsDecided e msg (count_commit now msg sigs e)
  unfolding count_commit add_event quorum
  count_commit-IsDecided now msg sigs e c =
      let P : Handled D → Type 0 = λ h. h.quorum_reached ≡ true → IsDecided e msg h in
      let sig : NodeSignature = record {
        node_id = msg.sender_id;
        public_key_hex = [];
        signature_hex = msg.signature_hex;
      } in
      if_cases P (is_drop_commit e.attack_mode) _ _ (λ _ q. cc)
        (λ _.
          if_cases P (not (fits_round msg e.current_round)) _ _ (λ _ q. cc)
            (λ fits.
              if_cases P (member msg.sender_id e.current_round.commit_senders) _ _ (λ _ q. cc)
                (λ h.
                  if_cases P
                    (leb (quorum e) (length (insert msg.sender_id e.current_round.commit_senders)))
                    _ _
                    (λ enough q.
                      let more = commit_more e.current_round sig h c in
                      record {
                        accepted = refl;
                        committed = refl;
                        fits = eq_true_of (fits_round msg e.current_round) fits;
                        enough = omega (
                          arith,
                          leb→le (quorum e)
                              (length (insert msg.sender_id e.current_round.commit_senders)) enough,
                          more.sign_count,
                        );
                        signers_once = more.sign_once;
                        kept = refl;
                        last_signer =
                            more.signed msg.sender_id
                            ∙ member-insert msg.sender_id e.current_round.commit_senders;
                      })
                    (λ _ q. cc))))
