-- ===== src/Consensus/Equivocation.antt =====
-- src/consensus/consensus.cpp: a node that votes for two blocks is put in quarantine.
use blockchain_demo.Prelude.{
  ℕ, ◌≡◌, refl, true, false, List, [], ◌∷◌, none, some, Bytes, codes, ◌++◌, bytes_eq, if_cases,
  option_cases, Always, of_Always,
}
use blockchain_demo.Encoding.{decimal}
use blockchain_demo.HashTable.{get}
use blockchain_demo.HashTable.Hashing.{Key}
use blockchain_demo.Storage.{Sqlite, put_metadata}
use blockchain_demo.Block.{NodeSignature}
use blockchain_demo.Consensus.{ConsensusEngine, ConsensusMessage, Evidence}
use blockchain_demo.Consensus.Sets.{member, insert}
use blockchain_demo.Consensus.Engine.{add_event, vote_key, quarantine_node, note_in_storage}
use blockchain_demo.Consensus.Voting.{
  Handled, record_vote, note_conflict, vote_table, conflict_of, refuse,
}
use blockchain_demo.Consensus.Messages.{on_prepare, on_commit}
use blockchain_demo.Consensus.Counting.{member-insert}

module _ {D : Type 0} where
  -- What is left of a vote by `node` that is refused: `node` is in quarantine, the evidence is kept,
  -- and neither the votes nor the round have changed.
  pub record IsPunished (node : Bytes) (found : List Evidence) (e e' : ConsensusEngine D)
      : Type 0 where
    pub quarantined : member node e'.quarantined_nodes ≡ true
    pub evidence : e'.evidence ≡ found
    pub prepare_votes : e'.prepare_votes ≡ e.prepare_votes
    pub commit_votes : e'.commit_votes ≡ e.commit_votes
    pub round : e'.current_round ≡ e.current_round

  -- A handler's refusal of such a vote.
  pub record IsRefused (node : Bytes) (found : List Evidence) (e : ConsensusEngine D)
      (h : Handled D) : Type 0 where
    pub refused : h.accepted ≡ false
    pub no_quorum : h.quorum_reached ≡ false
    pub punished : IsPunished node found e h.engine

module _ {D : Type 0} ⦃sqlite : Sqlite D⦄ where
  noted_IsPunished :
      (k v node : Bytes) (found : List Evidence) (e e' : ConsensusEngine D)
      → IsPunished node found e e'
      → Always (IsPunished node found e) (note_in_storage k v e')
  unfolding note_in_storage
  noted_IsPunished k v node found e e' s =
      let P = Always (IsPunished node found e) in
      option_cases P e'.storage _ _ (λ _. s)
        (λ db _.
          option_cases P (put_metadata db k v) _ _ (λ _. tt)
            (λ db' _. record {
              quarantined = s.quarantined;
              evidence = s.evidence;
              prepare_votes = s.prepare_votes;
              commit_votes = s.commit_votes;
              round = s.round;
            }))

  quarantine_node-IsPunished :
      (now : ℕ) (node reason : Bytes) (e : ConsensusEngine D)
      → Always (IsPunished node e.evidence e) (quarantine_node now node reason e)
  unfolding quarantine_node add_event
  quarantine_node-IsPunished now node reason e =
      let P = Always (IsPunished node e.evidence e) in
      let kept : ConsensusEngine D = record e {
        quarantined_nodes = insert node e.quarantined_nodes;
      } in
      if_cases P (member node e.quarantined_nodes) _ _
        (λ h. record {
          quarantined = h;
          evidence = refl;
          prepare_votes = refl;
          commit_votes = refl;
          round = refl;
        })
        (λ _.
          option_cases P (note_in_storage (codes "quarantine:" ++ node) reason kept) _ _ (λ _. tt)
            (λ e' h.
              let s =
                of_Always (IsPunished node e.evidence e) _ e'
                  (noted_IsPunished (codes "quarantine:" ++ node) reason node e.evidence e kept
                    (record {
                      quarantined = member-insert node e.quarantined_nodes;
                      evidence = refl;
                      prepare_votes = refl;
                      commit_votes = refl;
                      round = refl;
                    }))
                  h in
              record {
                quarantined = s.quarantined;
                evidence = s.evidence;
                prepare_votes = s.prepare_votes;
                commit_votes = s.commit_votes;
                round = s.round;
              }))

  module _ ⦃key : Key Bytes⦄ where
    record_vote-conflict :
        (dump : Evidence → Bytes) (now : ℕ) (msg : ConsensusMessage) (old : Bytes)
        (e : ConsensusEngine D)
        → get (vote_table msg e) (vote_key msg) ≡ some old
        → bytes_eq old msg.block_hash ≡ false
        → record_vote dump now msg e ≡ some (note_conflict dump now msg old e)
    unfolding record_vote
    record_vote-conflict dump now msg old e found differs = rw (found, record_vote, differs) refl

    punish :
        (dump : Evidence → Bytes) (now : ℕ) (msg : ConsensusMessage) (old : Bytes) (reason : Bytes)
        (e : ConsensusEngine D) (sigs : List NodeSignature)
        → Always
            (IsRefused msg.sender_id (e.evidence ++ (conflict_of msg old ∷ [])) e)
            (elim (quarantine_node now msg.sender_id reason
              (note_conflict dump now msg old e).engine) [
                | none ↦ none
                | some e' ↦ some (refuse e' sigs)
              ])
    unfolding note_conflict add_event
    punish dump now msg old reason e sigs =
        let noted = (note_conflict dump now msg old e).engine in
        option_cases (Always (IsRefused msg.sender_id (e.evidence ++ (conflict_of msg old ∷ [])) e))
          (quarantine_node now msg.sender_id reason noted) _ _ (λ _. tt)
          (λ e' h.
            let s =
              of_Always (IsPunished msg.sender_id noted.evidence noted) _ e'
                (quarantine_node-IsPunished now msg.sender_id reason noted) h in
            record {
              refused = refl;
              no_quorum = refl;
              punished = record {
                quarantined = s.quarantined;
                evidence = s.evidence;
                prepare_votes = s.prepare_votes;
                commit_votes = s.commit_votes;
                round = s.round;
              };
            })

    -- Where `OnPrepare` returns on a PREPARE that names another block than the vote recorded
    -- under its key, it refuses it without a quorum: the sender is in quarantine, the evidence of
    -- both votes is kept, and neither the recorded votes nor the round have changed.
    pub on_prepare-IsRefused :
        (dump : Evidence → Bytes) (now : ℕ) (msg : ConsensusMessage) (old : Bytes)
        (e : ConsensusEngine D) (h : Handled D)
        → get (vote_table msg e) (vote_key msg) ≡ some old
        → bytes_eq old msg.block_hash ≡ false
        → on_prepare dump now msg e ≡ some h
        → IsRefused msg.sender_id (e.evidence ++ (conflict_of msg old ∷ [])) e h
    unfolding on_prepare
    on_prepare-IsRefused dump now msg old e h found differs eq =
        of_Always (IsRefused msg.sender_id (e.evidence ++ (conflict_of msg old ∷ [])) e) _ h
          (punish dump now msg old
            (codes "equivocation in PREPARE at height " ++ decimal msg.height) e [])
          (rw (record_vote-conflict dump now msg old e found differs, on_prepare) at eq)

    -- Where `OnCommit` returns on a COMMIT that names another block than the vote recorded under
    -- its key, it refuses it without a quorum: the sender is in quarantine, the evidence of both
    -- votes is kept, and neither the recorded votes nor the round have changed.
    pub on_commit-IsRefused :
        (dump : Evidence → Bytes) (now : ℕ) (msg : ConsensusMessage) (sigs : List NodeSignature)
        (old : Bytes) (e : ConsensusEngine D) (h : Handled D)
        → get (vote_table msg e) (vote_key msg) ≡ some old
        → bytes_eq old msg.block_hash ≡ false
        → on_commit dump now msg sigs e ≡ some h
        → IsRefused msg.sender_id (e.evidence ++ (conflict_of msg old ∷ [])) e h
    unfolding on_commit
    on_commit-IsRefused dump now msg sigs old e h found differs eq =
        of_Always (IsRefused msg.sender_id (e.evidence ++ (conflict_of msg old ∷ [])) e) _ h
          (punish dump now msg old (codes "equivocation in COMMIT at height " ++ decimal msg.height)
            e sigs)
          (rw (record_vote-conflict dump now msg old e found differs, on_commit) at eq)
