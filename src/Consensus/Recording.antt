-- ===== src/Consensus/Recording.antt =====
-- src/consensus/consensus.cpp: what `RecordVote` and `QuarantineNode` leave alone.
use blockchain_demo.Prelude.{
  ℕ, ◌≡◌, refl, true, Option, Bytes, codes, bytes_eq, if_cases, option_cases, Always, of_Always, [],
  ◌++◌,
}
use blockchain_demo.HashTable.{Table, get, put}
use blockchain_demo.HashTable.Hashing.{Key}
use blockchain_demo.Storage.{Sqlite, put_metadata}
use blockchain_demo.Consensus.{ConsensusEngine, ConsensusMessage, Evidence}
use blockchain_demo.Consensus.Engine.{
  event, add_event, vote_key, quarantine_node, unquarantine_node, note_in_storage,
}
use blockchain_demo.Consensus.Voting.{
  Recorded, record_vote, note_conflict, store_vote, put_back, vote_table,
}
use blockchain_demo.Consensus.Sets.{member, insert, erase}

module _ {D : Type 0} where
  -- The protocol's own state is untouched.
  pub record SameRound (e e' : ConsensusEngine D) : Type 0 where
    pub round : e'.current_round ≡ e.current_round
    pub config : e'.config ≡ e.config
    pub mode : e'.attack_mode ≡ e.attack_mode
    pub view : e'.current_view ≡ e.current_view
    pub view_changes : e'.view_change_votes ≡ e.view_change_votes

  put_back-SameRound :
      (now : ℕ) (msg : ConsensusMessage) (t : Table Bytes Bytes) (e : ConsensusEngine D)
      → SameRound e (put_back now msg t e)
  unfolding put_back add_event
  put_back-SameRound now msg t e =
      if_cases
        (λ e'. SameRound e (
          add_event now
            (event msg.height msg.view msg.instance_id msg.type msg.sender_id e.config.node_id
              msg.block_hash true [])
            e'))
        (bytes_eq msg.type (codes "COMMIT")) _ _
        (λ _. (record {
          round = refl;
          config = refl;
          mode = refl;
          view = refl;
          view_changes = refl;
        }))
        (λ _. (record {
          round = refl;
          config = refl;
          mode = refl;
          view = refl;
          view_changes = refl;
        }))

  module _ ⦃key : Key Bytes⦄ where
    store_vote-SameRound :
        (now : ℕ) (msg : ConsensusMessage) (e : ConsensusEngine D)
        → Always (λ (r : Recorded D). SameRound e r.engine) (store_vote now msg e)
    unfolding store_vote
    store_vote-SameRound now msg e =
        option_cases (Always (λ (r : Recorded D). SameRound e r.engine))
          (put (vote_table msg e) (vote_key msg) msg.block_hash) _ _ (λ _. tt)
          (λ t _. put_back-SameRound now msg t e)

    pub record_vote-SameRound :
        (dump : Evidence → Bytes) (now : ℕ) (msg : ConsensusMessage) (e : ConsensusEngine D)
        → Always (λ (r : Recorded D). SameRound e r.engine) (record_vote dump now msg e)
    unfolding record_vote note_conflict add_event
    record_vote-SameRound dump now msg e =
        let P : Option (Recorded D) → Type 0 = Always (λ (r : Recorded D). SameRound e r.engine) in
        option_cases P (get (vote_table msg e) (vote_key msg)) _ _
          (λ _. store_vote-SameRound now msg e)
          (λ old _.
            if_cases P (bytes_eq old msg.block_hash) _ _ (λ _. store_vote-SameRound now msg e)
              (λ _. (record {
                round = refl;
                config = refl;
                mode = refl;
                view = refl;
                view_changes = refl;
              })))

module _ {D : Type 0} ⦃sqlite : Sqlite D⦄ where
  note_in_storage-SameRound :
      (k v : Bytes) (e e' : ConsensusEngine D)
      → SameRound e e'
      → Always (SameRound e) (note_in_storage k v e')
  unfolding note_in_storage
  note_in_storage-SameRound k v e e' s =
      option_cases (Always (SameRound e)) e'.storage _ _ (λ _. s)
        (λ db _.
          option_cases (Always (SameRound e)) (put_metadata db k v) _ _ (λ _. tt)
            (λ db' _. record {
              round = s.round;
              config = s.config;
              mode = s.mode;
              view = s.view;
              view_changes = s.view_changes;
            }))

  pub quarantine_node-SameRound :
      (now : ℕ) (node_id reason : Bytes) (e : ConsensusEngine D)
      → Always (SameRound e) (quarantine_node now node_id reason e)
  unfolding quarantine_node add_event
  quarantine_node-SameRound now node_id reason e =
      let P = Always (SameRound e) in
      if_cases P (member node_id e.quarantined_nodes) _ _
        (λ _. (record {
          round = refl;
          config = refl;
          mode = refl;
          view = refl;
          view_changes = refl;
        }))
        (λ _.
          option_cases P
            (note_in_storage (codes "quarantine:" ++ node_id) reason
              (record e { quarantined_nodes = insert node_id e.quarantined_nodes }))
            _ _ (λ _. tt)
            (λ e' h.
              let s =
                of_Always (SameRound e) _ e'
                  (note_in_storage-SameRound (codes "quarantine:" ++ node_id) reason e
                    (record e { quarantined_nodes = insert node_id e.quarantined_nodes })
                    (record {
                      round = refl;
                      config = refl;
                      mode = refl;
                      view = refl;
                      view_changes = refl;
                    }))
                  h in
              record {
                round = s.round;
                config = s.config;
                mode = s.mode;
                view = s.view;
                view_changes = s.view_changes;
              }))

  pub unquarantine_node-SameRound :
      (now : ℕ) (node_id : Bytes) (e : ConsensusEngine D)
      → Always (SameRound e) (unquarantine_node now node_id e)
  unfolding unquarantine_node add_event
  unquarantine_node-SameRound now node_id e =
      let cleared : ConsensusEngine D = record e {
        quarantined_nodes = erase node_id e.quarantined_nodes;
      } in
      option_cases (Always (SameRound e))
        (note_in_storage (codes "quarantine:" ++ node_id) [] cleared) _ _ (λ _. tt)
        (λ e' h.
          let s =
            of_Always (SameRound e) _ e'
              (note_in_storage-SameRound (codes "quarantine:" ++ node_id) [] e cleared (record {
                round = refl;
                config = refl;
                mode = refl;
                view = refl;
                view_changes = refl;
              }))
              h in
          record {
            round = s.round;
            config = s.config;
            mode = s.mode;
            view = s.view;
            view_changes = s.view_changes;
          })
