-- ===== src/Consensus/Voting.antt =====
-- src/consensus/consensus.cpp: the record of votes, and the count of PREPARE and COMMIT votes.
use blockchain_demo.Prelude.{
  ℕ, Bool, true, false, not, ◌&&◌, List, [], ◌∷◌, ◌++◌, Option, none, some, Bytes, codes, length,
  leb, ◌==◌, bytes_eq, if◌then◌else◌,
}
use blockchain_demo.Encoding.{decimal}
use blockchain_demo.Block.{NodeSignature}
use blockchain_demo.HashTable.{Table, get, put}
use blockchain_demo.HashTable.Hashing.{Key}
use blockchain_demo.Consensus.{
  ConsensusMessage, ConsensusEngine, ConsensusRound, Evidence, commit, decided,
}
use blockchain_demo.Consensus.Attack.{AttackMode, drop_prepare, drop_commit}
use blockchain_demo.Consensus.Sets.{member, insert}
use blockchain_demo.Consensus.Engine.{event, add_event, quorum, vote_key}

-- What `RecordVote` leaves and returns.
pub record Recorded (D : Type 0) : Type 0 where
  pub engine : ConsensusEngine D
  pub recorded : Bool

-- What a handler leaves and returns, with its output parameters.
pub record Handled (D : Type 0) : Type 0 where
  pub engine : ConsensusEngine D
  pub accepted : Bool
  pub quorum_reached : Bool
  pub signatures : List NodeSignature

unfoldable pub is_drop_prepare : AttackMode → Bool
is_drop_prepare drop_prepare = true
is_drop_prepare _ = false

unfoldable pub is_drop_commit : AttackMode → Bool
is_drop_commit drop_commit = true
is_drop_commit _ = false

-- the test of a vote against the round
unfoldable pub fits_round : ConsensusMessage → ConsensusRound → Bool
fits_round msg r =
    msg.height == r.height && (msg.view == r.view && bytes_eq msg.block_hash r.block_hash)

-- the evidence of a vote that differs from an older one
unfoldable pub conflict_of : ConsensusMessage → Bytes → Evidence
conflict_of msg old = record {
  evidence_type = codes "conflicting_vote";
  sender_id = msg.sender_id;
  height = msg.height;
  view = msg.view;
  instance_id = msg.instance_id;
  old_block_hash = old;
  new_block_hash = msg.block_hash;
}

module _ {D : Type 0} where
  abbrev pub refuse : ConsensusEngine D → List NodeSignature → Handled D
  refuse e sigs = record { engine = e; accepted = false; quorum_reached = false; signatures = sigs }

  -- `OnPrepare` after `RecordVote`
  unfoldable pub count_prepare : ℕ → ConsensusMessage → ConsensusEngine D → Handled D
  unfolding is_drop_prepare fits_round member insert add_event quorum
  count_prepare now msg e =
      let r = e.current_round in
      let senders = insert msg.sender_id r.prepare_senders in
      let counted =
        add_event now
          (event msg.height msg.view msg.instance_id (codes "PREPARE_RECEIVED") msg.sender_id
            e.config.node_id msg.block_hash true (codes "count=" ++ decimal (length senders)))
          (record e {
            current_round = record r { prepare_senders = senders; prepare_count = length senders };
          }) in
      let prepared =
        add_event now
          (event msg.height msg.view msg.instance_id (codes "PREPARE_QUORUM") e.config.node_id
            e.config.node_id msg.block_hash true [])
          (record counted { current_round = record counted.current_round { phase = commit } }) in
      if is_drop_prepare e.attack_mode
      then refuse e []
      else if not (fits_round msg r)
      then refuse e []
      else if member msg.sender_id r.prepare_senders
      then refuse e []
      else if leb (quorum e) (length senders)
      then record { engine = prepared; accepted = true; quorum_reached = true; signatures = [] }
      else record { engine = counted; accepted = true; quorum_reached = false; signatures = [] }

  -- `OnCommit` after `RecordVote`; `sigs` is what its output parameter held.
  unfoldable pub count_commit :
      ℕ → ConsensusMessage → List NodeSignature → ConsensusEngine D → Handled D
  unfolding is_drop_commit fits_round member insert add_event quorum
  count_commit now msg sigs e =
      let r = e.current_round in
      let senders = insert msg.sender_id r.commit_senders in
      let sig : NodeSignature = record {
        node_id = msg.sender_id;
        public_key_hex = [];
        signature_hex = msg.signature_hex;
      } in
      let counted =
        add_event now
          (event msg.height msg.view msg.instance_id (codes "COMMIT_RECEIVED") msg.sender_id
            e.config.node_id msg.block_hash true (codes "count=" ++ decimal (length senders)))
          (record e {
            current_round = record r {
              commit_senders = senders;
              commit_count = length senders;
              commit_signatures = r.commit_signatures ++ (sig ∷ []);
            };
          }) in
      let done =
        add_event now
          (event msg.height msg.view msg.instance_id (codes "COMMIT_QUORUM") e.config.node_id
            e.config.node_id msg.block_hash true [])
          (record counted {
            current_round = record counted.current_round { phase = decided; committed = true };
          }) in
      if is_drop_commit e.attack_mode
      then refuse e sigs
      else if not (fits_round msg r)
      then refuse e sigs
      else if member msg.sender_id r.commit_senders
      then refuse e sigs
      else if leb (quorum e) (length senders)
      then record {
        engine = done;
        accepted = true;
        quorum_reached = true;
        signatures = counted.current_round.commit_signatures;
      }
      else record { engine = counted; accepted = true; quorum_reached = false; signatures = sigs }

  -- the table that `RecordVote` chooses
  unfoldable pub vote_table : ConsensusMessage → ConsensusEngine D → Table Bytes Bytes
  vote_table msg e = if bytes_eq msg.type (codes "COMMIT") then e.commit_votes else e.prepare_votes

  -- `RecordVote` where the vote conflicts with an older one
  unfoldable pub note_conflict :
      (Evidence → Bytes) → ℕ → ConsensusMessage → Bytes → ConsensusEngine D → Recorded D
  unfolding conflict_of add_event
  note_conflict dump now msg old e = record {
    engine =
        add_event now
          (event msg.height msg.view msg.instance_id (codes "CONFLICTING_VOTE") msg.sender_id
            e.config.node_id msg.block_hash false (dump (conflict_of msg old)))
          (record e { evidence = e.evidence ++ (conflict_of msg old ∷ []) });
    recorded = false;
  }

  -- the table that `RecordVote` has written, put back, and the event
  unfoldable pub put_back :
      ℕ → ConsensusMessage → Table Bytes Bytes → ConsensusEngine D → ConsensusEngine D
  unfolding add_event
  put_back now msg t e =
      add_event now
        (event msg.height msg.view msg.instance_id msg.type msg.sender_id e.config.node_id
          msg.block_hash true [])
        (if bytes_eq msg.type (codes "COMMIT")
          then record e { commit_votes = t }
          else record e { prepare_votes = t })

  -- `RecordVote` where nothing conflicts; `none` would be a `Put` that does not return.
  unfoldable pub store_vote :
      ⦃key : Key Bytes⦄ → ℕ → ConsensusMessage → ConsensusEngine D → Option (Recorded D)
  unfolding vote_table vote_key put put_back
  store_vote now msg e = elim (put (vote_table msg e) (vote_key msg) msg.block_hash) [
    | none ↦ none
    | some t ↦ some (record { engine = put_back now msg t e; recorded = true })
  ]

  -- `RecordVote`
  unfoldable pub record_vote :
      ⦃key : Key Bytes⦄
      → (Evidence → Bytes)
      → ℕ
      → ConsensusMessage
      → ConsensusEngine D
      → Option (Recorded D)
  unfolding vote_table vote_key get note_conflict store_vote
  record_vote dump now msg e = elim (get (vote_table msg e) (vote_key msg)) [
    | none ↦ store_vote now msg e
    | some old ↦
        if bytes_eq old msg.block_hash
        then store_vote now msg e
        else some (note_conflict dump now msg old e)
  ]
