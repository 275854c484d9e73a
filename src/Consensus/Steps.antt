-- ===== src/Consensus/Steps.antt =====
-- src/consensus/consensus.cpp: the operations as steps of one node, in any order, and the invariant
-- of the round.
use blockchain_demo.Prelude.{
  ℕ, ◌≡◌, refl, sym, subst, Bool, List, [], Option, none, some, Bytes, codes, ◌++◌, if_cases,
  option_cases, Always, of_Always,
}
use blockchain_demo.Encoding.{decimal}
use blockchain_demo.Crypto.{Sodium}
use blockchain_demo.Block.{Block, NodeSignature}
use blockchain_demo.HashTable.Hashing.{Key}
use blockchain_demo.Storage.{Sqlite}
use blockchain_demo.Consensus.{ConsensusEngine, ConsensusMessage, Evidence, NodeConfig}
use blockchain_demo.Consensus.Attack.{AttackMode}
use blockchain_demo.Consensus.Engine.{
  new_engine, add_event, set_attack_mode, start, stop, quarantine_node, unquarantine_node,
  load_quarantine_from_storage,
}
use blockchain_demo.Consensus.Voting.{Recorded, Handled, record_vote, refuse}
use blockchain_demo.Consensus.Views.{on_view_change, advance_view, reset_round, create_view_change}
use blockchain_demo.Consensus.Messages.{
  create_pre_prepare, enter_round, on_pre_prepare, on_prepare, on_commit,
}
use blockchain_demo.Consensus.Counting.{
  IsCounted, moved-IsCounted, count_prepare-IsCounted, count_commit-IsCounted,
}
use blockchain_demo.Consensus.Recording.{
  SameRound, record_vote-SameRound, quarantine_node-SameRound,
}

module _ {D : Type 0} ⦃sqlite : Sqlite D⦄ ⦃key : Key Bytes⦄ where
  -- The engine that a handler leaves keeps the counts.
  abbrev pub KeepsCounts : Handled D → Type 0
  KeepsCounts h = IsCounted h.engine.current_round

  after_quarantine :
      (now : ℕ) (node_id reason : Bytes) (sigs : List NodeSignature) (e : ConsensusEngine D)
      → IsCounted e.current_round
      → Always KeepsCounts (elim (quarantine_node now node_id reason e) [
        | none ↦ none
        | some e' ↦ some (refuse e' sigs)
      ])
  after_quarantine now node_id reason sigs e c =
      option_cases (Always KeepsCounts) (quarantine_node now node_id reason e) _ _ (λ _. tt)
        (λ e' h.
          subst IsCounted
            (sym
              (of_Always (SameRound e) _ e' (quarantine_node-SameRound now node_id reason e)
                h).round)
            c)

  pub on_prepare-KeepsCounts :
      (dump : Evidence → Bytes) (now : ℕ) (msg : ConsensusMessage) (e : ConsensusEngine D)
      → IsCounted e.current_round
      → Always KeepsCounts (on_prepare dump now msg e)
  unfolding on_prepare
  on_prepare-KeepsCounts dump now msg e c =
      option_cases (Always KeepsCounts) (record_vote dump now msg e) _ _ (λ _. tt)
        (λ r h.
          let counted : IsCounted r.engine.current_round =
            subst IsCounted
              (sym
                (of_Always (λ (r : Recorded D). SameRound e r.engine) _ r
                  (record_vote-SameRound dump now msg e) h).round)
              c in
          if_cases (Always KeepsCounts) r.recorded _ _
            (λ _. count_prepare-IsCounted now msg r.engine counted)
            (λ _.
              after_quarantine now msg.sender_id
                (codes "equivocation in PREPARE at height " ++ decimal msg.height) [] r.engine
                counted))

  pub on_commit-KeepsCounts :
      (dump : Evidence → Bytes) (now : ℕ) (msg : ConsensusMessage) (sigs : List NodeSignature)
      (e : ConsensusEngine D)
      → IsCounted e.current_round
      → Always KeepsCounts (on_commit dump now msg sigs e)
  unfolding on_commit
  on_commit-KeepsCounts dump now msg sigs e c =
      option_cases (Always KeepsCounts) (record_vote dump now msg e) _ _ (λ _. tt)
        (λ r h.
          let counted : IsCounted r.engine.current_round =
            subst IsCounted
              (sym
                (of_Always (λ (r : Recorded D). SameRound e r.engine) _ r
                  (record_vote-SameRound dump now msg e) h).round)
              c in
          if_cases (Always KeepsCounts) r.recorded _ _
            (λ _. count_commit-IsCounted now msg sigs r.engine counted)
            (λ _.
              after_quarantine now msg.sender_id
                (codes "equivocation in COMMIT at height " ++ decimal msg.height) sigs r.engine
                counted))

  pub enter_round-IsCounted :
      (now : ℕ) (msg : ConsensusMessage) (block : Block) (e : ConsensusEngine D)
      → IsCounted e.current_round
      → IsCounted (enter_round now msg block e).0.current_round
  unfolding enter_round add_event
  enter_round-IsCounted now msg block e c =
      option_cases (λ (o : ConsensusEngine D × Block). IsCounted o.0.current_round) msg.block _ _
        (λ _. moved-IsCounted e.current_round _ refl refl refl refl refl c)
        (λ b _. moved-IsCounted e.current_round _ refl refl refl refl refl c)

-- One operation of a node, whatever the network, the clock and the operator chose.
pub data Step {D : Type 0} ⦃sqlite : Sqlite D⦄ ⦃key : Key Bytes⦄ ⦃sodium : Sodium⦄
    (dump : Evidence → Bytes) : ConsensusEngine D → ConsensusEngine D → Type 0 where
  proposing :
      (now : ℕ) (block : Block) (e e' : ConsensusEngine D) (msg : ConsensusMessage)
      → create_pre_prepare now block e ≡ some (e', msg)
      → Step dump e e'
  pre_preparing :
      (now : ℕ) (msg : ConsensusMessage) (old block : Block) (e e' : ConsensusEngine D) (b : Bool)
      → on_pre_prepare now msg old e ≡ some (e', block, b)
      → Step dump e e'
  preparing :
      (now : ℕ) (msg : ConsensusMessage) (e : ConsensusEngine D) (h : Handled D)
      → on_prepare dump now msg e ≡ some h
      → Step dump e h.engine
  committing :
      (now : ℕ) (msg : ConsensusMessage) (sigs : List NodeSignature) (e : ConsensusEngine D)
      (h : Handled D)
      → on_commit dump now msg sigs e ≡ some h
      → Step dump e h.engine
  changing_view :
      (now : ℕ) (msg : ConsensusMessage) (v : ℕ) (e : ConsensusEngine D)
      → Step dump e (on_view_change now msg v e).0
  asking_view_change :
      (now : ℕ) (e e' : ConsensusEngine D) (msg : ConsensusMessage)
      → create_view_change now e ≡ some (e', msg)
      → Step dump e e'
  advancing : (now : ℕ) (e : ConsensusEngine D) → Step dump e (advance_view now e)
  resetting : (now : ℕ) (e : ConsensusEngine D) → Step dump e (reset_round now e)
  attacking :
      (now : ℕ) (mode : AttackMode) (e : ConsensusEngine D)
      → Step dump e (set_attack_mode now mode e)
  stopping : (now : ℕ) (e : ConsensusEngine D) → Step dump e (stop now e)
  starting : (now : ℕ) (e : ConsensusEngine D) → Step dump e (start now e)
  loading : (db : D) (e : ConsensusEngine D) → Step dump e (load_quarantine_from_storage db e)
  quarantining :
      (now : ℕ) (node_id reason : Bytes) (e e' : ConsensusEngine D)
      → quarantine_node now node_id reason e ≡ some e'
      → Step dump e e'
  unquarantining :
      (now : ℕ) (node_id : Bytes) (e e' : ConsensusEngine D)
      → unquarantine_node now node_id e ≡ some e'
      → Step dump e e'

pub data Reachable {D : Type 0} ⦃sqlite : Sqlite D⦄ ⦃key : Key Bytes⦄ ⦃sodium : Sodium⦄
    (dump : Evidence → Bytes) : ConsensusEngine D → Type 0 where
  created :
      (config : NodeConfig) (storage : Option D) (line : Option Bytes) (now : ℕ)
      → Reachable dump (new_engine config storage line now)
  stepped : {e e' : ConsensusEngine D} → Reachable dump e → Step dump e e' → Reachable dump e'
