-- ===== src/Consensus/Invariant.antt =====
-- src/consensus/consensus.cpp: the counts of the round hold in every state that a node reaches.
use blockchain_demo.Prelude.{
  ℕ, refl, sym, subst, Bool, not, Option, Bytes, codes, bytes_eq, leb, length, if_cases,
  option_cases, Always, of_Always,
}
use blockchain_demo.Crypto.{Sodium, sign_detached_hex}
use blockchain_demo.Block.{Block}
use blockchain_demo.HashTable.Hashing.{Key}
use blockchain_demo.Storage.{Sqlite, get_metadata}
use blockchain_demo.Encoding.Parse.{stoull}
use blockchain_demo.Consensus.{ConsensusEngine, ConsensusMessage, Evidence}
use blockchain_demo.Consensus.Engine.{
  new_engine, quorum, add_event, set_attack_mode, start, stop, primary,
  load_quarantine_from_storage,
}
use blockchain_demo.Consensus.Sets.{NoRepeat, insert}
use blockchain_demo.Consensus.Views.{on_view_change, advance_view, reset_round, create_view_change}
use blockchain_demo.Consensus.Messages.{create_pre_prepare, on_pre_prepare}
use blockchain_demo.Consensus.Counting.{IsCounted, new_round-IsCounted}
use blockchain_demo.Consensus.Recording.{
  SameRound, quarantine_node-SameRound, unquarantine_node-SameRound,
}
use blockchain_demo.Consensus.Steps.{
  Step, proposing, pre_preparing, preparing, committing, changing_view, asking_view_change,
  advancing, resetting, attacking, stopping, starting, loading, quarantining, unquarantining,
  Reachable, created, stepped, KeepsCounts, on_prepare-KeepsCounts, on_commit-KeepsCounts,
  enter_round-IsCounted,
}

module _ {D : Type 0} ⦃sqlite : Sqlite D⦄ ⦃key : Key Bytes⦄ ⦃sodium : Sodium⦄ where
  create_pre_prepare-IsCounted :
      (now : ℕ) (block : Block) (e : ConsensusEngine D)
      → Always
          (λ (o : ConsensusEngine D × ConsensusMessage). IsCounted o.0.current_round)
          (create_pre_prepare now block e)
  unfolding create_pre_prepare add_event NoRepeat
  create_pre_prepare-IsCounted now block e =
      option_cases
        (Always (λ (o : ConsensusEngine D × ConsensusMessage). IsCounted o.0.current_round))
        (sign_detached_hex _ e.node_private_key) _ _ (λ _. tt)
        (λ sig _. record {
          prepares = refl;
          prepare_once = tt;
          commits = refl;
          commit_once = tt;
          signed = λ q. refl;
          sign_once = tt;
          sign_count = refl;
        })

  on_pre_prepare-IsCounted :
      (now : ℕ) (msg : ConsensusMessage) (block : Block) (e : ConsensusEngine D)
      → IsCounted e.current_round
      → Always
          (λ (o : ConsensusEngine D × Block × Bool). IsCounted o.0.current_round)
          (on_pre_prepare now msg block e)
  unfolding on_pre_prepare add_event
  on_pre_prepare-IsCounted now msg block e c =
      let P : Option (ConsensusEngine D × Block × Bool) → Type 0 =
        Always (λ (o : ConsensusEngine D × Block × Bool). IsCounted o.0.current_round) in
      if_cases P (not (bytes_eq msg.sender_id (primary e msg.view msg.instance_id))) _ _ (λ _. c)
        (λ _.
          option_cases P e.storage _ _ (λ _. tt)
            (λ db _.
              option_cases P (stoull (get_metadata db (codes "latest_height") (codes "0"))) _ _
                (λ _. tt)
                (λ latest _.
                  if_cases P (leb msg.height latest) _ _ (λ _. c)
                    (λ _. enter_round-IsCounted now msg block e c))))

  create_view_change-IsCounted :
      (now : ℕ) (e : ConsensusEngine D)
      → IsCounted e.current_round
      → Always
          (λ (o : ConsensusEngine D × ConsensusMessage). IsCounted o.0.current_round)
          (create_view_change now e)
  unfolding create_view_change add_event
  create_view_change-IsCounted now e c =
      option_cases
        (Always (λ (o : ConsensusEngine D × ConsensusMessage). IsCounted o.0.current_round))
        (sign_detached_hex _ e.node_private_key) _ _ (λ _. tt) (λ sig _. c)

  on_view_change-IsCounted :
      (now : ℕ) (msg : ConsensusMessage) (v : ℕ) (e : ConsensusEngine D)
      → IsCounted e.current_round
      → IsCounted (on_view_change now msg v e).0.current_round
  unfolding on_view_change add_event
  on_view_change-IsCounted now msg v e c =
      if_cases (λ (o : ConsensusEngine D × Bool × ℕ). IsCounted o.0.current_round)
        (leb (quorum e) (length (insert msg.sender_id (e.view_change_votes msg.view)))) _ _ (λ _. c)
        (λ _. c)

  -- Every operation keeps the counts.
  pub Step-IsCounted :
      (dump : Evidence → Bytes) {e e' : ConsensusEngine D}
      → Step dump e e'
      → IsCounted e.current_round
      → IsCounted e'.current_round
  unfolding advance_view reset_round set_attack_mode start stop load_quarantine_from_storage
      add_event
  Step-IsCounted dump (proposing now block e e' msg h) c =
      of_Always (λ (o : ConsensusEngine D × ConsensusMessage). IsCounted o.0.current_round) _
        (e', msg) (create_pre_prepare-IsCounted now block e) h
  Step-IsCounted dump (pre_preparing now msg old block e e' b h) c =
      of_Always (λ (o : ConsensusEngine D × Block × Bool). IsCounted o.0.current_round) _
        (e', block, b) (on_pre_prepare-IsCounted now msg old e c) h
  Step-IsCounted dump (preparing now msg e h eq) c =
      of_Always KeepsCounts _ h (on_prepare-KeepsCounts dump now msg e c) eq
  Step-IsCounted dump (committing now msg sigs e h eq) c =
      of_Always KeepsCounts _ h (on_commit-KeepsCounts dump now msg sigs e c) eq
  Step-IsCounted dump (changing_view now msg v e) c = on_view_change-IsCounted now msg v e c
  Step-IsCounted dump (asking_view_change now e e' msg h) c =
      of_Always (λ (o : ConsensusEngine D × ConsensusMessage). IsCounted o.0.current_round) _
        (e', msg) (create_view_change-IsCounted now e c) h
  Step-IsCounted dump (advancing now e) c = new_round-IsCounted now
  Step-IsCounted dump (resetting now e) c = new_round-IsCounted now
  Step-IsCounted dump (attacking now mode e) c = c
  Step-IsCounted dump (stopping now e) c = c
  Step-IsCounted dump (starting now e) c = c
  Step-IsCounted dump (loading db e) c = c
  Step-IsCounted dump (quarantining now node_id reason e e' h) c =
      subst IsCounted
        (sym
          (of_Always (SameRound e) _ e' (quarantine_node-SameRound now node_id reason e) h).round)
        c
  Step-IsCounted dump (unquarantining now node_id e e' h) c =
      subst IsCounted
        (sym (of_Always (SameRound e) _ e' (unquarantine_node-SameRound now node_id e) h).round) c

  -- In every state that a node reaches, the counts of the round are the numbers of its senders, no
  -- sender is counted twice, and the signatures of the round are one for each counted COMMIT.
  pub Reachable-IsCounted :
      (dump : Evidence → Bytes) {e : ConsensusEngine D}
      → Reachable dump e
      → IsCounted e.current_round
  unfolding new_engine
  Reachable-IsCounted dump (created config storage line now) = new_round-IsCounted now
  Reachable-IsCounted dump (stepped r s) = Step-IsCounted dump s (Reachable-IsCounted dump r)
