-- ===== src/Consensus/Views.antt =====
-- src/consensus/consensus.cpp: view changes and the reset of the round.
use blockchain_demo.Prelude.{
  ℕ, ◌-◌, ◌+◌, Bool, true, false, ◌||◌, [], ◌++◌, Option, none, some, codes, length, ltb, leb, ◌==◌,
  if◌then◌else◌,
}
use blockchain_demo.Encoding.{decimal}
use blockchain_demo.Crypto.{Sodium, sign_detached_hex}
use blockchain_demo.Consensus.{ConsensusMessage, ConsensusEngine, ConsensusPhase, idle, new_round}
use blockchain_demo.Consensus.Sets.{insert}
use blockchain_demo.Consensus.Engine.{
  event, add_event, quorum, primary, wrap, serialize_consensus_message_for_sign,
}

unfoldable pub is_idle : ConsensusPhase → Bool
is_idle idle = true
is_idle _ = false

module _ {D : Type 0} where
  -- `ShouldViewChange`, at the time `now`
  unfoldable pub should_view_change : ℕ → ConsensusEngine D → Bool
  unfolding is_idle wrap
  should_view_change now e =
      let elapsed = wrap (now + (18446744073709551616 - e.current_round.round_start_time)) in
      if is_idle e.current_round.phase || e.current_round.committed
      then false
      else if leb 3 e.current_view
      then false
      else ltb e.config.consensus_timeout_ms elapsed

  -- `OnViewChange`: the engine, whether the quorum is reached, and `new_view`, which it sets then.
  unfoldable pub on_view_change :
      ℕ → ConsensusMessage → ℕ → ConsensusEngine D → ConsensusEngine D × Bool × ℕ
  unfolding insert add_event quorum
  on_view_change now msg new_view e =
      let target_view = msg.view in
      let senders = insert msg.sender_id (e.view_change_votes target_view) in
      let noted =
        add_event now
          (event msg.height target_view 0 (codes "VIEW_CHANGE_RECEIVED") msg.sender_id
            e.config.node_id [] true (codes "count=" ++ decimal (length senders)))
          (record e {
            view_change_votes =
                λ view. if view == target_view then senders else e.view_change_votes view;
          }) in
      if leb (quorum e) (length senders)
      then (
        add_event now
            (event msg.height target_view 0 (codes "VIEW_CHANGE_QUORUM") e.config.node_id
              e.config.node_id [] true [])
            noted,
        true,
        target_view,
      )
      else (noted, false, new_view)

  -- `AdvanceView`
  unfoldable pub advance_view : ℕ → ConsensusEngine D → ConsensusEngine D
  unfolding wrap new_round primary add_event
  advance_view now e =
      let next : ConsensusEngine D = record e {
        current_view = wrap (e.current_view + 1);
        current_round = new_round now;
      } in
      add_event now
        (event 0 next.current_view 0 (codes "VIEW_ADVANCED") e.config.node_id e.config.node_id []
          true (codes "new_primary=" ++ primary next next.current_view 0))
        next

  -- `ResetRound`
  unfoldable pub reset_round : ℕ → ConsensusEngine D → ConsensusEngine D
  unfolding new_round
  reset_round now e = record e { current_round = new_round now }

module _ {D : Type 0} ⦃sodium : Sodium⦄ where
  -- `CreateViewChange`: the message; `none` is the exception of `SignDetachedHex`.
  unfoldable pub create_view_change :
      ℕ → ConsensusEngine D → Option (ConsensusEngine D × ConsensusMessage)
  unfolding wrap serialize_consensus_message_for_sign sign_detached_hex add_event
  create_view_change now e =
      let next_view = wrap (e.current_view + 1) in
      let msg : ConsensusMessage = record {
        msg_id = e.config.node_id ++ (codes ":vc:" ++ decimal next_view);
        type = codes "VIEW_CHANGE";
        chain_id = e.config.chain_id;
        height = e.current_round.height;
        view = next_view;
        instance_id = 0;
        block_hash = e.current_round.block_hash;
        block = none;
        sender_id = e.config.node_id;
        timestamp = now;
        signature_hex = [];
      } in
      elim (sign_detached_hex (serialize_consensus_message_for_sign msg) e.node_private_key) [
        | none ↦ none
        | some sig ↦ some (
          add_event now
              (event e.current_round.height next_view 0 (codes "VIEW_CHANGE_SENT") e.config.node_id
                [] [] true [])
              e,
          record msg { signature_hex = sig },
        )
      ]
