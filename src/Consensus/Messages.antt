-- ===== src/Consensus/Messages.antt =====
-- src/consensus/consensus.cpp: the handlers of PRE_PREPARE, PREPARE and COMMIT.
use blockchain_demo.Prelude.{
  ℕ, Bool, true, false, not, List, [], ◌++◌, Option, none, some, Bytes, codes, leb, bytes_eq,
  if◌then◌else◌,
}
use blockchain_demo.Encoding.{decimal}
use blockchain_demo.Crypto.{Sodium, sign_detached_hex}
use blockchain_demo.Block.{Block, NodeSignature}
use blockchain_demo.HashTable.Hashing.{Key}
use blockchain_demo.Storage.{Sqlite, get_metadata}
use blockchain_demo.Consensus.{
  ConsensusMessage, ConsensusEngine, ConsensusRound, Evidence, pre_prepare,
}
use blockchain_demo.Consensus.Engine.{
  event, add_event, primary, quarantine_node, serialize_consensus_message_for_sign,
}
use blockchain_demo.Encoding.Parse.{stoull}
use blockchain_demo.Consensus.Voting.{Handled, record_vote, count_prepare, count_commit, refuse}

module _ {D : Type 0} ⦃sodium : Sodium⦄ where
  -- `CreatePrePrepare`: the message; `none` is the exception of `SignDetachedHex`.
  unfoldable pub create_pre_prepare :
      ℕ → Block → ConsensusEngine D → Option (ConsensusEngine D × ConsensusMessage)
  unfolding serialize_consensus_message_for_sign sign_detached_hex add_event
  create_pre_prepare now block e =
      let round : ConsensusRound = record {
        phase = pre_prepare;
        height = block.header.height;
        view = e.current_view;
        proposed_block = block;
        block_hash = block.header.block_hash;
        prepare_count = 0;
        commit_count = 0;
        prepare_senders = [];
        commit_senders = [];
        commit_signatures = [];
        round_start_time = now;
        committed = false;
      } in
      let msg : ConsensusMessage = record {
        msg_id =
            e.config.node_id
            ++ (codes ":"
                ++ (decimal block.header.height ++ (codes ":" ++ decimal e.current_view)));
        type = codes "PRE_PREPARE";
        chain_id = e.config.chain_id;
        height = block.header.height;
        view = e.current_view;
        instance_id = 0;
        block_hash = block.header.block_hash;
        block = some block;
        sender_id = e.config.node_id;
        timestamp = now;
        signature_hex = [];
      } in
      elim (sign_detached_hex (serialize_consensus_message_for_sign msg) e.node_private_key) [
        | none ↦ none
        | some sig ↦ some (
          add_event now
              (event block.header.height e.current_view 0 (codes "PRE_PREPARE_SENT")
                e.config.node_id [] block.header.block_hash true [])
              (record e { current_round = round }),
          record msg { signature_hex = sig },
        )
      ]

module _ {D : Type 0} ⦃sqlite : Sqlite D⦄ where
  -- `OnPrePrepare` once the sender and the height are checked: the engine and `block_out`.
  unfoldable pub enter_round :
      ℕ → ConsensusMessage → Block → ConsensusEngine D → ConsensusEngine D × Block
  unfolding add_event
  enter_round now msg block_out e =
      let r : ConsensusRound = record e.current_round {
        phase = pre_prepare;
        height = msg.height;
        view = msg.view;
        block_hash = msg.block_hash;
        round_start_time = now;
      } in
      let accepted =
        event msg.height msg.view msg.instance_id (codes "PRE_PREPARE_ACCEPTED") msg.sender_id
          e.config.node_id msg.block_hash true [] in
      elim msg.block [
        | none ↦ (add_event now accepted (record e { current_round = r }), block_out)
        | some block ↦ (
          add_event now accepted (record e { current_round = record r { proposed_block = block } }),
          block,
        )
      ]

  -- `OnPrePrepare`: the engine, `block_out`, and what it returns. `none` is an exception of
  -- `stoull`, or the call of a null storage.
  unfoldable pub on_pre_prepare :
      ℕ → ConsensusMessage → Block → ConsensusEngine D → Option (ConsensusEngine D × Block × Bool)
  unfolding primary enter_round get_metadata add_event
  on_pre_prepare now msg block_out e =
      let rejected =
        add_event now
          (event msg.height msg.view msg.instance_id (codes "PRE_PREPARE_REJECTED") msg.sender_id
            e.config.node_id msg.block_hash false (codes "not primary"))
          e in
      if not (bytes_eq msg.sender_id (primary e msg.view msg.instance_id))
      then some (rejected, block_out, false)
      else elim e.storage [
        | none ↦ none
        | some db ↦ elim (stoull (get_metadata db (codes "latest_height") (codes "0"))) [
          | none ↦ none
          | some latest ↦
              if leb msg.height latest
              then some (e, block_out, false)
              else let (entered, block) = enter_round now msg block_out e in
                some (entered, block, true)
        ]
      ]

  module _ ⦃key : Key Bytes⦄ (dump : Evidence → Bytes) where
    -- `OnPrepare`; `none` is an exception of the storage.
    unfoldable pub on_prepare : ℕ → ConsensusMessage → ConsensusEngine D → Option (Handled D)
    unfolding record_vote quarantine_node count_prepare
    on_prepare now msg e = elim (record_vote dump now msg e) [
      | none ↦ none
      | some r ↦
          if r.recorded
          then some (count_prepare now msg r.engine)
          else elim (quarantine_node now msg.sender_id
              (codes "equivocation in PREPARE at height " ++ decimal msg.height) r.engine) [
                | none ↦ none
                | some e' ↦ some (refuse e' [])
              ]
    ]

    -- `OnCommit`
    unfoldable pub on_commit :
        ℕ → ConsensusMessage → List NodeSignature → ConsensusEngine D → Option (Handled D)
    unfolding record_vote quarantine_node count_commit
    on_commit now msg sigs e = elim (record_vote dump now msg e) [
      | none ↦ none
      | some r ↦
          if r.recorded
          then some (count_commit now msg sigs r.engine)
          else elim (quarantine_node now msg.sender_id
              (codes "equivocation in COMMIT at height " ++ decimal msg.height) r.engine) [
                | none ↦ none
                | some e' ↦ some (refuse e' sigs)
              ]
    ]
