-- ===== src/Api/Messages.antt =====
-- src/api/api_server.cpp: the handler `/p2p/consensus/message`. The reply is its kind, with the message
-- that was broadcast or the signature that it carries.
use blockchain_demo.Prelude.{
  ℕ, ◌==◌, ◌&&◌, Bool, true, false, not, [], ◌++◌, Option, none, some, Bytes, codes, bytes_eq,
  length, if◌then◌else◌,
}
use blockchain_demo.Outcome.{Outcome, done, threw, ◌>>=◌}
use blockchain_demo.Encoding.{decimal, hash_to_hex}
use blockchain_demo.Crypto.{Sodium, sign_detached_hex}
use blockchain_demo.HashTable.Hashing.{Key}
use blockchain_demo.Json.{Nlohmann}
use blockchain_demo.Merkle.{compute_root}
use blockchain_demo.Block.{Block, empty_block}
use blockchain_demo.Storage.{Sqlite}
use blockchain_demo.Executor.{execute_for_state_root}
use blockchain_demo.Consensus.{ConsensusMessage, ConsensusEngine, Evidence}
use blockchain_demo.Consensus.Sets.{insert}
use blockchain_demo.Consensus.Engine.{
  event, add_event, is_primary, serialize_consensus_message_for_sign,
}
use blockchain_demo.Consensus.Voting.{record_vote}
use blockchain_demo.Consensus.Views.{on_view_change, advance_view, reset_round}
use blockchain_demo.Consensus.Messages.{on_pre_prepare, on_prepare}
use blockchain_demo.Api.{
  ApiServer, engine_of, with_engine, has_own_hash, try_quarantine, commit_block_with_signatures,
}

-- `failed` is the reply of the handler of exceptions.
pub data MessageReply : Type 0 where
  pre_prepare_rejected merkle_refused state_refused execution_refused hash_refused : MessageReply
  pre_prepared prepare_rejected unknown_type failed : MessageReply
  -- The COMMIT that was broadcast, where the quorum is reached.
  prepared : Option ConsensusMessage → MessageReply
  commit_signed : Bytes → MessageReply
  -- Whether the quorum is reached, and whether a thread was started that proposes a block.
  view_changed : Bool → Bool → MessageReply

-- The COMMIT of a node whose PREPARE votes are a quorum, before it is signed.
unfoldable pub commit_for : ℕ → Bytes → Bytes → ConsensusMessage → ConsensusMessage
commit_for now node_id chain_id msg = record {
  msg_id =
      node_id
      ++ (codes ":"
          ++ (decimal msg.height ++ (codes ":" ++ (decimal msg.view ++ codes ":commit"))));
  type = codes "COMMIT";
  chain_id = chain_id;
  height = msg.height;
  view = msg.view;
  instance_id = msg.instance_id;
  block_hash = msg.block_hash;
  block = none;
  sender_id = node_id;
  timestamp = now;
  signature_hex = [];
}

module _ {D : Type 0} where
  abbrev pub reset_server : ℕ → ApiServer D → ApiServer D
  reset_server now s = record s { consensus = reset_round now s.consensus }

  -- the reply to a block that is refused, after `QuarantineNode`
  unfoldable pub refuse_after :
      ℕ → MessageReply → Outcome (ApiServer D) → ApiServer D × MessageReply
  refuse_after now reply (done s) = (reset_server now s, reply)
  refuse_after now reply (threw s) = (s, failed)

  -- the same in the `try` around the execution
  unfoldable pub refuse_state : ℕ → Outcome (ApiServer D) → ApiServer D × MessageReply
  refuse_state now (done s) = (reset_server now s, state_refused)
  refuse_state now (threw s) = (reset_server now s, execution_refused)

  -- the event of a message
  abbrev pub noted : ℕ → ConsensusMessage → ApiServer D → ApiServer D
  unfolding add_event
  noted now msg s = record s {
    consensus =
        add_event now
          (event msg.height msg.view msg.instance_id (codes "P2P_" ++ msg.type) msg.sender_id
            s.consensus.config.node_id msg.block_hash true [])
          s.consensus;
  }

module _ {D : Type 0} ⦃sqlite : Sqlite D⦄ ⦃sodium : Sodium⦄ (now : ℕ) (msg : ConsensusMessage) where
  unfoldable pub verify_hash : Block → ApiServer D → ApiServer D × MessageReply
  unfolding has_own_hash try_quarantine refuse_after
  verify_hash block s =
      if has_own_hash block
      then (s, pre_prepared)
      else refuse_after now hash_refused
          (try_quarantine now msg.sender_id (codes "PRE_PREPARE block_hash mismatch") s)

  -- the test of the state root that the execution has returned
  unfoldable pub verify_state : Block → Option Bytes → ApiServer D → ApiServer D × MessageReply
  unfolding verify_hash try_quarantine refuse_state
  verify_state block none s = (reset_server now s, execution_refused)
  verify_state block (some real_state) s =
      if bytes_eq real_state block.header.state_root
      then verify_hash block s
      else refuse_state now
          (try_quarantine now msg.sender_id (codes "PRE_PREPARE state_root mismatch") s)

  -- the test of the Merkle root; `none` would be a root that is not computed.
  unfoldable pub verify_merkle : Block → Option Bytes → ApiServer D → ApiServer D × MessageReply
  unfolding verify_state execute_for_state_root try_quarantine refuse_after
  verify_merkle block none s = (s, failed)
  verify_merkle block (some real_merkle) s =
      if bytes_eq (hash_to_hex real_merkle) block.header.tx_merkle_root
      then verify_state block (execute_for_state_root block.transactions s.executor).1
          (record s { executor = (execute_for_state_root block.transactions s.executor).0 })
      else refuse_after now merkle_refused
          (try_quarantine now msg.sender_id (codes "PRE_PREPARE merkle mismatch") s)

  -- what follows `OnPrePrepare`
  unfoldable pub after_pre_prepare :
      ApiServer D → Option (ConsensusEngine D × Block × Bool) → ApiServer D × MessageReply
  unfolding compute_root verify_merkle
  after_pre_prepare s none = (s, failed)
  after_pre_prepare s (some (e, block, accepted)) =
      if not accepted
      then (with_engine s e, pre_prepare_rejected)
      else verify_merkle block (compute_root block.transactions) (with_engine s e)

  unfoldable pub handle_pre_prepare : ApiServer D → ApiServer D × MessageReply
  unfolding after_pre_prepare on_pre_prepare engine_of
  handle_pre_prepare s = after_pre_prepare s (on_pre_prepare now msg empty_block (engine_of s))

  -- the COMMIT that is broadcast after a quorum of PREPARE votes
  unfoldable pub broadcast_commit : ApiServer D → ApiServer D × MessageReply
  unfolding commit_for serialize_consensus_message_for_sign sign_detached_hex
  broadcast_commit s =
      let commit = commit_for now s.consensus.config.node_id s.consensus.config.chain_id msg in
      elim (sign_detached_hex (serialize_consensus_message_for_sign commit)
        s.consensus.node_private_key) [
          | none ↦ (s, failed)
          | some sig ↦ (s, prepared (some (record commit { signature_hex = sig })))
        ]

  module _ ⦃key : Key Bytes⦄ (dump : Evidence → Bytes) where
    -- the engine where `QuarantineNode` throws in `OnPrepare`
    unfoldable pub engine_left : ConsensusEngine D → ConsensusEngine D
    unfolding record_vote insert
    engine_left e = elim (record_vote dump now msg e) [
      | none ↦ e
      | some r ↦ record r.engine {
        quarantined_nodes = insert msg.sender_id r.engine.quarantined_nodes;
      }
    ]

    unfoldable pub handle_prepare : ApiServer D → ApiServer D × MessageReply
    unfolding on_prepare engine_of engine_left broadcast_commit
    handle_prepare s = elim (on_prepare dump now msg (engine_of s)) [
      | none ↦ (with_engine s (engine_left (engine_of s)), failed)
      | some h ↦
          if not h.accepted
          then (with_engine s h.engine, prepare_rejected)
          else if h.quorum_reached
          then broadcast_commit (with_engine s h.engine)
          else (with_engine s h.engine, prepared none)
    ]

  -- the signature of this node for the COMMIT
  unfoldable pub sign_commit : Outcome (ApiServer D) → ApiServer D × MessageReply
  unfolding sign_detached_hex serialize_consensus_message_for_sign
  sign_commit (threw s) = (s, failed)
  sign_commit (done s) =
      elim (sign_detached_hex (serialize_consensus_message_for_sign msg)
        s.consensus.node_private_key) [ none ↦ (s, failed) | some sig ↦ (s, commit_signed sig) ]

  unfoldable pub handle_view_change : ApiServer D → ApiServer D × MessageReply
  unfolding on_view_change advance_view is_primary
  handle_view_change s =
      let (e, quorum, _) = on_view_change now msg 0 s.consensus in
      let advanced = advance_view now e in
      if quorum
      then (
        record s { consensus = advanced },
        view_changed true (is_primary advanced && not (length s.mempool.txs == 0)),
      )
      else (record s { consensus = e }, view_changed false false)

  module _ ⦃key : Key Bytes⦄ (J : Type 0) ⦃json : Nlohmann J⦄ (dump : Evidence → Bytes) where
    unfoldable pub handle_commit : ApiServer D → ApiServer D × MessageReply
    unfolding commit_block_with_signatures reset_round sign_commit
    handle_commit s =
        let block = s.consensus.current_round.proposed_block in
        if block.header.height == msg.height && bytes_eq block.header.block_hash msg.block_hash
        then sign_commit
            (commit_block_with_signatures J now block [] s >>= λ s1. done (reset_server now s1))
        else sign_commit (done s)

    -- the handler, from the parsed message on
    unfoldable pub on_message : ApiServer D → ApiServer D × MessageReply
    unfolding handle_pre_prepare handle_prepare handle_commit handle_view_change
    on_message s =
        let s1 = noted now msg s in
        if bytes_eq msg.type (codes "PRE_PREPARE")
        then handle_pre_prepare s1
        else if bytes_eq msg.type (codes "PREPARE")
        then handle_prepare dump s1
        else if bytes_eq msg.type (codes "COMMIT")
        then handle_commit s1
        else if bytes_eq msg.type (codes "VIEW_CHANGE")
        then handle_view_change s1
        else (s1, unknown_type)
