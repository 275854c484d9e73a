-- ===== src/Api.antt =====
-- src/api/api_server.cpp: the handler `/p2p/sync/block`, which takes a block from a peer, and the commit
-- of an agreed block. A request is given as its parsed body; a handler returns the state and the kind
-- of its reply, without the text.
pub mod Messages
pub mod Offered
pub mod Range
pub mod Trace
pub mod Synced
pub mod Unproven
use blockchain_demo.Prelude.{
  ℕ, ◌+◌, ◌%◌, ◌^◌, Bool, true, List, [], ◌∷◌, ◌++◌, Option, none, some, Bytes, codes, bytes_eq,
  length, replicate, ltb, leb, if◌then◌else◌,
}
use blockchain_demo.Outcome.{Outcome, done, threw}
use blockchain_demo.Encoding.{decimal, hash_to_hex}
use blockchain_demo.Encoding.Parse.{stoull}
use blockchain_demo.Crypto.{Sodium}
use blockchain_demo.HashTable.Hashing.{Key}
use blockchain_demo.Json.{Nlohmann}
use blockchain_demo.Transaction.{Transaction}
use blockchain_demo.Merkle.{compute_root}
use blockchain_demo.Block.{Block, BlockHeader, NodeSignature, compute_block_hash}
use blockchain_demo.Mempool.{Mempool, remove_committed}
use blockchain_demo.Storage.{Sqlite, get_metadata}
use blockchain_demo.Storage.Documents.{get_latest_block}
use blockchain_demo.Executor.{BlockExecutor, execute_for_state_root}
use blockchain_demo.Executor.Commit.{commit_block}
use blockchain_demo.Consensus.{ConsensusEngine}
use blockchain_demo.Consensus.Sets.{insert}
use blockchain_demo.Consensus.Engine.{event, add_event, is_quarantined, quarantine_node}

-- The members of `ApiServer` that these handlers use. The executor and the engine hold one pointer to
-- one storage: the database is the executor's, and `engine_of` hands it to the engine.
pub record ApiServer (D : Type 0) : Type 0 where
  pub executor : BlockExecutor D
  pub mempool : Mempool
  pub consensus : ConsensusEngine D

-- The replies of `/p2p/sync/block`; `error` is that of the handler of exceptions.
pub data SyncReply : Type 0 where
  proposer_quarantined ignored previous_mismatch merkle_mismatch state_mismatch : SyncReply
  hash_mismatch synced error : SyncReply
  -- A thread was started that fetches the blocks from this height to that one from the proposer, if it
  -- is a peer.
  catch_up_triggered : ℕ → ℕ → SyncReply

-- `std::string(64, '0')`
abbrev pub genesis_hash : Bytes
genesis_hash = replicate 64 b'0'

-- `prev ? prev->header.block_hash : std::string(64, '0')`
abbrev pub hash_of_latest : Option Block → Bytes
hash_of_latest none = genesis_hash
hash_of_latest (some block) = block.header.block_hash

-- `ComputeBlockHash(hdr) == saved_hash`
unfoldable pub has_own_hash : ⦃sodium : Sodium⦄ → Block → Bool
unfolding compute_block_hash
has_own_hash block =
    bytes_eq (compute_block_hash (record block.header { block_hash = [] })) block.header.block_hash

-- the reason of a quarantine
unfoldable pub at_height : Bytes → Block → Bytes
at_height what block = what ++ (codes " at height " ++ decimal block.header.height)

module _ {D : Type 0} where
  unfoldable pub engine_of : ApiServer D → ConsensusEngine D
  engine_of s = record s.consensus { storage = some s.executor.storage }

  -- The engine has worked on the storage.
  unfoldable pub with_engine : ApiServer D → ConsensusEngine D → ApiServer D
  with_engine s e = elim e.storage [
    | none ↦ record s { consensus = e }
    | some db ↦ record s { consensus = e; executor = record s.executor { storage = db } }
  ]

module _ {D : Type 0} ⦃sqlite : Sqlite D⦄ where
  -- `QuarantineNode`; where the storage throws, the node is in the set of the engine already.
  unfoldable pub try_quarantine : ℕ → Bytes → Bytes → ApiServer D → Outcome (ApiServer D)
  unfolding quarantine_node engine_of insert
  try_quarantine now node_id reason s = elim (quarantine_node now node_id reason (engine_of s)) [
    | none ↦ threw (record s {
      consensus = record s.consensus {
        quarantined_nodes = insert node_id s.consensus.quarantined_nodes;
      };
    })
    | some e ↦ done (with_engine s e)
  ]

  -- a reply, or that of the handler of exceptions
  unfoldable pub reply_after : SyncReply → Outcome (ApiServer D) → ApiServer D × SyncReply
  reply_after reply (done s) = (s, reply)
  reply_after reply (threw s) = (s, error)

  -- `QuarantineNode` before a reply
  unfoldable pub quarantine : ℕ → Bytes → Bytes → SyncReply → ApiServer D → ApiServer D × SyncReply
  unfolding try_quarantine reply_after
  quarantine now node_id reason reply s = reply_after reply (try_quarantine now node_id reason s)

  module _ ⦃key : Key Bytes⦄ where
    -- what follows a `CommitBlock` in the handler
    unfoldable pub after_commit :
        ℕ → Block → ApiServer D → Outcome (BlockExecutor D) → ApiServer D × SyncReply
    unfolding remove_committed add_event
    after_commit now block s (threw e) = (record s { executor = e }, error)
    after_commit now block s (done e) = elim (remove_committed block.transactions s.mempool) [
      | none ↦ (record s { executor = e }, error)
      | some pool ↦ (
        record s {
          executor = e;
          mempool = pool;
          consensus =
              add_event now
                (event block.header.height block.header.view block.header.instance_id
                  (codes "SYNC_BLOCK") block.header.proposer_id s.consensus.config.node_id
                  block.header.block_hash true [])
                s.consensus;
        },
        synced,
      )
    ]

    module _ ⦃sodium : Sodium⦄ (J : Type 0) ⦃json : Nlohmann J⦄ (now : ℕ) (block : Block) where
      -- the test of the hash, and the commit
      unfoldable pub check_hash : ApiServer D → ApiServer D × SyncReply
      unfolding has_own_hash commit_block after_commit quarantine at_height
      check_hash s =
          if has_own_hash block
          then after_commit now block s (commit_block J block s.executor)
          else quarantine now block.header.proposer_id
              (at_height (codes "block_hash_mismatch") block) hash_mismatch s

      -- the test of the state root that the execution has returned
      unfoldable pub check_state : Option Bytes → ApiServer D → ApiServer D × SyncReply
      unfolding check_hash quarantine at_height
      check_state none s = (s, error)
      check_state (some real_state) s =
          if bytes_eq real_state block.header.state_root
          then check_hash s
          else quarantine now block.header.proposer_id
              (at_height (codes "state_root_mismatch") block) state_mismatch s

      -- the test of the Merkle root; `none` would be a root that is not computed.
      unfoldable pub check_merkle : Option Bytes → ApiServer D → ApiServer D × SyncReply
      unfolding execute_for_state_root check_state quarantine at_height
      check_merkle none s = (s, error)
      check_merkle (some real_merkle) s =
          if bytes_eq (hash_to_hex real_merkle) block.header.tx_merkle_root
          then check_state (execute_for_state_root block.transactions s.executor).1
              (record s { executor = (execute_for_state_root block.transactions s.executor).0 })
          else quarantine now block.header.proposer_id
              (at_height (codes "merkle_root_mismatch") block) merkle_mismatch s

      -- the test of the previous hash, with what `GetLatestBlock` has returned
      unfoldable pub check_previous : Option (Option Block) → ApiServer D → ApiServer D × SyncReply
      unfolding compute_root check_merkle
      check_previous none s = (s, error)
      check_previous (some prev) s =
          if bytes_eq block.header.previous_block_hash (hash_of_latest prev)
          then check_merkle (compute_root block.transactions) s
          else (s, previous_mismatch)

      -- the tests of the height, with what `stoull` has returned
      unfoldable pub check_height : Option ℕ → ApiServer D → ApiServer D × SyncReply
      unfolding get_latest_block check_previous
      check_height none s = (s, error)
      check_height (some local_height) s =
          if leb block.header.height local_height
          then (s, ignored)
          else if ltb ((local_height + 1) % 2 ^ 64) block.header.height
          then (s, catch_up_triggered ((local_height + 1) % 2 ^ 64) block.header.height)
          else check_previous (get_latest_block J s.executor.storage) s

      -- the handler of `/p2p/sync/block`, from the parsed block on
      unfoldable pub sync_block : ApiServer D → ApiServer D × SyncReply
      unfolding is_quarantined get_metadata check_height
      sync_block s =
          if is_quarantined block.header.proposer_id s.consensus
          then (s, proposer_quarantined)
          else check_height
              (stoull (get_metadata s.executor.storage (codes "latest_height") (codes "0"))) s

      -- the end of `CommitBlockWithSignatures`
      unfoldable pub after_agreed_commit :
          List NodeSignature → ApiServer D → Outcome (BlockExecutor D) → Outcome (ApiServer D)
      unfolding remove_committed add_event
      after_agreed_commit sigs s (threw e) = threw (record s { executor = e })
      after_agreed_commit sigs s (done e) = elim (remove_committed block.transactions s.mempool) [
        | none ↦ threw (record s { executor = e })
        | some pool ↦ done (record s {
          executor = e;
          mempool = pool;
          consensus =
              add_event now
                (event block.header.height block.header.view block.header.instance_id
                  (codes "BLOCK_COMMITTED") block.header.proposer_id s.consensus.config.node_id
                  block.header.block_hash true (codes "sigs=" ++ decimal (length sigs)))
                s.consensus;
        })
      ]

      -- the test of the state root, which returns without an exception where it fails
      unfoldable pub check_agreed_state :
          List NodeSignature → Option Bytes → ApiServer D → Outcome (ApiServer D)
      unfolding commit_block after_agreed_commit
      check_agreed_state sigs none s = threw s
      check_agreed_state sigs (some real_state) s =
          if bytes_eq real_state block.header.state_root
          then after_agreed_commit sigs s
              (commit_block J (record block { commit_signatures = sigs }) s.executor)
          else done s

      -- `CommitBlockWithSignatures`
      unfoldable pub commit_block_with_signatures :
          List NodeSignature → ApiServer D → Outcome (ApiServer D)
      unfolding execute_for_state_root check_agreed_state
      commit_block_with_signatures sigs s =
          check_agreed_state sigs (execute_for_state_root block.transactions s.executor).1
            (record s { executor = (execute_for_state_root block.transactions s.executor).0 })
