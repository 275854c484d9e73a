-- ===== src/Consensus.antt =====
-- include/consensus/consensus.h and src/consensus/consensus.cpp: the data of the consensus engine.
pub mod Attack
pub mod Sets
pub mod Engine
pub mod Voting
pub mod Views
pub mod Messages
pub mod Counting
pub mod Decision
pub mod Recording
pub mod Steps
pub mod Invariant
pub mod Agreement
pub mod Equivocation
pub mod Stale
pub mod Leader
pub mod VoteLog
pub mod VoteKey
pub mod Json
use blockchain_demo.Prelude.{
  ℕ, ◌-◌, ◌+◌, ◌*◌, ◌%◌, Bool, true, false, List, [], ◌∷◌, ◌++◌, Option, none, some, Bytes, codes,
  length, drop, ◌==◌, if◌then◌else◌,
}
use blockchain_demo.Block.{Block, NodeSignature, empty_block}
use blockchain_demo.HashTable.{Table}
use Attack.{AttackMode}

-- `PeerConfig` of include/common/config.h
pub record PeerConfig : Type 0 where
  pub node_id : Bytes
  pub host : Bytes
  pub rest_port : ℕ
  pub p2p_port : ℕ
  pub public_key : Bytes

-- `NodeConfig` of include/common/config.h
pub record NodeConfig : Type 0 where
  pub node_id : Bytes
  pub rest_port : ℕ
  pub p2p_port : ℕ
  pub db_path : Bytes
  pub node_private_key_path : Bytes
  pub node_public_key : Bytes
  pub chain_id : Bytes
  pub f : ℕ
  pub instance_count : ℕ
  pub block_interval_ms : ℕ
  pub consensus_timeout_ms : ℕ
  pub peers : List PeerConfig

pub record ConsensusMessage : Type 0 where
  pub msg_id : Bytes
  pub type : Bytes
  pub chain_id : Bytes
  pub height : ℕ
  pub view : ℕ
  pub instance_id : ℕ
  pub block_hash : Bytes
  pub block : Option Block
  pub sender_id : Bytes
  pub timestamp : ℕ
  pub signature_hex : Bytes

pub record ConsensusEvent : Type 0 where
  pub id : ℕ
  pub timestamp : ℕ
  pub node_id : Bytes
  pub height : ℕ
  pub view : ℕ
  pub instance_id : ℕ
  pub event_type : Bytes
  pub from : Bytes
  pub to : Bytes
  pub block_hash : Bytes
  pub accepted : Bool
  pub reason : Bytes
  pub attack_mode : Bytes

pub data ConsensusPhase : Type 0 where
  idle pre_prepare prepare commit decided : ConsensusPhase

pub record ConsensusRound : Type 0 where
  pub phase : ConsensusPhase
  pub height : ℕ
  pub view : ℕ
  pub proposed_block : Block
  pub block_hash : Bytes
  pub prepare_count : ℕ
  pub commit_count : ℕ
  pub prepare_senders : List Bytes
  pub commit_senders : List Bytes
  pub commit_signatures : List NodeSignature
  pub round_start_time : ℕ
  pub committed : Bool

-- The evidence of two votes, the JSON object that `RecordVote` builds.
pub record Evidence : Type 0 where
  pub evidence_type : Bytes
  pub sender_id : Bytes
  pub height : ℕ
  pub view : ℕ
  pub instance_id : ℕ
  pub old_block_hash : Bytes
  pub new_block_hash : Bytes

-- The members of `ConsensusEngine`; `storage` is `none` for a null pointer. A `std::set` is the list
-- of its elements in order, and the map `view_change_votes_` is a function to sets.
pub record ConsensusEngine (D : Type 0) : Type 0 where
  pub config : NodeConfig
  pub storage : Option D
  pub node_private_key : Bytes
  pub attack_mode : AttackMode
  pub running : Bool
  pub prepare_votes : Table Bytes Bytes
  pub commit_votes : Table Bytes Bytes
  pub evidence : List Evidence
  pub events : List ConsensusEvent
  pub next_event_id : ℕ
  pub quarantined_nodes : List Bytes
  pub current_view : ℕ
  pub current_round : ConsensusRound
  pub view_change_votes : ℕ → List Bytes

-- `ConsensusRound{}`, with the time that every use of it sets at once
unfoldable pub new_round : ℕ → ConsensusRound
new_round now = record {
  phase = idle;
  height = 0;
  view = 0;
  proposed_block = empty_block;
  block_hash = [];
  prepare_count = 0;
  commit_count = 0;
  prepare_senders = [];
  commit_senders = [];
  commit_signatures = [];
  round_start_time = now;
  committed = false;
}
