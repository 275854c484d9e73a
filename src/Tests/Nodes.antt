-- ===== src/Tests/Nodes.antt =====
-- A network of one node, whose storage is a function.
use blockchain_demo.Prelude.{
  ◌≡◌, refl, sym, ◌∙◌, none-ne-some, [], ◌∷◌, ◌++◌, Option, true, false, none, some, Bytes, codes,
  length, bytes_eq, arith, Bool,
}
use blockchain_demo.Block.{Block, empty_block}
use blockchain_demo.HashTable.{get, new, index}
use blockchain_demo.HashTable.Hashing.{Key, string_key}
use blockchain_demo.HashTable.Refinement.{new-Models}
use blockchain_demo.Encoding.Parse.{stoull}
use blockchain_demo.Encoding.{decimal}
use blockchain_demo.Consensus.{NodeConfig, ConsensusMessage, ConsensusEngine, Evidence, new_round}
use blockchain_demo.Consensus.Engine.{new_engine, primary, is_quarantined, vote_key}
use blockchain_demo.Consensus.Sets.{member}
use blockchain_demo.Consensus.Voting.{
  Handled, record_vote, refuse, conflict_of, vote_table, is_drop_commit,
}
use blockchain_demo.Consensus.Messages.{on_pre_prepare, on_prepare, on_commit}
use blockchain_demo.Consensus.Counting.{IsCounted}
use blockchain_demo.Consensus.Decision.{IsDecided}
use blockchain_demo.Consensus.Steps.{Reachable, created, stepped, pre_preparing}
use blockchain_demo.Consensus.Invariant.{Reachable-IsCounted}
use blockchain_demo.Consensus.Agreement.{on_commit-IsDecided}
use blockchain_demo.Consensus.Equivocation.{IsRefused, on_prepare-IsRefused, on_commit-IsRefused}
use blockchain_demo.Consensus.Stale.{Agrees, on_pre_prepare-stale_quorum}
use blockchain_demo.Consensus.Leader.{configured, primary-is_quarantined}
use blockchain_demo.Consensus.VoteLog.{Logs, IsLogged, record_vote-IsLogged}
use blockchain_demo.Tests.Toy.{toy}
use blockchain_demo.Storage.Schema.{effect}
use blockchain_demo.Tests.Memory.{Memory, memory, empty_memory}

instance abbrev by_length : Key Bytes
by_length = string_key length

abbrev dump : Evidence → Bytes
dump ev = ev.new_block_hash

abbrev pub config : NodeConfig
config = record {
  node_id = codes "n1";
  rest_port = 8080;
  p2p_port = 9080;
  db_path = [];
  node_private_key_path = [];
  node_public_key = [];
  chain_id = codes "chain";
  f = 0;
  instance_count = 1;
  block_interval_ms = 1500;
  consensus_timeout_ms = 5000;
  peers = [];
}

abbrev idle_node : ConsensusEngine Memory
idle_node = new_engine config (some empty_memory) none 5

abbrev proposal : ConsensusMessage
proposal = record {
  msg_id = [];
  type = codes "PRE_PREPARE";
  chain_id = codes "chain";
  height = 1;
  view = 0;
  instance_id = 0;
  block_hash = codes "aa";
  block = none;
  sender_id = codes "n1";
  timestamp = 6;
  signature_hex = [];
}

abbrev vote : ConsensusMessage
vote = record proposal { type = codes "COMMIT"; signature_hex = codes "ff" }

abbrev other_vote : ConsensusMessage
other_vote = record vote { block_hash = codes "bb" }

abbrev engine_or : Option (ConsensusEngine Memory × Block × Bool) → ConsensusEngine Memory
engine_or none = idle_node
engine_or (some o) = o.0

abbrev handled_or : Option (Handled Memory) → Handled Memory
handled_or none = refuse idle_node []
handled_or (some h) = h

abbrev node : ConsensusEngine Memory
node = engine_or (on_pre_prepare 7 proposal empty_block idle_node)

entered : on_pre_prepare 7 proposal empty_block idle_node ≡ some (node, empty_block, true)
unfolding on_pre_prepare new_engine primary bytes_eq stoull new index decimal new_round effect
entered = refl

node-Reachable : Reachable dump node
node-Reachable =
    stepped (created config (some empty_memory) none 5)
      (pre_preparing 7 proposal empty_block empty_block idle_node node true entered)

Reachable-IsCounted_example : IsCounted node.current_round
Reachable-IsCounted_example = Reachable-IsCounted dump node-Reachable

abbrev decided_node : Handled Memory
decided_node = handled_or (on_commit dump 8 vote [] node)

committed : on_commit dump 8 vote [] node ≡ some decided_node
unfolding on_commit on_pre_prepare new_engine primary bytes_eq stoull new index decimal new_round
    effect
committed = refl

reached : decided_node.quorum_reached ≡ true
unfolding on_commit on_pre_prepare new_engine primary bytes_eq stoull new index decimal new_round
    effect
reached = refl

on_commit-IsDecided_example : IsDecided node vote decided_node
on_commit-IsDecided_example =
    on_commit-IsDecided dump 8 vote [] node decided_node node-Reachable committed reached

idle-Logs : Logs idle_node (λ _. none) (λ _. none)
unfolding new_engine
idle-Logs = record { prepares = new-Models Bytes Bytes 128; commits = new-Models Bytes Bytes 128 }

record_vote-IsLogged_example : IsLogged (λ _. none) (λ _. none) (record_vote dump 8 vote idle_node)
record_vote-IsLogged_example =
    record_vote-IsLogged dump 8 vote idle_node (λ _. none) (λ _. none) idle-Logs

found : get (vote_table other_vote decided_node.engine) (vote_key other_vote) ≡ some (codes "aa")
unfolding on_commit on_pre_prepare new_engine primary bytes_eq stoull new index decimal new_round
    effect vote_table vote_key get
found = refl

differs : bytes_eq (codes "aa") other_vote.block_hash ≡ false
unfolding bytes_eq
differs = refl

abbrev refused : Handled Memory
refused = handled_or (on_commit dump 9 other_vote [] decided_node.engine)

refused_vote : on_commit dump 9 other_vote [] decided_node.engine ≡ some refused
unfolding on_commit on_pre_prepare new_engine primary bytes_eq stoull new index decimal new_round
    effect
refused_vote = refl

on_commit-IsRefused_example :
    IsRefused
      (codes "n1")
      (decided_node.engine.evidence ++ (conflict_of other_vote (codes "aa") ∷ []))
      decided_node.engine
      refused
on_commit-IsRefused_example =
    on_commit-IsRefused dump 9 other_vote [] (codes "aa") decided_node.engine refused found differs
      refused_vote

abbrev ready : ConsensusMessage
ready = record vote { type = codes "PREPARE" }

abbrev other_ready : ConsensusMessage
other_ready = record other_vote { type = codes "PREPARE" }

abbrev prepared_node : Handled Memory
prepared_node = handled_or (on_prepare dump 8 ready node)

found_ready :
    get (vote_table other_ready prepared_node.engine) (vote_key other_ready) ≡ some (codes "aa")
unfolding on_prepare on_pre_prepare new_engine primary bytes_eq stoull new index decimal new_round
    effect vote_table vote_key get
found_ready = refl

abbrev refused_ready : Handled Memory
refused_ready = handled_or (on_prepare dump 9 other_ready prepared_node.engine)

refused_prepare : on_prepare dump 9 other_ready prepared_node.engine ≡ some refused_ready
unfolding on_prepare on_pre_prepare new_engine primary bytes_eq stoull new index decimal new_round
    effect
refused_prepare = refl

on_prepare-IsRefused_example :
    IsRefused
      (codes "n1")
      (prepared_node.engine.evidence ++ (conflict_of other_ready (codes "aa") ∷ []))
      prepared_node.engine
      refused_ready
on_prepare-IsRefused_example =
    on_prepare-IsRefused dump 9 other_ready (codes "aa") prepared_node.engine refused_ready
      found_ready differs refused_prepare

-- A network with f = 1, where two nodes had committed to the block of the round before.
abbrev stale_node : ConsensusEngine Memory
stale_node = record idle_node {
  config = record config { f = 1 };
  current_round = record (new_round 5) {
    commit_senders = codes "n2" ∷ codes "n3" ∷ [];
    commit_count = 2;
  };
}

abbrev next_proposal : ConsensusMessage
next_proposal = record proposal { height = 2; block_hash = codes "cc" }

abbrev next_vote : ConsensusMessage
next_vote = record next_proposal { type = codes "COMMIT"; sender_id = codes "n4" }

abbrev next_node : ConsensusEngine Memory
next_node = engine_or (on_pre_prepare 10 next_proposal empty_block stale_node)

entered_next :
    on_pre_prepare 10 next_proposal empty_block stale_node ≡ some (next_node, empty_block, true)
unfolding on_pre_prepare new_engine primary bytes_eq stoull new index decimal new_round effect
entered_next = refl

not_dropping : is_drop_commit stale_node.attack_mode ≡ false
unfolding new_engine is_drop_commit
not_dropping = refl

fresh : member (codes "n4") stale_node.current_round.commit_senders ≡ false
unfolding member bytes_eq
fresh = refl

stale-Logs : Logs stale_node (λ _. none) (λ _. none)
stale-Logs = record { prepares = idle-Logs.prepares; commits = idle-Logs.commits }

agrees : Agrees next_vote stale_node
unfolding vote_table bytes_eq
agrees known found =
    absurd (none-ne-some (sym (stale-Logs.commits.reads (vote_key next_vote)) ∙ found))

on_pre_prepare-stale_quorum_example :
    (h : Handled Memory) × (on_commit dump 11 next_vote [] next_node ≡ some h)
    × (h.quorum_reached ≡ true)
on_pre_prepare-stale_quorum_example =
    on_pre_prepare-stale_quorum dump 10 11 next_proposal next_vote empty_block empty_block []
      stale_node next_node (λ _. none) (λ _. none) entered_next refl refl refl not_dropping fresh
      (omega arith) stale-Logs agrees

known : member (codes "n1") (configured idle_node.config) ≡ true
unfolding member new_engine bytes_eq
known = refl

free : is_quarantined (codes "n1") idle_node ≡ false
unfolding is_quarantined new_engine
free = refl

primary-is_quarantined_example :
    (member (primary idle_node 3 0) (configured idle_node.config) ≡ true)
    × (is_quarantined (primary idle_node 3 0) idle_node ≡ false)
primary-is_quarantined_example = primary-is_quarantined idle_node 3 0 (codes "n1") known free
