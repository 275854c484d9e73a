-- ===== src/Tests/Messages.antt =====
-- A node that accepts a proposed block, and commits it on a COMMIT of a stranger.
use blockchain_demo.Prelude.{◌≡◌, refl, [], none, some, Bytes, codes, bytes_eq, length, arith}
use blockchain_demo.Encoding.{decimal, bytes_to_hex, hash_to_hex}
use blockchain_demo.Encoding.Parse.{stoull}
use blockchain_demo.Crypto.{sha256_hex}
use blockchain_demo.HashTable.{new, index}
use blockchain_demo.HashTable.Hashing.{Key, string_key}
use blockchain_demo.Transaction.Json.{transaction_to_json}
use blockchain_demo.Merkle.{compute_root}
use blockchain_demo.Smt.{get_root, compute_root_for_leaves}
use blockchain_demo.Mempool.{new_mempool}
use blockchain_demo.Block.{compute_block_hash, serialize_block_header_for_hash}
use blockchain_demo.Block.Json.{BlockFits, block_to_json}
use blockchain_demo.Storage.{read_leaves}
use blockchain_demo.Storage.Schema.{effect}
use blockchain_demo.Outcome.{Outcome, done, threw}
use blockchain_demo.Executor.{BlockExecutor, execute_for_state_root}
use blockchain_demo.Executor.Commit.{commit_block}
use blockchain_demo.Executor.Recorded.{IsReadable}
use blockchain_demo.Consensus.{ConsensusMessage, Evidence, new_round}
use blockchain_demo.Consensus.Engine.{new_engine}
use blockchain_demo.Api.{ApiServer, with_engine}
use blockchain_demo.Api.Messages.{pre_prepared, on_message, noted}
use blockchain_demo.Api.Offered.{IsOffered, on_message-IsOffered}
use blockchain_demo.Api.Unproven.{unsigned, on_message-IsReadable}
use blockchain_demo.Tests.Toy.{toy}
use blockchain_demo.Tests.Frames.{frames}
use blockchain_demo.Tests.Memory.{Memory, memory}
use blockchain_demo.Tests.Peers.{server, block}

instance abbrev by_length : Key Bytes
by_length = string_key length

abbrev dump : Evidence → Bytes
dump ev = ev.new_block_hash

abbrev proposal : ConsensusMessage
proposal = record {
  msg_id = [];
  type = codes "PRE_PREPARE";
  chain_id = codes "chain";
  height = 1;
  view = 0;
  instance_id = 0;
  block_hash = block.header.block_hash;
  block = some block;
  sender_id = codes "n1";
  timestamp = 6;
  signature_hex = [];
}

abbrev holding : ApiServer Memory
holding = (on_message 9 proposal Bytes dump server).0

accepted : on_message 9 proposal Bytes dump server ≡ (holding, pre_prepared)
unfolding on_message new_engine bytes_eq stoull new index decimal new_round effect read_leaves
    block_to_json transaction_to_json compute_root compute_block_hash execute_for_state_root
    bytes_to_hex hash_to_hex new_mempool get_root compute_root_for_leaves sha256_hex
    serialize_block_header_for_hash with_engine
accepted = refl

on_message-IsOffered_example : IsOffered 9 proposal (noted 9 proposal server) holding
on_message-IsOffered_example =
    on_message-IsOffered 9 proposal Bytes dump server holding refl accepted

-- A COMMIT of a node that is not configured, without a signature.
abbrev stranger : ConsensusMessage
stranger = record proposal { type = codes "COMMIT"; block = none; sender_id = codes "n9" }

abbrev executor_or : Outcome (BlockExecutor Memory) → BlockExecutor Memory
executor_or (done e) = e
executor_or (threw e) = e

abbrev settled : BlockExecutor Memory
settled = executor_or (
    commit_block Bytes (unsigned block)
      (execute_for_state_root block.transactions server.executor).0)

abbrev proposing : ApiServer Memory
proposing = record server {
  consensus = record server.consensus {
    current_round = record (new_round 5) { proposed_block = block };
  };
}

executed :
    (execute_for_state_root block.transactions server.executor).1 ≡ some block.header.state_root
unfolding execute_for_state_root read_leaves get_root compute_root_for_leaves bytes_to_hex
    hash_to_hex
executed = refl

committed :
    commit_block Bytes
      (unsigned block)
      (execute_for_state_root block.transactions server.executor).0
    ≡ done settled
unfolding commit_block execute_for_state_root bytes_eq effect read_leaves block_to_json
    transaction_to_json hash_to_hex compute_root get_root compute_root_for_leaves compute_block_hash
    sha256_hex serialize_block_header_for_hash decimal
committed = refl

fits : BlockFits (unsigned block)
fits = record {
  height = omega arith;
  timestamp = omega arith;
  view = omega arith;
  instance_id = omega arith;
  transactions = tt;
}

on_message-IsReadable_example :
    IsReadable Bytes
      (unsigned block)
      (on_message 9 stranger Bytes dump proposing).0.executor.storage
on_message-IsReadable_example =
    on_message-IsReadable Bytes 9 stranger dump proposing settled refl refl refl fits executed
      committed
