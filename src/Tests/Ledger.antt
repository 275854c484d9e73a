-- ===== src/Tests/Ledger.antt =====
-- A node with one funded account, and a block with one transfer.
use blockchain_demo.Prelude.{
  ◌≡◌, ◌↔◌, refl, List, [], ◌∷◌, Option, false, none, some, Bytes, codes, bytes_eq, arith,
  if◌then◌else◌, All,
}
use blockchain_demo.Encoding.{bytes_to_hex, hex_to_bytes, hash_to_hex}
use blockchain_demo.Encoding.Zeros.{zeros}
use blockchain_demo.Crypto.{verify_detached_hex}
use blockchain_demo.Transaction.{Transaction, verify_transaction_signature}
use blockchain_demo.Account.{AccountState}
use blockchain_demo.Block.{Block, empty_block}
use blockchain_demo.Block.Json.{
  BlockFits, stored_form, block_to_json, block_from_json, block_from_json-block_to_json,
}
use blockchain_demo.Consensus.{ConsensusMessage}
use blockchain_demo.Consensus.Json.{
  MessageFits, received_form, consensus_message_to_json, consensus_message_from_json,
  consensus_message_from_json-consensus_message_to_json,
}
use blockchain_demo.Smt.{get_root}
use blockchain_demo.Storage.{read_leaves}
use blockchain_demo.Transaction.Json.{transaction_to_json}
use blockchain_demo.Storage.Schema.{effect}
use blockchain_demo.Outcome.{Outcome, done, threw}
use blockchain_demo.Executor.{BlockExecutor, Draft, execute_all, execute_for_state_root}
use blockchain_demo.Executor.Commit.{commit_block, commit_transfer}
use blockchain_demo.Executor.Rollback.{commit_block-threw}
use blockchain_demo.Executor.Root.{commit_block-root}
use blockchain_demo.Executor.Recorded.{IsReadable, commit_block-IsReadable}
use blockchain_demo.Executor.Accepted.{IsAcceptable, execute_all-accepts}
use blockchain_demo.Tests.Toy.{toy, transfer}
use blockchain_demo.Tests.Frames.{frames}
use blockchain_demo.Tests.Memory.{Memory, memory, empty_memory, empty_tables, view}

abbrev signed : Transaction
signed = record transfer {
  tx_id = codes "t1";
  public_key_hex = bytes_to_hex (zeros 32);
  signature_hex = bytes_to_hex (zeros 64);
}

abbrev funded : Memory
funded = record empty_memory {
  tables = record empty_tables {
    accounts = λ q.
        if bytes_eq (codes "alice") q
        then some (record { balance = 1000; nonce = 0; state_value = []; updated_height = 0 })
        else none;
  };
}

abbrev idle : BlockExecutor Memory
idle = record { storage = funded; smt = []; smt_loaded = false; pending_changes = [] }

abbrev block : Block
block = record empty_block {
  header = record empty_block.header {
    height = 1;
    state_root = codes "ab";
    block_hash = codes "cd";
  };
  transactions = signed ∷ [];
}

abbrev executor_or : Outcome (BlockExecutor Memory) → BlockExecutor Memory
executor_or (done e) = e
executor_or (threw e) = e

abbrev root_or : Option Bytes → Bytes
root_or none = []
root_or (some root) = root

abbrev ready : BlockExecutor Memory
ready = (execute_for_state_root (signed ∷ []) idle).0

abbrev root : Bytes
root = root_or (execute_for_state_root (signed ∷ []) idle).1

executed : execute_for_state_root (signed ∷ []) idle ≡ (ready, some root)
unfolding execute_for_state_root verify_transaction_signature verify_detached_hex bytes_to_hex
    hex_to_bytes bytes_eq read_leaves
executed = refl

abbrev settled : BlockExecutor Memory
settled = executor_or (commit_block Bytes block ready)

committed : commit_block Bytes block ready ≡ done settled
unfolding commit_block execute_for_state_root verify_transaction_signature verify_detached_hex
    bytes_to_hex hex_to_bytes bytes_eq effect read_leaves block_to_json transaction_to_json
committed = refl

commit_block-root_example :
    (hash_to_hex (get_root settled.smt) ≡ root) × (settled.pending_changes ≡ [])
commit_block-root_example =
    commit_block-root Bytes (signed ∷ []) block idle ready settled root executed committed

fits : BlockFits block
fits = record {
  height = omega arith;
  timestamp = omega arith;
  view = omega arith;
  instance_id = omega arith;
  transactions =
      (record { amount = omega arith; nonce = omega arith; timestamp = omega arith }, tt);
}

commit_block-IsReadable_example : IsReadable Bytes block settled.storage
commit_block-IsReadable_example =
    commit_block-IsReadable Bytes block ready settled fits (omega arith, (omega arith, tt))
      committed

-- A block whose JSON text cannot be made.
abbrev spoilt : Block
spoilt = record block { transactions = record signed { to = 255 ∷ [] } ∷ [] }

abbrev undone : BlockExecutor Memory
undone = executor_or (commit_block Bytes spoilt idle)

refused : commit_block Bytes spoilt idle ≡ threw undone
unfolding commit_block bytes_to_hex hex_to_bytes bytes_eq effect read_leaves block_to_json
    transaction_to_json
refused = refl

commit_block-threw_example :
    view undone.storage.tables undone.storage.nodes ≡ view idle.storage.tables idle.storage.nodes
commit_block-threw_example = commit_block-threw Bytes spoilt idle undone refused

abbrev memory_or : Outcome Memory → Memory
memory_or (done db) = db
memory_or (threw db) = db

abbrev paid : Memory
paid = memory_or (commit_transfer 1 signed funded)

transferred : commit_transfer 1 signed funded ≡ done paid
unfolding commit_transfer bytes_eq effect
transferred = refl

-- A transfer of more than the sender has.
abbrev uncovered : Transaction
uncovered = record signed { amount = 1500 }

abbrev overdrawn : Memory
overdrawn = memory_or (commit_transfer 1 uncovered funded)

abbrev blank : Draft
blank = record { tmp = []; changes = [] }

-- Two transfers of 600 each from an account of 1000 are accepted together.
abbrev spending : List Transaction
spending = record signed { amount = 600 } ∷ record signed { tx_id = codes "t2"; amount = 600 } ∷ []

execute_all-accepts_example :
    ((w : Draft) × (execute_all funded spending blank ≡ done w))
    ↔ All (IsAcceptable funded) spending
execute_all-accepts_example = execute_all-accepts funded spending blank

block_from_json-block_to_json_example :
    block_from_json {J = Bytes} (block_to_json block) ≡ some (stored_form block)
block_from_json-block_to_json_example = block_from_json-block_to_json Bytes block fits

abbrev proposal : ConsensusMessage
proposal = record {
  msg_id = codes "m";
  type = codes "PRE_PREPARE";
  chain_id = codes "chain";
  height = 1;
  view = 0;
  instance_id = 0;
  block_hash = codes "cd";
  block = some block;
  sender_id = codes "n1";
  timestamp = 5;
  signature_hex = [];
}

proposal_fits : MessageFits proposal
proposal_fits = record {
  height = omega arith;
  view = omega arith;
  instance_id = omega arith;
  timestamp = omega arith;
  block = fits;
}

consensus_message_from_json-consensus_message_to_json_example :
    consensus_message_from_json {J = Bytes} 9 (consensus_message_to_json proposal)
    ≡ some (received_form proposal)
consensus_message_from_json-consensus_message_to_json_example =
    consensus_message_from_json-consensus_message_to_json Bytes 9 proposal proposal_fits

abbrev alice : AccountState
alice = record { address = codes "alice"; balance = 7; nonce = 1 }
