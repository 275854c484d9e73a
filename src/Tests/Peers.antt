-- ===== src/Tests/Peers.antt =====
-- A node that takes a block from a peer and serves ranges of blocks.
use blockchain_demo.Prelude.{
  ◌≡◌, ◌≢◌, ◌^◌, ◌-◌, refl, [], Option, none, some, Bytes, codes, bytes_eq, length, arith, false,
}
use blockchain_demo.Encoding.{decimal, bytes_to_hex, hash_to_hex}
use blockchain_demo.Encoding.Parse.{stoull}
use blockchain_demo.HashTable.{new, index}
use blockchain_demo.HashTable.Hashing.{Key, string_key}
use blockchain_demo.Crypto.{verify_detached_hex}
use blockchain_demo.Transaction.Json.{transaction_to_json}
use blockchain_demo.Merkle.{compute_root}
use blockchain_demo.Mempool.{new_mempool}
use blockchain_demo.Block.{Block, BlockHeader, empty_block, compute_block_hash}
use blockchain_demo.Block.Json.{block_to_json}
use blockchain_demo.Storage.{read_leaves}
use blockchain_demo.Storage.Schema.{effect}
use blockchain_demo.Executor.{BlockExecutor, execute_for_state_root}
use blockchain_demo.Consensus.Engine.{new_engine}
use blockchain_demo.Consensus.{new_round}
use blockchain_demo.Api.{ApiServer, synced, sync_block, genesis_hash}
use blockchain_demo.Api.Synced.{IsSynced, sync_block-IsSynced}
use blockchain_demo.Api.Range.{
  IsServed, ended, sync_blocks, collect, sync_blocks-IsServed, collect-endless,
}
use blockchain_demo.Tests.Toy.{toy}
use blockchain_demo.Tests.Frames.{frames}
use blockchain_demo.Tests.Memory.{Memory, memory, empty_memory}
use blockchain_demo.Tests.Nodes.{config}

instance abbrev by_length : Key Bytes
by_length = string_key length

abbrev idle : BlockExecutor Memory
idle = record { storage = empty_memory; smt = []; smt_loaded = false; pending_changes = [] }

abbrev pub server : ApiServer Memory
server = record {
  executor = idle;
  mempool = new_mempool;
  consensus = new_engine config none none 5;
}

abbrev pub bytes_or : Option Bytes → Bytes
bytes_or none = []
bytes_or (some s) = s

abbrev unnamed : BlockHeader
unnamed = record empty_block.header {
  height = 1;
  previous_block_hash = genesis_hash;
  tx_merkle_root = hash_to_hex (bytes_or (compute_root []));
  state_root = bytes_or (execute_for_state_root [] idle).1;
  proposer_id = codes "n2";
}

abbrev pub block : Block
block = record empty_block { header = record unnamed { block_hash = compute_block_hash unnamed } }

abbrev after : ApiServer Memory
after = (sync_block Bytes 9 block server).0

taken : sync_block Bytes 9 block server ≡ (after, synced)
unfolding sync_block new_engine bytes_eq stoull new index decimal new_round effect read_leaves
    block_to_json transaction_to_json compute_root compute_block_hash execute_for_state_root
    bytes_to_hex hash_to_hex new_mempool blockchain_demo.Smt.get_root
    blockchain_demo.Smt.compute_root_for_leaves blockchain_demo.Crypto.sha256_hex
    blockchain_demo.Block.serialize_block_header_for_hash
taken = refl

sync_block-IsSynced_example : IsSynced Bytes 9 block server after
sync_block-IsSynced_example = sync_block-IsSynced Bytes 9 block server after taken

sync_blocks-IsServed_example : IsServed (sync_blocks Bytes after.executor.storage 102 1 101)
sync_blocks-IsServed_example = sync_blocks-IsServed Bytes after.executor.storage 1 101 (omega arith)

collect-endless_example : collect Bytes empty_memory 500 (2 ^ 64 - 1) (2 ^ 64 - 1) ≢ ended []
collect-endless_example = collect-endless Bytes empty_memory 500 (2 ^ 64 - 1) [] (omega arith)
