-- ===== src/Tests/Keys.antt =====
-- Block hashes and the keys of votes.
use blockchain_demo.Prelude.{◌≡◌, ◌⊎◌, refl, [], none, codes}
use blockchain_demo.Crypto.Collision.{Clash}
use blockchain_demo.Block.{BlockHeader, compute_block_hash, serialize_block_header_for_hash}
use blockchain_demo.Block.Binding.{IsPlainHeader, SameHeader, compute_block_hash-binding}
use blockchain_demo.Consensus.{ConsensusMessage}
use blockchain_demo.Consensus.Engine.{vote_key}
use blockchain_demo.Tests.Toy.{toy, allowed}

abbrev header : BlockHeader
header = record {
  chain_id = codes "chain";
  height = 1;
  previous_block_hash = codes "00";
  tx_merkle_root = codes "11";
  state_root = codes "22";
  timestamp = 7;
  view = 0;
  instance_id = 0;
  proposer_id = codes "n1";
  block_hash = [];
}

abbrev sealed : BlockHeader
sealed = record header { block_hash = codes "ff" }

header-IsPlainHeader : IsPlainHeader header
header-IsPlainHeader = record {
  chain_id = allowed header.chain_id refl;
  previous = allowed header.previous_block_hash refl;
  merkle_root = allowed header.tx_merkle_root refl;
  state_root = allowed header.state_root refl;
}

sealed-IsPlainHeader : IsPlainHeader sealed
sealed-IsPlainHeader = record {
  chain_id = header-IsPlainHeader.chain_id;
  previous = header-IsPlainHeader.previous;
  merkle_root = header-IsPlainHeader.merkle_root;
  state_root = header-IsPlainHeader.state_root;
}

same_hash : compute_block_hash header ≡ compute_block_hash sealed
unfolding compute_block_hash serialize_block_header_for_hash
same_hash = refl

compute_block_hash-binding_example :
    SameHeader header sealed
    ⊎ Clash (serialize_block_header_for_hash header) (serialize_block_header_for_hash sealed)
compute_block_hash-binding_example =
    compute_block_hash-binding header sealed header-IsPlainHeader sealed-IsPlainHeader same_hash

abbrev vote : ConsensusMessage
vote = record {
  msg_id = [];
  type = codes "PREPARE";
  chain_id = codes "chain";
  height = 12;
  view = 0;
  instance_id = 0;
  block_hash = codes "aa";
  block = none;
  sender_id = codes "n1";
  timestamp = 6;
  signature_hex = [];
}

abbrev other_vote : ConsensusMessage
other_vote = record vote { block_hash = codes "bb" }

same_key : vote_key vote ≡ vote_key other_vote
unfolding vote_key
same_key = refl
