-- ===== src/Block.antt =====
-- include/block/block.h and src/block/block.cpp: blocks, and the text that is hashed.
pub mod Binding
pub mod Json
use blockchain_demo.Prelude.{ℕ, List, [], ◌∷◌, ◌++◌, Bytes}
use blockchain_demo.Encoding.{decimal}
use blockchain_demo.Encoding.Fields.{bar}
use blockchain_demo.Crypto.{Sodium, sha256_hex}
use blockchain_demo.Transaction.{Transaction}

pub record NodeSignature : Type 0 where
  pub node_id : Bytes
  pub public_key_hex : Bytes
  pub signature_hex : Bytes

pub record BlockHeader : Type 0 where
  pub chain_id : Bytes
  pub height : ℕ
  pub previous_block_hash : Bytes
  pub tx_merkle_root : Bytes
  pub state_root : Bytes
  pub timestamp : ℕ
  pub view : ℕ
  pub instance_id : ℕ
  pub proposer_id : Bytes
  pub block_hash : Bytes

pub record Block : Type 0 where
  pub header : BlockHeader
  pub transactions : List Transaction
  pub commit_signatures : List NodeSignature

-- `Block{}`
abbrev pub empty_block : Block
empty_block = record {
  header = record {
    chain_id = [];
    height = 0;
    previous_block_hash = [];
    tx_merkle_root = [];
    state_root = [];
    timestamp = 0;
    view = 0;
    instance_id = 0;
    proposer_id = [];
    block_hash = [];
  };
  transactions = [];
  commit_signatures = [];
}

-- `SerializeBlockHeaderForHash`
unfoldable pub serialize_block_header_for_hash : BlockHeader → Bytes
serialize_block_header_for_hash header =
    let last = decimal header.instance_id ++ (bar ∷ header.proposer_id) in
    let times = decimal header.timestamp ++ (bar ∷ (decimal header.view ++ (bar ∷ last))) in
    let roots = header.tx_merkle_root ++ (bar ∷ (header.state_root ++ (bar ∷ times))) in
    header.chain_id
    ++ (bar ∷ (decimal header.height ++ (bar ∷ (header.previous_block_hash ++ (bar ∷ roots)))))

module _ ⦃sodium : Sodium⦄ where
  -- `ComputeBlockHash`
  unfoldable pub compute_block_hash : BlockHeader → Bytes
  compute_block_hash header = sha256_hex (serialize_block_header_for_hash header)
