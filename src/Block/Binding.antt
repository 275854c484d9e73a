-- ===== src/Block/Binding.antt =====
-- src/block/block.cpp: what the hash of a block determines.
use blockchain_demo.Prelude.{◌≡◌, ◌⊎◌, inl, inr, sym, ap, ◌∙◌, Bytes, eq_of_some}
use blockchain_demo.Encoding.{decimal, hex_to_hash}
use blockchain_demo.Encoding.Hex.{hex_to_hash-hash_to_hex}
use blockchain_demo.Encoding.Decimal.{decimal-injective}
use blockchain_demo.Encoding.Fields.{LacksBar, split_at_bar, decimal-LacksBar}
use blockchain_demo.Crypto.{Sodium, sha256, sha256_string, sha256_hex}
use blockchain_demo.Crypto.Collision.{Clash, sha256_or}
use blockchain_demo.Block.{BlockHeader, serialize_block_header_for_hash, compute_block_hash}

-- No text field before the last holds the separator.
pub record IsPlainHeader (h : BlockHeader) : Type 0 where
  pub chain_id : LacksBar h.chain_id
  pub previous : LacksBar h.previous_block_hash
  pub merkle_root : LacksBar h.tx_merkle_root
  pub state_root : LacksBar h.state_root

-- All fields but the hash itself are equal.
pub record SameHeader (a b : BlockHeader) : Type 0 where
  pub chain_id : a.chain_id ≡ b.chain_id
  pub height : a.height ≡ b.height
  pub previous : a.previous_block_hash ≡ b.previous_block_hash
  pub merkle_root : a.tx_merkle_root ≡ b.tx_merkle_root
  pub state_root : a.state_root ≡ b.state_root
  pub timestamp : a.timestamp ≡ b.timestamp
  pub view : a.view ≡ b.view
  pub instance_id : a.instance_id ≡ b.instance_id
  pub proposer : a.proposer_id ≡ b.proposer_id

serialize_block_header_for_hash-injective :
    (a b : BlockHeader)
    → IsPlainHeader a
    → IsPlainHeader b
    → serialize_block_header_for_hash a ≡ serialize_block_header_for_hash b
    → SameHeader a b
unfolding serialize_block_header_for_hash
serialize_block_header_for_hash-injective a b pa pb e =
    let (chain, e1) = split_at_bar a.chain_id b.chain_id _ _ pa.chain_id pb.chain_id e in
    let (height, e2) =
      split_at_bar (decimal a.height) (decimal b.height) _ _ (decimal-LacksBar a.height)
        (decimal-LacksBar b.height) e1 in
    let (previous, e3) =
      split_at_bar a.previous_block_hash b.previous_block_hash _ _ pa.previous pb.previous e2 in
    let (root, e4) =
      split_at_bar a.tx_merkle_root b.tx_merkle_root _ _ pa.merkle_root pb.merkle_root e3 in
    let (state, e5) = split_at_bar a.state_root b.state_root _ _ pa.state_root pb.state_root e4 in
    let (time, e6) =
      split_at_bar (decimal a.timestamp) (decimal b.timestamp) _ _ (decimal-LacksBar a.timestamp)
        (decimal-LacksBar b.timestamp) e5 in
    let (view, e7) =
      split_at_bar (decimal a.view) (decimal b.view) _ _ (decimal-LacksBar a.view)
        (decimal-LacksBar b.view) e6 in
    let (inst, e8) =
      split_at_bar (decimal a.instance_id) (decimal b.instance_id) _ _
        (decimal-LacksBar a.instance_id) (decimal-LacksBar b.instance_id) e7 in
    record {
      chain_id = chain;
      height = decimal-injective a.height b.height height;
      previous = previous;
      merkle_root = root;
      state_root = state;
      timestamp = decimal-injective a.timestamp b.timestamp time;
      view = decimal-injective a.view b.view view;
      instance_id = decimal-injective a.instance_id b.instance_id inst;
      proposer = e8;
    }

module _ ⦃sodium : Sodium⦄ where
  hash_of_hex : (m n : Bytes) → sha256_hex m ≡ sha256_hex n → sha256 m ≡ sha256 n
  unfolding sha256_hex sha256_string
  hash_of_hex m n e = eq_of_some (
      sym (hex_to_hash-hash_to_hex (sha256 m) (sodium.hash_sha256-IsHash m))
      ∙ (ap hex_to_hash e ∙ hex_to_hash-hash_to_hex (sha256 n) (sodium.hash_sha256-IsHash n)))

  -- Two block headers with one hash, whose chain and hash fields hold no separator, agree in every
  -- field that is hashed, or the texts that are hashed for them are different and SHA-256 collides on
  -- these two.
  pub compute_block_hash-binding :
      (a b : BlockHeader)
      → IsPlainHeader a
      → IsPlainHeader b
      → compute_block_hash a ≡ compute_block_hash b
      → SameHeader a b
        ⊎ Clash (serialize_block_header_for_hash a) (serialize_block_header_for_hash b)
  unfolding compute_block_hash
  compute_block_hash-binding a b pa pb e =
      elim (sha256_or (serialize_block_header_for_hash a) (serialize_block_header_for_hash b)
        (hash_of_hex (serialize_block_header_for_hash a) (serialize_block_header_for_hash b) e)) [
          | inl same ↦ inl (serialize_block_header_for_hash-injective a b pa pb same)
          | inr c ↦ inr c
        ]
