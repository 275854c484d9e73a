-- ===== src/Storage/Documents.antt =====
-- src/storage/sqlite_storage.cpp: blocks and transactions, which are stored with their JSON
-- texts.
use blockchain_demo.Prelude.{ℕ, ◌≡◌, Option, none, some, Bytes, ◌>>=◌}
use blockchain_demo.Crypto.{Sodium}
use blockchain_demo.Json.{Nlohmann}
use blockchain_demo.Transaction.{Transaction}
use blockchain_demo.Transaction.Json.{transaction_to_json, transaction_from_json}
use blockchain_demo.Block.{Block}
use blockchain_demo.Block.Json.{
  BlockFits, stored_form, block_to_json, block_from_json, block_from_json-block_to_json,
}
use blockchain_demo.Storage.{Sqlite}
use blockchain_demo.Storage.Schema.{
  BlockRow, TransactionRow, c_str, c_str-LacksZero, replace_transaction, replace_block,
}

-- the values that `PutTransaction` binds
unfoldable pub transaction_row : Transaction → Bytes → Option ℕ → Option ℕ → Bytes → TransactionRow
transaction_row tx status height index text = record {
  type = c_str tx.type;
  sender = c_str tx.from;
  receiver = c_str tx.to;
  amount = tx.amount;
  data_hash = c_str tx.data_hash;
  nonce = tx.nonce;
  timestamp = tx.timestamp;
  public_key = c_str tx.public_key_hex;
  signature = c_str tx.signature_hex;
  block_height = height;
  tx_index = index;
  status = c_str status;
  tx_json = c_str text;
}

-- the values that `PutBlock` binds
unfoldable pub block_row : Block → Bytes → BlockRow
block_row block text = record {
  block_hash = c_str block.header.block_hash;
  previous_block_hash = c_str block.header.previous_block_hash;
  tx_merkle_root = c_str block.header.tx_merkle_root;
  state_root = c_str block.header.state_root;
  timestamp = block.header.timestamp;
  view = block.header.view;
  instance_id = block.header.instance_id;
  proposer_id = c_str block.header.proposer_id;
  block_json = c_str text;
}

module _ (J : Type 0) ⦃json : Nlohmann J⦄ ⦃sodium : Sodium⦄ where
  -- the block in a row that a query has found, as the three readers of blocks return it
  unfoldable pub read_block : Option BlockRow → Option (Option Block)
  read_block none = some none
  read_block (some row) = do
    j ← json.parse row.block_json
    block ← block_from_json j
    some (some block)

module _ {D : Type 0} ⦃sqlite : Sqlite D⦄ (J : Type 0) ⦃json : Nlohmann J⦄ where
  -- `PutTransaction`
  unfoldable pub put_transaction : D → Transaction → Bytes → Option ℕ → Option ℕ → Option D
  unfolding transaction_row
  put_transaction db tx status height index = json.dump (transaction_to_json tx) >>= λ text.
      sqlite.step
        (replace_transaction (c_str tx.tx_id) (transaction_row tx status height index text)) db

  -- `PutBlock`
  unfoldable pub put_block : D → Block → Option D
  unfolding block_row
  put_block db block = json.dump (block_to_json block) >>= λ text.
      sqlite.step (replace_block block.header.height (block_row block text)) db

  module _ ⦃sodium : Sodium⦄ where
    -- `GetTransaction`: the outer `none` is an exception, the inner one `nullopt`.
    unfoldable pub get_transaction : D → Bytes → Option (Option Transaction)
    get_transaction db tx_id = elim ((sqlite.contents db).transactions (c_str tx_id)) [
      | none ↦ some none
      | some row ↦ do j ← json.parse row.tx_json; tx ← transaction_from_json j; some (some tx)
    ]

    -- `GetBlockByHeight`
    unfoldable pub get_block_by_height : D → ℕ → Option (Option Block)
    unfolding read_block
    get_block_by_height db height = read_block J ((sqlite.contents db).blocks height)

    -- `GetBlockByHash`
    unfoldable pub get_block_by_hash : D → Bytes → Option (Option Block)
    unfolding read_block
    get_block_by_hash db block_hash =
        read_block J (sqlite.select_block_by_hash db (c_str block_hash))

    -- `GetLatestBlock`
    unfoldable pub get_latest_block : D → Option (Option Block)
    unfolding read_block
    get_latest_block db = read_block J (sqlite.select_latest_block db)

module _ (J : Type 0) ⦃json : Nlohmann J⦄ ⦃sodium : Sodium⦄ where
  -- The row that `PutBlock` writes is read back as the stored form of the block.
  pub read_block-block_row :
      (block : Block) (text : Bytes)
      → BlockFits block
      → json.dump (block_to_json block) ≡ some text
      → read_block J (some (block_row block text)) ≡ some (some (stored_form block))
  unfolding read_block block_row
  read_block-block_row block text fits e = rw (
    c_str-LacksZero text (json.dump-LacksZero (block_to_json block) text e),
    json.parse-dump (block_to_json block) text e,
    block_from_json-block_to_json J block fits,
  )
