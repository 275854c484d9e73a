-- ===== src/Storage.antt =====
-- src/storage/sqlite_storage.cpp. SQLite is not part of the repository: a database is any type with the
-- fields of `Sqlite`, which state the documented meaning of the statements that the code prepares. A
-- column of 64 bits holds the bit pattern of the `uint64_t` that is bound to it. A text is
-- bound up to its first zero byte (`c_str`); the addresses of accounts and the texts of users and
-- sessions are taken to hold none. A `SELECT` is taken not to fail.
pub mod Schema
pub mod Documents
use blockchain_demo.Prelude.{
  ℕ, ◌≡◌, Bool, true, false, List, [], ◌∷◌, ◌++◌, Option, none, some, Bytes, codes, bytes_eq,
  if◌then◌else◌, ◌>>=◌,
}
use blockchain_demo.Encoding.{hash_to_hex, hex_to_hash, decimal}
use blockchain_demo.Account.{AccountState, encode_account_state}
use Schema.{
  Tables, Statement, NodeRow, AccountRow, BlockRow, UserRow, TransactionRow, c_str, effect,
  find_node, replace_account, replace_transaction, replace_block, replace_metadata, replace_node,
  replace_state_root, insert_user_or_ignore, delete_blocks, delete_committed, delete_accounts,
  delete_state_roots, delete_nodes, delete_metadata,
}

pub record Sqlite (D : Type 0) : Type 0 where
  pub contents : D → Tables
  -- the tables at the start of the open transaction, if one is open
  pub saved : D → Option Tables
  -- `sqlite3_step` of a prepared statement; `none` is a failing step, after which the database is as
  -- before it
  pub step : Statement → D → Option D
  -- `BEGIN IMMEDIATE`, `COMMIT` and `ROLLBACK`; `none` is an error. A `ROLLBACK` that fails finds no
  -- open transaction and changes nothing.
  pub begin_immediate : D → Option D
  pub commit : D → Option D
  pub rollback : D → D
  -- `SELECT key_hash, value_hash, node_blob FROM smt_nodes`, in the order of the rows
  pub select_nodes : D → List NodeRow
  -- `SELECT block_json FROM blocks WHERE block_hash=?` and `... ORDER BY height DESC LIMIT 1`
  pub select_block_by_hash : D → Bytes → Option BlockRow
  pub select_latest_block : D → Option BlockRow
  pub contents-step :
      (s : Statement) (db db' : D)
      → step s db ≡ some db'
      → effect s (contents db) ≡ some (contents db')
  pub saved-step : (s : Statement) (db db' : D) → step s db ≡ some db' → saved db' ≡ saved db
  pub contents-begin_immediate :
      (db db' : D) → begin_immediate db ≡ some db' → contents db' ≡ contents db
  pub saved-begin_immediate :
      (db db' : D) → begin_immediate db ≡ some db' → saved db' ≡ some (contents db)
  pub contents-commit : (db db' : D) → commit db ≡ some db' → contents db' ≡ contents db
  pub contents-rollback : (db : D) (t : Tables) → saved db ≡ some t → contents (rollback db) ≡ t
  pub find_node-select_nodes :
      (db : D) (key : Bytes) → find_node key (select_nodes db) ≡ (contents db).smt_nodes key

-- the rows of `GetAllSMTLeaves` with their hashes read back; `none` is the exception of `HexToHash`
unfoldable pub read_leaves : List NodeRow → Option (List (Bytes × Bytes × Bytes))
read_leaves [] = some []
read_leaves (row ∷ rows) = do
  key ← hex_to_hash row.key_hash
  value_hash ← hex_to_hash row.value_hash
  rest ← read_leaves rows
  some ((key, value_hash, row.node_blob) ∷ rest)

-- the account in a row, if there is one
abbrev pub account_of : Bytes → Option AccountRow → Option AccountState
account_of address none = none
account_of address (some row) =
    some (record { address = address; balance = row.balance; nonce = row.nonce })

-- the column `block_height` of a row, if there is one and it is not NULL
abbrev pub height_of : Option TransactionRow → Option ℕ
height_of none = none
height_of (some row) = row.block_height

module _ {D : Type 0} ⦃sqlite : Sqlite D⦄ where
  -- `Begin`, `Commit` and `Rollback`
  unfoldable pub begin : D → Option D
  begin db = sqlite.begin_immediate db

  unfoldable pub commit : D → Option D
  commit db = sqlite.commit db

  unfoldable pub rollback : D → D
  rollback db = sqlite.rollback db

  -- `PutAccount`; `none` is the exception, here and below.
  unfoldable pub put_account : D → AccountState → ℕ → Option D
  put_account db state height =
      sqlite.step
        (replace_account state.address (record {
          balance = state.balance;
          nonce = state.nonce;
          state_value = encode_account_state state;
          updated_height = height;
        }))
        db

  -- `GetAccount`
  unfoldable pub get_account : D → Bytes → Option AccountState
  get_account db address = account_of address ((sqlite.contents db).accounts address)

  -- `PutMetadata`
  abbrev pub put_metadata : D → Bytes → Bytes → Option D
  put_metadata db key value = sqlite.step (replace_metadata (c_str key) (c_str value)) db

  -- `GetMetadata`
  unfoldable pub get_metadata : D → Bytes → Bytes → Bytes
  get_metadata db key fallback = elim ((sqlite.contents db).node_metadata (c_str key)) [
    | none ↦ fallback
    | some value ↦ value
  ]

  -- `PutSMTLeaf`
  unfoldable pub put_smt_leaf : D → Bytes → Bytes → Bytes → Option D
  put_smt_leaf db key value_hash value =
      sqlite.step
        (replace_node (record {
          key_hash = hash_to_hex key;
          value_hash = hash_to_hex value_hash;
          node_blob = value;
        }))
        db

  -- `GetAllSMTLeaves`
  unfoldable pub get_all_smt_leaves : D → Option (List (Bytes × Bytes × Bytes))
  get_all_smt_leaves db = read_leaves (sqlite.select_nodes db)

  -- `ClearSMTLeaves`
  unfoldable pub clear_smt_leaves : D → Option D
  clear_smt_leaves db = sqlite.step delete_nodes db

  -- `PutStateRoot`
  unfoldable pub put_state_root : D → ℕ → Bytes → Option D
  put_state_root db height state_root =
      sqlite.step (replace_state_root height (c_str state_root)) db

  -- `GetStateRoot`
  unfoldable pub get_state_root : D → ℕ → Bytes
  get_state_root db height = elim ((sqlite.contents db).state_roots height) [
    | none ↦ []
    | some state_root ↦ state_root
  ]

  -- `ClearChainData`
  unfoldable pub clear_chain_data : D → Option D
  clear_chain_data db = do
    db1 ← sqlite.step delete_blocks db
    db2 ← sqlite.step delete_committed db1
    db3 ← sqlite.step delete_accounts db2
    db4 ← sqlite.step delete_state_roots db3
    db5 ← sqlite.step delete_nodes db4
    sqlite.step (delete_metadata (codes "latest_height")) db5

  -- `GetAllUsers`
  unfoldable pub get_all_users : D → List UserRow
  get_all_users db = (sqlite.contents db).users

  -- `PutUser`
  unfoldable pub put_user : D → Bytes → Bytes → Bytes → Bytes → Bytes → ℕ → Option D
  put_user db username password_hash address public_key private_key_encrypted created_at =
      sqlite.step
        (insert_user_or_ignore (record {
          user_id = 0;
          username = username;
          password_hash = password_hash;
          address = address;
          public_key = public_key;
          private_key_encrypted = private_key_encrypted;
          created_at = created_at;
        }))
        db

  -- `GetTransactionBlockHeight`
  unfoldable pub get_transaction_block_height : D → Bytes → Option ℕ
  get_transaction_block_height db tx_id =
      height_of ((sqlite.contents db).transactions (c_str tx_id))
