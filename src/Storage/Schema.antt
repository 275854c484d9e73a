-- ===== src/Storage/Schema.antt =====
-- src/storage/sqlite_storage.cpp: the rows of the tables, and what each statement that the code
-- prepares does to them. A key is `none` where the table has no row for it.
use blockchain_demo.Prelude.{
  ℕ, suc, ◌≡◌, ◌≢◌, refl, arith, All, ◌==◌, ◌||◌, Bool, false, List, [], ◌∷◌, ◌++◌, Option, none,
  some, Bytes, codes, bytes_eq, if◌then◌else◌,
}

pub record AccountRow : Type 0 where
  pub balance : ℕ
  pub nonce : ℕ
  pub state_value : Bytes
  pub updated_height : ℕ

pub record TransactionRow : Type 0 where
  pub type : Bytes
  pub sender : Bytes
  pub receiver : Bytes
  pub amount : ℕ
  pub data_hash : Bytes
  pub nonce : ℕ
  pub timestamp : ℕ
  pub public_key : Bytes
  pub signature : Bytes
  pub block_height : Option ℕ
  pub tx_index : Option ℕ
  pub status : Bytes
  pub tx_json : Bytes

pub record BlockRow : Type 0 where
  pub block_hash : Bytes
  pub previous_block_hash : Bytes
  pub tx_merkle_root : Bytes
  pub state_root : Bytes
  pub timestamp : ℕ
  pub view : ℕ
  pub instance_id : ℕ
  pub proposer_id : Bytes
  pub block_json : Bytes

-- A row of smt_nodes, whose node_type is always 'LEAF' and whose child hashes are NULL.
pub record NodeRow : Type 0 where
  pub key_hash : Bytes
  pub value_hash : Bytes
  pub node_blob : Bytes

pub record UserRow : Type 0 where
  pub user_id : ℕ
  pub username : Bytes
  pub password_hash : Bytes
  pub address : Bytes
  pub public_key : Bytes
  pub private_key_encrypted : Bytes
  pub created_at : ℕ

pub record SessionRow : Type 0 where
  pub user_id : ℕ
  pub created_at : ℕ
  pub expires_at : ℕ

-- The tables that the code reads or writes, by primary key; `next_user_id` is the counter of the
-- column AUTOINCREMENT.
pub record Tables : Type 0 where
  pub accounts : Bytes → Option AccountRow
  pub transactions : Bytes → Option TransactionRow
  pub blocks : ℕ → Option BlockRow
  pub node_metadata : Bytes → Option Bytes
  pub smt_nodes : Bytes → Option NodeRow
  pub state_roots : ℕ → Option Bytes
  pub users : List UserRow
  pub next_user_id : ℕ
  pub sessions : Bytes → Option SessionRow

-- The text that is bound to a statement by `c_str()` with the length -1: it ends before the first zero
-- byte.
abbrev pub c_str : Bytes → Bytes
c_str [] = []
c_str (c ∷ text) = if c == 0 then [] else c ∷ c_str text

-- No byte is zero.
abbrev pub LacksZero : Bytes → Type 0
LacksZero = All (λ c. c ≢ 0)

pub c_str-LacksZero : (text : Bytes) → LacksZero text → c_str text ≡ text
c_str-LacksZero [] h = refl
c_str-LacksZero (c ∷ text) h = ground (arith, c_str-LacksZero text h.1)

-- One entry of a table is set, under a text or under a number.
abbrev pub put_text {ℓ} : {A : Type ℓ} → Bytes → A → (Bytes → Option A) → Bytes → Option A
put_text key row table q = if bytes_eq key q then some row else table q

abbrev pub put_number {ℓ} : {A : Type ℓ} → ℕ → A → (ℕ → Option A) → ℕ → Option A
put_number key row table q = if key == q then some row else table q

-- The prepared statements, with the values that are bound to them.
pub data Statement : Type 0 where
  replace_account : Bytes → AccountRow → Statement
  replace_transaction : Bytes → TransactionRow → Statement
  replace_block : ℕ → BlockRow → Statement
  replace_metadata : Bytes → Bytes → Statement
  replace_node : NodeRow → Statement
  replace_state_root : ℕ → Bytes → Statement
  replace_session : Bytes → SessionRow → Statement
  -- `INSERT` and `INSERT OR IGNORE`: the columns are those of the row, less its identifier
  insert_user : UserRow → Statement
  insert_user_or_ignore : UserRow → Statement
  -- `DELETE`
  delete_blocks : Statement
  delete_committed : Statement
  delete_accounts : Statement
  delete_state_roots : Statement
  delete_nodes : Statement
  delete_metadata : Bytes → Statement

-- `INSERT OR REPLACE INTO blocks` removes the row with the height and the one with the hash.
abbrev pub put_block_row : ℕ → BlockRow → (ℕ → Option BlockRow) → ℕ → Option BlockRow
put_block_row height row table q = if height == q then some row else elim (table q) [
  | none ↦ none
  | some old ↦ if bytes_eq old.block_hash row.block_hash then none else some old
]

-- `UNIQUE` on the columns username and address
abbrev pub is_taken : UserRow → List UserRow → Bool
is_taken row [] = false
is_taken row (user ∷ users) =
    bytes_eq user.username row.username || bytes_eq user.address row.address || is_taken row users

abbrev pub add_user : UserRow → Tables → Tables
add_user row t = record t {
  users = t.users ++ (record row { user_id = t.next_user_id } ∷ []);
  next_user_id = suc t.next_user_id;
}

abbrev pub drop_committed : (Bytes → Option TransactionRow) → Bytes → Option TransactionRow
drop_committed table q = elim (table q) [
  | none ↦ none
  | some row ↦ if bytes_eq row.status (codes "COMMITTED") then none else some row
]

-- What a statement does to the tables; `none` is the violation of a constraint.
unfoldable pub effect : Statement → Tables → Option Tables
effect (replace_account key row) t = some (record t { accounts = put_text key row t.accounts })
effect (replace_transaction key row) t =
    some (record t { transactions = put_text key row t.transactions })
effect (replace_block key row) t = some (record t { blocks = put_block_row key row t.blocks })
effect (replace_metadata key v) t =
    some (record t { node_metadata = put_text key v t.node_metadata })
effect (replace_node row) t = some (record t { smt_nodes = put_text row.key_hash row t.smt_nodes })
effect (replace_state_root key v) t =
    some (record t { state_roots = put_number key v t.state_roots })
effect (replace_session key row) t = some (record t { sessions = put_text key row t.sessions })
effect (insert_user row) t = if is_taken row t.users then none else some (add_user row t)
effect (insert_user_or_ignore row) t = some (if is_taken row t.users then t else add_user row t)
effect delete_blocks t = some (record t { blocks = λ _. none })
effect delete_committed t = some (record t { transactions = drop_committed t.transactions })
effect delete_accounts t = some (record t { accounts = λ _. none })
effect delete_state_roots t = some (record t { state_roots = λ _. none })
effect delete_nodes t = some (record t { smt_nodes = λ _. none })
effect (delete_metadata key) t =
    some (record t { node_metadata = λ q. if bytes_eq key q then none else t.node_metadata q })

-- `SELECT ... WHERE` on users
abbrev pub user_by_name : Bytes → List UserRow → Option UserRow
user_by_name name [] = none
user_by_name name (user ∷ users) =
    if bytes_eq user.username name then some user else user_by_name name users

abbrev pub user_by_address : Bytes → List UserRow → Option UserRow
user_by_address address [] = none
user_by_address address (user ∷ users) =
    if bytes_eq user.address address then some user else user_by_address address users

-- The first row with the key.
abbrev pub find_node : Bytes → List NodeRow → Option NodeRow
find_node key [] = none
find_node key (row ∷ rows) = if bytes_eq row.key_hash key then some row else find_node key rows
