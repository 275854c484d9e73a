-- ===== src/Executor.antt =====
-- src/block/block_executor.cpp: the execution of blocks on the accounts and on the state tree.
pub mod Commit
pub mod Rollback
pub mod Root
pub mod Money
pub mod Accepted
pub mod Written
pub mod Recorded
use blockchain_demo.Prelude.{
  ℕ, ◌+◌, ◌-◌, ◌%◌, ◌^◌, Bool, true, false, List, [], ◌∷◌, ◌++◌, Option, none, some, Bytes, codes,
  bytes_eq, ltb, leb, if◌then◌else◌,
}
use blockchain_demo.Outcome.{Outcome, done, threw, ◌>>=◌, attempt}
use blockchain_demo.Encoding.{decimal, hash_to_hex}
use blockchain_demo.Crypto.{Sodium, sha256, sha256_string}
use blockchain_demo.Json.{Nlohmann}
use blockchain_demo.Transaction.{Transaction, verify_transaction_signature}
use blockchain_demo.Block.{Block}
use blockchain_demo.Account.{AccountState, encode_account_state}
use blockchain_demo.Smt.{Leaf, load_leaf, update, get_root}
use blockchain_demo.Storage.{
  Sqlite, begin, commit, rollback, put_account, get_account, put_metadata, put_smt_leaf,
  get_all_smt_leaves, clear_smt_leaves, put_state_root,
}
use blockchain_demo.Storage.Documents.{put_block, put_transaction}

-- `BlockExecutor::PendingChange`
pub record PendingChange : Type 0 where
  pub key : Bytes
  pub value_hash : Bytes
  pub value : Bytes

-- The members of `BlockExecutor`, with the database behind `storage_`.
pub record BlockExecutor (D : Type 0) : Type 0 where
  pub storage : D
  pub smt : List Leaf
  pub smt_loaded : Bool
  pub pending_changes : List PendingChange

-- The locals of `ExecuteForStateRoot`: the copy `tmp` of the tree, and the changes so far.
pub record Draft : Type 0 where
  pub tmp : List Leaf
  pub changes : List PendingChange

-- `type == "TRANSFER"` and `type == "STORE_DATA"`
unfoldable pub is_transfer : Transaction → Bool
is_transfer tx = bytes_eq tx.type (codes "TRANSFER")

unfoldable pub is_store_data : Transaction → Bool
is_store_data tx = bytes_eq tx.type (codes "STORE_DATA")

-- the loop of `LoadSMTFromStorage`
unfoldable pub load_all : List (Bytes × Bytes × Bytes) → List Leaf → List Leaf
unfolding load_leaf
load_all [] smt = smt
load_all ((key, value_hash, value) ∷ rows) smt = load_all rows (load_leaf key value_hash value smt)

-- `static_cast<int64_t>(balance) - static_cast<int64_t>(amount)`, or 0 where that is negative. The
-- offset of 2 ^ 63 turns the order of signed numbers into that of their bit patterns. A difference
-- beyond 63 bits, which is undefined, is kept exact.
unfoldable pub debit : ℕ → ℕ → ℕ
debit balance amount =
    let b = (balance + 2 ^ 63) % 2 ^ 64 in
    let a = (amount + 2 ^ 63) % 2 ^ 64 in if leb a b then b - a else 0

-- `to.balance += tx.amount`, in 64 bits
unfoldable pub credit : ℕ → ℕ → ℕ
credit balance amount = (balance + amount) % 2 ^ 64

-- the test of the signature, whose exception or failure is an exception
abbrev pub if_valid : Option Bool → Option Draft → Option Draft
if_valid none o = none
if_valid (some false) o = none
if_valid (some true) o = o

-- `value_or(AccountState{address, 0, 0})`
abbrev pub value_or_new : Bytes → Option AccountState → AccountState
value_or_new address none = record { address = address; balance = 0; nonce = 0 }
value_or_new address (some state) = state

module _ ⦃sodium : Sodium⦄ where
  -- `tmp.Update` of an account, and the change that is remembered
  unfoldable pub stage : AccountState → Draft → Draft
  unfolding encode_account_state sha256_string update
  stage state w =
      let enc = encode_account_state state in
      let key = sha256_string state.address in
      record {
        tmp = update key enc w.tmp;
        changes = w.changes ++ (record { key = key; value_hash = sha256 enc; value = enc } ∷ []);
      }

module _ {D : Type 0} ⦃sqlite : Sqlite D⦄ where
  -- `GetAccount(address).value_or(AccountState{address, 0, 0})`
  unfoldable pub account_or_new : D → Bytes → AccountState
  unfolding get_account
  account_or_new db address = value_or_new address (get_account db address)

  -- `LoadSMTFromStorage`; `none` is the exception of `HexToHash`, which changes nothing.
  unfoldable pub load_smt_from_storage : BlockExecutor D → Option (BlockExecutor D)
  unfolding get_all_smt_leaves load_all
  load_smt_from_storage e = if e.smt_loaded then some e else elim (get_all_smt_leaves e.storage) [
    | none ↦ none
    | some rows ↦ some (record e { smt = load_all rows e.smt; smt_loaded = true })
  ]

  -- `ResetSMT`
  unfoldable pub reset_smt : BlockExecutor D → Outcome (BlockExecutor D)
  unfolding clear_smt_leaves
  reset_smt e =
      let e1 = record e { smt = []; smt_loaded = true; pending_changes = [] } in
      elim (clear_smt_leaves e.storage) [
        | none ↦ threw e1
        | some db ↦ done (record e1 { storage = db })
      ]

  module _ ⦃sodium : Sodium⦄ where
    -- the accounts that a transfer stages
    unfoldable pub stage_transfer : D → Transaction → Draft → Draft
    unfolding account_or_new credit stage
    stage_transfer db tx w =
        let from = account_or_new db tx.from in
        let debited = record from { balance = from.balance - tx.amount; nonce = tx.nonce } in
        let to = account_or_new db tx.to in
        if bytes_eq tx.from tx.to
        then stage (record debited { balance = credit debited.balance tx.amount }) w
        else stage debited (stage (record to { balance = credit to.balance tx.amount }) w)

    -- a transfer in `ExecuteForStateRoot`; `none` is an exception.
    unfoldable pub execute_transfer : D → Transaction → Draft → Option Draft
    unfolding account_or_new stage_transfer
    execute_transfer db tx w =
        let from = account_or_new db tx.from in
        if leb tx.nonce from.nonce
        then none
        else if ltb from.balance tx.amount
        then none
        else some (stage_transfer db tx w)

    -- a `STORE_DATA` in `ExecuteForStateRoot`
    unfoldable pub execute_store_data : D → Transaction → Draft → Option Draft
    unfolding account_or_new stage
    execute_store_data db tx w =
        let from = account_or_new db tx.from in
        if leb tx.nonce from.nonce then none else some (stage (record from { nonce = tx.nonce }) w)

    -- the branches on the type; another type is an exception.
    unfoldable pub execute_typed : D → Transaction → Draft → Option Draft
    unfolding execute_transfer execute_store_data is_transfer is_store_data
    execute_typed db tx w =
        if is_transfer tx
        then execute_transfer db tx w
        else if is_store_data tx
        then execute_store_data db tx w
        else none

    -- one round of the loop of `ExecuteForStateRoot`
    unfoldable pub execute_transaction : D → Transaction → Draft → Option Draft
    unfolding execute_typed
    execute_transaction db tx w = if_valid (verify_transaction_signature tx) (execute_typed db tx w)

    -- the loop, with the changes that an exception leaves behind
    unfoldable pub execute_all : D → List Transaction → Draft → Outcome Draft
    unfolding execute_transaction
    execute_all db [] w = done w
    execute_all db (tx ∷ txs) w = attempt w (execute_transaction db tx w) >>= execute_all db txs

    -- what `ExecuteForStateRoot` leaves after the loop, and the root unless it threw
    unfoldable pub drafted : BlockExecutor D → Outcome Draft → BlockExecutor D × Option Bytes
    drafted e (threw w) = (record e { pending_changes = w.changes }, none)
    drafted e (done w) =
        (record e { pending_changes = w.changes }, some (hash_to_hex (get_root w.tmp)))

    unfoldable pub executed :
        List Transaction
        → BlockExecutor D
        → Option (BlockExecutor D)
        → BlockExecutor D × Option Bytes
    unfolding execute_all drafted
    executed txs e none = (e, none)
    executed txs e (some e1) =
        drafted e1 (execute_all e1.storage txs (record { tmp = e1.smt; changes = [] }))

    -- `ExecuteForStateRoot`: the executor and, unless it throws, the root
    unfoldable pub execute_for_state_root :
        List Transaction → BlockExecutor D → BlockExecutor D × Option Bytes
    unfolding load_smt_from_storage executed
    execute_for_state_root txs e = executed txs e (load_smt_from_storage e)
