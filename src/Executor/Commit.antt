-- ===== src/Executor/Commit.antt =====
-- src/block/block_executor.cpp: `CommitBlock`.
use blockchain_demo.Prelude.{
  ℕ, ◌+◌, List, [], ◌∷◌, Option, none, some, codes, bytes_eq, if◌then◌else◌,
}
use blockchain_demo.Outcome.{Outcome, done, threw, ◌>>=◌, attempt, AtEnd, AtEnd-threw}
use blockchain_demo.Encoding.{decimal}
use blockchain_demo.Crypto.{Sodium}
use blockchain_demo.Json.{Nlohmann}
use blockchain_demo.Transaction.{Transaction}
use blockchain_demo.Block.{Block}
use blockchain_demo.Account.{AccountState}
use blockchain_demo.Smt.{update}
use blockchain_demo.Storage.{
  Sqlite, begin, commit, rollback, put_account, put_metadata, put_smt_leaf, put_state_root,
}
use blockchain_demo.Storage.Documents.{put_block, put_transaction}
use blockchain_demo.Executor.{
  PendingChange, BlockExecutor, is_transfer, is_store_data, debit, credit, account_or_new,
  load_smt_from_storage,
}

module _ {D : Type 0} ⦃sqlite : Sqlite D⦄ where
  -- the receiver of a transfer
  unfoldable pub credit_receiver : ℕ → Transaction → D → Outcome D
  unfolding account_or_new credit put_account
  credit_receiver height tx db =
      let to = account_or_new db tx.to in
      attempt db (put_account db (record to { balance = credit to.balance tx.amount }) height)

  -- what a transfer leaves its sender
  unfoldable pub debited_sender : D → Transaction → AccountState
  unfolding account_or_new debit
  debited_sender db tx =
      let from = account_or_new db tx.from in
      record from {
        balance = if bytes_eq tx.from tx.to then from.balance else debit from.balance tx.amount;
        nonce = tx.nonce;
      }

  -- the accounts of a transfer
  unfoldable pub commit_transfer : ℕ → Transaction → D → Outcome D
  unfolding debited_sender credit_receiver put_account
  commit_transfer height tx db =
      attempt db (put_account db (debited_sender db tx) height) >>= λ db1.
      if bytes_eq tx.from tx.to then done db1 else credit_receiver height tx db1

  -- the account of a `STORE_DATA`
  unfoldable pub commit_store_data : ℕ → Transaction → D → Outcome D
  unfolding account_or_new put_account
  commit_store_data height tx db =
      attempt db (put_account db (record (account_or_new db tx.from) { nonce = tx.nonce }) height)

  -- the accounts of a transaction; one of another type has none.
  unfoldable pub commit_accounts : ℕ → Transaction → D → Outcome D
  unfolding is_transfer is_store_data commit_transfer commit_store_data
  commit_accounts height tx db =
      if is_transfer tx
      then commit_transfer height tx db
      else if is_store_data tx
      then commit_store_data height tx db
      else done db

  module _ (J : Type 0) ⦃json : Nlohmann J⦄ where
    -- the loop of `CommitBlock` over the transactions, from the index `i` on
    unfoldable pub commit_transactions : ℕ → ℕ → List Transaction → D → Outcome D
    unfolding commit_accounts put_transaction
    commit_transactions height i [] db = done db
    commit_transactions height i (tx ∷ txs) db =
        commit_accounts height tx db
        >>= (λ db1.
            attempt db1 (put_transaction J db1 tx (codes "COMMITTED") (some height) (some i)))
        >>= commit_transactions height (i + 1) txs

    -- the block and its transactions
    unfoldable pub write_block : Block → D → Outcome D
    unfolding put_block commit_transactions
    write_block block db =
        attempt db (put_block J db block)
        >>= commit_transactions block.header.height 0 block.transactions

  -- the state root, the height, and the end of the transaction
  unfoldable pub write_height : Block → D → Outcome D
  unfolding put_state_root commit
  write_height block db =
      attempt db (put_state_root db block.header.height block.header.state_root)
      >>= (λ db1.
          attempt db1 (put_metadata db1 (codes "latest_height") (decimal block.header.height)))
      >>= λ db2. attempt db2 (commit db2)

  -- work on the database of the executor
  abbrev pub lift_outcome : BlockExecutor D → Outcome D → Outcome (BlockExecutor D)
  lift_outcome e (done db) = done (record e { storage = db })
  lift_outcome e (threw db) = threw (record e { storage = db })

  abbrev pub lift_option : BlockExecutor D → Option D → Option (BlockExecutor D)
  lift_option e none = none
  lift_option e (some db) = some (record e { storage = db })

  -- the handler of the exceptions
  unfoldable pub undo : Outcome (BlockExecutor D) → Outcome (BlockExecutor D)
  undo (done e) = done e
  undo (threw e) = threw (record e { storage = rollback e.storage })

  module _ ⦃sodium : Sodium⦄ where
    -- the loop of `CommitBlock` over the pending changes
    unfoldable pub apply_changes : List PendingChange → BlockExecutor D → Outcome (BlockExecutor D)
    unfolding update put_smt_leaf
    apply_changes [] e = done e
    apply_changes (c ∷ changes) e =
        let e1 = record e { smt = update c.key c.value e.smt } in
        attempt e1 (lift_option e1 (put_smt_leaf e1.storage c.key c.value_hash c.value))
        >>= apply_changes changes

    module _ (J : Type 0) ⦃json : Nlohmann J⦄ where
      -- the body of the `try`
      unfoldable pub commit_body : Block → BlockExecutor D → Outcome (BlockExecutor D)
      unfolding write_block apply_changes write_height
      commit_body block e =
          lift_outcome e (write_block J block e.storage)
          >>= apply_changes e.pending_changes
          >>= λ e1.
              lift_outcome (record e1 { pending_changes = [] }) (write_height block e1.storage)

      -- `CommitBlock` after `Begin`, and after the load of the tree
      unfoldable pub begin_block : Block → BlockExecutor D → Option D → Outcome (BlockExecutor D)
      unfolding commit_body undo
      begin_block block e none = threw e
      begin_block block e (some db) = undo (commit_body block (record e { storage = db }))

      unfoldable pub loaded_block :
          Block → BlockExecutor D → Option (BlockExecutor D) → Outcome (BlockExecutor D)
      unfolding begin begin_block
      loaded_block block e none = threw e
      loaded_block block e (some e1) = begin_block block e1 (begin e1.storage)

      -- `CommitBlock`
      unfoldable pub commit_block : Block → BlockExecutor D → Outcome (BlockExecutor D)
      unfolding load_smt_from_storage loaded_block
      commit_block block e = loaded_block block e (load_smt_from_storage e)

      -- What every successful body leads to holds after every successful commit.
      pub commit_block-AtEnd :
          (P : BlockExecutor D → Type 0) (block : Block)
          → ((e : BlockExecutor D) → AtEnd P (commit_body block e))
          → (e : BlockExecutor D) → AtEnd P (commit_block block e)
      unfolding commit_block
      commit_block-AtEnd P block body e = loaded e (load_smt_from_storage e)
        where
          undone : (m : Outcome (BlockExecutor D)) → AtEnd P m → AtEnd P (undo m)
          undone (done e1) h = h
          undone (threw e1) h = unfold undo in AtEnd-threw

          began : (e1 : BlockExecutor D) (o : Option D) → AtEnd P (begin_block block e1 o)
          began e1 none = unfold begin_block in AtEnd-threw
          began e1 (some db) = unfold begin_block in undone _ (body (record e1 { storage = db }))

          loaded :
              (e1 : BlockExecutor D) (o : Option (BlockExecutor D))
              → AtEnd P (loaded_block block e1 o)
          loaded e1 none = unfold loaded_block in AtEnd-threw
          loaded e1 (some e2) = unfold loaded_block in began e2 (begin e2.storage)
