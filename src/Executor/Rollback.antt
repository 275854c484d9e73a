-- ===== src/Executor/Rollback.antt =====
-- src/block/block_executor.cpp: a block whose commit throws leaves the tables alone.
use blockchain_demo.Prelude.{
  codes, ℕ, ◌+◌, ◌≡◌, refl, sym, ◌∙◌, ap, List, [], ◌∷◌, Option, none, some, Bytes, bytes_eq,
  if◌then◌else◌, subst, eq_of_some, if_cases, option_cases, Option-cases, inl, inr, true,
}
use blockchain_demo.Outcome.{
  Outcome, done, threw, ◌>>=◌, Anyhow, IfSome, Anyhow-done, Anyhow-threw, Anyhow-if, Anyhow-bind,
  Anyhow-attempt, IfSome-bind, IfSome-none, IfSome-some, of_Anyhow, IfThrown, IfThrown-bind,
  IfThrown-attempt, IfThrown-done, IfThrown-threw,
}
use blockchain_demo.Crypto.{Sodium}
use blockchain_demo.Json.{Nlohmann}
use blockchain_demo.Transaction.{Transaction}
use blockchain_demo.Block.{Block}
use blockchain_demo.Transaction.Json.{transaction_to_json}
use blockchain_demo.Block.Json.{block_to_json}
use blockchain_demo.Account.{AccountState}
use blockchain_demo.Smt.{update}
use blockchain_demo.Storage.{
  Sqlite, put_account, put_state_root, begin, rollback, put_smt_leaf, get_all_smt_leaves,
}
use blockchain_demo.Storage.Schema.{Tables, Statement, replace_transaction, c_str, replace_block}
use blockchain_demo.Storage.Documents.{put_block, put_transaction, transaction_row, block_row}
use blockchain_demo.Executor.{
  PendingChange, BlockExecutor, is_transfer, is_store_data, load_all, load_smt_from_storage,
}
use blockchain_demo.Executor.Commit.{
  credit_receiver, commit_transfer, commit_store_data, commit_accounts, commit_transactions,
  write_block, write_height, lift_outcome, lift_option, undo, apply_changes, commit_body,
  begin_block, loaded_block, commit_block,
}

module _ {D : Type 0} ⦃sqlite : Sqlite D⦄ (t : Tables) where
  -- A transaction is open, which began with the tables `t`.
  pub record IsOpen (db : D) : Type 0 where
    pub began : sqlite.saved db ≡ some t

  step-IsOpen : (s : Statement) (db : D) → IsOpen db → IfSome IsOpen (sqlite.step s db)
  step-IsOpen s db h = record {
    given = λ db' e. record { began = sqlite.saved-step s db db' e ∙ h.began };
  }

  put_account-IsOpen :
      (db : D) (state : AccountState) (height : ℕ)
      → IsOpen db
      → IfSome IsOpen (put_account db state height)
  unfolding put_account
  put_account-IsOpen db state height h = step-IsOpen _ db h

  bind-IsOpen :
      (m : Outcome D) (f : D → Outcome D)
      → ((db : D) → IsOpen db → Anyhow IsOpen (f db))
      → Anyhow IsOpen m
      → Anyhow IsOpen (m >>= f)
  bind-IsOpen m f next h = Anyhow-bind m f next (λ db o. o) h

  commit_transfer-IsOpen :
      (height : ℕ) (tx : Transaction) (db : D)
      → IsOpen db
      → Anyhow IsOpen (commit_transfer height tx db)
  unfolding commit_transfer
  commit_transfer-IsOpen height tx db h =
      bind-IsOpen _ _
        (λ db1 h1.
          Anyhow-if (bytes_eq tx.from tx.to) (done db1) (credit_receiver height tx db1)
            (λ _. Anyhow-done h1)
            (λ _.
              unfold credit_receiver in
              (Anyhow-attempt db1 _ h1 (put_account-IsOpen db1 _ height h1))))
        (Anyhow-attempt db _ h (put_account-IsOpen db _ height h))

  commit_store_data-IsOpen :
      (height : ℕ) (tx : Transaction) (db : D)
      → IsOpen db
      → Anyhow IsOpen (commit_store_data height tx db)
  unfolding commit_store_data
  commit_store_data-IsOpen height tx db h = Anyhow-attempt db _ h (put_account-IsOpen db _ height h)

  commit_accounts-IsOpen :
      (height : ℕ) (tx : Transaction) (db : D)
      → IsOpen db
      → Anyhow IsOpen (commit_accounts height tx db)
  unfolding commit_accounts
  commit_accounts-IsOpen height tx db h =
      let other = if is_store_data tx then commit_store_data height tx db else done db in
      Anyhow-if (is_transfer tx) (commit_transfer height tx db) other
        (λ _. commit_transfer-IsOpen height tx db h)
        (λ _.
          Anyhow-if (is_store_data tx) (commit_store_data height tx db) (done db)
            (λ _. commit_store_data-IsOpen height tx db h) (λ _. Anyhow-done h))

  module _ (J : Type 0) ⦃json : Nlohmann J⦄ where
    put_transaction-IsOpen :
        (db : D) (tx : Transaction) (status : Bytes) (height index : Option ℕ)
        → IsOpen db
        → IfSome IsOpen (put_transaction J db tx status height index)
    unfolding put_transaction
    put_transaction-IsOpen db tx status height index h =
        IfSome-bind (json.dump (transaction_to_json tx))
          (λ text.
            sqlite.step
              (replace_transaction (c_str tx.tx_id) (transaction_row tx status height index text))
              db)
          (λ text _. step-IsOpen _ db h)

    put_block-IsOpen : (db : D) (block : Block) → IsOpen db → IfSome IsOpen (put_block J db block)
    unfolding put_block
    put_block-IsOpen db block h =
        IfSome-bind (json.dump (block_to_json block))
          (λ text. sqlite.step (replace_block block.header.height (block_row block text)) db)
          (λ text _. step-IsOpen _ db h)

    commit_transactions-IsOpen :
        (height i : ℕ) (txs : List Transaction) (db : D)
        → IsOpen db
        → Anyhow IsOpen (commit_transactions J height i txs db)
    unfolding commit_transactions
    commit_transactions-IsOpen height i [] db h = Anyhow-done h
    commit_transactions-IsOpen height i (tx ∷ txs) db h =
        bind-IsOpen _ _ (λ db2 h2. commit_transactions-IsOpen height (i + 1) txs db2 h2)
          (bind-IsOpen _ _
            (λ db1 h1.
              Anyhow-attempt db1 _ h1 (put_transaction-IsOpen db1 tx (codes "COMMITTED") _ _ h1))
            (commit_accounts-IsOpen height tx db h))

    pub write_block-IsOpen :
        (block : Block) (db : D) → IsOpen db → Anyhow IsOpen (write_block J block db)
    unfolding write_block
    write_block-IsOpen block db h =
        bind-IsOpen _ _
          (λ db1 h1. commit_transactions-IsOpen block.header.height 0 block.transactions db1 h1)
          (Anyhow-attempt db _ h (put_block-IsOpen db block h))

  -- A step keeps the transaction open up to the `COMMIT`, which closes it only if it succeeds.
  write_height-IsOpen :
      (block : Block) (db : D) → IsOpen db → IfThrown IsOpen (write_height block db)
  unfolding write_height put_state_root
  write_height-IsOpen block db h =
      IfThrown-bind _ _ (λ db2 h2. IfThrown-attempt db2 _ h2)
        (bind-IsOpen _ _ (λ db1 h1. Anyhow-attempt db1 _ h1 (step-IsOpen _ db1 h1))
          (Anyhow-attempt db _ h (step-IsOpen _ db h)))

  -- The same of the database of an executor.
  pub record HasOpen (e : BlockExecutor D) : Type 0 where
    pub open_one : IsOpen e.storage

  on_storage-Anyhow :
      (e : BlockExecutor D) (m : Outcome D) → Anyhow IsOpen m → Anyhow HasOpen (lift_outcome e m)
  on_storage-Anyhow e (done db) h = Anyhow-done (record { open_one = h.held })
  on_storage-Anyhow e (threw db) h = Anyhow-threw (record { open_one = h.held })

  on_storage-IfThrown :
      (e : BlockExecutor D) (m : Outcome D)
      → IfThrown IsOpen m
      → IfThrown HasOpen (lift_outcome e m)
  on_storage-IfThrown e (done db) h = IfThrown-done
  on_storage-IfThrown e (threw db) h = IfThrown-threw (record { open_one = h.thrown db refl })

  IfSome-storage :
      (e : BlockExecutor D) (o : Option D) → IfSome IsOpen o → IfSome HasOpen (lift_option e o)
  IfSome-storage e none h = IfSome-none
  IfSome-storage e (some db) h = record {
    given = λ e' p. subst HasOpen (eq_of_some p) (record { open_one = h.given db refl });
  }

  module _ ⦃sodium : Sodium⦄ where
    apply_changes-HasOpen :
        (changes : List PendingChange) (e : BlockExecutor D)
        → HasOpen e
        → Anyhow HasOpen (apply_changes changes e)
    unfolding apply_changes put_smt_leaf
    apply_changes-HasOpen [] e h = Anyhow-done h
    apply_changes-HasOpen (c ∷ changes) e h =
        let e1 = record e { smt = update c.key c.value e.smt } in
        Anyhow-bind _ _ (λ e2 h2. apply_changes-HasOpen changes e2 h2) (λ e2 h2. h2)
          (Anyhow-attempt e1 _ (record { open_one = h.open_one })
            (IfSome-storage e1 _ (step-IsOpen _ e.storage h.open_one)))

    module _ (J : Type 0) ⦃json : Nlohmann J⦄ where
      commit_body-HasOpen :
          (block : Block) (e : BlockExecutor D)
          → HasOpen e
          → IfThrown HasOpen (commit_body J block e)
      unfolding commit_body
      commit_body-HasOpen block e h =
          IfThrown-bind _ _
            (λ e1 h1.
              on_storage-IfThrown (record e1 { pending_changes = [] }) _
                (write_height-IsOpen block e1.storage h1.open_one))
            (Anyhow-bind _ _ (λ e1 h1. apply_changes-HasOpen e.pending_changes e1 h1) (λ e1 h1. h1)
              (on_storage-Anyhow e _ (write_block-IsOpen J block e.storage h.open_one)))

  undo-contents :
      (m : Outcome (BlockExecutor D)) (e' : BlockExecutor D)
      → IfThrown HasOpen m
      → undo m ≡ threw e'
      → sqlite.contents e'.storage ≡ t
  unfolding undo rollback
  undo-contents (done e) e' h p = cc
  undo-contents (threw e) e' h p =
      of_Anyhow {P = λ e1. sqlite.contents e1.storage ≡ t} _
        (Anyhow-threw (sqlite.contents-rollback e.storage t ((h.thrown e refl).open_one.began))) p

module _ {D : Type 0} ⦃sqlite : Sqlite D⦄ ⦃sodium : Sodium⦄ (J : Type 0) ⦃json : Nlohmann J⦄ where
  begin_block-contents :
      (block : Block) (e1 e' : BlockExecutor D) (o : Option D)
      → begin e1.storage ≡ o
      → begin_block J block e1 o ≡ threw e'
      → sqlite.contents e'.storage ≡ sqlite.contents e1.storage
  unfolding begin_block begin
  begin_block-contents block e1 e' none b p =
      of_Anyhow {P = λ e2. sqlite.contents e2.storage ≡ sqlite.contents e1.storage} (threw e1)
        (Anyhow-threw refl) p
  begin_block-contents block e1 e' (some db) b p =
      let t = sqlite.contents e1.storage in
      let opened : IsOpen t db = record { began = sqlite.saved-begin_immediate e1.storage db b } in
      let e2 = record e1 { storage = db } in
      undo-contents t (commit_body J block e2) e'
        (commit_body-HasOpen t J block e2 (record { open_one = opened })) p

  load_smt-storage :
      (e : BlockExecutor D) → IfSome (λ e1. e1.storage ≡ e.storage) (load_smt_from_storage e)
  unfolding load_smt_from_storage
  load_smt-storage e =
      if_cases P e.smt_loaded _ _ (λ _. IfSome-some refl)
        (λ _.
          option_cases P (get_all_smt_leaves e.storage) none
            (λ rows. some (record e { smt = load_all rows e.smt; smt_loaded = true }))
            (λ _. IfSome-none) (λ rows _. IfSome-some refl))
    where
      P : Option (BlockExecutor D) → Type 0
      P o = IfSome (λ (e1 : BlockExecutor D). e1.storage ≡ e.storage) o

  -- A `CommitBlock` that throws, wherever it does, leaves every table as it was before the call.
  pub commit_block-threw :
      (block : Block) (e e' : BlockExecutor D)
      → commit_block J block e ≡ threw e'
      → sqlite.contents e'.storage ≡ sqlite.contents e.storage
  unfolding commit_block
  commit_block-threw block e e' p = elim (Option-cases (load_smt_from_storage e)) [
    | inl failed ↦
        of_Anyhow {P = λ e2. sqlite.contents e2.storage ≡ sqlite.contents e.storage} (threw e)
          (Anyhow-threw refl) (ap (loaded_block J block e) (sym failed) ∙ p)
    | inr (e1, loaded) ↦
        begin_block-contents block e1 e' (begin e1.storage) refl
          (ap (loaded_block J block e) (sym loaded) ∙ p)
        ∙ ap (λ db. sqlite.contents db) ((load_smt-storage e).given e1 loaded)
  ]
