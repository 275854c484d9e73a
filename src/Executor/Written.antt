-- ===== src/Executor/Written.antt =====
-- src/block/block_executor.cpp: the block and its transactions in their tables, while a block
-- is being committed.
use blockchain_demo.Prelude.{
  ℕ, ◌+◌, ◌≡◌, refl, sym, ◌∙◌, ap, subst, List, [], ◌∷◌, Option, some, Bytes, codes, bytes_eq,
  bytes_eq_refl, ==_refl, if◌then◌else◌, All, eq_of_some, Bool-cases, inl, inr,
}
use blockchain_demo.Outcome.{
  done, AtEnd, IfSome, AtEnd-done, AtEnd-bind, AtEnd-attempt, AtEnd-if, IfSome-bind,
}
use blockchain_demo.Json.{Nlohmann}
use blockchain_demo.Transaction.{Transaction}
use blockchain_demo.Transaction.Json.{transaction_to_json}
use blockchain_demo.Account.{AccountState}
use blockchain_demo.Block.{Block}
use blockchain_demo.Block.Json.{block_to_json}
use blockchain_demo.Storage.{Sqlite, put_account, put_smt_leaf, height_of}
use blockchain_demo.Storage.Schema.{
  Tables, Statement, TransactionRow, effect, BlockRow, put_text, c_str,
}
use blockchain_demo.Storage.Documents.{put_block, put_transaction, transaction_row, block_row}
use blockchain_demo.Executor.{is_transfer, is_store_data}
use blockchain_demo.Executor.Commit.{
  credit_receiver, commit_transfer, commit_store_data, commit_accounts, commit_transactions,
  write_block,
}

-- The row of a transaction names the height.
abbrev pub IsMarked : ℕ → Tables → Bytes → Type 0
IsMarked height t id = height_of (t.transactions id) ≡ some height

mark :
    (height : ℕ) (t : Tables) (id : Bytes) (row : TransactionRow) (ids : List Bytes)
    → row.block_height ≡ some height
    → All (IsMarked height t) ids
    → All (IsMarked height (record t { transactions = put_text id row t.transactions })) ids
mark height t id row [] r h = tt
mark height t id row (q ∷ ids) r h = elim (Bool-cases (bytes_eq id q)) [
  | inl same ↦ (rw same r, mark height t id row ids r h.1)
  | inr other ↦ (rw other h.0, mark height t id row ids r h.1)
]

-- the identifiers so far, as the loop meets them
abbrev pub ids_after : List Transaction → List Bytes → List Bytes
ids_after [] ids = ids
ids_after (tx ∷ txs) ids = ids_after txs (c_str tx.tx_id ∷ ids)

abbrev pub ids_of : Block → List Bytes
ids_of block = ids_after block.transactions []

pub All-ids_after :
    (P : Bytes → Type 0) (txs : List Transaction) (ids : List Bytes)
    → All P (ids_after txs ids)
    → All P ids × All (λ (tx : Transaction). P (c_str tx.tx_id)) txs
All-ids_after P [] ids h = (h, tt)
All-ids_after P (tx ∷ txs) ids h =
    let (before, rest) = All-ids_after P txs (c_str tx.tx_id ∷ ids) h in
    (before.1, (before.0, rest))

module _ (J : Type 0) ⦃json : Nlohmann J⦄ (block : Block) where
  -- The block is in its table, and so are the transactions with these identifiers.
  pub record IsWritten (ids : List Bytes) (t : Tables) : Type 0 where
    pub text : Bytes
    pub dumped : json.dump (block_to_json block) ≡ some text
    pub row : t.blocks block.header.height ≡ some (block_row block text)
    pub marked : All (IsMarked block.header.height t) ids

  module _ {D : Type 0} ⦃sqlite : Sqlite D⦄ where
    pub record Holds (ids : List Bytes) (db : D) : Type 0 where
      pub written : IsWritten ids (sqlite.contents db)

    -- A statement that succeeds leads to what its effect says.
    step-Holds :
        (s : Statement) (db : D) (ids : List Bytes) (t : Tables)
        → effect s (sqlite.contents db) ≡ some t
        → IsWritten ids t
        → IfSome (Holds ids) (sqlite.step s db)
    step-Holds s db ids t e h = record {
      given = λ db' p. record {
        written = subst (IsWritten ids) (eq_of_some (sym e ∙ sqlite.contents-step s db db' p)) h;
      };
    }

    module _ (ids : List Bytes) (db : D) (h : Holds ids db) where
      pub kept :
          (t : Tables)
          → t.blocks ≡ (sqlite.contents db).blocks
          → t.transactions ≡ (sqlite.contents db).transactions
          → IsWritten ids t
      kept t b r = record {
        text = h.written.text;
        dumped = h.written.dumped;
        row = ap (λ (f : ℕ → Option BlockRow). f block.header.height) b ∙ h.written.row;
        marked =
            subst
              (λ (f : Bytes → Option TransactionRow).
                All (λ id. height_of (f id) ≡ some block.header.height) ids)
              (sym r) h.written.marked;
      }

      put_account-Holds :
          (state : AccountState) (height : ℕ) → IfSome (Holds ids) (put_account db state height)
      unfolding put_account effect
      put_account-Holds state height = step-Holds _ db ids _ refl (kept _ refl refl)

      pub put_node-Holds :
          (key value_hash value : Bytes) → IfSome (Holds ids) (put_smt_leaf db key value_hash value)
      unfolding put_smt_leaf effect
      put_node-Holds key value_hash value = step-Holds _ db ids _ refl (kept _ refl refl)

      put_transaction-Holds :
          (tx : Transaction) (status : Bytes) (i : ℕ)
          → IfSome
              (Holds (c_str tx.tx_id ∷ ids))
              (put_transaction J db tx status (some block.header.height) (some i))
      unfolding put_transaction effect transaction_row
      put_transaction-Holds tx status i =
          IfSome-bind (json.dump (transaction_to_json tx)) _ (λ text _.
            step-Holds _ db (c_str tx.tx_id ∷ ids) _ refl (record {
              text = h.written.text;
              dumped = h.written.dumped;
              row = h.written.row;
              marked = (
                rw (bytes_eq_refl (c_str tx.tx_id)) refl,
                mark block.header.height (sqlite.contents db) (c_str tx.tx_id) _ ids refl
                    h.written.marked,
              );
            }))

    commit_transfer-Holds :
        (ids : List Bytes) (height : ℕ) (tx : Transaction) (db : D)
        → Holds ids db
        → AtEnd (Holds ids) (commit_transfer height tx db)
    unfolding commit_transfer
    commit_transfer-Holds ids height tx db h =
        AtEnd-bind _ _
          (λ db1 h1.
            AtEnd-if (bytes_eq tx.from tx.to) (done db1) (credit_receiver height tx db1)
              (λ _. AtEnd-done h1)
              (λ _.
                unfold credit_receiver in
                (AtEnd-attempt db1 _ (put_account-Holds ids db1 h1 _ height))))
          (AtEnd-attempt db _ (put_account-Holds ids db h _ height))

    commit_accounts-Holds :
        (ids : List Bytes) (height : ℕ) (tx : Transaction) (db : D)
        → Holds ids db
        → AtEnd (Holds ids) (commit_accounts height tx db)
    unfolding commit_accounts
    commit_accounts-Holds ids height tx db h =
        let other = if is_store_data tx then commit_store_data height tx db else done db in
        AtEnd-if (is_transfer tx) (commit_transfer height tx db) other
          (λ _. commit_transfer-Holds ids height tx db h)
          (λ _.
            AtEnd-if (is_store_data tx) (commit_store_data height tx db) (done db)
              (λ _.
                unfold commit_store_data in
                (AtEnd-attempt db _ (put_account-Holds ids db h _ height)))
              (λ _. AtEnd-done h))

    commit_transactions-Holds :
        (txs : List Transaction) (i : ℕ) (ids : List Bytes) (db : D)
        → Holds ids db
        → AtEnd (Holds (ids_after txs ids)) (commit_transactions J block.header.height i txs db)
    unfolding commit_transactions
    commit_transactions-Holds [] i ids db h = AtEnd-done h
    commit_transactions-Holds (tx ∷ txs) i ids db h =
        AtEnd-bind _ _
          (λ db2 h2. commit_transactions-Holds txs (i + 1) (c_str tx.tx_id ∷ ids) db2 h2)
          (AtEnd-bind _ _
            (λ db1 h1.
              AtEnd-attempt db1 _ (put_transaction-Holds ids db1 h1 tx (codes "COMMITTED") i))
            (commit_accounts-Holds ids block.header.height tx db h))

    put_block-Holds : (db : D) → IfSome (Holds []) (put_block J db block)
    unfolding put_block effect
    put_block-Holds db = IfSome-bind (json.dump (block_to_json block)) _ (λ text e.
        step-Holds _ db [] _ refl (record {
          text = text;
          dumped = e;
          row = rw (==_refl block.header.height) refl;
          marked = tt;
        }))

    pub write_block-Holds : (db : D) → AtEnd (Holds (ids_of block)) (write_block J block db)
    unfolding write_block
    write_block-Holds db =
        AtEnd-bind _ _ (λ db1 h1. commit_transactions-Holds block.transactions 0 [] db1 h1)
          (AtEnd-attempt db _ (put_block-Holds db))
