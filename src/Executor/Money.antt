-- ===== src/Executor/Money.antt =====
-- src/block/block_executor.cpp: what the commit of a transfer does to the balances.
use blockchain_demo.Prelude.{
  ℕ, ◌≡◌, refl, sym, ◌∙◌, ap, false, Option, none, some, Bytes, bytes_eq, bytes_eq_iff,
  if◌then◌else◌, eq_of_some, Bool-cases, inl, inr,
}
use blockchain_demo.Account.{AccountState}
use blockchain_demo.Transaction.{Transaction}
use blockchain_demo.Storage.{Sqlite, account_of, get_account, put_account}
use blockchain_demo.Storage.Schema.{Tables, AccountRow, effect}
use blockchain_demo.Executor.{debit, credit, value_or_new, account_or_new}
use blockchain_demo.Executor.Commit.{debited_sender}

-- What `GetAccount(...).value_or(...)` makes of a row.
abbrev of_row : Bytes → Option AccountRow → AccountState
of_row q o = value_or_new q (account_of q o)

of_row_address : (q : Bytes) (o : Option AccountRow) → (of_row q o).address ≡ q
of_row_address q none = refl
of_row_address q (some row) = refl

of_row_put :
    (state : AccountState) (value : Bytes) (height : ℕ) (q : Bytes) (o : Option AccountRow)
    → of_row q (
        if bytes_eq state.address q
        then some (record {
          balance = state.balance;
          nonce = state.nonce;
          state_value = value;
          updated_height = height;
        })
        else o)
      ≡ (if bytes_eq state.address q then state else of_row q o)
of_row_put state value height q o = elim (Bool-cases (bytes_eq state.address q)) [
  | inl same ↦
      rw same (ap (λ a. record state { address = a }) (sym ((bytes_eq_iff state.address q).0 same)))
  | inr other ↦ rw other
]

module _ {D : Type 0} ⦃sqlite : Sqlite D⦄ where
  pub account_or_new-address : (db : D) (q : Bytes) → (account_or_new db q).address ≡ q
  unfolding account_or_new get_account
  account_or_new-address db q = of_row_address q ((sqlite.contents db).accounts q)

  -- A stored account is found again, and no other account changes.
  pub account_or_new-put_account :
      (db db' : D) (state : AccountState) (height : ℕ) (q : Bytes)
      → put_account db state height ≡ some db'
      → account_or_new db' q ≡ (if bytes_eq state.address q then state else account_or_new db q)
  unfolding put_account effect account_or_new
  account_or_new-put_account db db' state height q e =
      ap (λ (t : Tables). of_row q (t.accounts q))
        (sym (eq_of_some (sqlite.contents-step _ db db' e)))
      ∙ of_row_put state _ height q ((sqlite.contents db).accounts q)

  -- A transfer between two accounts has been applied.
  pub record IsTransferred (tx : Transaction) (db db' : D) : Type 0 where
    pub sender :
        (account_or_new db' tx.from).balance ≡ debit (account_or_new db tx.from).balance tx.amount
    pub nonce : (account_or_new db' tx.from).nonce ≡ tx.nonce
    pub receiver :
        (account_or_new db' tx.to).balance ≡ credit (account_or_new db tx.to).balance tx.amount
    pub others :
        (q : Bytes)
        → bytes_eq tx.from q ≡ false
        → bytes_eq tx.to q ≡ false
        → account_or_new db' q ≡ account_or_new db q

  module _ (height : ℕ) (tx : Transaction) (db : D) (apart : bytes_eq tx.from tx.to ≡ false) where
    -- Half way, the sender has paid.
    record IsDebited (db1 : D) : Type 0 where
      accounts :
          (q : Bytes)
          → account_or_new db1 q
            ≡ (if bytes_eq tx.from q then debited_sender db tx else account_or_new db q)
