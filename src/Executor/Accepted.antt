-- ===== src/Executor/Accepted.antt =====
-- src/block/block_executor.cpp: which lists of transactions `ExecuteForStateRoot` accepts.
use blockchain_demo.Prelude.{
  ◌≡◌, ◌<◌, ◌≤◌, ◌⊎◌, inl, inr, ◌↔◌, refl, ◌∙◌, ap, List, [], ◌∷◌, Bool, true, false, Option, none,
  some, All, arith, Bool-cases, Option-cases,
}
use blockchain_demo.Outcome.{done}
use blockchain_demo.Crypto.{Sodium}
use blockchain_demo.Transaction.{Transaction, verify_transaction_signature}
use blockchain_demo.Storage.{Sqlite}
use blockchain_demo.Executor.{
  Draft, is_transfer, is_store_data, account_or_new, stage, stage_transfer, execute_transfer,
  execute_store_data, if_valid, execute_typed, execute_transaction, execute_all,
}

module _ {D : Type 0} ⦃sqlite : Sqlite D⦄ ⦃sodium : Sodium⦄ (db : D) where
  -- The tests that a transaction has to pass, against the stored accounts.
  pub record IsAcceptable (tx : Transaction) : Type 0 where
    pub signed : verify_transaction_signature tx ≡ some true
    pub fresh : (account_or_new db tx.from).nonce < tx.nonce
    pub typed :
        ((is_transfer tx ≡ true) × (tx.amount ≤ (account_or_new db tx.from).balance))
        ⊎ ((is_transfer tx ≡ false) × (is_store_data tx ≡ true))

  transfer-accepted :
      (tx : Transaction) (w : Draft)
      → (account_or_new db tx.from).nonce < tx.nonce
      → tx.amount ≤ (account_or_new db tx.from).balance
      → (w' : Draft) × (execute_transfer db tx w ≡ some w')
  unfolding execute_transfer
  transfer-accepted tx w h k = (stage_transfer db tx w, ground arith)

  transfer-fits :
      (tx : Transaction) (w w' : Draft)
      → execute_transfer db tx w ≡ some w'
      → ((account_or_new db tx.from).nonce < tx.nonce)
        × (tx.amount ≤ (account_or_new db tx.from).balance)
  unfolding execute_transfer
  transfer-fits tx w w' e = ground arith

  store_data-accepted :
      (tx : Transaction) (w : Draft)
      → (account_or_new db tx.from).nonce < tx.nonce
      → (w' : Draft) × (execute_store_data db tx w ≡ some w')
  unfolding execute_store_data
  store_data-accepted tx w h =
      (stage (record (account_or_new db tx.from) { nonce = tx.nonce }) w, ground arith)

  store_data-fits :
      (tx : Transaction) (w w' : Draft)
      → execute_store_data db tx w ≡ some w'
      → (account_or_new db tx.from).nonce < tx.nonce
  unfolding execute_store_data
  store_data-fits tx w w' e = ground arith

  typed-accepted :
      (tx : Transaction) (w : Draft)
      → IsAcceptable tx
      → (w' : Draft) × (execute_typed db tx w ≡ some w')
  unfolding execute_typed
  typed-accepted tx w h = elim h.typed [
    | inl (is, covers) ↦ let (w', e) = transfer-accepted tx w h.fresh covers in (w', rw is e)
    | inr (is_not, is) ↦ let (w', e) = store_data-accepted tx w h.fresh in (w', rw (is_not, is) e)
  ]

  transaction-accepted :
      (tx : Transaction) (w : Draft)
      → IsAcceptable tx
      → (w' : Draft) × (execute_transaction db tx w ≡ some w')
  unfolding execute_transaction
  transaction-accepted tx w h =
      let (w', e) = typed-accepted tx w h in
      (w', ap (λ v. if_valid v (execute_typed db tx w)) h.signed ∙ e)

  typed-fits :
      (tx : Transaction) (w w' : Draft)
      → verify_transaction_signature tx ≡ some true
      → execute_typed db tx w ≡ some w'
      → IsAcceptable tx
  unfolding execute_typed
  typed-fits tx w w' v e = elim (Bool-cases (is_transfer tx)) [
    | inl is ↦
        let fits = transfer-fits tx w w' (ground arith) in
        record { signed = v; fresh = fits.0; typed = inl (is, fits.1) }
    | inr is_not ↦ elim (Bool-cases (is_store_data tx)) [
      | inl is ↦ record {
        signed = v;
        fresh = store_data-fits tx w w' (ground arith);
        typed = inr (is_not, is);
      }
      | inr is_none ↦ ground arith
    ]
  ]

  if_valid-cases :
      (v : Option Bool) (o : Option Draft) (w' : Draft)
      → if_valid v o ≡ some w'
      → (v ≡ some true) × (o ≡ some w')
  if_valid-cases none o w' e = cc
  if_valid-cases (some false) o w' e = cc
  if_valid-cases (some true) o w' e = (refl, e)

  transaction-fits :
      (tx : Transaction) (w w' : Draft) → execute_transaction db tx w ≡ some w' → IsAcceptable tx
  unfolding execute_transaction
  transaction-fits tx w w' e =
      let (signed, ran) = if_valid-cases (verify_transaction_signature tx) _ w' e in
      typed-fits tx w w' signed ran

  txs_accepted :
      (txs : List Transaction) (w : Draft)
      → All IsAcceptable txs
      → (w' : Draft) × (execute_all db txs w ≡ done w')
  unfolding execute_all
  txs_accepted [] w h = (w, refl)
  txs_accepted (tx ∷ txs) w h =
      let (w1, e) = transaction-accepted tx w h.0 in
      let (w2, e2) = txs_accepted txs w1 h.1 in (w2, rw e e2)

  txs_fit :
      (txs : List Transaction) (w w' : Draft)
      → execute_all db txs w ≡ done w'
      → All IsAcceptable txs
  unfolding execute_all
  txs_fit [] w w' h = tt
  txs_fit (tx ∷ txs) w w' h = elim (Option-cases (execute_transaction db tx w)) [
    | inl failed ↦ ground arith
    | inr (w1, e) ↦ (transaction-fits tx w w1 e, txs_fit txs w1 w' (rw e at h))
  ]

  -- The loop of `ExecuteForStateRoot` ends without an exception exactly if every transaction, taken
  -- alone against the accounts as they are stored, is signed, has a higher nonce than its sender, and
  -- is a transfer that the balance of its sender covers or a `STORE_DATA`. Whether the transactions
  -- of one list cover one another's amounts or repeat a nonce is not tested.
  pub execute_all-accepts :
      (txs : List Transaction) (w : Draft)
      → ((w' : Draft) × (execute_all db txs w ≡ done w')) ↔ All IsAcceptable txs
  execute_all-accepts txs w = (λ h. txs_fit txs w h.0 h.1, λ h. txs_accepted txs w h)
