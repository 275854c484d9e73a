-- ===== src/Mempool.antt =====
-- src/tx/mempool.cpp and include/tx/mempool.h: the pending transactions, and the index of their
-- identifiers. The mutex makes each operation atomic.
pub mod Index
pub mod Pool
pub mod Admission
use blockchain_demo.Prelude.{
  ℕ, suc, ◌+◌, ◌-◌, min, Bool, true, false, List, [], ◌∷◌, ◌++◌, Option, none, some, Bytes, codes,
  bytes_eq, length, take, ltb, if◌then◌else◌,
}
use blockchain_demo.Crypto.{Sodium}
use blockchain_demo.Transaction.{
  Transaction, is_empty, serialize_transaction_full, verify_transaction_signature,
}
use blockchain_demo.HashTable.{Table, new, put, contains, clear}
use blockchain_demo.HashTable.Hashing.{Key}

pub record Mempool : Type 0 where
  pub txs : List Transaction
  pub index : Table Bytes ℕ

-- A new pool, whose index has 32 buckets
unfoldable pub new_mempool : Mempool
new_mempool = record { txs = []; index = new 32 }

-- What `AddTransaction` leaves and returns, with its output parameter `error`.
pub record Added : Type 0 where
  pub pool : Mempool
  pub added : Bool
  pub error : Bytes

-- the inner loop of `RemoveCommitted`
unfoldable pub remove_first : Bytes → List Transaction → List Transaction
remove_first id [] = []
remove_first id (tx ∷ txs) = if bytes_eq tx.tx_id id then txs else tx ∷ remove_first id txs

-- the outer loop of `RemoveCommitted`
unfoldable pub remove_each : List Transaction → List Transaction → List Transaction
unfolding remove_first
remove_each [] txs = txs
remove_each (tx ∷ committed) txs = remove_each committed (remove_first tx.tx_id txs)

-- `PickTransactions`
unfoldable pub pick_transactions : ℕ → Mempool → List Transaction
pick_transactions max_count m = take (min max_count (length m.txs)) m.txs

module _ ⦃key : Key Bytes⦄ where
  -- `Exists`
  unfoldable pub exists : Bytes → Mempool → Bool
  unfolding contains
  exists tx_id m = contains m.index tx_id

  -- the loop of `RebuildIndex` from the index `i` on
  unfoldable pub index_all : List Transaction → ℕ → Table Bytes ℕ → Option (Table Bytes ℕ)
  unfolding put
  index_all [] i t = some t
  index_all (tx ∷ txs) i t = elim (put t tx.tx_id i) [
    | none ↦ none
    | some t' ↦ index_all txs (i + 1) t'
  ]

  -- `RebuildIndex`; `none` would be a `Put` that does not return.
  unfoldable pub rebuild_index : Mempool → Option Mempool
  unfolding index_all clear
  rebuild_index m = elim (index_all m.txs 0 (clear m.index)) [
    | none ↦ none
    | some t ↦ some (record m { index = t })
  ]

  -- `RemoveCommitted`
  unfoldable pub remove_committed : List Transaction → Mempool → Option Mempool
  unfolding remove_each rebuild_index
  remove_committed committed m = rebuild_index (record m { txs = remove_each committed m.txs })

  module _ ⦃sodium : Sodium⦄ where
    -- `AddTransaction`; `none` is an exception of the signature check.
    unfoldable pub add_transaction : Transaction → Bytes → Mempool → Option Added
    unfolding is_empty contains serialize_transaction_full verify_transaction_signature put
    add_transaction tx error m =
        if is_empty tx.tx_id
        then some (record { pool = m; added = false; error = codes "empty tx_id" })
        else if contains m.index tx.tx_id
        then some (record { pool = m; added = false; error = codes "duplicate tx_id" })
        else if ltb 16384 (length (serialize_transaction_full tx))
        then some (record { pool = m; added = false; error = codes "transaction too large" })
        else elim (verify_transaction_signature tx) [
          | none ↦ none
          | some valid ↦
              if valid
              then elim (put m.index tx.tx_id (length (m.txs ++ (tx ∷ [])) - 1)) [
                | none ↦ none
                | some t ↦ some (record {
                  pool = record { txs = m.txs ++ (tx ∷ []); index = t };
                  added = true;
                  error = error;
                })
              ]
              else some (record {
                pool = m;
                added = false;
                error = codes "invalid transaction signature";
              })
        ]
