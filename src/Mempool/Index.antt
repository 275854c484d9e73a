-- ===== src/Mempool/Index.antt =====
-- src/tx/mempool.cpp: the index knows exactly the identifiers of the pending transactions.
use blockchain_demo.Prelude.{
  ℕ, ◌+◌, ◌≡◌, refl, sym, ap, Bool, true, false, ◌||◌, List, [], ◌∷◌, ◌++◌, Option, none, some,
  Bytes, bytes_eq, bytes_eq_iff, length, arith, replicate, Bool-cases, inl, inr,
}
use blockchain_demo.Transaction.{Transaction}
use blockchain_demo.HashTable.{Table, Entry, clear_buckets}
use blockchain_demo.HashTable.Hashing.{Key, ◌===◌}
use blockchain_demo.HashTable.Refinement.{Models, update}
use blockchain_demo.HashTable.Growth.{put-Yields}
use blockchain_demo.Mempool.{Mempool, index_all}

-- Some transaction of the list has the identifier.
unfoldable pub has : Bytes → List Transaction → Bool
has q [] = false
has q (tx ∷ txs) = bytes_eq q tx.tx_id || has q txs

abbrev pub is_some : Option ℕ → Bool
is_some none = false
is_some (some n) = true

pub has-append :
    (q : Bytes) (txs : List Transaction) (tx : Transaction)
    → has q (txs ++ (tx ∷ [])) ≡ (bytes_eq q tx.tx_id || has q txs)
unfolding has
has-append q [] tx = refl
has-append q (t ∷ txs) tx = ground (arith, has-append q txs tx)

pub clear_buckets-replicate :
    (bs : List (List (Entry Bytes ℕ))) → clear_buckets bs ≡ replicate (length bs) []
unfolding clear_buckets
clear_buckets-replicate [] = refl
clear_buckets-replicate (b ∷ bs) = ap (λ r. [] ∷ r) (clear_buckets-replicate bs)

module _ ⦃key : Key Bytes⦄ where
  -- A table of indices is sound, and has a value at exactly the identifiers of the transactions.
  pub record Covers (t : Table Bytes ℕ) (txs : List Transaction) : Type 0 where
    pub reads : Bytes → Option ℕ
    pub models : Models t reads
    pub exact : (q : Bytes) → is_some (reads q) ≡ has q txs

  abbrev pub IsIndexed : Mempool → Type 0
  IsIndexed m = Covers m.index m.txs

  test_same : (k q : Bytes) → (k === q) ≡ bytes_eq q k
  test_same k q = elim (Bool-cases (bytes_eq q k)) [
    | inl e ↦ rw e ((key.equal_iff k q).1 (sym ((bytes_eq_iff q k).0 e)))
    | inr e ↦
        ground (
          arith,
          key.equal_iff k q,
          bytes_eq_iff q k,
          (λ (p : k ≡ q). (bytes_eq_iff q k).1 (sym p)),
        )
  ]

  pub is_some-update :
      (f : Bytes → Option ℕ) (k q : Bytes) (n : ℕ)
      → is_some (update f k (some n) q) ≡ (bytes_eq q k || is_some (f q))
  is_some-update f k q n = elim (Bool-cases (bytes_eq q k)) [
    | inl e ↦ rw (test_same k q, e) refl
    | inr e ↦ rw (test_same k q, e) refl
  ]

  -- The rest of the transactions is indexed over a table for a part of them.
  pub record IsExtended (o : Option (Table Bytes ℕ)) (f : Bytes → Option ℕ) (txs : List Transaction)
      : Type 0 where
    pub table : Table Bytes ℕ
    pub returned : o ≡ some table
    pub reads : Bytes → Option ℕ
    pub models : Models table reads
    pub exact : (q : Bytes) → is_some (reads q) ≡ (is_some (f q) || has q txs)

  pub index_all-IsExtended :
      (txs : List Transaction) (i : ℕ) (t : Table Bytes ℕ) (f : Bytes → Option ℕ)
      → Models t f
      → IsExtended (index_all txs i t) f txs
  unfolding index_all has
  index_all-IsExtended [] i t f m = record {
    table = t;
    returned = refl;
    reads = f;
    models = m;
    exact = λ q. ground arith;
  }
  index_all-IsExtended (tx ∷ txs) i t f m =
      let y = put-Yields t f tx.tx_id i m in
      let rest = index_all-IsExtended txs (i + 1) y.table (update f tx.tx_id (some i)) y.models in
      record {
        table = rest.table;
        returned = rw (y.returned, index_all) rest.returned;
        reads = rest.reads;
        models = rest.models;
        exact = λ q. ground (arith, rest.exact q, is_some-update f tx.tx_id q i);
      }
