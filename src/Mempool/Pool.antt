-- ===== src/Mempool/Pool.antt =====
-- src/tx/mempool.cpp: what the pool holds after each operation.
use blockchain_demo.Prelude.{
  ℕ, ◌≡◌, refl, sym, ap, ◌∙◌, true, false, not, ◌&&◌, List, [], ◌∷◌, ◌++◌, Option, none, some,
  Bytes, bytes_eq, bytes_eq_iff, length, arith, option_cases, Bool-cases, inl, inr,
}
use blockchain_demo.Transaction.{Transaction}
use blockchain_demo.HashTable.{Table, get, contains, clear}
use blockchain_demo.HashTable.Hashing.{Key}
use blockchain_demo.HashTable.Refinement.{Models, replicate-Models, new-Models}
use blockchain_demo.Mempool.{
  Mempool, new_mempool, rebuild_index, remove_committed, remove_each, remove_first, exists,
}
use blockchain_demo.Mempool.Index.{
  has, has-append, Covers, is_some, clear_buckets-replicate, index_all-IsExtended,
}

-- No two transactions have one identifier.
unfoldable pub Unique : List Transaction → Type 0
unfolding has
Unique [] = Unit
Unique (tx ∷ txs) = (has tx.tx_id txs ≡ false) × Unique txs

pub append-Unique :
    (txs : List Transaction) (tx : Transaction)
    → has tx.tx_id txs ≡ false
    → Unique txs
    → Unique (txs ++ (tx ∷ []))
unfolding Unique has
append-Unique [] tx h u = (refl, tt)
append-Unique (t ∷ txs) tx h u = ground (
  arith,
  append-Unique txs tx,
  has-append t.tx_id txs tx,
  bytes_eq_iff t.tx_id tx.tx_id,
  bytes_eq_iff tx.tx_id t.tx_id,
)

has-same : (a b : Bytes) (txs : List Transaction) → bytes_eq a b ≡ true → has a txs ≡ has b txs
has-same a b txs h = ap (λ q. has q txs) ((bytes_eq_iff a b).0 h)

has-remove_first :
    (q id : Bytes) (txs : List Transaction)
    → Unique txs
    → has q (remove_first id txs) ≡ (has q txs && not (bytes_eq q id))
unfolding Unique has remove_first
has-remove_first q id [] u = refl
has-remove_first q id (t ∷ txs) u = elim (Bool-cases (bytes_eq t.tx_id id)) [
  | inl e ↦ elim (Bool-cases (bytes_eq q id)) [
    | inl f ↦
        rw (e, f)
          (ground (
            arith,
            u.0,
            has-same q t.tx_id txs (
                (bytes_eq_iff q t.tx_id).1
                  ((bytes_eq_iff q id).0 f ∙ sym ((bytes_eq_iff t.tx_id id).0 e))),
          ))
    | inr f ↦ ground (arith, e, f, ap (bytes_eq q) ((bytes_eq_iff t.tx_id id).0 e))
  ]
  | inr e ↦ ground (
    arith,
    e,
    has-remove_first q id txs u.1,
    bytes_eq_iff q t.tx_id,
    bytes_eq_iff q id,
    bytes_eq_iff t.tx_id id,
  )
]

remove_first-Unique :
    (id : Bytes) (txs : List Transaction) → Unique txs → Unique (remove_first id txs)
unfolding Unique remove_first
remove_first-Unique id [] u = tt
remove_first-Unique id (t ∷ txs) u = elim (Bool-cases (bytes_eq t.tx_id id)) [
  | inl e ↦ rw (e, remove_first) u.1
  | inr e ↦
      rw (e, remove_first)
        (has-remove_first t.tx_id id txs u.1 ∙ ground (arith, u.0), remove_first-Unique id txs u.1)
]

remove_each-Unique :
    (committed txs : List Transaction) → Unique txs → Unique (remove_each committed txs)
unfolding remove_each
remove_each-Unique [] txs u = u
remove_each-Unique (tx ∷ committed) txs u =
    remove_each-Unique committed (remove_first tx.tx_id txs) (remove_first-Unique tx.tx_id txs u)

has-remove_each :
    (q : Bytes) (committed txs : List Transaction)
    → Unique txs
    → has q (remove_each committed txs) ≡ (has q txs && not (has q committed))
unfolding remove_each has
has-remove_each q [] txs u = ground arith
has-remove_each q (tx ∷ committed) txs u = ground (
  arith,
  has-remove_each q committed (remove_first tx.tx_id txs) (remove_first-Unique tx.tx_id txs u),
  has-remove_first q tx.tx_id txs u,
)

module _ ⦃key : Key Bytes⦄ where
  -- The index covers the pending transactions, which have different identifiers.
  pub record IsPool (m : Mempool) : Type 0 where
    pub covered : Covers m.index m.txs
    pub unique : Unique m.txs

  pub new_mempool-IsPool : IsPool new_mempool
  unfolding new_mempool has Unique
  new_mempool-IsPool = record {
    covered = record { reads = λ _. none; models = new-Models Bytes ℕ 32; exact = λ q. refl };
    unique = tt;
  }

  pub exists-has : (q : Bytes) (m : Mempool) → IsPool m → exists q m ≡ has q m.txs
  unfolding exists contains
  exists-has q m p =
      let known = p.covered.models.reads q in
      option_cases (λ b. b ≡ has q m.txs) (get m.index q) false (λ _. true)
        (λ n. ap is_some (sym n ∙ known) ∙ p.covered.exact q)
        (λ a n. ap is_some (sym n ∙ known) ∙ p.covered.exact q)

  clear-Models :
      (t : Table Bytes ℕ) (f : Bytes → Option ℕ) → Models t f → Models (clear t) (λ _. none)
  unfolding clear
  clear-Models t f m =
      rw (clear_buckets-replicate t.buckets) (replicate-Models Bytes ℕ (length t.buckets) m.pos)

  -- What `RemoveCommitted` returns with.
  pub record IsPurged (committed : List Transaction) (m : Mempool) (o : Option Mempool)
      : Type 0 where
    pub pool : Mempool
    pub returned : o ≡ some pool
    pub sound : IsPool pool
    pub left : (q : Bytes) → exists q pool ≡ (exists q m && not (has q committed))

  -- `RemoveCommitted` always returns, the index covers the pending transactions again, and exactly
  -- the identifiers that were pending and not committed are known to the pool.
  pub remove_committed-IsPurged :
      (committed : List Transaction) (m : Mempool)
      → IsPool m
      → IsPurged committed m (remove_committed committed m)
  unfolding remove_committed rebuild_index
  remove_committed-IsPurged committed m p =
      let txs = remove_each committed m.txs in
      let all =
        index_all-IsExtended txs 0 (clear m.index) (λ _. none)
          (clear-Models m.index p.covered.reads p.covered.models) in
      let pool : Mempool = record { txs = txs; index = all.table } in
      let sound : IsPool pool = record {
        covered = record { reads = all.reads; models = all.models; exact = all.exact };
        unique = remove_each-Unique committed m.txs p.unique;
      } in
      record {
        pool = pool;
        returned = rw (all.returned, rebuild_index) refl;
        sound = sound;
        left = λ q.
            exists-has q pool sound
            ∙ (has-remove_each q committed m.txs p.unique
                ∙ ap (λ b. b && not (has q committed)) (sym (exists-has q m p)));
      }
