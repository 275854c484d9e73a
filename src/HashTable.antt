-- ===== src/HashTable.antt =====
-- include/datastructure/custom_hash_table.h: `CustomHashTable<K, V>`, a vector of buckets with
-- linear search, doubled by `Put` when the load factor has passed 0.75.
pub mod Hashing
pub mod Bucket
pub mod Layout
pub mod Refinement
pub mod Growth
use blockchain_demo.Prelude.{
  ℕ, zero, suc, ◌+◌, ◌-◌, ◌*◌, ◌%◌, Bool, true, false, List, [], ◌∷◌, ◌++◌, Option, none, some,
  length, get_or, set, replicate, ltb, ◌==◌, if◌then◌else◌,
}
use Hashing.{Key, ◌===◌}

pub record Entry {ℓ} (K V : Type ℓ) : Type ℓ where
  pub key : K
  pub value : V

pub record Table {ℓ} (K V : Type ℓ) : Type ℓ where
  pub buckets : List (List (Entry K V))
  pub size : ℕ

-- The constructor: no buckets asked for means 16.
unfoldable pub new {ℓ} : {K V : Type ℓ} → ℕ → Table K V
new bucket_count = record {
  buckets = replicate (if bucket_count == 0 then 16 else bucket_count) [];
  size = 0;
}

module _ {ℓ} {K V : Type ℓ} where
  -- `LoadFactor() > 0.75`; the quotient of two sizes below 2 ^ 52 compares exactly in `double`
  unfoldable pub over_loaded : Table K V → Bool
  over_loaded t = let n = length t.buckets in if n == 0 then false else ltb (3 * n) (4 * t.size)

  -- `Clear`: every bucket is emptied and stays.
  unfoldable pub clear_buckets : List (List (Entry K V)) → List (List (Entry K V))
  clear_buckets [] = []
  clear_buckets (b ∷ bs) = [] ∷ clear_buckets bs

  unfoldable pub clear : Table K V → Table K V
  unfolding clear_buckets
  clear t = record { buckets = clear_buckets t.buckets; size = 0 }

  -- the order in which the two loops of `Rehash` meet the entries
  unfoldable pub entries : List (List (Entry K V)) → List (Entry K V)
  entries [] = []
  entries (b ∷ bs) = b ++ entries bs

unfoldable pub index {ℓ} : {K : Type ℓ} ⦃key : Key K⦄ → K → ℕ → ℕ
index ⦃key⦄ k n = key.hash k % n

module _ {ℓ} {K V : Type ℓ} ⦃key : Key K⦄ where
  unfoldable pub find : K → List (Entry K V) → Option V
  find k [] = none
  find k (e ∷ es) = if e.key === k then some e.value else find k es

  -- the loop of `Put` over one bucket, with the `push_back` behind it
  unfoldable pub put_bucket : K → V → List (Entry K V) → List (Entry K V)
  put_bucket k v [] = record { key = k; value = v } ∷ []
  put_bucket k v (e ∷ es) =
      if e.key === k then record e { value = v } ∷ es else e ∷ put_bucket k v es

  -- the loop of `Remove` over one bucket, with its `erase`
  unfoldable pub erase_bucket : K → List (Entry K V) → List (Entry K V)
  erase_bucket k [] = []
  erase_bucket k (e ∷ es) = if e.key === k then es else e ∷ erase_bucket k es

  abbrev pub bucket_of : Table K V → K → List (Entry K V)
  bucket_of t k = get_or t.buckets (index k (length t.buckets)) []

  unfoldable pub get : Table K V → K → Option V
  unfolding find
  get t k = find k (bucket_of t k)

  unfoldable pub contains : Table K V → K → Bool
  unfolding get
  contains t k = elim (get t k) [ none ↦ false | some v ↦ true ]

  -- `Put` after the test of the load factor; `size_` grows if the loop found no entry.
  unfoldable pub write : Table K V → K → V → Table K V
  unfolding put_bucket find
  write t k v = record {
    buckets = set t.buckets (index k (length t.buckets)) (put_bucket k v (bucket_of t k));
    size = elim (find k (bucket_of t k)) [ none ↦ t.size + 1 | some _ ↦ t.size ];
  }

  -- the loops of `Rehash`, with the `Put` that they call as a parameter
  unfoldable pub put_all :
      (Table K V → K → V → Option (Table K V)) → List (Entry K V) → Table K V → Option (Table K V)
  put_all put_one [] t = some t
  put_all put_one (e ∷ es) t = elim (put_one t e.key e.value) [
    | none ↦ none
    | some t' ↦ put_all put_one es t'
  ]

  -- `Put` calls `Rehash`, which calls `Put`. The fuel bounds the nesting; `none` means that it ran
  -- out.
  unfoldable pub put_fuel : ℕ → Table K V → K → V → Option (Table K V)
  unfolding over_loaded write put_all entries
  put_fuel zero t k v = if over_loaded t then none else some (write t k v)
  put_fuel (suc f) t k v =
      let grown =
        put_all (put_fuel f) (entries t.buckets)
          (record { buckets = replicate (length t.buckets * 2) []; size = 0 }) in
      elim (over_loaded t) [
        | true ↦ elim grown [ none ↦ none | some t' ↦ some (write t' k v) ]
        | false ↦ some (write t k v)
      ]

  -- `Put`: the nesting never passes the number of entries.
  unfoldable pub put : Table K V → K → V → Option (Table K V)
  unfolding put_fuel
  put t k v = put_fuel t.size t k v

  -- `Rehash(new_bucket_count)`; `none` is the exception for a count of zero.
  unfoldable pub rehash : Table K V → ℕ → Option (Table K V)
  unfolding put_all put_fuel entries
  rehash t n =
      if ltb n 1
      then none
      else put_all (put_fuel t.size) (entries t.buckets)
          (record { buckets = replicate n []; size = 0 })

  -- `Remove`: the new table, and whether an entry was erased.
  unfoldable pub remove : Table K V → K → Table K V × Bool
  unfolding find erase_bucket
  remove t k = elim (find k (bucket_of t k)) [
    | none ↦ (t, false)
    | some _ ↦ (
      record {
        buckets = set t.buckets (index k (length t.buckets)) (erase_bucket k (bucket_of t k));
        size = t.size - 1;
      },
      true,
    )
  ]
