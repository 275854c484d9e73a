-- ===== src/HashTable/Bucket.antt =====
-- include/datastructure/custom_hash_table.h: searches and writes in one bucket.
use blockchain_demo.Prelude.{
  suc, ◌+◌, ◌≡◌, refl, false, List, [], ◌∷◌, ◌++◌, none, some, arith, length, All, if◌then◌else◌,
}
use blockchain_demo.HashTable.Hashing.{Key, ◌===◌, equal_sym}
use blockchain_demo.HashTable.{Entry, find, put_bucket, erase_bucket}

module _ {ℓ} {K V : Type ℓ} ⦃key : Key K⦄ where
  -- The key is under no entry.
  abbrev pub Fresh : K → List (Entry K V) → Type 0
  Fresh k = All (λ e. (e.key === k) ≡ false)

  -- No key occurs twice.
  abbrev pub Distinct : List (Entry K V) → Type 0
  Distinct [] = Unit
  Distinct (e ∷ es) = Fresh e.key es × Distinct es

  pub find-eq-none : (k : K) (es : List (Entry K V)) → Fresh k es → find k es ≡ none
  unfolding find
  find-eq-none k [] h = refl
  find-eq-none k (e ∷ es) h = ground (arith, find-eq-none k es h.1)

  pub find-append :
      (k : K) (xs ys : List (Entry K V))
      → find k (xs ++ ys) ≡ elim (find k xs) [ none ↦ find k ys | some v ↦ some v ]
  unfolding find
  find-append k [] ys = refl
  find-append k (e ∷ xs) ys = ground (arith, find-append k xs ys)

  Fresh-find : (k : K) (es : List (Entry K V)) → find k es ≡ none → Fresh k es
  unfolding find
  Fresh-find k [] h = tt
  Fresh-find k (e ∷ es) h = ground (arith, Fresh-find k es)

  pub find-put_bucket :
      (k q : K) (v : V) (es : List (Entry K V))
      → find q (put_bucket k v es) ≡ (if k === q then some v else find q es)
  unfolding find put_bucket
  find-put_bucket k q v [] = ground arith
  find-put_bucket k q v (e ∷ es) = ground (
    arith,
    find-put_bucket k q v es,
    key.equal_iff e.key k,
    key.equal_iff e.key q,
    key.equal_iff k q,
  )

  pub length-put_bucket :
      (k : K) (v : V) (es : List (Entry K V))
      → length (put_bucket k v es)
        ≡ elim (find k es) [ none ↦ suc (length es) | some _ ↦ length es ]
  unfolding find put_bucket
  length-put_bucket k v [] = refl
  length-put_bucket k v (e ∷ es) = ground (arith, length-put_bucket k v es)

  pub Fresh-put_bucket :
      (k q : K) (v : V) (es : List (Entry K V))
      → (k === q) ≡ false
      → Fresh q es
      → Fresh q (put_bucket k v es)
  unfolding put_bucket
  Fresh-put_bucket k q v [] h f = (h, tt)
  Fresh-put_bucket k q v (e ∷ es) h f = ground (arith, Fresh-put_bucket k q v es h f.1)

  pub Distinct-put_bucket :
      (k : K) (v : V) (es : List (Entry K V)) → Distinct es → Distinct (put_bucket k v es)
  unfolding put_bucket
  Distinct-put_bucket k v [] d = (tt, tt)
  Distinct-put_bucket k v (e ∷ es) d =
      ground
        (arith, Distinct-put_bucket k v es d.1, Fresh-put_bucket k e.key v es, equal_sym k e.key)

  pub find-erase_bucket :
      (k q : K) (es : List (Entry K V))
      → Distinct es
      → find q (erase_bucket k es) ≡ (if k === q then none else find q es)
  unfolding find erase_bucket
  find-erase_bucket k q [] d = ground arith
  find-erase_bucket k q (e ∷ es) d = ground (
    arith,
    find-erase_bucket k q es d.1,
    find-eq-none e.key es d.0,
    key.equal_iff e.key k,
    key.equal_iff e.key q,
    key.equal_iff k q,
  )

  pub length-erase_bucket :
      (k : K) (es : List (Entry K V)) (v : V)
      → find k es ≡ some v
      → length (erase_bucket k es) + 1 ≡ length es
  unfolding find erase_bucket
  length-erase_bucket k [] v h = cc
  length-erase_bucket k (e ∷ es) v h = ground (arith, length-erase_bucket k es v)

  Fresh-erase_bucket : (k q : K) (es : List (Entry K V)) → Fresh q es → Fresh q (erase_bucket k es)
  unfolding erase_bucket
  Fresh-erase_bucket k q [] f = tt
  Fresh-erase_bucket k q (e ∷ es) f = ground (arith, Fresh-erase_bucket k q es f.1)

  pub Distinct-erase_bucket :
      (k : K) (es : List (Entry K V)) → Distinct es → Distinct (erase_bucket k es)
  unfolding erase_bucket
  Distinct-erase_bucket k [] d = tt
  Distinct-erase_bucket k (e ∷ es) d =
      ground (arith, Distinct-erase_bucket k es d.1, Fresh-erase_bucket k e.key es d.0)

  -- A property of the keys is kept by both writes.
  module _ {κ} (P : K → Type κ) where
    pub All-put_bucket :
        (k : K) (v : V) (es : List (Entry K V))
        → P k
        → All (λ e. P e.key) es
        → All (λ e. P e.key) (put_bucket k v es)
    unfolding put_bucket
    All-put_bucket k v [] p a = (p, tt)
    All-put_bucket k v (e ∷ es) p a = ground (arith, All-put_bucket k v es p a.1)

    pub All-erase_bucket :
        (k : K) (es : List (Entry K V))
        → All (λ e. P e.key) es
        → All (λ e. P e.key) (erase_bucket k es)
    unfolding erase_bucket
    All-erase_bucket k [] a = tt
    All-erase_bucket k (e ∷ es) a = ground (arith, All-erase_bucket k es a.1)
