-- ===== src/HashTable/Layout.antt =====
-- include/datastructure/custom_hash_table.h: where the entries of a table stand, and what a write to
-- one bucket does to a well placed vector.
use blockchain_demo.Prelude.{
  ℕ, zero, suc, ◌+◌, ◌<◌, ◌≡◌, ◌≢◌, refl, sym, ◌∙◌, subst, List, [], ◌∷◌, ◌++◌, arith, length,
  get_or, set, replicate, All, All-append, length-append,
}
use blockchain_demo.HashTable.Hashing.{Key}
use blockchain_demo.HashTable.Bucket.{Fresh, Distinct, find-eq-none, find-append}
use blockchain_demo.HashTable.{Entry, find, index, entries}

at_head : (i home : ℕ) → i + 0 ≡ home → i ≡ home
at_head i home h = omega arith

module _ {ℓ} {K V : Type ℓ} ⦃key : Key K⦄ where
  -- From bucket `i` on: every entry stands in the bucket of its hash under `n` buckets, and no
  -- bucket holds a key twice.
  abbrev pub IsPlaced : ℕ → ℕ → List (List (Entry K V)) → Type 0
  IsPlaced n i [] = Unit
  IsPlaced n i (b ∷ bs) = All (λ e. index e.key n ≡ i) b × Distinct b × IsPlaced n (suc i) bs

  pub IsPlaced-get_or :
      (n i j home : ℕ) (bs : List (List (Entry K V)))
      → IsPlaced n i bs
      → i + j ≡ home
      → All (λ e. index e.key n ≡ home) (get_or bs j []) × Distinct (get_or bs j [])
  IsPlaced-get_or n i j home [] p h = (tt, tt)
  IsPlaced-get_or n i zero home (b ∷ bs) p h =
      (subst (λ t. All (λ e. index e.key n ≡ t) b) (at_head i home h) p.0, p.1)
  IsPlaced-get_or n i (suc j) home (b ∷ bs) p h =
      IsPlaced-get_or n (suc i) j home bs p.2 (omega arith)

  pub IsPlaced-set :
      (n i j home : ℕ) (c : List (Entry K V)) (bs : List (List (Entry K V)))
      → All (λ e. index e.key n ≡ home) c
      → Distinct c
      → IsPlaced n i bs
      → i + j ≡ home
      → IsPlaced n i (set bs j c)
  IsPlaced-set n i j home c [] a d p h = tt
  IsPlaced-set n i zero home c (b ∷ bs) a d p h =
      (subst (λ t. All (λ e. index e.key n ≡ t) c) (sym (at_head i home h)) a, d, p.2)
  IsPlaced-set n i (suc j) home c (b ∷ bs) a d p h =
      (p.0, p.1, IsPlaced-set n (suc i) j home c bs a d p.2 (omega arith))

  Fresh-append : (k : K) (xs ys : List (Entry K V)) → Fresh k xs → Fresh k ys → Fresh k (xs ++ ys)
  Fresh-append k xs ys hx hy = All-append _ xs ys hx hy

  Distinct-append :
      (xs ys : List (Entry K V))
      → Distinct xs
      → Distinct ys
      → All (λ e. Fresh e.key ys) xs
      → Distinct (xs ++ ys)
  Distinct-append [] ys hx hy a = hy
  Distinct-append (e ∷ xs) ys hx hy a =
      (Fresh-append e.key xs ys hx.0 a.0, Distinct-append xs ys hx.1 hy a.1)

  -- A key whose bucket is another one is not in a bucket.
  Fresh-other :
      (n i : ℕ) (q : K) (b : List (Entry K V))
      → All (λ e. index e.key n ≡ i) b
      → index q n ≢ i
      → Fresh q b
  Fresh-other n i q [] a h = tt
  Fresh-other n i q (e ∷ b) a h = ground (arith, Fresh-other n i q b a.1 h, key.equal_iff e.key q)

  -- Nor is a key whose bucket comes before all of those given.
  Fresh-entries_before :
      (n i : ℕ) (q : K) (bs : List (List (Entry K V)))
      → IsPlaced n i bs
      → index q n < i
      → Fresh q (entries bs)
  unfolding entries
  Fresh-entries_before n i q [] p h = tt
  Fresh-entries_before n i q (b ∷ bs) p h =
      Fresh-append q b (entries bs) (Fresh-other n i q b p.0 (omega arith))
        (Fresh-entries_before n (suc i) q bs p.2 (omega arith))

  Fresh-All :
      (n i : ℕ) (b : List (Entry K V)) (bs : List (List (Entry K V)))
      → All (λ e. index e.key n ≡ i) b
      → IsPlaced n (suc i) bs
      → All (λ e. Fresh e.key (entries bs)) b
  Fresh-All n i [] bs a p = tt
  Fresh-All n i (e ∷ b) bs a p =
      (Fresh-entries_before n (suc i) e.key bs p (omega arith), Fresh-All n i b bs a.1 p)

  -- A well placed table holds each key once.
  pub entries-Distinct :
      (n i : ℕ) (bs : List (List (Entry K V))) → IsPlaced n i bs → Distinct (entries bs)
  unfolding entries
  entries-Distinct n i [] p = tt
  entries-Distinct n i (b ∷ bs) p =
      Distinct-append b (entries bs) p.1 (entries-Distinct n (suc i) bs p.2)
        (Fresh-All n i b bs p.0 p.2)

  -- A search through all the entries finds what the search in the key's own bucket finds.
  pub find-entries :
      (n i j : ℕ) (q : K) (bs : List (List (Entry K V)))
      → IsPlaced n i bs
      → index q n ≡ i + j
      → find q (entries bs) ≡ find q (get_or bs j [])
  unfolding entries find
  find-entries n i j q [] p h = refl
  find-entries n i zero q (b ∷ bs) p h =
      find-append q b (entries bs)
      ∙ ground (
        arith,
        find-eq-none q (entries bs) (Fresh-entries_before n (suc i) q bs p.2 (omega arith)),
      )
  find-entries n i (suc j) q (b ∷ bs) p h =
      find-append q b (entries bs)
      ∙ ground (
        arith,
        find-eq-none q b (Fresh-other n i q b p.0 (omega arith)),
        find-entries n (suc i) j q bs p.2 (omega arith),
      )

module _ {ℓ} {K V : Type ℓ} where
  pub length-entries-set :
      (bs : List (List (Entry K V))) (j : ℕ) (c : List (Entry K V))
      → j < length bs
      → length (entries (set bs j c)) + length (get_or bs j []) ≡ length (entries bs) + length c
  unfolding entries
  length-entries-set [] j c h = elim h [ ]
  length-entries-set (b ∷ bs) zero c h =
      omega (arith, length-append b (entries bs), length-append c (entries bs))
  length-entries-set (b ∷ bs) (suc j) c h = omega (
    arith,
    length-append b (entries bs),
    length-append b (entries (set bs j c)),
    length-entries-set bs j c (omega arith),
  )

  pub entries-replicate : (m : ℕ) → entries {K = K} {V = V} (replicate m []) ≡ []
  unfolding entries
  entries-replicate zero = refl
  entries-replicate (suc m) = entries-replicate m

module _ {ℓ} (K V : Type ℓ) ⦃key : Key K⦄ where
  pub IsPlaced-replicate : (n i m : ℕ) → IsPlaced {K = K} {V = V} n i (replicate m [])
  IsPlaced-replicate n i zero = tt
  IsPlaced-replicate n i (suc m) = (tt, tt, IsPlaced-replicate n (suc i) m)
