-- ===== src/HashTable/Refinement.antt =====
-- include/datastructure/custom_hash_table.h: the table as a partial function from keys to values.
use blockchain_demo.Prelude.{
  ℕ, ◌+◌, ◌-◌, ◌<◌, ◌≡◌, refl, ◌∙◌, ap, true, List, [], Option, none, some, arith, length, get_or,
  set, replicate, All, if◌then◌else◌, Option-cases, inl, inr, length-set, get_or-set, Bool-cases,
  get_or-replicate, length-replicate, ◌==◌, ==_iff,
}
use blockchain_demo.HashTable.Hashing.{Key, ◌===◌}
use blockchain_demo.HashTable.Bucket.{
  Distinct, find-put_bucket, length-put_bucket, Distinct-put_bucket, All-put_bucket,
  find-erase_bucket, length-erase_bucket, Distinct-erase_bucket, All-erase_bucket,
}
use blockchain_demo.HashTable.Layout.{
  IsPlaced, IsPlaced-get_or, IsPlaced-set, IsPlaced-replicate, length-entries-set,
  entries-replicate,
}
use blockchain_demo.HashTable.{
  Entry, Table, new, index, find, put_bucket, erase_bucket, bucket_of, get, contains, write, remove,
  entries,
}

index-lt {ℓ} : {K : Type ℓ} ⦃key : Key K⦄ (k : K) (n : ℕ) → 0 < n → index k n < n
unfolding index
index-lt k n h = omega arith

module _ {ℓ} {K V : Type ℓ} ⦃key : Key K⦄ where
  abbrev pub update : (K → Option V) → K → Option V → K → Option V
  update f k v q = if k === q then v else f q

  -- The table is well formed and holds exactly the function `f`.
  pub record Models (t : Table K V) (f : K → Option V) : Type ℓ where
    pub pos : 0 < length t.buckets
    pub placed : IsPlaced (length t.buckets) 0 t.buckets
    pub counted : t.size ≡ length (entries t.buckets)
    pub reads : (q : K) → get t q ≡ f q

  -- Replacing the bucket of `k` by one that reads as the old one except at `k`.
  abbrev put_back : Table K V → K → List (Entry K V) → ℕ → Table K V
  put_back t k c size = record {
    buckets = set t.buckets (index k (length t.buckets)) c;
    size = size;
  }

  same_home :
      (k q : K) (v : Option V) (c : List (Entry K V)) (i j : ℕ) (bs : List (List (Entry K V)))
      → find q c ≡ (if k === q then v else find q (get_or bs i []))
      → ((k === q) ≡ true → i ≡ j)
      → find q (if i == j then c else get_or bs j [])
        ≡ (if k === q then v else find q (get_or bs j []))
  same_home k q v c i j bs reads same = elim (Bool-cases (i == j)) [
    | inl e ↦ rw (e, ← (==_iff i j).0 e) reads
    | inr e ↦ rw e (ground (arith, same))
  ]

  get-put_back :
      (t : Table K V) (k q : K) (v : Option V) (c : List (Entry K V)) (size : ℕ)
      → 0 < length t.buckets
      → find q c ≡ (if k === q then v else find q (bucket_of t k))
      → get (put_back t k c size) q ≡ (if k === q then v else get t q)
  unfolding get
  get-put_back t k q v c size pos reads =
      rw (length-set, get_or-set t.buckets _ _ c [] (index-lt k (length t.buckets) pos))
        (same_home k q v c (index k (length t.buckets)) (index q (length t.buckets)) t.buckets reads
          (λ e. ap (λ j. index j (length t.buckets)) ((key.equal_iff k q).0 e)))

  put_back-Models :
      (t : Table K V) (f : K → Option V) (k : K) (v : Option V) (c : List (Entry K V)) (size : ℕ)
      → Models t f
      → All (λ e. index e.key (length t.buckets) ≡ index k (length t.buckets)) c
      → Distinct c
      → size + length (bucket_of t k) ≡ t.size + length c
      → ((q : K) → find q c ≡ (if k === q then v else find q (bucket_of t k)))
      → Models (put_back t k c size) (update f k v)
  put_back-Models t f k v c size m placed distinct counted reads = record {
    pos = omega (arith, length-set t.buckets (index k (length t.buckets)) c, m.pos);
    placed = rw length-set (
        IsPlaced-set (length t.buckets) 0 (index k (length t.buckets)) _ c t.buckets placed distinct
          m.placed (omega arith));
    counted = omega (
      arith,
      m.counted,
      counted,
      length-entries-set t.buckets (index k (length t.buckets)) c
          (index-lt k (length t.buckets) m.pos),
    );
    reads = λ q. get-put_back t k q v c size m.pos (reads q) ∙ ground (arith, m.reads q);
  }

  -- The bucket of a key in a well formed table.
  home_of :
      (t : Table K V) (f : K → Option V) (k : K)
      → Models t f
      → All (λ e. index e.key (length t.buckets) ≡ index k (length t.buckets)) (bucket_of t k)
        × Distinct (bucket_of t k)
  home_of t f k m =
      IsPlaced-get_or (length t.buckets) 0 (index k (length t.buckets)) _ t.buckets m.placed
        (omega arith)

  -- A write adds the binding and leaves every other one.
  pub write-Models :
      (t : Table K V) (f : K → Option V) (k : K) (v : V)
      → Models t f
      → Models (write t k v) (update f k (some v))
  unfolding write
  write-Models t f k v m =
      let home = home_of t f k m in
      put_back-Models t f k (some v) (put_bucket k v (bucket_of t k)) _ m
        (All-put_bucket (λ q. index q (length t.buckets) ≡ index k (length t.buckets)) k v
          (bucket_of t k) refl home.0)
        (Distinct-put_bucket k v (bucket_of t k) home.1)
        (ground (arith, length-put_bucket k v (bucket_of t k)))
        (λ q. find-put_bucket k q v (bucket_of t k))

  pub size-write :
      (t : Table K V) (k : K) (v : V)
      → (write t k v).size ≡ elim (get t k) [ none ↦ t.size + 1 | some _ ↦ t.size ]
  unfolding write get
  size-write t k v = refl

  pub length-write :
      (t : Table K V) (k : K) (v : V) → length (write t k v).buckets ≡ length t.buckets
  unfolding write
  length-write t k v = length-set t.buckets _ _

  erase-Models :
      (t : Table K V) (f : K → Option V) (k : K) (v : V)
      → find k (bucket_of t k) ≡ some v
      → Models t f
      → Models (put_back t k (erase_bucket k (bucket_of t k)) (t.size - 1)) (update f k none)
        × (t.size - 1 + 1 ≡ t.size)
  erase-Models t f k v e m =
      let home = home_of t f k m in
      let shorter = length-erase_bucket k (bucket_of t k) v e in
      let fewer =
        length-entries-set t.buckets (index k (length t.buckets)) (erase_bucket k (bucket_of t k))
          (index-lt k (length t.buckets) m.pos) in
      (
        put_back-Models t f k none (erase_bucket k (bucket_of t k)) (t.size - 1) m
            (All-erase_bucket (λ q. index q (length t.buckets) ≡ index k (length t.buckets)) k
              (bucket_of t k) home.0)
            (Distinct-erase_bucket k (bucket_of t k) home.1) (omega (arith, m.counted))
            (λ q. find-erase_bucket k q (bucket_of t k) home.1),
        omega (arith, m.counted),
      )

  absent-Models :
      (t : Table K V) (f : K → Option V) (k : K)
      → get t k ≡ none
      → Models t f
      → Models t (update f k none)
  absent-Models t f k e m = record {
    pos = m.pos;
    placed = m.placed;
    counted = m.counted;
    reads = λ q. ground (arith, m.reads q, m.reads k, key.equal_iff k q);
  }

  -- `Remove` clears the binding of its key alone, lowers `size_` by one if there was one, and
  -- returns whether there was.
  pub remove-Models :
      (t : Table K V) (f : K → Option V) (k : K)
      → Models t f
      → Models (remove t k).0 (update f k none)
        × ((remove t k).1 ≡ contains t k)
        × ((remove t k).0.size + (if contains t k then 1 else 0) ≡ t.size)
  unfolding remove contains get
  remove-Models t f k m = elim (Option-cases (find k (bucket_of t k))) [
    | inl e ↦ rw (e, remove, contains, get) (absent-Models t f k e m, refl, omega arith)
    | inr (v, e) ↦
        let (erased, size) = erase-Models t f k v e m in
        rw (e, remove, contains, get) (erased, refl, size)
  ]

module _ {ℓ} (K V : Type ℓ) ⦃key : Key K⦄ where
  pub replicate-Models :
      (n : ℕ)
      → 0 < n
      → Models {K = K} {V = V} (record { buckets = replicate n []; size = 0 }) (λ _. none)
  unfolding get find
  replicate-Models n h = record {
    pos = omega (arith, length-replicate {A = List (Entry K V)} n []);
    placed = rw length-replicate (IsPlaced-replicate K V n 0 n);
    counted = rw entries-replicate;
    reads = λ q. rw get_or-replicate;
  }

  -- A new table is empty, whatever number of buckets was asked for.
  pub new-Models : (n : ℕ) → Models {K = K} {V = V} (new n) (λ _. none)
  unfolding new
  new-Models n = replicate-Models _ (ground arith)
