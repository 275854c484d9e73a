-- ===== src/HashTable/Growth.antt =====
-- include/datastructure/custom_hash_table.h: `Put` and `Rehash`, which call one another.
use blockchain_demo.Prelude.{
  ℕ, zero, suc, ◌+◌, ◌*◌, ◌≤◌, ◌<◌, ◌≡◌, refl, ap, ◌∙◌, false, List, [], ◌∷◌, Option, none, some,
  arith, length, replicate, All, inl, inr, length-replicate, Bool-cases, ltb,
}
use blockchain_demo.HashTable.Hashing.{Key, equal_sym}
use blockchain_demo.HashTable.Bucket.{Fresh, Distinct, find-eq-none}
use blockchain_demo.HashTable.Layout.{entries-Distinct, find-entries}
use blockchain_demo.HashTable.Refinement.{
  update, Models, write-Models, size-write, length-write, replicate-Models,
}
use blockchain_demo.HashTable.{
  Entry, Table, index, find, get, write, over_loaded, entries, put_all, put_fuel, put, rehash,
}

-- The number of buckets after `f` doublings.
abbrev capacity : ℕ → ℕ → ℕ
capacity zero n = n
capacity (suc f) n = capacity f (n * 2)

capacity_mono : (f m n : ℕ) → m ≤ n → capacity f m ≤ capacity f n
capacity_mono zero m n h = h
capacity_mono (suc f) m n h = capacity_mono f (m * 2) (n * 2) (omega arith)

capacity_double : (f n : ℕ) → capacity f (n * 2) ≡ capacity f n * 2
capacity_double zero n = refl
capacity_double (suc f) n = capacity_double f (n * 2)

le-capacity : (f n : ℕ) → n ≤ capacity f n
le-capacity zero n = omega arith
le-capacity (suc f) n = omega (arith, le-capacity f (n * 2))

-- As many doublings as there are entries are enough.
capacity_enough : (f n : ℕ) → 0 < n → 4 * f ≤ 3 * capacity f n
capacity_enough zero n h = omega arith
capacity_enough (suc f) n h =
    omega (arith, capacity_enough f n h, capacity_double f n, le-capacity f n)

module _ {ℓ} {K V : Type ℓ} ⦃key : Key K⦄ where
  Models-ext :
      (t : Table K V) (f g : K → Option V) → ((q : K) → f q ≡ g q) → Models t f → Models t g
  Models-ext t f g same m = record {
    pos = m.pos;
    placed = m.placed;
    counted = m.counted;
    reads = λ q. m.reads q ∙ same q;
  }

  -- `o` is a table that reads as `f`, has `size` entries and at least `n` buckets.
  pub record Yields (o : Option (Table K V)) (f : K → Option V) (size n : ℕ) : Type ℓ where
    pub table : Table K V
    pub returned : o ≡ some table
    pub models : Models table f
    pub sized : table.size ≡ size
    pub grown : n ≤ length table.buckets

  abbrev pub size_after : Table K V → Option V → ℕ
  size_after t old = elim old [ none ↦ t.size + 1 | some _ ↦ t.size ]

module _ {ℓ} (K V : Type ℓ) ⦃key : Key K⦄ where
  -- `Put` with this fuel returns on every table of a suitable size.
  abbrev PutsWithin : ℕ → Type ℓ
  PutsWithin f =
      (t : Table K V) (g : K → Option V) (k : K) (v : V)
      → Models t g
      → 4 * t.size ≤ 3 * capacity f (length t.buckets)
      → Yields (put_fuel f t k v) (update g k (some v)) (size_after t (g k)) (length t.buckets)

module _ {ℓ} {K V : Type ℓ} ⦃key : Key K⦄ where
  abbrev overlay : List (Entry K V) → (K → Option V) → K → Option V
  overlay es g q = elim (find q es) [ none ↦ g q | some v ↦ some v ]

  overlay-cons :
      (e : Entry K V) (es : List (Entry K V)) (g : K → Option V) (q : K)
      → Fresh e.key es
      → overlay es (update g e.key (some e.value)) q ≡ overlay (e ∷ es) g q
  unfolding find
  overlay-cons e es g q h = ground (arith, find-eq-none e.key es h, key.equal_iff e.key q)

  still_absent :
      (k : K) (v : V) (g : K → Option V) (es : List (Entry K V))
      → Fresh k es
      → All (λ e. g e.key ≡ none) es
      → All (λ e. update g k (some v) e.key ≡ none) es
  still_absent k v g [] h a = tt
  still_absent k v g (e ∷ es) h a =
      (ground (arith, equal_sym k e.key), still_absent k v g es h.1 a.1)

  write-Yields :
      (t : Table K V) (g : K → Option V) (k : K) (v : V)
      → Models t g
      → Yields (some (write t k v)) (update g k (some v)) (size_after t (g k)) (length t.buckets)
  write-Yields t g k v m = record {
    table = write t k v;
    returned = refl;
    models = write-Models t g k v m;
    sized = size-write t k v ∙ ap (size_after t) (m.reads k);
    grown = omega (arith, length-write t k v);
  }

  -- The loops of `Rehash`, when every key is new.
  put_all-Yields :
      (f : ℕ)
      → PutsWithin K V f
      → (es : List (Entry K V)) (t : Table K V) (g : K → Option V) → Models t g
      → Distinct es
      → All (λ e. g e.key ≡ none) es
      → 4 * (t.size + length es) ≤ 3 * capacity f (length t.buckets)
      → Yields (put_all (put_fuel f) es t) (overlay es g) (t.size + length es) (length t.buckets)
  unfolding put_all find
  put_all-Yields f one [] t g m d a room = record {
    table = t;
    returned = refl;
    models = m;
    sized = omega arith;
    grown = omega arith;
  }
  put_all-Yields f one (e ∷ es) t g m d a room =
      let first = one t g e.key e.value m (omega arith) in
      let size : first.table.size ≡ t.size + 1 = ground (arith, first.sized) in
      let rest =
        put_all-Yields f one es first.table (update g e.key (some e.value)) first.models d.1
          (still_absent e.key e.value g es d.0 a.1)
          (omega (
            arith,
            size,
            capacity_mono f (length t.buckets) (length first.table.buckets) first.grown,
          )) in
      record {
        table = rest.table;
        returned = rw (first.returned, put_all) rest.returned;
        models =
            Models-ext rest.table (overlay es (update g e.key (some e.value))) (overlay (e ∷ es) g)
              (λ q. overlay-cons e es g q d.0) rest.models;
        sized = omega (arith, size, rest.sized);
        grown = omega (arith, first.grown, rest.grown);
      }

  All-absent : (es : List (Entry K V)) → All (λ e. ◌≡◌ {A = Option V} none none) es
  All-absent [] = tt
  All-absent (e ∷ es) = (refl, All-absent es)

  -- Putting all the entries of a table into `n` empty buckets keeps every binding.
  rebuild-Yields :
      (f : ℕ)
      → PutsWithin K V f
      → (t : Table K V) (g : K → Option V) (n : ℕ) → Models t g
      → 0 < n
      → 4 * t.size ≤ 3 * capacity f n
      → Yields
          (put_all (put_fuel f) (entries t.buckets) (record { buckets = replicate n []; size = 0 }))
          g
          t.size
          n
  unfolding get
  rebuild-Yields f one t g n m pos room =
      let reads : (q : K) → overlay (entries t.buckets) (λ _. none) q ≡ g q = λ q. ground (
        arith,
        find-entries (length t.buckets) 0 (index q (length t.buckets)) q t.buckets m.placed
            (omega arith),
        m.reads q,
      ) in
      let wide = length-replicate {A = List (Entry K V)} n [] in
      let built =
        put_all-Yields f one (entries t.buckets) (record { buckets = replicate n []; size = 0 })
          (λ _. none) (replicate-Models K V n pos)
          (entries-Distinct (length t.buckets) 0 t.buckets m.placed)
          (All-absent (entries t.buckets)) (rw wide (omega (arith, m.counted))) in
      record {
        table = built.table;
        returned = built.returned;
        models = Models-ext built.table _ g (λ q. reads q) built.models;
        sized = omega (arith, built.sized, m.counted);
        grown = omega (arith, built.grown, wide);
      }

fits {ℓ} :
    {K V : Type ℓ} (t : Table K V) → 4 * t.size ≤ 3 * length t.buckets → over_loaded t ≡ false
unfolding over_loaded
fits t h = ground arith

module _ {ℓ} (K V : Type ℓ) ⦃key : Key K⦄ where
  put_fuel-PutsWithin : (f : ℕ) → PutsWithin K V f
  unfolding put_fuel
  put_fuel-PutsWithin zero t g k v m room = rw (fits t room) (write-Yields t g k v m)
  put_fuel-PutsWithin (suc f) t g k v m room = elim (Bool-cases (over_loaded t)) [
    | inr e ↦ rw (e, put_fuel) (write-Yields t g k v m)
    | inl e ↦
        let built =
          rebuild-Yields f (put_fuel-PutsWithin f) t g (length t.buckets * 2) m
            (omega (arith, m.pos)) room in
        let last = write-Yields built.table g k v built.models in
        rw (e, put_fuel, built.returned)
          (record {
            table = last.table;
            returned = last.returned;
            models = last.models;
            sized = last.sized ∙ ground (arith, built.sized);
            grown = omega (arith, last.grown, built.grown);
          })
  ]

module _ {ℓ} {K V : Type ℓ} ⦃key : Key K⦄ where
  -- `Put` always returns; the new table has the new binding, all the others, one entry more if the
  -- key was new, and no fewer buckets.
  pub put-Yields :
      (t : Table K V) (g : K → Option V) (k : K) (v : V)
      → Models t g
      → Yields (put t k v) (update g k (some v)) (size_after t (g k)) (length t.buckets)
  unfolding put
  put-Yields t g k v m =
      put_fuel-PutsWithin K V t.size t g k v m (capacity_enough t.size (length t.buckets) m.pos)

  -- `Rehash` to any positive number of buckets returns, and keeps every binding and the size.
  rehash-Yields :
      (t : Table K V) (g : K → Option V) (n : ℕ)
      → Models t g
      → 0 < n
      → Yields (rehash t n) g t.size n
  unfolding rehash
  rehash-Yields t g n m pos =
      let some_buckets : ltb n 1 ≡ false = ground arith in
      rw some_buckets (
        rebuild-Yields t.size (put_fuel-PutsWithin K V t.size) t g n m pos
          (capacity_enough t.size n pos))
