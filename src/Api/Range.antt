-- ===== src/Api/Range.antt =====
-- src/api/api_server.cpp: the handler `/p2p/sync/blocks`, which serves a range of blocks.
use blockchain_demo.Prelude.{
  ℕ, zero, suc, ◌+◌, ◌-◌, ◌%◌, ◌^◌, ◌≡◌, ◌≢◌, ◌<◌, ◌≤◌, refl, List, [], ◌∷◌, Option, none, some,
  ltb, leb, leb→le, length, if◌then◌else◌, arith, Bool-cases, inl, inr, true, false,
}
use blockchain_demo.Crypto.{Sodium}
use blockchain_demo.Json.{Nlohmann}
use blockchain_demo.Block.{Block}
use blockchain_demo.Storage.{Sqlite}
use blockchain_demo.Storage.Documents.{get_block_by_height}

-- The blocks of the loop, the exception of a reader, or a loop that has not ended yet.
pub data Collected : Type 0 where
  ended : List Block → Collected
  broken : Collected
  running : Collected

-- The replies of `/p2p/sync/blocks`.
pub data RangeReply : Type 0 where
  from_above_to range_too_large : RangeReply
  answered : Collected → RangeReply

-- `if (block) arr.push_back(...)` before the rest of the loop
unfoldable pub push : Option (Option Block) → Collected → Collected
push none rest = broken
push (some none) rest = rest
push (some (some block)) (ended blocks) = ended (block ∷ blocks)
push (some (some block)) broken = broken
push (some (some block)) running = running

module _ {D : Type 0} ⦃sqlite : Sqlite D⦄ ⦃sodium : Sodium⦄ (J : Type 0) ⦃json : Nlohmann J⦄
    (db : D) where
  -- `for (uint64_t h = from; h <= to; ++h)`, with fuel for its rounds
  unfoldable pub collect : ℕ → ℕ → ℕ → Collected
  unfolding push get_block_by_height
  collect zero h to = running
  collect (suc fuel) h to =
      let rest = collect fuel ((h + 1) % 2 ^ 64) to in
      if leb h to then push (get_block_by_height J db h) rest else ended []

  -- the handler, from its parsed parameters on
  unfoldable pub sync_blocks : ℕ → ℕ → ℕ → RangeReply
  unfolding collect
  sync_blocks fuel from to =
      if ltb to from
      then from_above_to
      else if ltb 100 (to - from)
      then range_too_large
      else answered (collect fuel from to)

-- The loop has ended, with so many blocks at most, or was left by an exception.
abbrev pub EndsWithin : ℕ → Collected → Type 0
EndsWithin n (ended blocks) = length blocks ≤ n
EndsWithin n broken = Unit {0}
EndsWithin n running = ⊥

-- What a reply promises: a range of 101 blocks at most, in a loop that ends.
abbrev pub IsServed : RangeReply → Type 0
IsServed from_above_to = Unit {0}
IsServed range_too_large = Unit {0}
IsServed (answered r) = EndsWithin 101 r

outside_of : (h to : ℕ) → to + 1 ≤ h → leb h to ≡ false
outside_of h to k = ground arith

inside_of : (h : ℕ) → h < 2 ^ 64 → leb h (2 ^ 64 - 1) ≡ true
inside_of h k = ground arith

push-endless :
    (o : Option (Option Block)) (r : Collected) (blocks : List Block)
    → ((more : List Block) → r ≢ ended more)
    → push o r ≢ ended blocks
unfolding push
push-endless none r blocks h e = cc
push-endless (some none) r blocks h e = h blocks e
push-endless (some (some b)) (ended more) blocks h e = h more refl
push-endless (some (some b)) broken blocks h e = cc
push-endless (some (some b)) running blocks h e = cc

push-EndsWithin :
    (n : ℕ) (o : Option (Option Block)) (r : Collected)
    → EndsWithin n r
    → EndsWithin (suc n) (push o r)
unfolding push
push-EndsWithin n none r h = tt
push-EndsWithin n (some none) (ended blocks) h = omega arith
push-EndsWithin n (some none) broken h = tt
push-EndsWithin n (some none) running h = h
push-EndsWithin n (some (some b)) (ended blocks) h = omega arith
push-EndsWithin n (some (some b)) broken h = tt
push-EndsWithin n (some (some b)) running h = h

module _ {D : Type 0} ⦃sqlite : Sqlite D⦄ ⦃sodium : Sodium⦄ (J : Type 0) ⦃json : Nlohmann J⦄
    (db : D) where
  collect-EndsWithin :
      (n h to : ℕ)
      → to + 1 < 2 ^ 64
      → to + 1 ≤ h + n
      → h ≤ to + 1
      → EndsWithin n (collect J db (suc n) h to)
  unfolding collect
  collect-EndsWithin zero h to b k m = rw (outside_of h to (omega arith)) (omega arith)
  collect-EndsWithin (suc n) h to b k m = elim (Bool-cases (leb h to)) [
    | inl inside ↦
        let below : h ≤ to = leb→le h to inside in
        rw inside (
          push-EndsWithin n (get_block_by_height J db h) _
            (collect-EndsWithin n ((h + 1) % 2 ^ 64) to b (omega arith) (omega arith)))
    | inr outside ↦ rw outside (omega arith)
  ]

  -- The loop of `/p2p/sync/blocks` ends within 102 rounds and returns 101 blocks at most, unless a
  -- reader throws, for every range whose upper end is below 2 ^ 64 - 1.
  pub sync_blocks-IsServed :
      (from to : ℕ) → to + 1 < 2 ^ 64 → IsServed (sync_blocks J db 102 from to)
  unfolding sync_blocks
  sync_blocks-IsServed from to b = elim (Bool-cases (ltb to from)) [
    | inl above ↦ rw above tt
    | inr ordered ↦ elim (Bool-cases (ltb 100 (to - from))) [
      | inl large ↦ rw (ordered, large) tt
      | inr small ↦
          rw (ordered, small) (collect-EndsWithin 101 from to b (ground arith) (ground arith))
    ]
  ]

  -- A loop up to the largest number never ends: its counter wraps to 0. However much fuel it gets, it
  -- is still running, or a reader has thrown.
  pub collect-endless :
      (fuel h : ℕ) (blocks : List Block)
      → h < 2 ^ 64
      → collect J db fuel h (2 ^ 64 - 1) ≢ ended blocks
  unfolding collect
  collect-endless zero h blocks b e = cc
  collect-endless (suc fuel) h blocks b e =
      push-endless (get_block_by_height J db h) _ blocks
        (λ more. collect-endless fuel ((h + 1) % 2 ^ 64) more (omega arith))
        (rw (inside_of h b) at e)
