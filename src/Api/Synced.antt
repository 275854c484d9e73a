-- ===== src/Api/Synced.antt =====
-- src/api/api_server.cpp: which blocks `/p2p/sync/block` commits.
use blockchain_demo.Prelude.{
  ℕ, ◌+◌, ◌%◌, ◌^◌, ◌≡◌, ◌≢◌, refl, ap, true, false, Option, none, some, Bytes, codes, bytes_eq,
  bytes_eq_iff, ltb, leb, arith, Bool-cases, Option-cases, inl, inr,
}
use blockchain_demo.Outcome.{Outcome, done, threw}
use blockchain_demo.Encoding.{hash_to_hex}
use blockchain_demo.Encoding.Parse.{stoull}
use blockchain_demo.Crypto.{Sodium}
use blockchain_demo.HashTable.Hashing.{Key}
use blockchain_demo.Json.{Nlohmann}
use blockchain_demo.Merkle.{compute_root}
use blockchain_demo.Smt.{get_root}
use blockchain_demo.Block.{Block}
use blockchain_demo.Mempool.{remove_committed}
use blockchain_demo.Storage.{Sqlite, get_metadata}
use blockchain_demo.Storage.Documents.{get_latest_block}
use blockchain_demo.Executor.{BlockExecutor, execute_for_state_root}
use blockchain_demo.Executor.Commit.{commit_block}
use blockchain_demo.Executor.Root.{commit_block-root}
use blockchain_demo.Consensus.Engine.{is_quarantined}
use blockchain_demo.Api.{
  ApiServer, SyncReply, synced, merkle_mismatch, state_mismatch, hash_mismatch, hash_of_latest,
  has_own_hash, try_quarantine, reply_after, quarantine, at_height, after_commit, check_hash,
  check_state, check_merkle, check_previous, check_height, sync_block,
}

module _ {D : Type 0} ⦃sqlite : Sqlite D⦄ where
  reply_after-not_synced :
      (reply : SyncReply) (o : Outcome (ApiServer D)) (s' : ApiServer D)
      → reply ≢ synced
      → reply_after reply o ≡ (s', synced)
      → ⊥
  unfolding reply_after
  reply_after-not_synced reply (done s) s' ne e = ne (λ i. (e i).1)
  reply_after-not_synced reply (threw s) s' ne e = cc

  quarantine-not_synced :
      (now : ℕ) (node_id reason : Bytes) (reply : SyncReply) (s s' : ApiServer D)
      → reply ≢ synced
      → quarantine now node_id reason reply s ≡ (s', synced)
      → ⊥
  unfolding quarantine
  quarantine-not_synced now node_id reason reply s s' ne e =
      reply_after-not_synced reply (try_quarantine now node_id reason s) s' ne e

  module _ ⦃key : Key Bytes⦄ ⦃sodium : Sodium⦄ (J : Type 0) ⦃json : Nlohmann J⦄ (now : ℕ)
      (block : Block) where
    after_commit-cases :
        (s s' : ApiServer D) (o : Outcome (BlockExecutor D))
        → after_commit now block s o ≡ (s', synced)
        → o ≡ done s'.executor
    unfolding after_commit
    after_commit-cases s s' (threw e) p = cc
    after_commit-cases s s' (done e) p =
        elim (Option-cases (remove_committed block.transactions s.mempool)) [
          | inl stuck ↦ ground arith
          | inr (pool, removed) ↦ ground arith
        ]

    check_hash-cases :
        (s s' : ApiServer D)
        → check_hash J now block s ≡ (s', synced)
        → (has_own_hash block ≡ true) × (commit_block J block s.executor ≡ done s'.executor)
    unfolding check_hash
    check_hash-cases s s' p = elim (Bool-cases (has_own_hash block)) [
      | inl own ↦ (own, after_commit-cases s s' (commit_block J block s.executor) (ground arith))
      | inr other ↦ absurd (
          quarantine-not_synced now block.header.proposer_id
            (at_height (codes "block_hash_mismatch") block) hash_mismatch s s' (λ e. cc)
            (ground arith))
    ]

    check_state-cases :
        (o : Option Bytes) (s s' : ApiServer D)
        → check_state J now block o s ≡ (s', synced)
        → (o ≡ some block.header.state_root)
          × (has_own_hash block ≡ true)
          × (commit_block J block s.executor ≡ done s'.executor)
    unfolding check_state
    check_state-cases none s s' p = cc
    check_state-cases (some root) s s' p =
        elim (Bool-cases (bytes_eq root block.header.state_root)) [
          | inl same ↦
              let (own, committed) = check_hash-cases s s' (ground arith) in
              (ap some ((bytes_eq_iff root block.header.state_root).0 same), own, committed)
          | inr other ↦ absurd (
              quarantine-not_synced now block.header.proposer_id
                (at_height (codes "state_root_mismatch") block) state_mismatch s s' (λ e. cc)
                (ground arith))
        ]

    -- The tests on the content of a block, and its commit.
    pub record IsChecked (s s' : ApiServer D) : Type 0 where
      pub root : Bytes
      pub computed : compute_root block.transactions ≡ some root
      pub merkle : hash_to_hex root ≡ block.header.tx_merkle_root
      pub state :
          (execute_for_state_root block.transactions s.executor).1 ≡ some block.header.state_root
      pub own : has_own_hash block ≡ true
      pub committed :
          commit_block J block (execute_for_state_root block.transactions s.executor).0
          ≡ done s'.executor

    check_merkle-cases :
        (o : Option Bytes) (s s' : ApiServer D)
        → compute_root block.transactions ≡ o
        → check_merkle J now block o s ≡ (s', synced)
        → IsChecked s s'
    unfolding check_merkle
    check_merkle-cases none s s' c p = cc
    check_merkle-cases (some root) s s' c p =
        let ran = execute_for_state_root block.transactions s.executor in
        elim (Bool-cases (bytes_eq (hash_to_hex root) block.header.tx_merkle_root)) [
          | inl same ↦
              let (state, own, committed) =
                check_state-cases ran.1 (record s { executor = ran.0 }) s' (ground arith) in
              record {
                root = root;
                computed = c;
                merkle = (bytes_eq_iff (hash_to_hex root) block.header.tx_merkle_root).0 same;
                state = state;
                own = own;
                committed = committed;
              }
          | inr other ↦ absurd (
              quarantine-not_synced now block.header.proposer_id
                (at_height (codes "merkle_root_mismatch") block) merkle_mismatch s s' (λ e. cc)
                (ground arith))
        ]

    -- A block that the handler has taken.
    pub record IsSynced (s s' : ApiServer D) : Type 0 where
      pub allowed : is_quarantined block.header.proposer_id s.consensus ≡ false
      pub local_height : ℕ
      pub stored :
          stoull (get_metadata s.executor.storage (codes "latest_height") (codes "0"))
          ≡ some local_height
      pub next : block.header.height ≡ local_height + 1
      pub latest : Option Block
      pub read : get_latest_block J s.executor.storage ≡ some latest
      pub linked : block.header.previous_block_hash ≡ hash_of_latest latest
      pub checked : IsChecked s s'
      pub tree : hash_to_hex (get_root s'.executor.smt) ≡ block.header.state_root

    check_previous-cases :
        (o : Option (Option Block)) (s s' : ApiServer D)
        → check_previous J now block o s ≡ (s', synced)
        → (latest : Option Block) × (o ≡ some latest)
          × (block.header.previous_block_hash ≡ hash_of_latest latest)
          × IsChecked s s'
    unfolding check_previous
    check_previous-cases none s s' p = cc
    check_previous-cases (some prev) s s' p =
        elim (Bool-cases (bytes_eq block.header.previous_block_hash (hash_of_latest prev))) [
          | inl same ↦ (
            prev,
            refl,
            (bytes_eq_iff block.header.previous_block_hash (hash_of_latest prev)).0 same,
            check_merkle-cases (compute_root block.transactions) s s' refl (ground arith),
          )
          | inr other ↦ ground arith
        ]

    check_height-cases :
        (o : Option ℕ) (s s' : ApiServer D)
        → check_height J now block o s ≡ (s', synced)
        → (local_height : ℕ) × (o ≡ some local_height)
          × (block.header.height ≡ local_height + 1)
          × (check_previous J now block (get_latest_block J s.executor.storage) s ≡ (s', synced))
    unfolding check_height
    check_height-cases none s s' p = cc
    check_height-cases (some local_height) s s' p =
        elim (Bool-cases (leb block.header.height local_height)) [
          | inl old ↦ ground arith
          | inr new ↦ elim (Bool-cases (ltb ((local_height + 1) % 2 ^ 64) block.header.height)) [
            | inl far ↦ ground arith
            | inr near ↦ (local_height, refl, ground arith, ground arith)
          ]
        ]

    -- A block that `/p2p/sync/block` reports as synced is the next one after the stored height, its
    -- proposer is not quarantined, its previous hash is that of the latest stored block, its Merkle
    -- root, its state root and its hash are those that this node computes itself, it has been
    -- committed, and the tree of the node then has that state root. Commit signatures are not tested.
    pub sync_block-IsSynced :
        (s s' : ApiServer D) → sync_block J now block s ≡ (s', synced) → IsSynced s s'
    unfolding sync_block
    sync_block-IsSynced s s' p =
        elim (Bool-cases (is_quarantined block.header.proposer_id s.consensus)) [
          | inl quarantined ↦ ground arith
          | inr allowed ↦
              let (local_height, stored, next, rest) = check_height-cases _ s s' (ground arith) in
              let (latest, read, linked, checked) = check_previous-cases _ s s' rest in
              let ran = execute_for_state_root block.transactions s.executor in
              record {
                allowed = allowed;
                local_height = local_height;
                stored = stored;
                next = next;
                latest = latest;
                read = read;
                linked = linked;
                checked = checked;
                tree =
                    (commit_block-root J block.transactions block s.executor ran.0 s'.executor
                      block.header.state_root (λ i. (ran.0, checked.state i)) checked.committed).0;
              }
        ]
