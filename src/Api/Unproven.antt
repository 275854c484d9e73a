-- ===== src/Api/Unproven.antt =====
-- src/api/api_server.cpp: what a COMMIT message makes a node do.
use blockchain_demo.Prelude.{
  none-ne-some, eq_of_some, List, Option, none, some, ℕ, ◌==◌, ◌≡◌, refl, ap, [], some, Bytes,
  codes, bytes_eq, true, bytes_eq_refl, bytes_eq_iff, sym, subst, ◌∙◌, Option-cases, inl, inr,
  arith,
}
use blockchain_demo.Outcome.{Outcome, done, threw, ◌>>=◌, AnyhowHolds}
use blockchain_demo.Crypto.{Sodium, sign_detached_hex}
use blockchain_demo.HashTable.Hashing.{Key}
use blockchain_demo.Json.{Nlohmann}
use blockchain_demo.Block.{Block}
use blockchain_demo.Block.Json.{BlockFits}
use blockchain_demo.Mempool.{remove_committed}
use blockchain_demo.Storage.{Sqlite}
use blockchain_demo.Executor.{
  BlockExecutor, Draft, drafted, executed, execute_all, execute_for_state_root,
  load_smt_from_storage,
}
use blockchain_demo.Encoding.Hex.{hash_to_hex-LacksZero}
use blockchain_demo.Storage.Schema.{LacksZero}
use blockchain_demo.Smt.{get_root}
use blockchain_demo.Transaction.{Transaction}
use blockchain_demo.Executor.Commit.{commit_block}
use blockchain_demo.Executor.Recorded.{IsReadable, commit_block-IsReadable}
use blockchain_demo.Consensus.{ConsensusMessage, Evidence}
use blockchain_demo.Consensus.Engine.{serialize_consensus_message_for_sign}
use blockchain_demo.Api.{
  ApiServer, after_agreed_commit, check_agreed_state, commit_block_with_signatures,
}
use blockchain_demo.Api.Messages.{on_message, handle_commit, sign_commit, reset_server, noted}

-- The block that a node commits: the proposed one, without signatures.
abbrev pub unsigned : Block → Block
unsigned block = record block { commit_signatures = [] }

module _ {D : Type 0} ⦃sqlite : Sqlite D⦄ ⦃key : Key Bytes⦄ ⦃sodium : Sodium⦄ (J : Type 0)
    ⦃json : Nlohmann J⦄ (now : ℕ) where
  -- The root that an execution returns is a hexadecimal text.
  drafted-LacksZero :
      (e : BlockExecutor D) (o : Outcome Draft) (root : Bytes)
      → (drafted e o).1 ≡ some root
      → LacksZero root
  unfolding drafted
  drafted-LacksZero e (threw w) root p = absurd (none-ne-some p)
  drafted-LacksZero e (done w) root p =
      subst LacksZero (eq_of_some p) (hash_to_hex-LacksZero (get_root w.tmp))

  executed-LacksZero :
      (txs : List Transaction) (e : BlockExecutor D) (o : Option (BlockExecutor D)) (root : Bytes)
      → (executed txs e o).1 ≡ some root
      → LacksZero root
  unfolding executed
  executed-LacksZero txs e none root p = absurd (none-ne-some p)
  executed-LacksZero txs e (some e1) root p =
      drafted-LacksZero e1 (execute_all e1.storage txs (record { tmp = e1.smt; changes = [] })) root
        p

  execute_for_state_root-LacksZero :
      (txs : List Transaction) (e : BlockExecutor D) (root : Bytes)
      → (execute_for_state_root txs e).1 ≡ some root
      → LacksZero root
  unfolding execute_for_state_root
  execute_for_state_root-LacksZero txs e root p =
      executed-LacksZero txs e (load_smt_from_storage e) root p

  sign_commit-state :
      (msg : ConsensusMessage) (s : ApiServer D) → (sign_commit now msg (done s)).0 ≡ s
  unfolding sign_commit
  sign_commit-state msg s =
      elim (Option-cases (
        sign_detached_hex (serialize_consensus_message_for_sign msg)
          s.consensus.node_private_key)) [
            | inl stuck ↦ rw (stuck, sign_commit) refl
            | inr (sig, signed) ↦ rw (signed, sign_commit) refl
          ]

  sign_commit-executor :
      (msg : ConsensusMessage) (o : Outcome (ApiServer D)) (e : BlockExecutor D)
      → AnyhowHolds (λ s. s.executor ≡ e) o
      → (sign_commit now msg (o >>= λ s. done (reset_server now s))).0.executor ≡ e
  unfolding sign_commit
  sign_commit-executor msg (threw s) e h = h
  sign_commit-executor msg (done s) e h =
      ap (λ s. s.executor) (sign_commit-state msg (reset_server now s)) ∙ h

  after_agreed_commit-executor :
      (block : Block) (s : ApiServer D) (e : BlockExecutor D)
      → AnyhowHolds (λ s. s.executor ≡ e) (after_agreed_commit J now block [] s (done e))
  unfolding after_agreed_commit
  after_agreed_commit-executor block s e =
      elim (Option-cases (remove_committed block.transactions s.mempool)) [
        | inl stuck ↦ rw (stuck, AnyhowHolds) refl
        | inr (pool, removed) ↦ rw (removed, AnyhowHolds) refl
      ]

  commit-executor :
      (block : Block) (s : ApiServer D) (e : BlockExecutor D)
      → (execute_for_state_root block.transactions s.executor).1 ≡ some block.header.state_root
      → commit_block J (unsigned block) (execute_for_state_root block.transactions s.executor).0
        ≡ done e
      → AnyhowHolds (λ s. s.executor ≡ e) (commit_block_with_signatures J now block [] s)
  unfolding commit_block_with_signatures check_agreed_state
  commit-executor block s e root committed =
      rw (root, bytes_eq_refl block.header.state_root, committed)
        (after_agreed_commit-executor block
          (record s { executor = (execute_for_state_root block.transactions s.executor).0 }) e)

  on_message-commit :
      (msg : ConsensusMessage) (dump : Evidence → Bytes) (s : ApiServer D)
      → msg.type ≡ codes "COMMIT"
      → on_message now msg J dump s ≡ handle_commit now msg J dump (noted now msg s)
  unfolding on_message bytes_eq
  on_message-commit msg dump s typed = rw typed refl

  -- A COMMIT with the height and the hash of the proposed block makes the node commit that block, if
  -- its state root is right and nothing throws: afterwards the height, the state root, the block and
  -- the heights of its transactions are read back, if its numbers fit their types. Nothing is asked of
  -- the sender, of a signature or of the votes counted before.
  pub on_message-IsReadable :
      (msg : ConsensusMessage) (dump : Evidence → Bytes) (s : ApiServer D) (e : BlockExecutor D)
      → msg.type ≡ codes "COMMIT"
      → s.consensus.current_round.proposed_block.header.height ≡ msg.height
      → s.consensus.current_round.proposed_block.header.block_hash ≡ msg.block_hash
      → BlockFits (unsigned s.consensus.current_round.proposed_block)
      → (execute_for_state_root s.consensus.current_round.proposed_block.transactions s.executor).1
        ≡ some s.consensus.current_round.proposed_block.header.state_root
      → commit_block J
          (unsigned s.consensus.current_round.proposed_block)
          (execute_for_state_root s.consensus.current_round.proposed_block.transactions
            s.executor).0
        ≡ done e
      → IsReadable J
          (unsigned s.consensus.current_round.proposed_block)
          (on_message now msg J dump s).0.executor.storage
  unfolding handle_commit
  on_message-IsReadable msg dump s e typed height hash fits root committed =
      let block = s.consensus.current_round.proposed_block in
      let same : block.header.height == msg.height ≡ true = ground arith in
      let own : bytes_eq block.header.block_hash msg.block_hash ≡ true =
        (bytes_eq_iff block.header.block_hash msg.block_hash).1 hash in
      let kept : (handle_commit now msg J dump (noted now msg s)).0.executor ≡ e =
        rw (same, own)
          (sign_commit-executor msg _ e
            (commit-executor block (noted now msg s) e root committed)) in
      subst (λ x. IsReadable J (unsigned block) x.executor.storage)
        (sym (ap (λ r. r.0) (on_message-commit msg dump s typed)))
        (subst (λ x. IsReadable J (unsigned block) x.storage) (sym kept)
          (commit_block-IsReadable J (unsigned block)
            (execute_for_state_root block.transactions s.executor).0 e fits
            (execute_for_state_root-LacksZero block.transactions s.executor block.header.state_root
              root)
            committed))
