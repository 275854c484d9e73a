-- ===== src/Executor/Root.antt =====
-- src/block/block_executor.cpp: the state root that `ExecuteForStateRoot` returns is that of the tree
-- that `CommitBlock` leaves.
use blockchain_demo.Prelude.{
  ◌≡◌, refl, sym, ◌∙◌, ap, List, [], ◌∷◌, ◌++◌, Option, none, some, Bytes, true, false, Bool,
  if◌then◌else◌, if_cases, option_cases, eq_of_some, leb, ltb, bytes_eq, subst, none-ne-some,
}
use blockchain_demo.Outcome.{
  Outcome, done, threw, AtEnd, IfSome, AtEnd-done, AtEnd-threw, AtEnd-bind, AtEnd-attempt,
  IfSome-none, IfSome-if, IfSome-some, of_AtEnd,
}
use blockchain_demo.Encoding.{hash_to_hex}
use blockchain_demo.Crypto.{Sodium}
use blockchain_demo.Json.{Nlohmann}
use blockchain_demo.Transaction.{Transaction, verify_transaction_signature}
use blockchain_demo.Account.{AccountState}
use blockchain_demo.Block.{Block}
use blockchain_demo.Smt.{Leaf, update, get_root}
use blockchain_demo.Storage.{Sqlite, begin, get_all_smt_leaves}
use blockchain_demo.Executor.{
  PendingChange, BlockExecutor, Draft, is_transfer, is_store_data, account_or_new, stage,
  stage_transfer, load_smt_from_storage, load_all, execute_transfer, execute_store_data, if_valid,
  execute_typed, execute_transaction, execute_all, drafted, executed, execute_for_state_root,
}
use blockchain_demo.Executor.Commit.{
  lift_outcome, lift_option, undo, apply_changes, commit_body, begin_block, loaded_block,
  commit_block,
}

module _ ⦃sodium : Sodium⦄ where
  -- The tree after the changes.
  abbrev pub changed : List PendingChange → List Leaf → List Leaf
  changed [] smt = smt
  changed (c ∷ changes) smt = changed changes (update c.key c.value smt)

  changed-snoc :
      (changes : List PendingChange) (c : PendingChange) (smt : List Leaf)
      → changed (changes ++ (c ∷ [])) smt ≡ update c.key c.value (changed changes smt)
  changed-snoc [] c smt = refl
  changed-snoc (d ∷ changes) c smt = changed-snoc changes c (update d.key d.value smt)

  -- The copy of the tree is the tree with the changes so far.
  pub record Follows (smt : List Leaf) (w : Draft) : Type 0 where
    pub follows : w.tmp ≡ changed w.changes smt

  module _ (smt : List Leaf) where
    stage-Follows : (state : AccountState) (w : Draft) → Follows smt w → Follows smt (stage state w)
    unfolding stage
    stage-Follows state w h = record {
      follows = ap (update _ _) h.follows ∙ sym (changed-snoc w.changes _ smt);
    }

    if_valid-Follows :
        (v : Option Bool) (o : Option Draft)
        → IfSome (Follows smt) o
        → IfSome (Follows smt) (if_valid v o)
    if_valid-Follows none o h = IfSome-none
    if_valid-Follows (some false) o h = IfSome-none
    if_valid-Follows (some true) o h = h

    module _ {D : Type 0} ⦃sqlite : Sqlite D⦄ where
      stage_transfer-Follows :
          (db : D) (tx : Transaction) (w : Draft)
          → Follows smt w
          → Follows smt (stage_transfer db tx w)
      unfolding stage_transfer
      stage_transfer-Follows db tx w h =
          if_cases (Follows smt) (bytes_eq tx.from tx.to) _ _ (λ _. stage-Follows _ w h)
            (λ _. stage-Follows _ _ (stage-Follows _ w h))

      execute_transfer-Follows :
          (db : D) (tx : Transaction) (w : Draft)
          → Follows smt w
          → IfSome (Follows smt) (execute_transfer db tx w)
      unfolding execute_transfer
      execute_transfer-Follows db tx w h =
          let from = account_or_new db tx.from in
          let staged = some (stage_transfer db tx w) in
          IfSome-if (leb tx.nonce from.nonce) none
            (if ltb from.balance tx.amount then none else staged) (λ _. IfSome-none)
            (λ _.
              IfSome-if (ltb from.balance tx.amount) none staged (λ _. IfSome-none)
                (λ _. IfSome-some (stage_transfer-Follows db tx w h)))

      execute_store_data-Follows :
          (db : D) (tx : Transaction) (w : Draft)
          → Follows smt w
          → IfSome (Follows smt) (execute_store_data db tx w)
      unfolding execute_store_data
      execute_store_data-Follows db tx w h =
          let from = account_or_new db tx.from in
          IfSome-if (leb tx.nonce from.nonce) none
            (some (stage (record from { nonce = tx.nonce }) w)) (λ _. IfSome-none)
            (λ _. IfSome-some (stage-Follows _ w h))

      execute_typed-Follows :
          (db : D) (tx : Transaction) (w : Draft)
          → Follows smt w
          → IfSome (Follows smt) (execute_typed db tx w)
      unfolding execute_typed
      execute_typed-Follows db tx w h =
          IfSome-if (is_transfer tx) (execute_transfer db tx w)
            (if is_store_data tx then execute_store_data db tx w else none)
            (λ _. execute_transfer-Follows db tx w h)
            (λ _.
              IfSome-if (is_store_data tx) (execute_store_data db tx w) none
                (λ _. execute_store_data-Follows db tx w h) (λ _. IfSome-none))

      -- One round either throws or keeps to the changes.
      execute_transaction-Follows :
          (db : D) (tx : Transaction) (w : Draft)
          → Follows smt w
          → IfSome (Follows smt) (execute_transaction db tx w)
      unfolding execute_transaction
      execute_transaction-Follows db tx w h =
          if_valid-Follows (verify_transaction_signature tx) _ (execute_typed-Follows db tx w h)

      execute_all-Follows :
          (db : D) (txs : List Transaction) (w : Draft)
          → Follows smt w
          → AtEnd (Follows smt) (execute_all db txs w)
      unfolding execute_all
      execute_all-Follows db [] w h = AtEnd-done h
      execute_all-Follows db (tx ∷ txs) w h =
          AtEnd-bind _ _ (λ w' h'. execute_all-Follows db txs w' h')
            (AtEnd-attempt w _ (execute_transaction-Follows db tx w h))

module _ {D : Type 0} ⦃sqlite : Sqlite D⦄ where
  -- The memory of an executor: its tree and its pending changes.
  pub record Remembers (smt : List Leaf) (changes : List PendingChange) (e : BlockExecutor D)
      : Type 0 where
    pub tree : e.smt ≡ smt
    pub pending : e.pending_changes ≡ changes

  lift_outcome-Remembers :
      {smt : List Leaf} {changes : List PendingChange} (e : BlockExecutor D) (m : Outcome D)
      → Remembers smt changes e
      → AtEnd (Remembers smt changes) (lift_outcome e m)
  lift_outcome-Remembers e (done db) h = AtEnd-done (record { tree = h.tree; pending = h.pending })
  lift_outcome-Remembers e (threw db) h = AtEnd-threw

  lift_option-Remembers :
      {smt : List Leaf} {changes : List PendingChange} (e : BlockExecutor D) (o : Option D)
      → Remembers smt changes e
      → IfSome (Remembers smt changes) (lift_option e o)
  lift_option-Remembers e none h = IfSome-none
  lift_option-Remembers e (some db) h = IfSome-some (record { tree = h.tree; pending = h.pending })

  module _ ⦃sodium : Sodium⦄ where
    apply_changes-tree :
        {smt : List Leaf} {kept : List PendingChange} (changes : List PendingChange)
        (e : BlockExecutor D)
        → Remembers smt kept e
        → AtEnd (Remembers (changed changes smt) kept) (apply_changes changes e)
    unfolding apply_changes
    apply_changes-tree [] e h = AtEnd-done h
    apply_changes-tree {smt} {kept} (c ∷ changes) e h =
        let e1 = record e { smt = update c.key c.value e.smt } in
        AtEnd-bind _ _
          (λ e2 h2. apply_changes-tree {smt = update c.key c.value smt} {kept = kept} changes e2 h2)
          (AtEnd-attempt e1 _ (
            lift_option-Remembers e1 _
              (record { tree = ap (update c.key c.value) h.tree; pending = h.pending })))

    module _ (J : Type 0) ⦃json : Nlohmann J⦄ where
      commit_body-Remembers :
          (block : Block) (e : BlockExecutor D)
          → AtEnd (Remembers (changed e.pending_changes e.smt) []) (commit_body J block e)
      unfolding commit_body
      commit_body-Remembers block e =
          let here : Remembers e.smt e.pending_changes e = record { tree = refl; pending = refl } in
          AtEnd-bind _ _
            (λ e1 h1.
              lift_outcome-Remembers (record e1 { pending_changes = [] }) _
                (record { tree = h1.tree; pending = refl }))
            (AtEnd-bind _ _ (λ e1 h1. apply_changes-tree e.pending_changes e1 h1)
              (lift_outcome-Remembers e _ here))

      undo-AtEnd :
          (P : BlockExecutor D → Type 0) (m : Outcome (BlockExecutor D))
          → AtEnd P m
          → AtEnd P (undo m)
      unfolding undo
      undo-AtEnd P (done e) h = h
      undo-AtEnd P (threw e) h = AtEnd-threw

      begin_block-Remembers :
          (block : Block) (e : BlockExecutor D) (o : Option D)
          → AtEnd (Remembers (changed e.pending_changes e.smt) []) (begin_block J block e o)
      unfolding begin_block
      begin_block-Remembers block e none = AtEnd-threw
      begin_block-Remembers block e (some db) =
          undo-AtEnd _ _ (commit_body-Remembers block (record e { storage = db }))

      pub commit_block-Remembers :
          (block : Block) (e e1 : BlockExecutor D)
          → load_smt_from_storage e ≡ some e1
          → AtEnd (Remembers (changed e1.pending_changes e1.smt) []) (commit_block J block e)
      unfolding commit_block
      commit_block-Remembers block e e1 l =
          subst
            (λ o.
              AtEnd (Remembers (changed e1.pending_changes e1.smt) []) (loaded_block J block e o))
            (sym l) (unfold loaded_block in begin_block-Remembers block e1 (begin e1.storage))

      load_smt-loaded :
          (e : BlockExecutor D)
          → IfSome (λ (e1 : BlockExecutor D). e1.smt_loaded ≡ true) (load_smt_from_storage e)
      unfolding load_smt_from_storage
      load_smt-loaded e =
          if_cases P e.smt_loaded _ _ (λ loaded. IfSome-some loaded)
            (λ _.
              option_cases P (get_all_smt_leaves e.storage) none
                (λ rows. some (record e { smt = load_all rows e.smt; smt_loaded = true }))
                (λ _. IfSome-none) (λ rows _. IfSome-some refl))
        where
          P : Option (BlockExecutor D) → Type 0
          P o = IfSome (λ (e1 : BlockExecutor D). e1.smt_loaded ≡ true) o

      load_smt-again :
          (e : BlockExecutor D) → e.smt_loaded ≡ true → load_smt_from_storage e ≡ some e
      unfolding load_smt_from_storage
      load_smt-again e loaded = rw loaded

      -- Every successful commit leaves a tree with this root, and nothing pending.
      abbrev pub CommitsTo : Bytes → BlockExecutor D → Type 0
      CommitsTo root e1 =
          (block : Block) (e2 : BlockExecutor D)
          → commit_block J block e1 ≡ done e2
          → (hash_to_hex (get_root e2.smt) ≡ root) × (e2.pending_changes ≡ [])

      record_changes-CommitsTo :
          (e0 : BlockExecutor D) (w : Draft)
          → e0.smt_loaded ≡ true
          → Follows e0.smt w
          → CommitsTo (hash_to_hex (get_root w.tmp)) (record e0 { pending_changes = w.changes })
      record_changes-CommitsTo e0 w l h block e2 c =
          let e1 = record e0 { pending_changes = w.changes } in
          let kept = of_AtEnd _ (commit_block-Remembers block e1 e1 (load_smt-again e1 l)) c in
          (ap (λ s. hash_to_hex (get_root s)) (kept.tree ∙ sym h.follows), kept.pending)

      drafted-CommitsTo :
          (e0 e1 : BlockExecutor D) (m : Outcome Draft) (root : Bytes)
          → e0.smt_loaded ≡ true
          → AtEnd (Follows e0.smt) m
          → drafted e0 m ≡ (e1, some root)
          → CommitsTo root e1
      unfolding drafted
      drafted-CommitsTo e0 e1 (threw w) root l h p =
          absurd (none-ne-some (ap (λ (r : BlockExecutor D × Option Bytes). r.1) p))
      drafted-CommitsTo e0 e1 (done w) root l h p =
          subst (λ (r : Bytes). CommitsTo r e1)
            (eq_of_some (ap (λ (r : BlockExecutor D × Option Bytes). r.1) p))
            (subst (CommitsTo (hash_to_hex (get_root w.tmp)))
              (ap (λ (r : BlockExecutor D × Option Bytes). r.0) p)
              (record_changes-CommitsTo e0 w l (of_AtEnd (done w) h refl)))

      executed-CommitsTo :
          (txs : List Transaction) (e e1 : BlockExecutor D) (o : Option (BlockExecutor D))
          (root : Bytes)
          → load_smt_from_storage e ≡ o
          → executed txs e o ≡ (e1, some root)
          → CommitsTo root e1
      unfolding executed
      executed-CommitsTo txs e e1 none root l p =
          absurd (none-ne-some (ap (λ (r : BlockExecutor D × Option Bytes). r.1) p))
      executed-CommitsTo txs e e1 (some e0) root l p =
          let w : Draft = record { tmp = e0.smt; changes = [] } in
          drafted-CommitsTo e0 e1 (execute_all e0.storage txs w) root
            ((load_smt-loaded e).given e0 l)
            (execute_all-Follows e0.smt e0.storage txs w (record { follows = refl })) p

      -- The root that `ExecuteForStateRoot` returns is the root of the tree that the next `CommitBlock`
      -- leaves if it succeeds, whatever its block; and then no change is pending.
      pub commit_block-root :
          (txs : List Transaction) (block : Block) (e e1 e2 : BlockExecutor D) (root : Bytes)
          → execute_for_state_root txs e ≡ (e1, some root)
          → commit_block J block e1 ≡ done e2
          → (hash_to_hex (get_root e2.smt) ≡ root) × (e2.pending_changes ≡ [])
      unfolding execute_for_state_root
      commit_block-root txs block e e1 e2 root p =
          executed-CommitsTo txs e e1 (load_smt_from_storage e) root refl p block e2
