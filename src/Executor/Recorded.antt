-- ===== src/Executor/Recorded.antt =====
-- src/block/block_executor.cpp: what a committed block has left in the tables.
use blockchain_demo.Prelude.{
  ◌≡◌, refl, sym, ◌∙◌, ap, subst, List, [], ◌∷◌, Option, none, some, Bytes, codes, bytes_eq_refl,
  ==_refl, All, eq_of_some,
}
use blockchain_demo.Outcome.{
  Outcome, done, threw, AtEnd, IfSome, AtEnd-done, AtEnd-threw, AtEnd-bind, AtEnd-attempt,
  IfSome-none, IfSome-some, of_AtEnd,
}
use blockchain_demo.Encoding.{decimal}
use blockchain_demo.Encoding.Fields.{decimal-LacksZero}
use blockchain_demo.Crypto.{Sodium}
use blockchain_demo.Json.{Nlohmann}
use blockchain_demo.Transaction.{Transaction}
use blockchain_demo.Block.{Block}
use blockchain_demo.Block.Json.{BlockFits, stored_form}
use blockchain_demo.Smt.{update}
use blockchain_demo.Storage.{
  Sqlite, put_state_root, put_metadata, commit, get_metadata, get_state_root,
  get_transaction_block_height,
}
use blockchain_demo.Storage.Schema.{
  Tables, LacksZero, c_str, c_str-LacksZero, effect, put_text, put_number,
}
use blockchain_demo.Storage.Documents.{get_block_by_height, read_block, read_block-block_row}
use blockchain_demo.Executor.{PendingChange, BlockExecutor}
use blockchain_demo.Executor.Written.{
  IsWritten, Holds, ids_of, All-ids_after, kept, put_node-Holds, write_block-Holds,
}
use blockchain_demo.Executor.Commit.{
  commit_block-AtEnd, write_height, lift_outcome, lift_option, apply_changes, commit_body,
  commit_block,
}

module _ (J : Type 0) ⦃json : Nlohmann J⦄ (block : Block) {D : Type 0} ⦃sqlite : Sqlite D⦄ where
  -- Until the height is written: the state root is.
  record HasRoot (db : D) : Type 0 where
    written : IsWritten J block (ids_of block) (sqlite.contents db)
    root :
        (sqlite.contents db).state_roots block.header.height ≡ some (c_str block.header.state_root)

  -- The tables of a committed block.
  pub record IsRecorded (db : D) : Type 0 where
    pub written : IsWritten J block (ids_of block) (sqlite.contents db)
    pub root :
        (sqlite.contents db).state_roots block.header.height ≡ some (c_str block.header.state_root)
    pub latest :
        (sqlite.contents db).node_metadata (codes "latest_height")
        ≡ some (c_str (decimal block.header.height))

  put_state_root-HasRoot :
      (db : D)
      → Holds J block (ids_of block) db
      → IfSome HasRoot (put_state_root db block.header.height block.header.state_root)
  unfolding put_state_root effect
  put_state_root-HasRoot db h = record {
    given = λ db' p.
        let t : Tables = record (sqlite.contents db) {
          state_roots =
              put_number block.header.height (c_str block.header.state_root)
                (sqlite.contents db).state_roots;
        } in
        let e : t ≡ sqlite.contents db' = eq_of_some (sqlite.contents-step _ db db' p) in
        record {
          written =
              subst (IsWritten J block (ids_of block)) e
                (kept J block (ids_of block) db h t refl refl);
          root =
              ap (λ (u : Tables). u.state_roots block.header.height) (sym e)
              ∙ rw (==_refl block.header.height) refl;
        };
  }

  put_metadata-IsRecorded :
      (db : D)
      → HasRoot db
      → IfSome IsRecorded (put_metadata db (codes "latest_height") (decimal block.header.height))
  unfolding effect
  put_metadata-IsRecorded db h = record {
    given = λ db' p.
        let latest = c_str (decimal block.header.height) in
        let t : Tables = record (sqlite.contents db) {
          node_metadata =
              put_text (codes "latest_height") latest (sqlite.contents db).node_metadata;
        } in
        let e : t ≡ sqlite.contents db' = eq_of_some (sqlite.contents-step _ db db' p) in
        record {
          written =
              subst (IsWritten J block (ids_of block)) e
                (kept J block (ids_of block) db (record { written = h.written }) t refl refl);
          root = ap (λ (u : Tables). u.state_roots block.header.height) (sym e) ∙ h.root;
          latest =
              ap (λ (u : Tables). u.node_metadata (codes "latest_height")) (sym e)
              ∙ rw (bytes_eq_refl (codes "latest_height")) refl;
        };
  }

  moved-IsRecorded :
      (db db' : D) → sqlite.contents db' ≡ sqlite.contents db → IsRecorded db → IsRecorded db'
  moved-IsRecorded db db' e h = record {
    written = subst (IsWritten J block (ids_of block)) (sym e) h.written;
    root = ap (λ (u : Tables). u.state_roots block.header.height) e ∙ h.root;
    latest = ap (λ (u : Tables). u.node_metadata (codes "latest_height")) e ∙ h.latest;
  }

  write_height-IsRecorded :
      (db : D) → Holds J block (ids_of block) db → AtEnd IsRecorded (write_height block db)
  unfolding write_height commit
  write_height-IsRecorded db h =
      AtEnd-bind _ _
        (λ db2 h2. AtEnd-attempt db2 _ (record {
          given = λ db3 p. moved-IsRecorded db2 db3 (sqlite.contents-commit db2 db3 p) h2;
        }))
        (AtEnd-bind _ _ (λ db1 h1. AtEnd-attempt db1 _ (put_metadata-IsRecorded db1 h1))
          (AtEnd-attempt db _ (put_state_root-HasRoot db h)))

  -- The same of the database of an executor.
  record HasHeld (e : BlockExecutor D) : Type 0 where
    in_storage : Holds J block (ids_of block) e.storage

  pub record HasRecorded (e : BlockExecutor D) : Type 0 where
    pub in_storage : IsRecorded e.storage

  lift-HasHeld :
      (e : BlockExecutor D) (m : Outcome D)
      → AtEnd (Holds J block (ids_of block)) m
      → AtEnd HasHeld (lift_outcome e m)
  lift-HasHeld e (done db) h = AtEnd-done (record { in_storage = of_AtEnd (done db) h refl })
  lift-HasHeld e (threw db) h = AtEnd-threw

  lift-HasRecorded :
      (e : BlockExecutor D) (m : Outcome D)
      → AtEnd IsRecorded m
      → AtEnd HasRecorded (lift_outcome e m)
  lift-HasRecorded e (done db) h = AtEnd-done (record { in_storage = of_AtEnd (done db) h refl })
  lift-HasRecorded e (threw db) h = AtEnd-threw

  lift_option-HasHeld :
      (e : BlockExecutor D) (o : Option D)
      → IfSome (Holds J block (ids_of block)) o
      → IfSome HasHeld (lift_option e o)
  lift_option-HasHeld e none h = IfSome-none
  lift_option-HasHeld e (some db) h = IfSome-some (record { in_storage = h.given db refl })

  module _ ⦃sodium : Sodium⦄ where
    apply_changes-HasHeld :
        (changes : List PendingChange) (e : BlockExecutor D)
        → HasHeld e
        → AtEnd HasHeld (apply_changes changes e)
    unfolding apply_changes
    apply_changes-HasHeld [] e h = AtEnd-done h
    apply_changes-HasHeld (c ∷ changes) e h =
        let e1 = record e { smt = update c.key c.value e.smt } in
        AtEnd-bind _ _ (λ e2 h2. apply_changes-HasHeld changes e2 h2)
          (AtEnd-attempt e1 _ (
            lift_option-HasHeld e1 _ (
              put_node-Holds J block (ids_of block) e.storage h.in_storage c.key c.value_hash
                c.value)))

    commit_body-HasRecorded : (e : BlockExecutor D) → AtEnd HasRecorded (commit_body J block e)
    unfolding commit_body
    commit_body-HasRecorded e =
        AtEnd-bind _ _
          (λ e1 h1.
            lift-HasRecorded (record e1 { pending_changes = [] }) _
              (write_height-IsRecorded e1.storage h1.in_storage))
          (AtEnd-bind _ _ (λ e1 h1. apply_changes-HasHeld e.pending_changes e1 h1)
            (lift-HasHeld e _ (write_block-Holds J block e.storage)))

    -- What the tables of a node say of a block, in the words of its readers.
    pub record IsReadable (db : D) : Type 0 where
      pub latest_height :
          (fallback : Bytes)
          → get_metadata db (codes "latest_height") fallback ≡ decimal block.header.height
      pub state_root : get_state_root db block.header.height ≡ block.header.state_root
      pub stored_block :
          get_block_by_height J db block.header.height ≡ some (some (stored_form block))
      pub heights :
          All
            (λ (tx : Transaction).
              get_transaction_block_height db tx.tx_id ≡ some block.header.height)
            block.transactions

    IsReadable-HasRecorded :
        (e : BlockExecutor D)
        → BlockFits block
        → LacksZero block.header.state_root
        → HasRecorded e
        → IsReadable e.storage
    unfolding get_metadata get_state_root get_block_by_height get_transaction_block_height
    IsReadable-HasRecorded e fits text h =
        let r = h.in_storage in
        record {
          latest_height = λ fallback.
              rw (r.latest, get_metadata)
                (c_str-LacksZero (decimal block.header.height)
                  (decimal-LacksZero block.header.height));
          state_root = rw (r.root, get_state_root) (c_str-LacksZero block.header.state_root text);
          stored_block =
              ap (read_block J) r.written.row
              ∙ read_block-block_row J block r.written.text fits r.written.dumped;
          heights = (All-ids_after _ block.transactions [] r.written.marked).1;
        }

    -- After a `CommitBlock` that did not throw, the stored height and state root are those of the
    -- block, the block is read back at its height as the JSON form keeps it, without its commit
    -- signatures, if its numbers fit their types and its state root holds no zero byte, and every one
    -- of its transactions has its height.
    pub commit_block-IsReadable :
        (e e' : BlockExecutor D)
        → BlockFits block
        → LacksZero block.header.state_root
        → commit_block J block e ≡ done e'
        → IsReadable e'.storage
    commit_block-IsReadable e e' fits text p =
        IsReadable-HasRecorded e' fits text
          (of_AtEnd _ (commit_block-AtEnd J HasRecorded block commit_body-HasRecorded e) p)
