-- ===== src/Tests/Memory.antt =====
-- A database in memory: the tables, with the rows of smt_nodes as a list.
use blockchain_demo.Prelude.{
  ◌≡◌, refl, sym, ap, ◌∙◌, subst, fun_ext, List, [], ◌∷◌, Option, none, some, Bytes, bytes_eq,
  bytes_eq_iff, arith, if◌then◌else◌, Bool, true, false, Bool-cases, inl, inr, eq_of_some,
  none-ne-some, Option-cases,
}
use mathlib.Core.Option
use blockchain_demo.Storage.{Sqlite}
use blockchain_demo.Storage.Schema.{
  Tables, Statement, NodeRow, effect, find_node, is_taken, replace_account, replace_transaction,
  replace_block, replace_metadata, replace_node, replace_state_root, replace_session, insert_user,
  insert_user_or_ignore, delete_blocks, delete_committed, delete_accounts, delete_state_roots,
  delete_nodes, delete_metadata, put_text,
}

abbrev pub empty_tables : Tables
empty_tables = record {
  accounts = λ _. none;
  transactions = λ _. none;
  blocks = λ _. none;
  node_metadata = λ _. none;
  smt_nodes = λ _. none;
  state_roots = λ _. none;
  users = [];
  next_user_id = 1;
  sessions = λ _. none;
}

abbrev pub view : Tables → List NodeRow → Tables
view t nodes = record t { smt_nodes = λ key. find_node key nodes }

pub record Memory : Type 0 where
  pub tables : Tables
  pub nodes : List NodeRow
  pub start : Option (Tables × List NodeRow)

abbrev pub put_node : NodeRow → List NodeRow → List NodeRow
put_node row [] = row ∷ []
put_node row (old ∷ nodes) =
    if bytes_eq old.key_hash row.key_hash then row ∷ nodes else old ∷ put_node row nodes

abbrev pub keep : Memory → Option Tables → Option Memory
keep db none = none
keep db (some t) = some (record db { tables = t })

abbrev pub step : Statement → Memory → Option Memory
step (replace_node row) db = some (record db { nodes = put_node row db.nodes })
step delete_nodes db = some (record db { nodes = [] })
step s db = keep db (effect s db.tables)

abbrev pub start_of : Option (Tables × List NodeRow) → Option Tables
start_of none = none
start_of (some (t, nodes)) = some (view t nodes)

abbrev pub begin : Memory → Option Memory
begin db = elim db.start [
  | none ↦ some (record db { start = some (db.tables, db.nodes) })
  | some _ ↦ none
]

abbrev pub back : Memory → Option (Tables × List NodeRow) → Memory
back db none = db
back db (some (t, nodes)) = record { tables = t; nodes = nodes; start = none }

find_node-put_node :
    (row : NodeRow) (nodes : List NodeRow) (key : Bytes)
    → find_node key (put_node row nodes) ≡ put_text row.key_hash row (λ q. find_node q nodes) key
find_node-put_node row [] key = refl
find_node-put_node row (old ∷ nodes) key = ground (
  arith,
  find_node-put_node row nodes key,
  bytes_eq_iff old.key_hash row.key_hash,
  bytes_eq_iff old.key_hash key,
  bytes_eq_iff row.key_hash key,
)

viewed :
    (db db' : Memory) (o : Option Tables)
    → keep db o ≡ some db'
    → Option.map (λ t. view t db.nodes) o ≡ some (view db'.tables db'.nodes)
viewed db db' none e = absurd (none-ne-some e)
viewed db db' (some t) e = ap (λ (m : Memory). some (view m.tables m.nodes)) (eq_of_some e)

abbrev is_node_statement : Statement → Bool
is_node_statement (replace_node row) = true
is_node_statement delete_nodes = true
is_node_statement s = false

-- The other statements leave the nodes alone and do not read them.
effect-view :
    (s : Statement) (t : Tables) (nodes : List NodeRow)
    → is_node_statement s ≡ false
    → effect s (view t nodes) ≡ Option.map (λ u. view u nodes) (effect s t)
unfolding effect
effect-view (replace_account k r) t nodes h = refl
effect-view (replace_transaction k r) t nodes h = refl
effect-view (replace_block k r) t nodes h = refl
effect-view (replace_metadata k v) t nodes h = refl
effect-view (replace_node r) t nodes h = cc
effect-view (replace_state_root k v) t nodes h = refl
effect-view (replace_session k r) t nodes h = refl
effect-view (insert_user r) t nodes h = elim (Bool-cases (is_taken r t.users)) [
  | inl e ↦ rw e
  | inr e ↦ rw e
]
effect-view (insert_user_or_ignore r) t nodes h = elim (Bool-cases (is_taken r t.users)) [
  | inl e ↦ rw e
  | inr e ↦ rw e
]
effect-view delete_blocks t nodes h = refl
effect-view delete_committed t nodes h = refl
effect-view delete_accounts t nodes h = refl
effect-view delete_state_roots t nodes h = refl
effect-view delete_nodes t nodes h = cc
effect-view (delete_metadata k) t nodes h = refl

pub view-step :
    (s : Statement) (db db' : Memory)
    → step s db ≡ some db'
    → effect s (view db.tables db.nodes) ≡ some (view db'.tables db'.nodes)
view-step (replace_node r) db db' e =
    unfold effect in
    (ap (λ f. some (record db.tables { smt_nodes = f }))
        (fun_ext (λ key. sym (find_node-put_node r db.nodes key)))
      ∙ ap (λ (m : Memory). some (view m.tables m.nodes)) (eq_of_some e))
view-step delete_nodes db db' e =
    unfold effect in ap (λ (m : Memory). some (view m.tables m.nodes)) (eq_of_some e)
view-step s db db' e = effect-view s db.tables db.nodes refl ∙ viewed db db' (effect s db.tables) e

keep-start : (db db' : Memory) (o : Option Tables) → keep db o ≡ some db' → db'.start ≡ db.start
keep-start db db' none e = absurd (none-ne-some e)
keep-start db db' (some t) e = ap (λ (m : Memory). m.start) (sym (eq_of_some e))

pub step-start : (s : Statement) (db db' : Memory) → step s db ≡ some db' → db'.start ≡ db.start
step-start (replace_node r) db db' e = ap (λ (m : Memory). m.start) (sym (eq_of_some e))
step-start delete_nodes db db' e = ap (λ (m : Memory). m.start) (sym (eq_of_some e))
step-start s db db' e = keep-start db db' (effect s db.tables) e

pub begin_cases :
    (db db' : Memory)
    → begin db ≡ some db'
    → (view db'.tables db'.nodes ≡ view db.tables db.nodes)
      × (start_of db'.start ≡ some (view db.tables db.nodes))
begin_cases db db' e = elim (Option-cases db.start) [
  | inl idle ↦
      let made = eq_of_some (
        subst
          (λ o.
            elim o [
              | none ↦ some (record db { start = some (db.tables, db.nodes) })
              | some _ ↦ none
            ]
            ≡ some db')
          idle e) in
      (
        ap (λ (m : Memory). view m.tables m.nodes) (sym made),
        ap (λ (m : Memory). start_of m.start) (sym made),
      )
  | inr (t, open_one) ↦ absurd (
      none-ne-some (
        subst
          (λ o.
            elim o [
              | none ↦ some (record db { start = some (db.tables, db.nodes) })
              | some _ ↦ none
            ]
            ≡ some db')
          open_one e))
]

pub back-start :
    (db : Memory) (o : Option (Tables × List NodeRow)) (t : Tables)
    → start_of o ≡ some t
    → view (back db o).tables (back db o).nodes ≡ t
back-start db none t e = absurd (none-ne-some e)
back-start db (some (u, nodes)) t e = eq_of_some e

instance abbrev pub memory : Sqlite Memory
memory = record {
  contents = λ db. view db.tables db.nodes;
  saved = λ db. start_of db.start;
  step = step;
  begin_immediate = begin;
  commit = λ db. some (record db { start = none });
  rollback = λ db. back db db.start;
  select_nodes = λ db. db.nodes;
  select_block_by_hash = λ db hash. none;
  select_latest_block = λ db. none;
  contents-step = view-step;
  saved-step = λ s db db' e. ap start_of (step-start s db db' e);
  contents-begin_immediate = λ db db' e. (begin_cases db db' e).0;
  saved-begin_immediate = λ db db' e. (begin_cases db db' e).1;
  contents-commit = λ db db' e. ap (λ (m : Memory). view m.tables m.nodes) (sym (eq_of_some e));
  contents-rollback = λ db t e. back-start db db.start t e;
  find_node-select_nodes = λ db key. refl;
}

abbrev pub empty_memory : Memory
empty_memory = record { tables = empty_tables; nodes = []; start = none }
