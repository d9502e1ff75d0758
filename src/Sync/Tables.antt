-- ===== src/Sync/Tables.antt =====
-- Three tables in memory that keep the promises which backend/src/sync/sync.service.ts relies on.
use flow_logix.Common.{
  ◌≡◌, ◌≢◌, ◌⊎◌, inl, inr, refl, sym, ap, ◌∙◌, Bool, true, false, Option, none, some, List, [], ◌∷◌,
  Text, codes, text_eq, text_lt, text_eq_iff, if◌then◌else◌, get_or_else, arith, lookup, put, keys,
  add_all, for_each, lookup-put, delete, lookup-delete, lookup-for_each, contains-add_all,
  contains-keys, Option-cases, is_some, subst,
}
use flow_logix.Crdt.Json.{null}
use flow_logix.Crdt.Record.{Fields, field_of}
use flow_logix.Sync.Requests.{text_of}
use flow_logix.Sync.Store.{
  SyncCollection, boards, lists, cards, SyncRow, IsPatched, written, Inserted, inserted,
  unique_violation, EntityManager, same_row,
}

abbrev pub Table : Type 0
Table = List (Text × SyncRow)

pub record Tables : Type 0 where
  pub board_rows : Table
  pub list_rows : Table
  pub card_rows : Table

abbrev pub table : Tables → SyncCollection → Table
table db boards = db.board_rows
table db lists = db.list_rows
table db cards = db.card_rows

abbrev pub set_table : Tables → SyncCollection → Table → Tables
set_table db boards rows = record db { board_rows = rows }
set_table db lists rows = record db { list_rows = rows }
set_table db cards rows = record db { card_rows = rows }

abbrev pub find : Tables → SyncCollection → Text → Option SyncRow
find db e id = lookup id (table db e)

abbrev pub parent_column : SyncCollection → Text
parent_column boards = codes "orgId"
parent_column lists = codes "boardId"
parent_column cards = codes "listId"

abbrev pub text_in : SyncRow → Text → Text
text_in row column = get_or_else (text_of (field_of row.columns column)) []

-- The id of the child with the greatest key, and that key.
abbrev pub greatest : SyncCollection → Text → Table → Option (Text × Text)
greatest e parent [] = none
greatest e parent ((id, row) ∷ rows) =
    let rest = greatest e parent rows in
    let key = text_in row (codes "positionIdx") in
    if text_eq (text_in row (parent_column e)) parent
    then (elim rest [
      | none ↦ some (id, key)
      | some (j, other) ↦ if text_lt other key then some (id, key) else some (j, other)
    ])
    else rest

abbrev pub last_child : Tables → SyncCollection → Text → Option SyncRow
last_child db e parent = elim (greatest e parent (table db e)) [
  | none ↦ none
  | some (id, key) ↦ find db e id
]

abbrev pub insert_by_id : SyncRow → List SyncRow → List SyncRow
insert_by_id row [] = row ∷ []
insert_by_id row (other ∷ rows) =
    if text_lt (text_in other (codes "id")) (text_in row (codes "id"))
    then other ∷ insert_by_id row rows
    else row ∷ other ∷ rows

abbrev pub rows_by_id : Table → List SyncRow
rows_by_id [] = []
rows_by_id ((id, row) ∷ rows) = insert_by_id row (rows_by_id rows)

abbrev pub insert_into : Tables → SyncCollection → Text → SyncRow → Inserted Tables
insert_into db e id row =
    if is_some (find db e id)
    then unique_violation db
    else inserted (set_table db e (put id row (table db e)))

abbrev pub column_step : Fields → Fields → Fields → Text → Fields
column_step old patch out k = put k (written (field_of old k) (field_of patch k)) out

abbrev pub patched : SyncRow → SyncRow → SyncRow
patched old patch = record patch {
  columns =
      for_each (column_step old.columns patch.columns) []
        (add_all (keys old.columns) (keys patch.columns));
}

-- The column `title` of every table is NOT NULL.
abbrev pub accepts : Tables → SyncCollection → Text → SyncRow → Bool
accepts db e id patch = elim (field_of patch.columns (codes "title")) [ null ↦ false | _ ↦ true ]

abbrev pub update_in : Tables → SyncCollection → Text → SyncRow → Tables
update_in db e id patch = elim (find db e id) [
  | none ↦ db
  | some old ↦ set_table db e (put id (patched old patch) (table db e))
]

abbrev pub save_in : Tables → SyncCollection → Text → SyncRow → Tables
save_in db e id row = set_table db e (put id row (table db e))

abbrev pub remove_from : Tables → SyncCollection → Text → Tables
remove_from db e id = set_table db e (delete id (table db e))

pub table-set_table :
    (db : Tables) (e : SyncCollection) (rows : Table) → table (set_table db e rows) e ≡ rows
table-set_table db boards rows = refl
table-set_table db lists rows = refl
table-set_table db cards rows = refl

table-set_other :
    (db : Tables) (e f : SyncCollection) (rows : Table)
    → e ≢ f
    → table (set_table db e rows) f ≡ table db f
table-set_other db boards boards rows h = absurd (h refl)
table-set_other db boards lists rows h = refl
table-set_other db boards cards rows h = refl
table-set_other db lists boards rows h = refl
table-set_other db lists lists rows h = absurd (h refl)
table-set_other db lists cards rows h = refl
table-set_other db cards boards rows h = refl
table-set_other db cards lists rows h = refl
table-set_other db cards cards rows h = absurd (h refl)

pub find-set_table :
    (db : Tables) (e f : SyncCollection) (id j : Text) (row : SyncRow)
    → ((e ≢ f) ⊎ (id ≢ j))
    → find (set_table db e (put id row (table db e))) f j ≡ find db f j
find-set_table db e f id j row (inl h) = ap (lookup j) (table-set_other db e f _ h)
find-set_table db e f id j row (inr h) = elim (same_row e f id id) [
  | inr (inl apart) ↦ ap (lookup j) (table-set_other db e f _ apart)
  | inr (inr odd) ↦ absurd (odd refl)
  | inl (p, q) ↦
      let rows = put id row (table db e) in
      let at_e : find (set_table db e rows) e j ≡ find db e j =
        ap (lookup j) (table-set_table db e rows)
        ∙ lookup-put id j row (table db e)
        ∙ differs (text_eq id j) refl in
      subst (λ c. find (set_table db e rows) c j ≡ find db c j) p at_e
]
  where
    differs : (b : Bool) → text_eq id j ≡ b → (if b then some row else find db e j) ≡ find db e j
    differs true same = absurd (h ((text_eq_iff id j).0 same))
    differs false other = refl

patched-IsPatched : (old patch : SyncRow) → IsPatched old patch (patched old patch)
patched-IsPatched old patch = record {
  columns_written = λ c. column c;
  clocks_written = refl;
  node_written = refl;
  deletion_written = refl;
}
  where
    column :
        (c : Text)
        → field_of (patched old patch).columns c
          ≡ written (field_of old.columns c) (field_of patch.columns c)
    column c = ground (
      arith,
      lookup-for_each (λ out. out) (column_step old.columns patch.columns)
          (λ k. written (field_of old.columns k) (field_of patch.columns k)) (λ out k. refl) c []
          (add_all (keys old.columns) (keys patch.columns)),
      contains-add_all c (keys old.columns) (keys patch.columns),
      contains-keys c old.columns,
      contains-keys c patch.columns,
    )

pub find-stored :
    (db : Tables) (e : SyncCollection) (id : Text) (row : SyncRow)
    → find (set_table db e (put id row (table db e))) e id ≡ some row
find-stored db e id row =
    ap (lookup id) (table-set_table db e (put id row (table db e)))
    ∙ lookup-put id id row (table db e)
    ∙ ground (arith, text_eq_iff id id)

pub inserts :
    (db db' : Tables) (e : SyncCollection) (id : Text) (row : SyncRow)
    → insert_into db e id row ≡ inserted db'
    → (find db e id ≡ none) × (set_table db e (put id row (table db e)) ≡ db')
inserts db db' e id row h = elim (Option-cases (find db e id)) [
  | inl free ↦ (free, ground arith)
  | inr (old, taken) ↦ absurd (ground arith)
]

pub last_child-stored :
    (db : Tables) (e : SyncCollection) (parent : Text) (row : SyncRow)
    → last_child db e parent ≡ some row
    → (id : Text) × (find db e id ≡ some row)
last_child-stored db e parent row h = elim (Option-cases (greatest e parent (table db e))) [
  | inl childless ↦ absurd (ground arith)
  | inr ((id, key), best) ↦ (id, ground arith)
]

pub violates :
    (db db' : Tables) (e : SyncCollection) (id : Text) (row : SyncRow)
    → insert_into db e id row ≡ unique_violation db'
    → db ≡ db'
violates db db' e id row h = elim (Option-cases (find db e id)) [
  | inl free ↦ absurd (ground arith)
  | inr (old, taken) ↦ ground arith
]

updates :
    (db : Tables) (e : SyncCollection) (id : Text) (patch : SyncRow) (found : Option SyncRow)
    → find db e id ≡ found
    → update_in db e id patch ≡ elim found [
      | none ↦ db
      | some old ↦ set_table db e (put id (patched old patch) (table db e))
    ]
updates db e id patch found h =
    ap
      (λ o. elim o [
        | none ↦ db
        | some old ↦ set_table db e (put id (patched old patch) (table db e))
      ])
      h

pub update-finds :
    (db : Tables) (e : SyncCollection) (id : Text) (old patch : SyncRow)
    → find db e id ≡ some old
    → (new : SyncRow) × (find (update_in db e id patch) e id ≡ some new) × IsPatched old patch new
update-finds db e id old patch there = (
  patched old patch,
  subst (λ d. find d e id ≡ some (patched old patch)) (sym (updates db e id patch (some old) there))
      (find-stored db e id (patched old patch)),
  patched-IsPatched old patch,
)

pub update-keeps :
    (db : Tables) (e f : SyncCollection) (id j : Text) (patch : SyncRow)
    → (e ≢ f) ⊎ (id ≢ j)
    → find (update_in db e id patch) f j ≡ find db f j
update-keeps db e f id j patch apart = elim (Option-cases (find db e id)) [
  | inl gone ↦ ap (λ d. find d f j) (updates db e id patch none gone)
  | inr (old, there) ↦
      ap (λ d. find d f j) (updates db e id patch (some old) there)
      ∙ find-set_table db e f id j (patched old patch) apart
]

pub deleted : (id : Text) (rows : Table) → lookup id (delete id rows) ≡ none
deleted id rows = lookup-delete id id rows ∙ rw ((text_eq_iff id id).1 refl) refl

unfoldable pub tables : EntityManager Tables
tables = record {
  find_one = find;
  find_last = last_child;
  find_all = λ db e. rows_by_id (table db e);
  insert = insert_into;
  accepts_update = accepts;
  update = update_in;
  save = save_in;
  remove = remove_from;
  find_last-stored = last_child-stored;
  insert-fresh = λ db db' e id row h.
      let (free, new) = inserts db db' e id row h in
      (free, subst (λ d. find d e id ≡ some row) new (find-stored db e id row));
  insert-others = λ db db' e f id j row h apart.
      let (free, new) = inserts db db' e id row h in
      subst (λ d. find d f j ≡ find db f j) new (find-set_table db e f id j row apart);
  violation-stored = λ db db' e f id j row kept h stored.
      subst (λ d. find d f j ≡ some kept) (violates db db' e id row h) stored;
  update-found = update-finds;
  update-others = update-keeps;
  save-found = find-stored;
  save-others = find-set_table;
  remove-gone = λ db e id.
      ap (lookup id) (table-set_table db e (delete id (table db e))) ∙ deleted id (table db e);
}
