-- ===== src/Sync/Store.antt =====
-- The database as backend/src/sync/sync.service.ts uses it, and `PendingBoardEvent`'s neighbours:
-- the rows (`SyncRow`), the tables and the calls of TypeORM's `EntityManager`.
use flow_logix.Common.{
  ℕ, ◌≡◌, ◌≢◌, refl, arith, inl, inr, Bool, Bool-cases, text_eq, text_eq_iff, ◌⊎◌, Option, none,
  some, List, Text,
}
use flow_logix.Crdt.Json.{Json, undefined}
use flow_logix.Crdt.Record.{Fields, FieldClocks, field_of}

pub data SyncCollection : Type 0 where
  boards lists cards : SyncCollection

-- A row: its entity's columns by property name, and the columns that the synchronisation keeps.
pub record SyncRow : Type 0 where
  pub columns : Fields
  pub sync_clocks : Option FieldClocks
  pub node_id : Option Text
  pub sync_deleted_at : Option ℕ

-- The row that `update` leaves, by column: a property that is `undefined` is not written.
abbrev pub written : Json → Json → Json
written old undefined = old
written old new = new

pub record IsPatched (old patch new : SyncRow) : Type 0 where
  pub columns_written :
      (c : Text)
      → field_of new.columns c ≡ written (field_of old.columns c) (field_of patch.columns c)
  pub clocks_written : new.sync_clocks ≡ patch.sync_clocks
  pub node_written : new.node_id ≡ patch.node_id
  pub deletion_written : new.sync_deleted_at ≡ patch.sync_deleted_at

-- What `insert` resolves or rejects with: after a unique violation the other writer's row stands.
pub data Inserted (Db : Type 0) : Type 0 where
  inserted : Db → Inserted Db
  unique_violation : Db → Inserted Db
  query_failed : Inserted Db

-- The calls of `EntityManager` inside one transaction, with what TypeORM documents: a table holds
-- one row for an id; `insert` adds a row for a new id; `update` writes the properties that are
-- given, and rejects where `accepts_update` does not hold, since a constraint on a column would be
-- violated; `save` writes a whole entity.
-- `find_one` is the row of a primary key, `find_last` the row with the greatest
-- `positionIdx` among those of one parent, `find_all` a table by ascending id.
pub record EntityManager (Db : Type 0) : Type 0 where
  pub find_one : Db → SyncCollection → Text → Option SyncRow
  pub find_last : Db → SyncCollection → Text → Option SyncRow
  pub find_all : Db → SyncCollection → List SyncRow
  pub insert : Db → SyncCollection → Text → SyncRow → Inserted Db
  pub accepts_update : Db → SyncCollection → Text → SyncRow → Bool
  pub update : Db → SyncCollection → Text → SyncRow → Db
  pub save : Db → SyncCollection → Text → SyncRow → Db
  pub remove : Db → SyncCollection → Text → Db
  pub find_last-stored :
      (db : Db) (e : SyncCollection) (parent : Text) (row : SyncRow)
      → find_last db e parent ≡ some row
      → (id : Text) × (find_one db e id ≡ some row)
  pub insert-fresh :
      (db db' : Db) (e : SyncCollection) (id : Text) (row : SyncRow)
      → insert db e id row ≡ inserted db'
      → (find_one db e id ≡ none) × (find_one db' e id ≡ some row)
  pub insert-others :
      (db db' : Db) (e f : SyncCollection) (id j : Text) (row : SyncRow)
      → insert db e id row ≡ inserted db'
      → (e ≢ f) ⊎ (id ≢ j)
      → find_one db' f j ≡ find_one db f j
  pub violation-stored :
      (db db' : Db) (e f : SyncCollection) (id j : Text) (row kept : SyncRow)
      → insert db e id row ≡ unique_violation db'
      → find_one db f j ≡ some kept
      → find_one db' f j ≡ some kept
  pub update-found :
      (db : Db) (e : SyncCollection) (id : Text) (old patch : SyncRow)
      → find_one db e id ≡ some old
      → (new : SyncRow) × (find_one (update db e id patch) e id ≡ some new)
        × IsPatched old patch new
  pub update-others :
      (db : Db) (e f : SyncCollection) (id j : Text) (patch : SyncRow)
      → (e ≢ f) ⊎ (id ≢ j)
      → find_one (update db e id patch) f j ≡ find_one db f j
  pub save-found :
      (db : Db) (e : SyncCollection) (id : Text) (row : SyncRow)
      → find_one (save db e id row) e id ≡ some row
  pub save-others :
      (db : Db) (e f : SyncCollection) (id j : Text) (row : SyncRow)
      → (e ≢ f) ⊎ (id ≢ j)
      → find_one (save db e id row) f j ≡ find_one db f j
  pub remove-gone :
      (db : Db) (e : SyncCollection) (id : Text) → find_one (remove db e id) e id ≡ none

pub Inserted-cases :
    {Db : Type 0} (answer : Inserted Db)
    → ((db : Db) × (answer ≡ inserted db))
      ⊎ ((db : Db) × (answer ≡ unique_violation db))
      ⊎ (answer ≡ query_failed)
Inserted-cases (inserted db) = inl (db, refl)
Inserted-cases (unique_violation db) = inr (inl (db, refl))
Inserted-cases query_failed = inr (inr refl)

pub collections_eq : (e f : SyncCollection) → (e ≡ f) ⊎ (e ≢ f)
collections_eq boards boards = inl refl
collections_eq boards lists = inr (λ h. cc)
collections_eq boards cards = inr (λ h. cc)
collections_eq lists boards = inr (λ h. cc)
collections_eq lists lists = inl refl
collections_eq lists cards = inr (λ h. cc)
collections_eq cards boards = inr (λ h. cc)
collections_eq cards lists = inr (λ h. cc)
collections_eq cards cards = inl refl

-- Whether two rows are one.
pub same_row : (e f : SyncCollection) (id j : Text) → ((e ≡ f) × (id ≡ j)) ⊎ ((e ≢ f) ⊎ (id ≢ j))
same_row e f id j = elim (collections_eq e f) [
  | inr apart ↦ inr (inl apart)
  | inl p ↦ elim (Bool-cases (text_eq id j)) [
    | inl same ↦ inl (p, (text_eq_iff id j).0 same)
    | inr apart ↦ inr (inr (λ q. absurd (ground (arith, (text_eq_iff id j).1 q))))
  ]
]
