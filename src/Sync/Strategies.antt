-- ===== src/Sync/Strategies.antt =====
-- backend/src/sync/sync.service.ts: the strategies of the three collections (`load`, `tryInsert`)
-- and the helpers `boardInOrg`, `listInOrg`, `boardIdForList` and `resolvePositionKey`.
use flow_logix.Common.{
  ◌≡◌, refl, inl, inr, ◌⊎◌, Bool, false, not, Option, none, some, [], ◌∷◌, Text, codes, text_eq,
  if◌then◌else◌, is_some,
}
use flow_logix.Crdt.Json.{Json, null, bool, string}
use flow_logix.Crdt.Record.{Fields, field_of}
use flow_logix.Ordering.Indexer.{Indexer, ok, throw}
use flow_logix.Ordering.Position.{is_valid, key_for_append}
use flow_logix.Sync.Store.{
  SyncCollection, boards, lists, cards, SyncRow, EntityManager, inserted, unique_violation,
  query_failed,
}
use flow_logix.Sync.Requests.{
  SyncChange, sync_fields, text_of, numeric_clocks, is_uuid, as_uuid, as_non_empty_string,
}

-- `change.nodeId || null`
abbrev pub some_text : Text → Option Text
some_text [] = none
some_text (c ∷ s) = some (c ∷ s)

-- `typeof value === 'string' ? value : null`
abbrev pub string_or_null : Json → Json
string_or_null (string s) = string s
string_or_null v = null

-- `typeof value === 'boolean' ? value : false`
abbrev pub bool_or_false : Json → Json
bool_or_false (bool b) = bool b
bool_or_false v = bool false

-- What `tryInsert` does: it returns whether the row is inserted, or an exception leaves it.
pub data Insertion (Db : Type 0) : Type 0 where
  created : Db → Insertion Db
  declined : Db → Insertion Db
  failed : Insertion Db

pub Insertion-cases :
    {Db : Type 0} (answer : Insertion Db)
    → ((db : Db) × (answer ≡ created db)) ⊎ ((db : Db) × (answer ≡ declined db)) ⊎ (answer ≡ failed)
Insertion-cases (created db) = inl (db, refl)
Insertion-cases (declined db) = inr (inl (db, refl))
Insertion-cases failed = inr (inr refl)

-- The entity properties that the three inserts give.
abbrev pub board_columns_of : Text → SyncChange → Text → Fields
board_columns_of org change title =
    (codes "id", string change.id)
    ∷ (codes "orgId", string org)
    ∷ (codes "title", string title)
    ∷ (codes "description", null)
    ∷ (codes "visibility", string (codes "private"))
    ∷ []

abbrev pub list_columns_of : SyncChange → Text → Text → Text → Fields
list_columns_of change board_id title key =
    (codes "id", string change.id)
    ∷ (codes "boardId", string board_id)
    ∷ (codes "title", string title)
    ∷ (codes "positionIdx", string key)
    ∷ []

abbrev pub card_columns_of : SyncChange → Text → Text → Text → Fields
card_columns_of change list_id title key =
    (codes "id", string change.id)
    ∷ (codes "listId", string list_id)
    ∷ (codes "title", string title)
    ∷ (codes "description", string_or_null (field_of change.fields (codes "description")))
    ∷ (codes "isComplete", bool_or_false (field_of change.fields (codes "isComplete")))
    ∷ (codes "positionIdx", string key)
    ∷ []

-- The row that is inserted, with the columns of its entity.
unfoldable pub new_row : SyncCollection → SyncChange → Fields → SyncRow
new_row e change columns = record {
  columns = columns;
  sync_clocks = some (numeric_clocks change.clocks (sync_fields e));
  node_id = some_text change.node_id;
  sync_deleted_at = change.deleted_at;
}

module _ (positions : Indexer) where
  -- `positions.keyForAppend(last)`; `none` is its exception.
  abbrev pub append_key : Option Text → Option Text
  append_key last = elim (key_for_append positions last) [ throw e ↦ none | ok key ↦ some key ]

  -- `last ? last.positionIdx : null`
  abbrev pub last_key : Option SyncRow → Option Text
  last_key none = none
  last_key (some row) = text_of (field_of row.columns (codes "positionIdx"))

  unfoldable pub resolve_position_key : Json → Option SyncRow → Option Text
  resolve_position_key (string key) last =
      if is_valid positions key then some key else append_key (last_key last)
  resolve_position_key provided last = append_key (last_key last)

module _ {Db : Type 0} (manager : EntityManager Db) where
  -- `where: { id, orgId }`, on a row of that id.
  abbrev pub board_in_org : Text → SyncRow → Bool
  board_in_org org row = elim (text_of (field_of row.columns (codes "orgId"))) [
    | none ↦ false
    | some owner ↦ text_eq owner org
  ]

  -- `where: { board: { … } }`: the row that a column refers to passes the test.
  abbrev pub joined : Db → SyncCollection → Text → (SyncRow → Bool) → SyncRow → Bool
  joined db parents column test row = elim (text_of (field_of row.columns column)) [
    | none ↦ false
    | some id ↦ elim (manager.find_one db parents id) [ none ↦ false | some parent ↦ test parent ]
  ]

  unfoldable pub in_org : SyncCollection → Db → Text → SyncRow → Bool
  in_org boards db org row = board_in_org org row
  in_org lists db org row = joined db boards (codes "boardId") (board_in_org org) row
  in_org cards db org row =
      joined db lists (codes "listId") (joined db boards (codes "boardId") (board_in_org org)) row

  -- `load`
  unfoldable pub load : SyncCollection → Db → Text → Text → Option SyncRow
  load e db id org = elim (manager.find_one db e id) [
    | none ↦ none
    | some row ↦ if in_org e db org row then some row else none
  ]

  unfoldable pub is_board_in_org : Db → Text → Text → Bool
  unfolding load
  is_board_in_org db id org = is_some (load boards db id org)

  unfoldable pub is_list_in_org : Db → Text → Text → Bool
  unfolding load
  is_list_in_org db id org = is_some (load lists db id org)

  unfoldable pub board_id_for_list : Db → Text → Option Text
  board_id_for_list db id = elim (manager.find_one db lists id) [
    | none ↦ none
    | some row ↦ text_of (field_of row.columns (codes "boardId"))
  ]

  module _ (positions : Indexer) where
    -- `manager.insert` with its `catch`.
    abbrev insert_row : Db → SyncCollection → SyncChange → Fields → Insertion Db
    insert_row db e change columns =
        elim (manager.insert db e change.id (new_row e change columns)) [
          | inserted db' ↦ created db'
          | unique_violation db' ↦ declined db'
          | query_failed ↦ failed
        ]

    -- The columns of a new row, if the payload is complete and its parent is in the organisation:
    -- `none` for an incomplete one, `some none` for an exception.
    abbrev list_columns : Db → Text → SyncChange → Option (Option Fields)
    list_columns db org change =
        elim (as_non_empty_string (field_of change.fields (codes "title"))) [
          | none ↦ none
          | some title ↦ elim (as_uuid (field_of change.fields (codes "boardId"))) [
            | none ↦ none
            | some board_id ↦
                if not (is_board_in_org db board_id org)
                then none
                else (elim (resolve_position_key positions
                    (field_of change.fields (codes "positionIdx"))
                    (manager.find_last db lists board_id)) [
                      | none ↦ some none
                      | some key ↦ some (some (list_columns_of change board_id title key))
                    ])
          ]
        ]

    abbrev card_columns : Db → Text → SyncChange → Option (Option Fields)
    card_columns db org change =
        elim (as_non_empty_string (field_of change.fields (codes "title"))) [
          | none ↦ none
          | some title ↦ elim (as_uuid (field_of change.fields (codes "listId"))) [
            | none ↦ none
            | some list_id ↦
                if not (is_list_in_org db list_id org)
                then none
                else (elim (resolve_position_key positions
                    (field_of change.fields (codes "positionIdx"))
                    (manager.find_last db cards list_id)) [
                      | none ↦ some none
                      | some key ↦ some (some (card_columns_of change list_id title key))
                    ])
          ]
        ]

    abbrev board_columns : Db → Text → SyncChange → Option (Option Fields)
    board_columns db org change =
        elim (as_non_empty_string (field_of change.fields (codes "title"))) [
          | none ↦ none
          | some title ↦ some (some (board_columns_of org change title))
        ]

    unfoldable pub new_columns : SyncCollection → Db → Text → SyncChange → Option (Option Fields)
    unfolding is_board_in_org is_list_in_org resolve_position_key as_uuid as_non_empty_string
    new_columns boards = board_columns
    new_columns lists = list_columns
    new_columns cards = card_columns

    unfoldable pub try_insert : SyncCollection → Db → Text → SyncChange → Insertion Db
    unfolding new_columns is_uuid numeric_clocks
    try_insert e db org change =
        if not (is_uuid change.id) then declined db else (elim (new_columns e db org change) [
          | none ↦ declined db
          | some none ↦ failed
          | some (some columns) ↦ insert_row db e change columns
        ])
