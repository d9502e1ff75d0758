-- ===== src/Sync/Service.antt =====
-- backend/src/sync/sync.service.ts: `SyncService.sync`, run in one transaction. `none` is an
-- exception, after which the transaction is rolled back and no event is published.
pub mod Sanitize
pub mod Pull
pub mod Keys
pub mod Tenants
mod Tests
use flow_logix.Common.{
  ℕ, ◌+◌, ◌-◌, ◌*◌, Bool, true, false, not, ◌&&◌, ◌||◌, Option, none, some, List, [], ◌∷◌, ◌++◌,
  Text, codes, text_eq, text_lt, ltb, ◌==◌, if◌then◌else◌, get_or_else, is_some, lookup, put,
  for_each, keep, any, keys, contains, length, take, add_all,
}
use flow_logix.Crdt.Json.{Json, undefined, null, string}
use flow_logix.Crdt.Record.{Fields, FieldClocks, field_of, clock_of}
use flow_logix.Ordering.Indexer.{Indexer}
use flow_logix.Ordering.Position.{is_valid}
use flow_logix.Board.State.{
  BoardMutationType, BoardMutationPayload, card_created, card_moved, card_updated, card_deleted,
  list_created, list_updated, list_deleted,
}
use flow_logix.Sync.Merge.{RecordState, ServerMergeResult, merge_server_record}
use flow_logix.Sync.Store.{SyncCollection, boards, lists, cards, SyncRow, EntityManager}
use flow_logix.Sync.Requests.{
  SyncChange, SyncRequest, EchoedChange, SyncResponse, PendingBoardEvent, max_sync_changes,
  sync_fields, text_of, numeric_clocks, as_uuid,
}
use flow_logix.Sync.Strategies.{
  created, declined, failed, in_org, load, is_board_in_org, is_list_in_org, board_id_for_list,
  try_insert,
}

-- `out[field] = row[field]` for each field.
abbrev pub read_fields : SyncRow → List Text → Fields
read_fields row fields = for_each (λ out f. put f (field_of row.columns f) out) [] fields

-- `sort` by id: before the first change with a greater id, so that equal ids keep their order.
abbrev pub insert_by_id : SyncChange → List SyncChange → List SyncChange
insert_by_id c [] = c ∷ []
insert_by_id c (d ∷ ds) = if text_lt d.id c.id then d ∷ insert_by_id c ds else c ∷ d ∷ ds

unfoldable pub sort_by_id : List SyncChange → List SyncChange
sort_by_id [] = []
sort_by_id (c ∷ cs) = insert_by_id c (sort_by_id cs)

-- `nowMicros` on the clock's last answer and the wall clock's milliseconds.
unfoldable pub now_micros : ℕ → ℕ → ℕ
now_micros last wall = if ltb last (wall * 1000) then wall * 1000 else last + 1

abbrev payload : Option Text → Option Text → Option Text → BoardMutationPayload
payload card list key = record { card_id = card; list_id = list; position_idx = key }

abbrev event : BoardMutationType → Text → BoardMutationPayload → PendingBoardEvent
event type board p = record { type = type; board_id = board; payload = p }

-- `a ?? b`
abbrev pub value_or : Json → Json → Json
value_or undefined b = b
value_or null b = b
value_or a b = a

-- `a !== b` on texts that may be missing.
abbrev texts_differ : Option Text → Option Text → Bool
texts_differ none none = false
texts_differ none (some b) = true
texts_differ (some a) none = true
texts_differ (some a) (some b) = not (text_eq a b)

-- `deletedNow && !wasDeleted`
abbrev just_deleted : RecordState → RecordState → Bool
just_deleted before after = is_some after.deleted_at && not (is_some before.deleted_at)

abbrev pub add_event : Option PendingBoardEvent → List PendingBoardEvent → List PendingBoardEvent
add_event none events = events
add_event (some e) events = events ++ e ∷ []

abbrev pub server_state : SyncCollection → SyncRow → RecordState
server_state e row = record {
  fields = read_fields row (sync_fields e);
  clocks = get_or_else row.sync_clocks [];
  node_id = row.node_id;
  deleted_at = row.sync_deleted_at;
}

-- The columns of the targeted update.
abbrev pub patch_fields : Fields → List Text → Fields
patch_fields merged fields = for_each (λ patch f. put f (field_of merged f) patch) [] fields

abbrev pub patch_of : SyncCollection → RecordState → SyncRow
patch_of e merged = record {
  columns = patch_fields merged.fields (sync_fields e);
  sync_clocks = some merged.clocks;
  node_id = merged.node_id;
  sync_deleted_at = merged.deleted_at;
}

abbrev pub echo : Text → RecordState → EchoedChange
echo id merged = record {
  id = id;
  fields = merged.fields;
  clocks = merged.clocks;
  node_id = get_or_else merged.node_id [];
  deleted_at = merged.deleted_at;
}

-- `clockPredicate`: the tombstone or some field clock is newer than the checkpoint.
unfoldable pub is_newer : ℕ → SyncRow → Bool
is_newer cp row =
    ltb cp (get_or_else row.sync_deleted_at 0)
    || any (λ k. ltb cp (clock_of (get_or_else row.sync_clocks []) k))
        (keys (get_or_else row.sync_clocks []))

-- `String(row['id'])`
abbrev pub id_of : SyncRow → Text
id_of row = get_or_else (text_of (field_of row.columns (codes "id"))) []

abbrev pub pulled : SyncCollection → SyncRow → EchoedChange
pulled e row = record {
  id = id_of row;
  fields = read_fields row (sync_fields e);
  clocks = get_or_else row.sync_clocks [];
  node_id = get_or_else row.node_id [];
  deleted_at = row.sync_deleted_at;
}

-- The loop over the rows that the query returns; `count` is `out.length` before the round.
unfoldable pub collect : SyncCollection → List Text → ℕ → ℕ → List SyncRow → List EchoedChange
collect e excluded limit count [] = []
collect e excluded limit count (row ∷ rows) =
    let later = collect e excluded limit count rows in
    let rest = collect e excluded limit (count + 1) rows in
    if contains (id_of row) excluded
    then later
    else pulled e row ∷ (if ltb (count + 1) limit then rest else [])

abbrev ids : List EchoedChange → List Text
ids [] = []
ids (c ∷ cs) = c.id ∷ ids cs

pub record Sanitized : Type 0 where
  pub fields : Fields
  pub clocks : FieldClocks

-- The variables of the transaction.
pub record Pass (Db : Type 0) : Type 0 where
  pub db : Db
  pub changes : List EchoedChange
  pub accepted : List Text
  pub events : List PendingBoardEvent

-- What the transaction leaves: the database, the response, the clock and the events to publish.
pub record Synced (Db : Type 0) : Type 0 where
  pub db : Db
  pub response : SyncResponse
  pub last_micros : ℕ
  pub events : List PendingBoardEvent

module _ {Db : Type 0} (manager : EntityManager Db) (positions : Indexer) (org : Text) where
  -- What `sanitizeClientChange` keeps of a value that the client sent.
  unfoldable pub admitted : Db → Text → Json → Option Json
  unfolding is_valid as_uuid is_board_in_org is_list_in_org
  admitted db field value =
      if text_eq field (codes "positionIdx")
      then (elim (text_of value) [
        | none ↦ none
        | some key ↦ if is_valid positions key then some (string key) else none
      ])
      else (if text_eq field (codes "listId")
          then (elim (as_uuid value) [
            | none ↦ none
            | some id ↦ if is_list_in_org manager db id org then some (string id) else none
          ])
          else (if text_eq field (codes "boardId")
              then (elim (as_uuid value) [
                | none ↦ none
                | some id ↦ if is_board_in_org manager db id org then some (string id) else none
              ])
              else some value))

  unfoldable pub sanitize_field : Db → Fields → FieldClocks → Sanitized → Text → Sanitized
  sanitize_field db source raw out field = elim (lookup field source) [
    | none ↦ out
    | some value ↦ elim (admitted db field value) [
      | none ↦ out
      | some kept ↦ record {
        fields = put field kept out.fields;
        clocks = elim (lookup field raw) [
          | none ↦ out.clocks
          | some clock ↦ put field clock out.clocks
        ];
      }
    ]
  ]

  unfoldable pub sanitize_client_change : Db → List Text → Fields → Fields → Sanitized
  sanitize_client_change db fields source clocks =
      for_each (sanitize_field db source (numeric_clocks clocks fields))
        (record { fields = []; clocks = [] }) fields

  unfoldable pub event_for_insert : SyncCollection → Db → SyncChange → Option PendingBoardEvent
  event_for_insert boards db change = none
  event_for_insert lists db change = elim (as_uuid (field_of change.fields (codes "boardId"))) [
    | none ↦ none
    | some board ↦ some (
        event list_created board
          (payload none (some change.id) (text_of (field_of change.fields (codes "positionIdx")))))
  ]
  event_for_insert cards db change = elim (as_uuid (field_of change.fields (codes "listId"))) [
    | none ↦ none
    | some list ↦ elim (board_id_for_list manager db list) [
      | none ↦ none
      | some board ↦ some (
          event card_created board (
            payload (some change.id) (some list)
              (text_of (field_of change.fields (codes "positionIdx")))))
    ]
  ]

  unfoldable pub event_for_update :
      SyncCollection → Db → Text → RecordState → RecordState → Option PendingBoardEvent
  event_for_update boards db id before after = none
  event_for_update lists db id before after =
      let key = text_of (field_of after.fields (codes "positionIdx")) in
      elim (as_uuid (
        value_or (field_of after.fields (codes "boardId"))
          (field_of before.fields (codes "boardId")))) [
            | none ↦ none
            | some board ↦
                if just_deleted before after
                then some (event list_deleted board (payload none (some id) none))
                else some (event list_updated board (payload none (some id) key))
          ]
  event_for_update cards db id before after =
      let key = text_of (field_of after.fields (codes "positionIdx")) in
      let old_key = text_of (field_of before.fields (codes "positionIdx")) in
      let old_list = as_uuid (field_of before.fields (codes "listId")) in
      elim (as_uuid (
        value_or (field_of after.fields (codes "listId"))
          (field_of before.fields (codes "listId")))) [
            | none ↦ none
            | some list ↦ elim (board_id_for_list manager db list) [
              | none ↦ none
              | some board ↦
                  if just_deleted before after
                  then some (event card_deleted board (payload (some id) (some list) none))
                  else some (
                      event
                        (if texts_differ old_list (some list) || texts_differ old_key key
                          then card_moved
                          else card_updated)
                        board (payload (some id) (some list) key))
            ]
          ]

  abbrev pub client_state : SyncCollection → Db → SyncChange → RecordState
  client_state e db change =
      let clean = sanitize_client_change db (sync_fields e) change.fields change.clocks in
      record {
        fields = clean.fields;
        clocks = clean.clocks;
        node_id = some change.node_id;
        deleted_at = change.deleted_at;
      }

  -- The write and the event of a merge that changes the server; a rejected write is an exception.
  unfoldable pub store_merge :
      SyncCollection → Text → RecordState → ServerMergeResult → Pass Db → Option (Pass Db)
  store_merge e id server result p =
      if not result.server_changed
      then some p
      else (let db = manager.update p.db e id (patch_of e result.merged) in
          if manager.accepts_update p.db e id (patch_of e result.merged)
          then some (record p {
            db = db;
            events = add_event (event_for_update e db id server result.merged) p.events;
          })
          else none)

  -- The two flags of a merge that the response reports.
  unfoldable pub answer_merge : Text → ServerMergeResult → Pass Db → Pass Db
  answer_merge id result p = record p {
    accepted = if result.client_accepted then p.accepted ++ id ∷ [] else p.accepted;
    changes = if result.server_ahead then p.changes ++ echo id result.merged ∷ [] else p.changes;
  }

  -- From the row lock on: the row is read again and merged.
  unfoldable pub merge_change : SyncCollection → Pass Db → SyncChange → Option (Pass Db)
  unfolding store_merge answer_merge
  merge_change e p change = elim (manager.find_one p.db e change.id) [
    | none ↦ some p
    | some row ↦
        let server = server_state e row in
        let result = merge_server_record server (client_state e p.db change) in
        elim (store_merge e change.id server result p) [
          | none ↦ none
          | some stored ↦ some (answer_merge change.id result stored)
        ]
  ]

  -- An insert: the change is accepted and its event is queued.
  abbrev pub with_insert : SyncCollection → Db → SyncChange → Pass Db → Pass Db
  with_insert e db change p = record p {
    db = db;
    accepted = p.accepted ++ change.id ∷ [];
    events = add_event (event_for_insert e db change) p.events;
  }

  -- One round of the loop over the changes.
  unfoldable pub process_change : SyncCollection → Pass Db → SyncChange → Option (Pass Db)
  unfolding load
  process_change e p change = elim (load manager e p.db change.id org) [
    | some row ↦ merge_change e p change
    | none ↦ elim (try_insert manager positions e p.db org change) [
      | failed ↦ none
      | created db ↦ some (with_insert e db change p)
      | declined db ↦ elim (load manager e db change.id org) [
        | none ↦ some (record p { db = db })
        | some row ↦ merge_change e (record p { db = db }) change
      ]
    ]
  ]

  unfoldable pub process_changes : SyncCollection → Pass Db → List SyncChange → Option (Pass Db)
  process_changes e p [] = some p
  process_changes e p (c ∷ cs) = elim (process_change e p c) [
    | none ↦ none
    | some q ↦ process_changes e q cs
  ]

  unfoldable pub pull_since_checkpoint : SyncCollection → Db → ℕ → List Text → ℕ → List EchoedChange
  pull_since_checkpoint e db cp excluded limit = collect e excluded limit 0 (
      take (limit + length excluded)
        (keep (λ row. in_org manager e db org row && is_newer cp row) (manager.find_all db e)))

  -- The changes of the response, with the delta-pull.
  unfoldable pub with_pull : SyncRequest → Pass Db → List EchoedChange
  with_pull req p =
      let room = max_sync_changes - length p.changes in
      let excluded = add_all (add_all [] (ids p.changes)) p.accepted in
      if ltb 0 req.since_checkpoint && ltb 0 room
      then p.changes ++ pull_since_checkpoint req.collection p.db req.since_checkpoint excluded room
      else p.changes

  abbrev pub synced : ℕ → ℕ → SyncRequest → Pass Db → Synced Db
  synced last_micros wall req p = record {
    db = p.db;
    response = record {
      changes = with_pull req p;
      checkpoint = now_micros last_micros wall;
      accepted_ids = p.accepted;
    };
    last_micros = now_micros last_micros wall;
    events = p.events;
  }

  unfoldable pub sync : ℕ → ℕ → Db → SyncRequest → Option (Synced Db)
  sync last_micros wall db req =
      elim (process_changes req.collection
        (record { db = db; changes = []; accepted = []; events = [] }) (sort_by_id req.changes)) [
          | none ↦ none
          | some p ↦ some (synced last_micros wall req p)
        ]
