-- ===== src/Sync/Service/Tests.antt =====
-- Runs of the server's synchronisation over tables in memory.
use flow_logix.Common.{
  ◌≡◌, ◌≢◌, refl, subst, true, is_some, Option, none, some, List, [], ◌∷◌, Text, codes, cmp,
  text_eq, arith, map, Bool-cases, inl, inr, lookup, add_all,
}
use flow_logix.Crdt.Json.{Json, string, number}
use flow_logix.Crdt.Record.{Fields}
use flow_logix.Ordering.Indexer.{Indexer, Result, ok, throw, make, is_valid_key, assert_valid_key}
use flow_logix.Ordering.Position.{base62, is_valid}
use flow_logix.Sync.Store.{SyncCollection, boards, lists, cards, SyncRow, unique_violation}
use flow_logix.Sync.Requests.{SyncRequest}
use flow_logix.Sync.Strategies.{load, in_org}
use flow_logix.Sync.Service.{pulled, pull_since_checkpoint, sync, Synced}
use flow_logix.Sync.Service.Pull.{owed, pull_since_checkpoint_complete}
use flow_logix.Sync.Service.Keys.{IsKeyed, IsPositioned}
use flow_logix.Sync.Service.Keys.Stays.{sync-IsKeyed}
use flow_logix.Sync.Service.Tenants.Isolated.{sync-Keeps}
use flow_logix.Sync.Service.{
  sort_by_id, process_changes, process_change, merge_change, sanitize_client_change, sanitize_field,
  admitted, store_merge, answer_merge, event_for_update, event_for_insert, now_micros, with_pull,
}
use flow_logix.Sync.Merge.{
  merge_server_record, merge_keys, merge_key, winner_of, pick_field, merge_tombstone, newest_node,
  newest_clock, is_server_ahead,
}
use flow_logix.Sync.Requests.{is_uuid, as_uuid, as_non_empty_string, is_blank, numeric_clocks}
use flow_logix.Sync.Strategies.{
  try_insert, new_columns, new_row, resolve_position_key, is_list_in_org, is_board_in_org,
  board_id_for_list,
}
use flow_logix.Ordering.Indexer.{
  get_intermediate_key, assert_valid_bound, midpoint, split_digits, shared_run, lower_digit,
  upper_digit, rank_of, middle_digit, keep_digit,
}
use flow_logix.Ordering.Position.{key_for_append}
use flow_logix.Crdt.Json.{undefined, compare_values, canonical, stringify}
use flow_logix.Crdt.Record.{field_of, max_clock}
use flow_logix.Sync.Tables.{Tables, tables, insert_into, violates}

indexer_of : Result Indexer → Indexer
indexer_of (ok ix) = ix
indexer_of (throw e) = record { alphabet = []; zero_char = 0; seed = 0; rank_by_char = λ c. none }

indexer : Indexer
unfolding make indexer_of
indexer = indexer_of base62

made : base62 ≡ ok indexer
unfolding indexer
made = refl

abbrev acme : Text
acme = codes "acme"

abbrev rival : Text
rival = codes "rival"

abbrev board_id : Text
board_id = codes "0f8fad5b-d9cb-469f-a165-70867728950e"

abbrev rival_id : Text
rival_id = codes "7c9e6679-7425-40de-944b-e07fc1f90ae7"

abbrev list_id : Text
list_id = codes "16fd2706-8baf-433b-82eb-8c7fada847da"

abbrev new_id : Text
new_id = codes "6fa459ea-ee8a-3ca4-894e-db77e160355e"

abbrev stored : Fields → SyncRow
stored columns = record {
  columns = columns;
  sync_clocks = some ((codes "title", 5) ∷ []);
  node_id = none;
  sync_deleted_at = none;
}

abbrev board_of : Text → Text → SyncRow
board_of id org = stored ((codes "id", string id) ∷ (codes "orgId", string org) ∷ [])

abbrev doing : SyncRow
doing = stored (
    (codes "id", string list_id)
    ∷ (codes "boardId", string board_id)
    ∷ (codes "title", string (codes "Doing"))
    ∷ (codes "positionIdx", string (codes "V"))
    ∷ [])

abbrev start : Tables
start = record {
  board_rows = (board_id, board_of board_id acme) ∷ (rival_id, board_of rival_id rival) ∷ [];
  list_rows = (list_id, doing) ∷ [];
  card_rows = [];
}

-- A new list, and a hostile change of the one that is there.
abbrev request : SyncRequest
request = record {
  collection = lists;
  since_checkpoint = 3;
  changes =
      (record {
        id = new_id;
        fields = (codes "title", string (codes "Done")) ∷ (codes "boardId", string board_id) ∷ [];
        clocks = (codes "title", number 9) ∷ [];
        node_id = codes "phone";
        deleted_at = none;
      })
      ∷ (record {
        id = list_id;
        fields =
            (codes "positionIdx", string (codes "not a key"))
            ∷ (codes "boardId", string rival_id)
            ∷ [];
        clocks = (codes "positionIdx", number 99) ∷ (codes "boardId", number 99) ∷ [];
        node_id = codes "phone";
        deleted_at = none;
      })
      ∷ [];
}

one_row :
    (j id : Text) (stored row : SyncRow) → lookup id ((j, stored) ∷ []) ≡ some row → stored ≡ row
one_row j id stored row found = elim (Bool-cases (text_eq j id)) [
  | inl same ↦ ground arith
  | inr other ↦ absurd (ground arith)
]

doing-IsPositioned : IsPositioned indexer lists doing.columns
unfolding cmp is_valid is_valid_key assert_valid_key indexer
doing-IsPositioned = (codes "V", refl, refl)

start-IsKeyed : IsKeyed indexer tables start
unfolding tables
start-IsKeyed boards id row found = tt
start-IsKeyed lists id row found =
    subst (λ r. IsPositioned indexer lists r.columns) (one_row list_id id doing row found)
      doing-IsPositioned
start-IsKeyed cards id row found = cc

-- A database in memory has no other transactions.
stays-IsKeyed :
    (db db' : Tables) (e : SyncCollection) (id : Text) (row : SyncRow)
    → IsKeyed indexer tables db
    → insert_into db e id row ≡ unique_violation db'
    → IsKeyed indexer tables db'
stays-IsKeyed db db' e id row keyed h =
    subst (IsKeyed indexer tables) (violates db db' e id row h) keyed

value_of : {A : Type 0} (o : Option A) → is_some o ≡ true → (a : A) × (o ≡ some a)
value_of none h = cc
value_of (some a) h = (a, refl)

completes : (done : Synced Tables) × (sync tables indexer acme 0 1 start request ≡ some done)
unfolding sync sort_by_id process_changes process_change merge_change load in_org try_insert
    new_columns new_row is_uuid as_uuid as_non_empty_string is_blank numeric_clocks
    resolve_position_key key_for_append get_intermediate_key is_valid is_valid_key
    assert_valid_bound assert_valid_key midpoint split_digits shared_run lower_digit upper_digit
    rank_of middle_digit keep_digit cmp indexer sanitize_client_change sanitize_field admitted
    is_list_in_org is_board_in_org store_merge answer_merge merge_server_record merge_keys merge_key
    winner_of pick_field merge_tombstone newest_node newest_clock is_server_ahead compare_values
    canonical stringify event_for_update event_for_insert board_id_for_list now_micros with_pull
    max_clock tables add_all
completes = value_of (sync tables indexer acme 0 1 start request) refl

keys_hold :
    (done : Synced Tables) × (sync tables indexer acme 0 1 start request ≡ some done)
    × IsKeyed indexer tables done.db
unfolding tables
keys_hold =
    let (done, ran) = completes in
    (
      done,
      ran,
      sync-IsKeyed tables made acme stays-IsKeyed 0 1 start request done start-IsKeyed ran,
    )

rival_loads : load tables boards start rival_id rival ≡ some (board_of rival_id rival)
unfolding load in_org cmp tables
rival_loads = refl

apart : acme ≢ rival
apart h = cc

rival_untouched :
    (done : Synced Tables) × (sync tables indexer acme 0 1 start request ≡ some done)
    × (load tables boards done.db rival_id rival ≡ some (board_of rival_id rival))
rival_untouched =
    let (done, ran) = completes in
    (
      done,
      ran,
      sync-Keeps tables indexer acme rival apart 0 1 start request done ran boards rival_id
          (board_of rival_id rival) rival_loads,
    )

pulls_first :
    pull_since_checkpoint tables indexer acme lists start 3 [] 1
    ≡ map (pulled lists) (owed tables indexer acme lists start 3 [] 1)
unfolding cmp tables
pulls_first =
    pull_since_checkpoint_complete tables indexer acme lists start 3 [] 1 refl (omega arith)

-- The list that the change wants to move to a board of another organisation stays where it is, and
-- its place is untouched; the new list is appended after it. Yet the change counts as accepted: a
-- field that is dropped or omitted wins its tie against a row without clocks.
abbrev column_after : Option (Synced Tables) → Text → Text → Json
column_after none id column = undefined
column_after (some done) id column = elim (tables.find_one done.db lists id) [
  | none ↦ undefined
  | some row ↦ field_of row.columns column
]

abbrev accepted_after : Option (Synced Tables) → List Text
accepted_after none = []
accepted_after (some done) = done.response.accepted_ids

run :
    let after = sync tables indexer acme 0 1 start request in
    (column_after after list_id (codes "boardId") ≡ string board_id)
    × (column_after after list_id (codes "positionIdx") ≡ string (codes "V"))
    × (column_after after new_id (codes "positionIdx") ≡ string (codes "l"))
    × (accepted_after after ≡ list_id ∷ new_id ∷ [])
unfolding sync sort_by_id process_changes process_change merge_change load in_org try_insert
    new_columns new_row is_uuid as_uuid as_non_empty_string is_blank numeric_clocks
    resolve_position_key key_for_append get_intermediate_key is_valid is_valid_key
    assert_valid_bound assert_valid_key midpoint split_digits shared_run lower_digit upper_digit
    rank_of middle_digit keep_digit cmp indexer sanitize_client_change sanitize_field admitted
    is_list_in_org is_board_in_org store_merge answer_merge merge_server_record merge_keys merge_key
    winner_of pick_field merge_tombstone newest_node newest_clock is_server_ahead compare_values
    canonical stringify event_for_update event_for_insert board_id_for_list now_micros with_pull
    max_clock tables add_all
run = (refl, refl, refl, refl)
