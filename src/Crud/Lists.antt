-- ===== src/Crud/Lists.antt =====
-- backend/src/lists/lists.service.ts.
use flow_logix.Common.{not, Option, none, some, List, [], ◌∷◌, Text, codes, keep, if◌then◌else◌}
use flow_logix.Crdt.Json.{string}
use flow_logix.Crdt.Record.{Fields}
use flow_logix.Ordering.Indexer.{Indexer}
use flow_logix.Ordering.Position.{is_valid}
use flow_logix.Board.State.{BoardMutationType, list_created, list_updated, list_deleted}
use flow_logix.Sync.Store.{SyncRow, EntityManager, lists}
use flow_logix.Sync.Requests.{PendingBoardEvent}
use flow_logix.Sync.Visibility.{is_sync_deleted, filter_visible}
use flow_logix.Crud.Answers.{Answer, answered, not_found, ◌>>=◌, refuse_if}
use flow_logix.Crud.Tenant.{assert_board_in_org, assert_list_in_org}
use flow_logix.Crud.Positions.{text_column, is_text, resolve_position}
use flow_logix.Crud.Cards.{Saved, assign, set_text, column_or_empty, visibility_of}

-- `CreateListDto` and `UpdateListDto`: the key, and the other properties.
pub record ListDto : Type 0 where
  pub content : Fields
  pub position_idx : Option Text

abbrev pub list_event : BoardMutationType → Text → Text → Option Text → PendingBoardEvent
list_event type board id key = record {
  type = type;
  board_id = board;
  payload = record { card_id = none; list_id = some id; position_idx = key };
}

abbrev pub created_list : Text → Text → Text → ListDto → SyncRow
created_list id board key dto = set_text (codes "positionIdx") (some key) (
    set_text (codes "boardId") (some board) (
      assign dto.content (record {
        columns = (codes "id", string id) ∷ [];
        sync_clocks = some [];
        node_id = none;
        sync_deleted_at = none;
      })))

-- `Object.assign(list, dto)`
abbrev pub updated_list : ListDto → SyncRow → SyncRow
updated_list dto list = set_text (codes "positionIdx") dto.position_idx (assign dto.content list)

module _ {Db : Type 0} (manager : EntityManager Db) (positions : Indexer) where
  unfoldable pub create : Db → Text → Text → Text → ListDto → Answer (Saved Db)
  unfolding assert_board_in_org resolve_position
  create db new_id board_id org dto = do
    board ← assert_board_in_org manager db board_id org
    key ← resolve_position manager positions lists db board_id dto.position_idx
    answered (record {
      db = manager.save db lists new_id (created_list new_id board_id key dto);
      row = created_list new_id board_id key dto;
      event = list_event list_created board_id new_id (some key);
    })

  unfoldable pub find_all : Db → Text → Text → Answer (List SyncRow)
  unfolding assert_board_in_org filter_visible
  find_all db board_id org = do
    board ← assert_board_in_org manager db board_id org
    answered (
        filter_visible visibility_of (
          keep (λ row. is_text (text_column (codes "boardId") row) board_id)
            (manager.find_all db lists)))

  unfoldable pub find_one : Db → Text → Text → Answer SyncRow
  unfolding assert_list_in_org is_sync_deleted
  find_one db id org = do
    list ← assert_list_in_org manager db id org
    if is_sync_deleted (visibility_of list) then not_found else answered list

  -- `assertValid(dto.positionIdx)`, if it is given.
  abbrev check_key : Option Text → Answer (Unit {0})
  check_key none = answered tt
  check_key (some key) = refuse_if (not (is_valid positions key))

  unfoldable pub update : Db → Text → Text → ListDto → Answer (Saved Db)
  unfolding assert_list_in_org is_valid
  update db id org dto = do
    list ← assert_list_in_org manager db id org
    checked ← check_key dto.position_idx
    answered (record {
      db = manager.save db lists id (updated_list dto list);
      row = updated_list dto list;
      event =
          list_event list_updated (column_or_empty (codes "boardId") (updated_list dto list)) id
            (text_column (codes "positionIdx") (updated_list dto list));
    })

  unfoldable pub remove : Db → Text → Text → Answer (Saved Db)
  unfolding assert_list_in_org
  remove db id org = do
    list ← assert_list_in_org manager db id org
    answered (record {
      db = manager.remove db lists id;
      row = list;
      event = list_event list_deleted (column_or_empty (codes "boardId") list) id none;
    })
