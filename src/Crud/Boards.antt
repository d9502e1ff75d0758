-- ===== src/Crud/Boards.antt =====
-- backend/src/boards/boards.service.ts.
use flow_logix.Common.{Bool, Option, none, some, List, [], ◌∷◌, Text, codes, keep, if◌then◌else◌}
use flow_logix.Crdt.Json.{string}
use flow_logix.Crdt.Record.{Fields}
use flow_logix.Sync.Store.{SyncRow, EntityManager, boards}
use flow_logix.Sync.Visibility.{is_sync_deleted, filter_visible}
use flow_logix.Crud.Answers.{Answer, answered, not_found, ◌>>=◌}
use flow_logix.Crud.Tenant.{assert_board_in_org}
use flow_logix.Crud.Positions.{text_column, is_text}
use flow_logix.Crud.Cards.{assign, set_text, visibility_of}

-- `CreateBoardDto` and `UpdateBoardDto`: who created the board, and the other properties.
pub record BoardDto : Type 0 where
  pub content : Fields
  pub created_by : Option Text

abbrev pub board_row : Text → Text → BoardDto → SyncRow
board_row id org dto = set_text (codes "orgId") (some org) (
    set_text (codes "createdBy") dto.created_by (
      assign dto.content (record {
        columns = (codes "id", string id) ∷ [];
        sync_clocks = some [];
        node_id = none;
        sync_deleted_at = none;
      })))

abbrev pub updated_board : BoardDto → SyncRow → SyncRow
updated_board dto board = set_text (codes "createdBy") dto.created_by (assign dto.content board)

-- `user_in_org` is the look-up of `assertUserInOrg` among the users.
module _ {Db : Type 0} (manager : EntityManager Db) (user_in_org : Text → Text → Bool) where
  -- `if (dto.createdBy) await assertUserInOrg(dto.createdBy, orgId)`
  abbrev check_creator : Option Text → Text → Answer (Unit {0})
  check_creator none org = answered tt
  check_creator (some []) org = answered tt
  check_creator (some (c ∷ user)) org =
      if user_in_org (c ∷ user) org then answered tt else not_found

  unfoldable pub create : Db → Text → Text → BoardDto → Answer (Db × SyncRow)
  create db new_id org dto = do
    checked ← check_creator dto.created_by org
    answered (manager.save db boards new_id (board_row new_id org dto), board_row new_id org dto)

  unfoldable pub find_all : Db → Text → List SyncRow
  unfolding filter_visible
  find_all db org =
      filter_visible visibility_of
        (keep (λ row. is_text (text_column (codes "orgId") row) org) (manager.find_all db boards))

  unfoldable pub find_one : Db → Text → Text → Answer SyncRow
  unfolding assert_board_in_org is_sync_deleted
  find_one db id org = do
    board ← assert_board_in_org manager db id org
    if is_sync_deleted (visibility_of board) then not_found else answered board

  unfoldable pub update : Db → Text → Text → BoardDto → Answer (Db × SyncRow)
  unfolding assert_board_in_org
  update db id org dto = do
    checked ← check_creator dto.created_by org
    board ← assert_board_in_org manager db id org
    answered (manager.save db boards id (updated_board dto board), updated_board dto board)

  unfoldable pub remove : Db → Text → Text → Answer Db
  unfolding assert_board_in_org
  remove db id org = do
    board ← assert_board_in_org manager db id org
    answered (manager.remove db boards id)
