-- ===== src/Crud/Tenant.antt =====
-- backend/src/common/tenant/tenant-access.service.ts: a row of another organisation and one that
-- is not there answer alike.
use flow_logix.Common.{Text}
use flow_logix.Sync.Store.{SyncRow, EntityManager, boards, lists, cards}
use flow_logix.Sync.Strategies.{load}
use flow_logix.Auth.{UsersRepo, User}
use flow_logix.Crud.Answers.{Answer, found_or_404}

module _ {Db : Type 0} (manager : EntityManager Db) where
  unfoldable pub assert_board_in_org : Db → Text → Text → Answer SyncRow
  unfolding load
  assert_board_in_org db id org = found_or_404 (load manager boards db id org)

  unfoldable pub assert_list_in_org : Db → Text → Text → Answer SyncRow
  unfolding load
  assert_list_in_org db id org = found_or_404 (load manager lists db id org)

  unfoldable pub assert_card_in_org : Db → Text → Text → Answer SyncRow
  unfolding load
  assert_card_in_org db id org = found_or_404 (load manager cards db id org)

unfoldable pub assert_user_in_org : {Db : Type 0} → UsersRepo Db → Db → Text → Text → Answer User
assert_user_in_org users db id org = found_or_404 (users.find_in_org db id org)
