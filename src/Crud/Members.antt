-- ===== src/Crud/Members.antt =====
-- backend/src/board-members/board-members.service.ts.
use flow_logix.Common.{List, [], ◌∷◌, Text, Option, none, some, get_or_else}
use flow_logix.Sync.Store.{EntityManager}
use flow_logix.Crud.Answers.{Answer, answered, ◌>>=◌, found_or_404}
use flow_logix.Crud.Tenant.{assert_board_in_org, assert_user_in_org}
use flow_logix.Auth.{UsersRepo, SafeUser}

pub data BoardMemberRole : Type 0 where
  owner admin member viewer : BoardMemberRole

pub record BoardMember : Type 0 where
  pub board_id : Text
  pub user_id : Text
  pub role : BoardMemberRole

pub record CreateBoardMemberDto : Type 0 where
  pub user_id : Text
  pub role : Option BoardMemberRole

pub record UpdateBoardMemberDto : Type 0 where
  pub role : BoardMemberRole

-- The user that a member is read with; the hash goes before the rows are answered.
pub record RelatedUser : Type 0 where
  pub safe : SafeUser
  pub password_hash : Option Text

pub record MemberRow : Type 0 where
  pub row : BoardMember
  pub user : Option RelatedUser

pub record MembersRepo (Db : Type 0) : Type 0 where
  pub find_one : Db → Text → Text → Option BoardMember
  pub find_with_users : Db → Text → List MemberRow
  pub save : Db → BoardMember → Db
  pub delete : Db → Text → Text → Db

-- Without a role the entity's default stands.
abbrev pub created_member : Text → CreateBoardMemberDto → BoardMember
created_member board_id dto = record {
  board_id = board_id;
  user_id = dto.user_id;
  role = get_or_else dto.role member;
}

abbrev pub given_role : UpdateBoardMemberDto → BoardMember → BoardMember
given_role dto found = record found { role = dto.role }

-- `delete row.user.passwordHash`
abbrev pub without_hash : Option RelatedUser → Option RelatedUser
without_hash none = none
without_hash (some user) = some (record user { password_hash = none })

abbrev pub without_hashes : List MemberRow → List MemberRow
without_hashes [] = []
without_hashes (r ∷ rows) = record r { user = without_hash r.user } ∷ without_hashes rows

module _ {Db : Type 0} (manager : EntityManager Db) (users : UsersRepo Db)
    (members : MembersRepo Db) where
  unfoldable pub create : Db → Text → Text → CreateBoardMemberDto → Answer (Db × BoardMember)
  unfolding assert_board_in_org assert_user_in_org
  create db board_id org dto = do
    board ← assert_board_in_org manager db board_id org
    user ← assert_user_in_org users db dto.user_id org
    answered (members.save db (created_member board_id dto), created_member board_id dto)

  unfoldable pub find_all : Db → Text → Text → Answer (List MemberRow)
  unfolding assert_board_in_org
  find_all db board_id org = do
    board ← assert_board_in_org manager db board_id org
    answered (without_hashes (members.find_with_users db board_id))

  unfoldable pub find_one : Db → Text → Text → Text → Answer BoardMember
  unfolding assert_board_in_org
  find_one db board_id user_id org = do
    board ← assert_board_in_org manager db board_id org
    found_or_404 (members.find_one db board_id user_id)

  unfoldable pub update : Db → Text → Text → Text → UpdateBoardMemberDto → Answer (Db × BoardMember)
  unfolding find_one
  update db board_id user_id org dto = do
    found ← find_one db board_id user_id org
    answered (members.save db (given_role dto found), given_role dto found)

  unfoldable pub remove : Db → Text → Text → Text → Answer Db
  unfolding find_one
  remove db board_id user_id org = do
    found ← find_one db board_id user_id org
    answered (members.delete db board_id user_id)
