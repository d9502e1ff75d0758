-- ===== src/Crud/Comments.antt =====
-- backend/src/comments/comments.service.ts.
use flow_logix.Common.{List, Text, Option}
use flow_logix.Sync.Store.{EntityManager, SyncRow}
use flow_logix.Crud.Answers.{Answer, answered, not_found, bad_request, failed, ◌>>=◌, found_or_404}
use flow_logix.Crud.Tenant.{assert_card_in_org, assert_user_in_org}
use flow_logix.Auth.{UsersRepo}

pub record Comment : Type 0 where
  pub id : Text
  pub card_id : Text
  pub user_id : Text
  pub text_content : Text

pub record CreateCommentDto : Type 0 where
  pub user_id : Text
  pub text_content : Text

pub record UpdateCommentDto : Type 0 where
  pub text_content : Text

-- The comments as the database shows them to an organisation, the first `Text` of each call.
pub record CommentTable (Db : Type 0) : Type 0 where
  pub find_one : Db → Text → Text → Option Comment
  pub find_of_card : Db → Text → Text → List Comment
  pub save : Db → Text → Comment → Db
  pub remove : Db → Text → Comment → Db

-- `m.create(Comment, { ...dto, cardId })`
abbrev pub created_comment : Text → Text → CreateCommentDto → Comment
created_comment id card_id dto = record {
  id = id;
  card_id = card_id;
  user_id = dto.user_id;
  text_content = dto.text_content;
}

-- `Object.assign(comment, dto)`
abbrev pub updated_comment : UpdateCommentDto → Comment → Comment
updated_comment dto comment = record comment { text_content = dto.text_content }

-- The `catch` of `findOne`: whatever the check of the card throws, the comment is not found.
abbrev pub or_not_found : Comment → Answer SyncRow → Answer Comment
or_not_found comment (answered card) = answered comment
or_not_found comment not_found = not_found
or_not_found comment bad_request = not_found
or_not_found comment (failed e) = not_found

module _ {Db : Type 0} (manager : EntityManager Db) (users : UsersRepo Db)
    (comments : CommentTable Db) where
  unfoldable pub create : Db → Text → Text → Text → CreateCommentDto → Answer (Db × Comment)
  unfolding assert_card_in_org assert_user_in_org
  create db new_id card_id org dto = do
    card ← assert_card_in_org manager db card_id org
    user ← assert_user_in_org users db dto.user_id org
    answered (
      comments.save db org (created_comment new_id card_id dto),
      created_comment new_id card_id dto,
    )

  unfoldable pub find_all : Db → Text → Text → Answer (List Comment)
  unfolding assert_card_in_org
  find_all db card_id org = do
    card ← assert_card_in_org manager db card_id org
    answered (comments.find_of_card db org card_id)

  unfoldable pub find_one : Db → Text → Text → Answer Comment
  unfolding assert_card_in_org
  find_one db id org = do
    comment ← found_or_404 (comments.find_one db org id)
    or_not_found comment (assert_card_in_org manager db comment.card_id org)

  unfoldable pub update : Db → Text → Text → UpdateCommentDto → Answer (Db × Comment)
  unfolding find_one
  update db id org dto = do
    comment ← find_one db id org
    answered (comments.save db org (updated_comment dto comment), updated_comment dto comment)

  unfoldable pub remove : Db → Text → Text → Answer Db
  unfolding find_one
  remove db id org = do comment ← find_one db id org; answered (comments.remove db org comment)
