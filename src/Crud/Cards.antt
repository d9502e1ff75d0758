-- ===== src/Crud/Cards.antt =====
-- backend/src/cards/cards.service.ts: the calls that write, each with the event that it emits once
-- its transaction is committed.
pub mod Placement
use flow_logix.Common.{
  ◌≡◌, Bool, true, false, not, ◌&&◌, ◌||◌, Option, none, some, List, [], ◌∷◌, ◌++◌, Text, codes,
  text_eq, if◌then◌else◌, get_or_else, is_some, put, for_each, keep,
}
use flow_logix.Crdt.Json.{Json, string}
use flow_logix.Crdt.Record.{Fields, field_of}
use flow_logix.Ordering.Indexer.{Indexer}
use flow_logix.Ordering.Position.{is_valid}
use flow_logix.Board.State.{
  BoardMutationType, BoardMutationPayload, card_created, card_moved, card_updated, card_deleted,
}
use flow_logix.Sync.Store.{SyncCollection, lists, cards, SyncRow, EntityManager}
use flow_logix.Sync.Requests.{PendingBoardEvent}
use flow_logix.Sync.Strategies.{load}
use flow_logix.Sync.Visibility.{SyncDeletable, is_sync_deleted, numbers, filter_visible}
use flow_logix.Crud.Answers.{
  Answer, answered, not_found, bad_request, ◌>>=◌, ◌>>◌, refuse_if, found_or_404,
}
use flow_logix.Crud.Tenant.{assert_list_in_org, assert_card_in_org}
use flow_logix.Crud.Positions.{
  text_column, is_text, resolve_position, resolve_position_from_neighbors,
}

-- `CreateCardDto`: the key, and the other properties.
pub record CreateCard : Type 0 where
  pub content : Fields
  pub position_idx : Option Text

-- `UpdateCardDto`: `content` is `contentFields`.
pub record UpdateCard : Type 0 where
  pub content : Fields
  pub list_id : Option Text
  pub position_idx : Option Text
  pub before_card_id : Option Text
  pub after_card_id : Option Text

-- What a call leaves: the database, the row and the event.
pub record Saved (Db : Type 0) : Type 0 where
  pub db : Db
  pub row : SyncRow
  pub event : PendingBoardEvent

-- `Object.assign(row, properties)`
abbrev pub assign : Fields → SyncRow → SyncRow
assign properties row = record row {
  columns = for_each (λ columns p. put (p.0) (p.1) columns) row.columns properties;
}

abbrev pub set_text : Text → Option Text → SyncRow → SyncRow
set_text column none row = row
set_text column (some t) row = record row { columns = put column (string t) row.columns }

abbrev pub column_or_empty : Text → SyncRow → Text
column_or_empty column row = get_or_else (text_column column row) []

abbrev pub card_event : BoardMutationType → Text → Text → SyncRow → PendingBoardEvent
card_event type board id row = record {
  type = type;
  board_id = board;
  payload = record {
    card_id = some id;
    list_id = text_column (codes "listId") row;
    position_idx = text_column (codes "positionIdx") row;
  };
}

-- The row of a card that is created: `m.create(Card, { ...dto, listId, positionIdx })`.
abbrev pub created_card : Text → Text → Text → CreateCard → SyncRow
created_card id list key dto = set_text (codes "positionIdx") (some key) (
    set_text (codes "listId") (some list) (
      assign dto.content (record {
        columns = (codes "id", string id) ∷ [];
        sync_clocks = some [];
        node_id = none;
        sync_deleted_at = none;
      })))

-- `dto.listId !== undefined && dto.listId !== card.listId`
abbrev pub is_cross_list : Option Text → Option Text → Bool
is_cross_list none from = false
is_cross_list (some to) from = not (is_text from to)

-- The visibility of a row: its clocks are numbers.
abbrev pub visibility_of : SyncRow → SyncDeletable
visibility_of row = record {
  sync_deleted_at = row.sync_deleted_at;
  sync_clocks = elim row.sync_clocks [ none ↦ none | some clocks ↦ some (numbers clocks) ];
}

module _ {Db : Type 0} (manager : EntityManager Db) (positions : Indexer) where
  -- `card.list.boardId`
  abbrev pub board_of_card : Db → SyncRow → Text
  board_of_card db row = elim (manager.find_one db lists (column_or_empty (codes "listId") row)) [
    | none ↦ []
    | some list ↦ column_or_empty (codes "boardId") list
  ]

  -- `new_id` is the id that the database gives the row.
  unfoldable pub create : Db → Text → Text → Text → CreateCard → Answer (Saved Db)
  unfolding assert_list_in_org resolve_position
  create db new_id list_id org dto = do
    list ← assert_list_in_org manager db list_id org
    key ← resolve_position manager positions cards db list_id dto.position_idx
    answered (record {
      db = manager.save db cards new_id (created_card new_id list_id key dto);
      row = created_card new_id list_id key dto;
      event =
          card_event card_created (column_or_empty (codes "boardId") list) new_id
            (created_card new_id list_id key dto);
    })

  unfoldable pub find_all : Db → Text → Text → Answer (List SyncRow)
  unfolding assert_list_in_org filter_visible
  find_all db list_id org = do
    list ← assert_list_in_org manager db list_id org
    answered (
        filter_visible visibility_of (
          keep (λ row. is_text (text_column (codes "listId") row) list_id)
            (manager.find_all db cards)))

  unfoldable pub find_one : Db → Text → Text → Answer SyncRow
  unfolding assert_card_in_org is_sync_deleted
  find_one db id org = do
    card ← assert_card_in_org manager db id org
    if is_sync_deleted (visibility_of card) then not_found else answered card

  -- The target list must be one of the organisation, on the card's board.
  unfoldable pub check_target : Db → Text → Text → Option Text → SyncRow → Answer (Unit {0})
  unfolding assert_list_in_org
  check_target db org board target card =
      if not (is_cross_list target (text_column (codes "listId") card)) then answered tt else (do
        list ← assert_list_in_org manager db (get_or_else target []) org
        refuse_if (not (text_eq (column_or_empty (codes "boardId") list) board)))

  abbrev pub some_key : Answer Text → Answer (Option Text)
  some_key m = do key ← m; answered (some key)

  -- `nextPositionIdx`
  unfoldable pub next_position : Db → Text → UpdateCard → SyncRow → Answer (Option Text)
  unfolding resolve_position resolve_position_from_neighbors
  next_position db id dto card =
      let from = text_column (codes "listId") card in
      let target = get_or_else dto.list_id (get_or_else from []) in
      if is_some dto.before_card_id || is_some dto.after_card_id
      then some_key (
          resolve_position_from_neighbors manager positions db id target dto.before_card_id
            dto.after_card_id)
      else (elim dto.position_idx [
        | some key ↦ some_key (resolve_position manager positions cards db target (some key))
        | none ↦
            if is_cross_list dto.list_id from
            then some_key (resolve_position manager positions cards db target none)
            else answered none
      ])

  abbrev pub updated_card : UpdateCard → Option Text → SyncRow → SyncRow
  updated_card dto key card =
      set_text (codes "positionIdx") key
        (set_text (codes "listId") dto.list_id (assign dto.content card))

  abbrev moved : Option Text → Option Text → SyncRow → Bool
  moved key from row = is_some key || not (is_text from (column_or_empty (codes "listId") row))

  -- The card is written, and the event tells a change of list or key from any other.
  abbrev pub saved_update : Db → Text → UpdateCard → SyncRow → Option Text → Saved Db
  saved_update db id dto card key = record {
    db = manager.save db cards id (updated_card dto key card);
    row = updated_card dto key card;
    event =
        card_event
          (if moved key (text_column (codes "listId") card) (updated_card dto key card)
            then card_moved
            else card_updated)
          (board_of_card db card) id (updated_card dto key card);
  }

  unfoldable pub update : Db → Text → Text → UpdateCard → Answer (Saved Db)
  unfolding assert_card_in_org check_target next_position
  update db id org dto = do
    card ← assert_card_in_org manager db id org
    checked ← check_target db org (board_of_card db card) dto.list_id card
    key ← next_position db id dto card
    answered (saved_update db id dto card key)

  unfoldable pub remove : Db → Text → Text → Answer (Saved Db)
  unfolding assert_card_in_org
  remove db id org = do
    card ← assert_card_in_org manager db id org
    answered (record {
      db = manager.remove db cards id;
      row = card;
      event = record {
        type = card_deleted;
        board_id = board_of_card db card;
        payload = record {
          card_id = some id;
          list_id = text_column (codes "listId") card;
          position_idx = none;
        };
      };
    })
