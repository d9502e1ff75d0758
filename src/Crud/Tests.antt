-- ===== src/Crud/Tests.antt =====
-- A card that is moved between two others.
use flow_logix.Common.{◌≡◌, refl, true, none, some, [], ◌∷◌, Text, codes, cmp}
use flow_logix.Crdt.Json.{string}
use flow_logix.Crdt.Record.{Fields}
use flow_logix.Ordering.Indexer.{
  Indexer, Result, ok, throw, make, get_intermediate_key, is_valid_key, assert_valid_bound,
  assert_valid_key, midpoint, split_digits, shared_run, lower_digit, upper_digit, rank_of,
  middle_digit, keep_digit,
}
use flow_logix.Ordering.Indexer.Laws.{SortsAbove, SortsBelow}
use flow_logix.Ordering.Position.{base62, is_valid, key_between}
use flow_logix.Board.State.{card_moved}
use flow_logix.Sync.Store.{SyncRow, cards}
use flow_logix.Sync.Strategies.{load, in_org}
use flow_logix.Sync.Tables.{Tables, tables}
use flow_logix.Crud.Answers.{answered}
use flow_logix.Crud.Tenant.{assert_card_in_org, assert_list_in_org}
use flow_logix.Crud.Positions.{text_column, resolve_position_from_neighbors}
use flow_logix.Crud.Cards.{UpdateCard, Saved, saved_update, update, check_target, next_position}
use flow_logix.Crud.Cards.Placement.{Beside, target_of, update-between}

indexer_of : Result Indexer → Indexer
indexer_of (ok ix) = ix
indexer_of (throw e) = record { alphabet = []; zero_char = 0; seed = 0; rank_by_char = λ c. none }

indexer : Indexer
unfolding make indexer_of
indexer = indexer_of base62

made : base62 ≡ ok indexer
unfolding indexer
made = refl

abbrev row_of : Fields → SyncRow
row_of columns = record {
  columns = columns;
  sync_clocks = some [];
  node_id = none;
  sync_deleted_at = none;
}

abbrev card_at : Text → Text → Text → SyncRow
card_at id list key = row_of (
    (codes "id", string id)
    ∷ (codes "listId", string list)
    ∷ (codes "positionIdx", string key)
    ∷ [])

abbrev list_on : Text → SyncRow
list_on id = row_of ((codes "id", string id) ∷ (codes "boardId", string (codes "b")) ∷ [])

abbrev start : Tables
start = record {
  board_rows =
      (
        codes "b",
        row_of ((codes "id", string (codes "b")) ∷ (codes "orgId", string (codes "acme")) ∷ []),
      )
      ∷ [];
  list_rows = (codes "todo", list_on (codes "todo")) ∷ (codes "done", list_on (codes "done")) ∷ [];
  card_rows =
      (codes "c1", card_at (codes "c1") (codes "todo") (codes "V"))
      ∷ (codes "c2", card_at (codes "c2") (codes "done") (codes "b"))
      ∷ (codes "c3", card_at (codes "c3") (codes "done") (codes "c"))
      ∷ [];
}

abbrev move : UpdateCard
move = record {
  content = [];
  list_id = some (codes "done");
  position_idx = none;
  before_card_id = some (codes "c2");
  after_card_id = some (codes "c3");
}

abbrev card : SyncRow
card = card_at (codes "c1") (codes "todo") (codes "V")

abbrev result : Saved Tables
result = saved_update tables indexer start (codes "c1") move card (some (codes "bV"))

updates : update tables indexer start (codes "c1") (codes "acme") move ≡ answered result
unfolding update assert_card_in_org assert_list_in_org load in_org check_target next_position
    resolve_position_from_neighbors key_between get_intermediate_key is_valid_key assert_valid_bound
    assert_valid_key midpoint split_digits shared_run lower_digit upper_digit rank_of middle_digit
    keep_digit indexer cmp tables
updates = refl

between_two_cards :
    (old : SyncRow) × (key : Text) × (assert_card_in_org tables start (codes "c1") (codes "acme")
      ≡ answered old)
    × (tables.find_one result.db cards (codes "c1") ≡ some result.row)
    × (text_column (codes "positionIdx") result.row ≡ some key)
    × (is_valid indexer key ≡ true)
    × Beside tables start
        (target_of tables indexer move old)
        (λ p. SortsAbove p key)
        (some (codes "c2"))
    × Beside tables start
        (target_of tables indexer move old)
        (λ p. SortsBelow key p)
        (some (codes "c3"))
    × (result.event.type ≡ card_moved)
between_two_cards =
    update-between tables indexer made start (codes "c1") (codes "acme") move result refl updates
