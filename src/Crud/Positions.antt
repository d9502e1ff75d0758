-- ===== src/Crud/Positions.antt =====
-- The order keys of backend/src/cards/cards.service.ts and backend/src/lists/lists.service.ts.
use flow_logix.Common.{
  Bool, false, not, ◌||◌, Option, none, some, Text, codes, text_eq, if◌then◌else◌,
}
use flow_logix.Crdt.Record.{field_of}
use flow_logix.Ordering.Indexer.{Indexer}
use flow_logix.Ordering.Position.{is_valid, key_between, key_for_append}
use flow_logix.Sync.Store.{SyncCollection, cards, SyncRow, EntityManager}
use flow_logix.Sync.Requests.{text_of}
use flow_logix.Sync.Strategies.{last_key}
use flow_logix.Crud.Answers.{Answer, answered, bad_request, ◌>>=◌, ◌>>◌, refuse_if, of_result}

abbrev pub text_column : Text → SyncRow → Option Text
text_column column row = text_of (field_of row.columns column)

-- `a === b` on a text and one that may be missing.
abbrev pub is_text : Option Text → Text → Bool
is_text none b = false
is_text (some a) b = text_eq a b

abbrev pub both_same : Option Text → Option Text → Bool
both_same (some a) b = is_text b a
both_same none b = false

module _ {Db : Type 0} (manager : EntityManager Db) (positions : Indexer) where
  -- `resolvePosition`
  unfoldable pub resolve_position : SyncCollection → Db → Text → Option Text → Answer Text
  unfolding is_valid key_for_append
  resolve_position e db parent (some key) = do
    refuse_if (not (is_valid positions key))
    answered key
  resolve_position e db parent none =
      of_result (key_for_append positions (last_key positions (manager.find_last db e parent)))

  -- The key of a neighbour, which must be a card of the list.
  abbrev pub neighbor_key : Db → Text → Option Text → Answer (Option Text)
  neighbor_key db list none = answered none
  neighbor_key db list (some id) = elim (manager.find_one db cards id) [
    | none ↦ bad_request
    | some row ↦
        if is_text (text_column (codes "listId") row) list
        then answered (text_column (codes "positionIdx") row)
        else bad_request
  ]

  unfoldable pub resolve_position_from_neighbors :
      Db → Text → Text → Option Text → Option Text → Answer Text
  unfolding key_between
  resolve_position_from_neighbors db id list before after = do
    refuse_if (is_text before id || is_text after id)
    refuse_if (both_same before after)
    prev ← neighbor_key db list before
    next ← neighbor_key db list after
    of_result (key_between positions prev next)
