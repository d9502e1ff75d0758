-- ===== src/Board/Create.antt =====
-- `addCard` of frontend/src/store/useBoardStore.ts. The new id, and the title with its outer blanks
-- removed, are arguments: `crypto.randomUUID` and `String.trim` are the platform's.
pub mod Undone
use flow_logix.Common.{
  Option, none, some, true, false, List, [], ◌∷◌, ◌++◌, Text, text_eq, map, put, delete, is_some,
  Bool, if◌then◌else◌,
}
use flow_logix.Board.State.{Card, CardList, medium, BoardState, find_list, without}
use flow_logix.Board.Store.{Store}

-- The card that is shown before the server has answered.
abbrev pub new_card : Text → Text → Card
new_card id trimmed = record {
  id = id;
  title = trimmed;
  description = none;
  priority = medium;
  assignee_ids = [];
  checklist = [];
  is_complete = false;
  position_idx = none;
}

abbrev pub append_to : Text → Text → CardList → CardList
append_to list_id id l = elim (text_eq l.id list_id) [
  | true ↦ record l { card_ids = l.card_ids ++ id ∷ [] }
  | false ↦ l
]

-- `ids.map((id) => (id === tempId ? newId : id))`
abbrev pub renamed : Text → Text → List Text → List Text
renamed old new [] = []
renamed old new (x ∷ xs) = (if text_eq x old then new else x) ∷ renamed old new xs

abbrev pub rename_in : Text → Text → Text → CardList → CardList
rename_in list_id old new l = elim (text_eq l.id list_id) [
  | true ↦ record l { card_ids = renamed old new l.card_ids }
  | false ↦ l
]

abbrev pub drop_from : Text → Text → CardList → CardList
drop_from list_id id l = elim (text_eq l.id list_id) [
  | true ↦ record l { card_ids = without id l.card_ids }
  | false ↦ l
]

-- `!trimmed`, and no list of that id: the early returns.
abbrev pub can_add : Text → Text → Store → Bool
can_add list_id [] s = false
can_add list_id (c ∷ trimmed) s = is_some (find_list list_id s.board.lists)

abbrev pub with_card : Text → Text → Text → BoardState → BoardState
with_card list_id trimmed id b = record {
  lists = map (append_to list_id id) b.lists;
  cards = put id (new_card id trimmed) b.cards;
}

-- Without a server, the card is added at once.
unfoldable pub add_card_locally : Text → Text → Text → Store → Store
add_card_locally list_id trimmed id s = elim (can_add list_id trimmed s) [
  | true ↦ record s { board = with_card list_id trimmed id s.board }
  | false ↦ s
]

-- With a server, it is shown under a temporary id while the call is awaited.
unfoldable pub begin_add : Text → Text → Text → Store → Store
begin_add list_id trimmed temp_id s = elim (can_add list_id trimmed s) [
  | true ↦ record s { board = with_card list_id trimmed temp_id s.board; move_error = none }
  | false ↦ s
]

-- The server has created the card.
unfoldable pub confirm_add : Text → Text → Card → Store → Store
confirm_add list_id temp_id mapped s = record s {
  board = record {
    lists = map (rename_in list_id temp_id mapped.id) s.board.lists;
    cards = put mapped.id mapped (delete temp_id s.board.cards);
  };
}

-- The call has failed with a message.
unfoldable pub fail_add : Text → Text → Text → Store → Store
fail_add list_id temp_id message s = record s {
  board = record {
    lists = map (drop_from list_id temp_id) s.board.lists;
    cards = delete temp_id s.board.cards;
  };
  move_error = some message;
}
