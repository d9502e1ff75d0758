-- ===== src/Board/Snapshot.antt =====
-- frontend/src/api/mapBoard.ts: the board that the store is hydrated with, from the answers of the
-- server.
pub mod Establishes
mod Tests
use flow_logix.Common.{
  ℕ, Bool, true, false, not, Option, none, some, List, [], ◌∷◌, ◌++◌, Text, codes, text_lt,
  if◌then◌else◌, get_or_else, lookup, put, for_each, keep,
}
use flow_logix.Board.State.{Card, CardList, Cards, BoardState, medium}

pub record ApiCard : Type 0 where
  pub id : Text
  pub title : Text
  pub description : Option Text
  pub is_complete : Bool
  pub position_idx : Text
  pub is_archived : Bool

pub record ApiList : Type 0 where
  pub id : Text
  pub title : Text
  pub position_idx : Text
  pub is_archived : Bool

pub record ApiBoard : Type 0 where
  pub id : Text
  pub title : Text

-- A member's row, with the names of its user if the user is there.
pub record ApiBoardMember : Type 0 where
  pub user_id : Text
  pub role : Text
  pub first_name : Option Text
  pub last_name : Option Text

pub record Member : Type 0 where
  pub id : Text
  pub first_name : Text
  pub last_name : Text
  pub role : Text

pub record BoardSummary : Type 0 where
  pub id : Text
  pub title : Text
  pub member_ids : List Text

pub record BoardSnapshot : Type 0 where
  pub board : BoardSummary
  pub state : BoardState
  pub members : List (Text × Member)

-- `sort(byPositionAsc)`, which keeps the order of equal keys.
module _ {A : Type 0} (key_of : A → Text) where
  unfoldable pub insert_by_position : A → List A → List A
  insert_by_position x [] = x ∷ []
  insert_by_position x (y ∷ ys) =
      let later = insert_by_position x ys in
      if text_lt (key_of y) (key_of x) then y ∷ later else x ∷ y ∷ ys

  unfoldable pub sort_by_position : List A → List A
  sort_by_position [] = []
  sort_by_position (x ∷ xs) = insert_by_position x (sort_by_position xs)

unfoldable pub map_api_card : ApiCard → Card
map_api_card api = record {
  id = api.id;
  title = api.title;
  description = api.description;
  priority = medium;
  assignee_ids = [];
  checklist = [];
  is_complete = api.is_complete;
  position_idx = some api.position_idx;
}

-- `mapApiMembers`: the members by id, and their ids.
abbrev member_of : ApiBoardMember → Member
member_of row = record {
  id = row.user_id;
  first_name = get_or_else row.first_name (codes "Member");
  last_name = get_or_else row.last_name [];
  role = row.role;
}

unfoldable pub map_api_members :
    List ApiBoardMember → List (Text × Member) → List Text → List (Text × Member) × List Text
map_api_members [] members ids = (members, ids)
map_api_members (row ∷ rows) members ids =
    map_api_members rows (put row.user_id (member_of row) members) (ids ++ row.user_id ∷ [])

abbrev pub live_card : ApiCard → Bool
live_card c = not c.is_archived

abbrev pub live_list : ApiList → Bool
live_list l = not l.is_archived

abbrev pub card_key : ApiCard → Text
card_key c = c.position_idx

abbrev pub list_key : ApiList → Text
list_key l = l.position_idx

abbrev pub card_ids : List ApiCard → List Text
card_ids [] = []
card_ids (c ∷ cs) = c.id ∷ card_ids cs

abbrev pub add_card : Cards → ApiCard → Cards
add_card cards c = put c.id (map_api_card c) cards

module _ (cards_by_list : List (Text × List ApiCard)) where
  -- The cards of a list that are shown, before they are sorted.
  abbrev pub shown_cards : ApiList → List ApiCard
  shown_cards list = keep live_card (get_or_else (lookup list.id cards_by_list) [])

  abbrev pub list_cards : ApiList → List ApiCard
  list_cards list = sort_by_position card_key (shown_cards list)

  abbrev pub list_of : ApiList → CardList
  list_of list = record { id = list.id; title = list.title; card_ids = card_ids (list_cards list) }

  -- The loop over the sorted lists, which fills `cards` on its way.
  unfoldable pub compose_lists : List ApiList → Cards → BoardState
  compose_lists [] cards = record { lists = []; cards = cards }
  compose_lists (l ∷ ls) cards =
      let rest = compose_lists ls (for_each add_card cards (list_cards l)) in
      record rest { lists = list_of l ∷ rest.lists }

  unfoldable pub compose_board_snapshot :
      ApiBoard → List ApiList → List ApiBoardMember → BoardSnapshot
  compose_board_snapshot board api_lists api_members =
      let mapped = map_api_members api_members [] [] in
      record {
        board = record { id = board.id; title = board.title; member_ids = mapped.1 };
        state = compose_lists (sort_by_position list_key (keep live_list api_lists)) [];
        members = mapped.0;
      }
