-- ===== src/Board/Store.antt =====
-- The board slice of frontend/src/store/useBoardStore.ts. Every call of `set` is one step on the
-- state; an asynchronous action is several steps, with other steps between them.
use flow_logix.Common.{
  ℕ, zero, suc, ◌+◌, Bool, true, false, Option, none, some, List, [], ◌∷◌, Text, text_eq, map,
  lookup, put, get_or_else, ◌==◌, not,
}
use flow_logix.Board.State.{
  Card, CardList, Cards, ChecklistItem, BoardState, BoardMutationEnvelope, card_moved, card_deleted,
  truthy, find_list, insert_at,
}
use flow_logix.Board.Remote.{
  ReconcilePatch, replaces, needs_resync, nothing, reconcile_remote_mutation, key_of,
}

-- The fields of the store that the board's actions read and write.
pub record Store : Type 0 where
  pub board : BoardState
  pub move_versions : List (Text × ℕ)
  pub move_error : Option Text
  pub needs_resync : Bool

abbrev pub version_of : Store → Text → ℕ
version_of s card_id = get_or_else (lookup card_id s.move_versions) 0

-- `ids.indexOf(x)`, with `none` for -1.
abbrev pub index_of : Text → List Text → Option ℕ
index_of x [] = none
index_of x (y ∷ ys) = elim (text_eq y x) [
  | true ↦ some 0
  | false ↦ elim (index_of x ys) [ none ↦ none | some i ↦ some (suc i) ]
]

-- `ids.splice(n, 1)`
abbrev pub remove_at : ℕ → List Text → List Text
remove_at n [] = []
remove_at zero (y ∷ ys) = ys
remove_at (suc n) (y ∷ ys) = y ∷ remove_at n ys

-- A change in place of the list that `find` answers: the first of that id.
abbrev pub change_list : Text → (List Text → List Text) → List CardList → List CardList
change_list i f [] = []
change_list i f (l ∷ ls) = elim (text_eq l.id i) [
  | true ↦ record l { card_ids = f l.card_ids } ∷ ls
  | false ↦ l ∷ change_list i f ls
]

unfoldable pub hydrate_board : BoardState → Store → Store
hydrate_board snapshot s = record {
  board = snapshot;
  move_versions = [];
  move_error = none;
  needs_resync = false;
}

unfoldable pub toggle_item : Text → ChecklistItem → ChecklistItem
toggle_item item_id item = elim (text_eq item.id item_id) [
  | true ↦ record item { done = not item.done }
  | false ↦ item
]

unfoldable pub toggle_checklist_item : Text → Text → Store → Store
toggle_checklist_item card_id item_id s = elim (lookup card_id s.board.cards) [
  | none ↦ s
  | some card ↦ record s {
    board = record s.board {
      cards =
          put card_id (record card { checklist = map (toggle_item item_id) card.checklist })
            s.board.cards;
    };
  }
]

abbrev pub merge_patch : ReconcilePatch → Store → Store
merge_patch (replaces board) s = record s { board = board }
merge_patch needs_resync s = record s { needs_resync = true }
merge_patch nothing s = s

unfoldable pub bump_version : Text → Store → Store
bump_version card_id s = record s {
  move_versions = put card_id (version_of s card_id + 1) s.move_versions;
}

-- The card whose moves in flight the frame overrides.
unfoldable pub overridden_card : BoardMutationEnvelope → Option Text
overridden_card envelope = elim envelope.type [
  | card_moved ↦ truthy envelope.payload.card_id
  | card_deleted ↦ truthy envelope.payload.card_id
  | _ ↦ none
]

unfoldable pub apply_remote_mutation : BoardMutationEnvelope → Store → Store
apply_remote_mutation envelope s =
    let patched = merge_patch (reconcile_remote_mutation s.board envelope) s in
    elim (overridden_card envelope) [ none ↦ patched | some card_id ↦ bump_version card_id patched ]

-- What `moveCard` remembers across its network call.
pub record PendingMove : Type 0 where
  pub card_id : Text
  pub from_list_id : Text
  pub to_list_id : Text
  pub to_index : ℕ
  pub original_index : ℕ
  pub original_position_idx : Option Text
  pub version : ℕ

-- The start of `moveCard`, up to the bump of the version; `none` is the early return.
unfoldable pub begin_move : Text → Text → Text → ℕ → Store → Option (PendingMove × Store)
begin_move card_id from_list_id to_list_id to_index s =
    elim (find_list from_list_id s.board.lists) [
      | none ↦ none
      | some from_before ↦ elim (index_of card_id from_before.card_ids) [
        | none ↦ none
        | some original_index ↦
            let version = version_of s card_id + 1 in
            some (
              record {
                card_id = card_id;
                from_list_id = from_list_id;
                to_list_id = to_list_id;
                to_index = to_index;
                original_index = original_index;
                original_position_idx = key_of s.board.cards card_id;
                version = version;
              },
              record s { move_versions = put card_id version s.move_versions },
            )
      ]
    ]

-- `moved && moved.positionIdx !== undefined`: the card without its key.
unfoldable pub clear_key : Text → Cards → Cards
clear_key card_id cards = elim (lookup card_id cards) [
  | none ↦ cards
  | some moved ↦ elim moved.position_idx [
    | none ↦ cards
    | some key ↦ put card_id (record moved { position_idx = none }) cards
  ]
]

-- The two splices: the card leaves `source` and enters `target` at `index`; the lists are those
-- that `find` answers, and may be the same.
unfoldable pub transfer : Text → Text → Text → ℕ → ℕ → List CardList → List CardList
transfer card_id source target current index lists =
    change_list target (insert_at index card_id) (change_list source (remove_at current) lists)

unfoldable pub show_move : PendingMove → Store → Store
show_move m s = elim (find_list m.from_list_id s.board.lists) [
  | none ↦ s
  | some source ↦ elim (find_list m.to_list_id s.board.lists) [
    | none ↦ s
    | some target ↦ elim (index_of m.card_id source.card_ids) [
      | none ↦ s
      | some current ↦ record s {
        board = record {
          lists = transfer m.card_id m.from_list_id m.to_list_id current m.to_index s.board.lists;
          cards = clear_key m.card_id s.board.cards;
        };
        move_error = none;
      }
    ]
  ]
]

-- `!current || state.moveVersions[cardId] !== version`, negated: the card that the answer is for.
unfoldable pub latest : PendingMove → Store → Option Card
latest m s = elim (lookup m.card_id s.board.cards) [
  | none ↦ none
  | some current ↦ elim (lookup m.card_id s.move_versions) [
    | none ↦ none
    | some v ↦ elim (v == m.version) [ true ↦ some current | false ↦ none ]
  ]
]

-- The server has answered, with a key or without one.
unfoldable pub stamp_move : PendingMove → Option Text → Store → Store
stamp_move m key s = elim key [
  | none ↦ s
  | some k ↦ elim (latest m s) [
    | none ↦ s
    | some current ↦ record s {
      board = record s.board {
        cards = put m.card_id (record current { position_idx = some k }) s.board.cards;
      };
    }
  ]
]

unfoldable pub restore_key : PendingMove → Card → Cards → Cards
restore_key m current cards = elim m.original_position_idx [
  | none ↦ cards
  | some key ↦ put m.card_id (record current { position_idx = some key }) cards
]

unfoldable pub put_back : PendingMove → CardList → List CardList → List CardList
put_back m target lists = elim (index_of m.card_id target.card_ids) [
  | none ↦ lists
  | some current ↦ transfer m.card_id m.to_list_id m.from_list_id current m.original_index lists
]

-- The call has failed with a message.
unfoldable pub roll_back : PendingMove → Text → Store → Store
roll_back m message s = elim (latest m s) [
  | none ↦ record s { move_error = some message }
  | some current ↦ elim (find_list m.from_list_id s.board.lists) [
    | none ↦ record s { move_error = some message }
    | some source ↦ elim (find_list m.to_list_id s.board.lists) [
      | none ↦ record s { move_error = some message }
      | some target ↦ record s {
        board = record {
          lists = put_back m target s.board.lists;
          cards = restore_key m current s.board.cards;
        };
        move_error = some message;
      }
    ]
  ]
]
