-- ===== src/Board/Tests.antt =====
-- Runs of the board store at concrete inputs.
use flow_logix.Common.{
  ◌≡◌, refl, false, none, some, Option, [], ◌∷◌, Text, codes, arith, lookup, cmp, eq_of_cmp,
}
use flow_logix.Board.State.{
  Card, CardList, Cards, BoardMutationEnvelope, card_moved, medium, IsConsistent, insert_at, places,
  named, count,
}
use flow_logix.Board.Remote.{insertion_index_for_key}
use flow_logix.Board.Store.{
  Store, PendingMove, begin_move, show_move, roll_back, stamp_move, apply_remote_mutation,
  overridden_card,
}
use flow_logix.Board.Create.{begin_add, fail_add}
use flow_logix.Board.Create.Undone.{fail_add-begin_add}
use flow_logix.Board.Steps.{Steps, show, done, next, fail}
use flow_logix.Board.Invariant.{Steps-IsConsistent}
use flow_logix.Board.Ordered.{InKeyOrder, rekeyed, insertion_index_for_key-InKeyOrder}
use flow_logix.Board.Rollback.{roll_back-show_move}
use flow_logix.Board.Rollback.Stale.{Overrides, by_frame, overridden-board}

abbrev card : Text → Option Text → Card
card id key = record {
  id = id;
  title = codes "Plan";
  description = none;
  priority = medium;
  assignee_ids = [];
  checklist = [];
  is_complete = false;
  position_idx = key;
}

abbrev cards : Cards
cards =
    (codes "c1", card (codes "c1") (some (codes "M")))
    ∷ (codes "c2", card (codes "c2") (some (codes "b")))
    ∷ []

abbrev todo : CardList
todo = record { id = codes "todo"; title = codes "To do"; card_ids = codes "c1" ∷ codes "c2" ∷ [] }

abbrev finished : CardList
finished = record { id = codes "done"; title = codes "Done"; card_ids = [] }

abbrev store : Store
store = record {
  board = record { lists = todo ∷ finished ∷ []; cards = cards };
  move_versions = [];
  move_error = none;
  needs_resync = false;
}

store-IsConsistent : IsConsistent store.board
unfolding places named count
store-IsConsistent = record {
  one_place = λ x. ground (arith, eq_of_cmp (codes "c1") x, eq_of_cmp (codes "c2") x);
  one_list = λ i. ground (arith, eq_of_cmp (codes "todo") i, eq_of_cmp (codes "done") i);
}

abbrev move : PendingMove
move = record {
  card_id = codes "c1";
  from_list_id = codes "todo";
  to_list_id = codes "done";
  to_index = 0;
  original_index = 0;
  original_position_idx = some (codes "M");
  version = 1;
}

abbrev started : Store
started = record store { move_versions = (codes "c1", 1) ∷ [] }

move_begins : begin_move (codes "c1") (codes "todo") (codes "done") 0 store ≡ some (move, started)
unfolding begin_move cmp
move_begins = refl

move_shown_and_failed : Steps started (roll_back move (codes "offline") (show_move move started))
move_shown_and_failed = next (next done (show move)) (fail move (codes "offline"))

IsConsistent-after_failure :
    IsConsistent (roll_back move (codes "offline") (show_move move started)).board
IsConsistent-after_failure =
    Steps-IsConsistent started (roll_back move (codes "offline") (show_move move started))
      move_shown_and_failed store-IsConsistent

failure_undone :
    ((roll_back move (codes "offline") (show_move move started)).board.lists ≡ store.board.lists)
    × ((x : Text)
        → lookup x (roll_back move (codes "offline") (show_move move started)).board.cards
          ≡ lookup x store.board.cards)
unfolding cmp
failure_undone =
    roll_back-show_move (codes "c1") (codes "todo") (codes "done") 0 move store started finished
      (codes "offline") store-IsConsistent refl move_begins

abbrev peer_move : BoardMutationEnvelope
peer_move = record {
  seq = 1;
  type = card_moved;
  payload = record {
    card_id = some (codes "c1");
    list_id = some (codes "todo");
    position_idx = some (codes "z");
  };
}

abbrev overridden : Store
overridden = apply_remote_mutation peer_move started

peer-Overrides : Overrides move started overridden
unfolding overridden_card
peer-Overrides = by_frame peer_move refl

late_answer :
    ((roll_back move (codes "offline") overridden).board ≡ overridden.board)
    × (stamp_move move (some (codes "N")) overridden ≡ overridden)
late_answer =
    overridden-board (codes "c1") (codes "todo") (codes "done") 0 move store started started
      overridden overridden (some (codes "N")) (codes "offline") move_begins done peer-Overrides
      done

slot_in_order : InKeyOrder (rekeyed (codes "c1") (codes "z") (card (codes "c1") none) cards) (
    insert_at
      (insertion_index_for_key (codes "c2" ∷ []) cards (codes "z"))
      (codes "c1")
      (codes "c2" ∷ []))
unfolding cmp
slot_in_order =
    insertion_index_for_key-InKeyOrder (codes "c1") (codes "z") (card (codes "c1") none) cards
      (codes "c2" ∷ []) refl (tt, tt)

creation_undone :
    let t =
      fail_add
        (codes "todo")
        (codes "tmp")
        (codes "offline")
        (begin_add (codes "todo") (codes "New") (codes "tmp") store) in
    (t.board.lists ≡ store.board.lists)
    × ((x : Text) → lookup x t.board.cards ≡ lookup x store.board.cards)
unfolding cmp
creation_undone =
    fail_add-begin_add (codes "todo") (codes "New") (codes "tmp") (codes "offline") store
      store-IsConsistent refl refl
