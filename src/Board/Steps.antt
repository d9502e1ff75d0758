-- ===== src/Board/Steps.antt =====
-- The board store (frontend/src/store/useBoardStore.ts) as a transition system.
use flow_logix.Common.{ℕ, ◌≡◌, Option, some, Text}
use flow_logix.Board.State.{BoardMutationEnvelope}
use flow_logix.Board.Store.{
  Store, PendingMove, toggle_checklist_item, apply_remote_mutation, begin_move, show_move,
  stamp_move, roll_back,
}

-- The steps of the store: a frame, a click on a checklist, and the steps of moves. A move's steps
-- may be those of any move, at any time and in any number.
pub data Step : Store → Store → Type 0 where
  frame : (e : BoardMutationEnvelope) {s : Store} → Step s (apply_remote_mutation e s)
  toggle : (card_id item_id : Text) {s : Store} → Step s (toggle_checklist_item card_id item_id s)
  begin :
      (card_id from_list_id to_list_id : Text) (to_index : ℕ) (m : PendingMove) {s t : Store}
      → begin_move card_id from_list_id to_list_id to_index s ≡ some (m, t)
      → Step s t
  show : (m : PendingMove) {s : Store} → Step s (show_move m s)
  stamp : (m : PendingMove) (key : Option Text) {s : Store} → Step s (stamp_move m key s)
  fail : (m : PendingMove) (message : Text) {s : Store} → Step s (roll_back m message s)

pub data Steps : Store → Store → Type 0 where
  done : {s : Store} → Steps s s
  next : {s t u : Store} → Steps s t → Step t u → Steps s u
