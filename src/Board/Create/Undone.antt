-- ===== src/Board/Create/Undone.antt =====
-- A card whose creation fails or succeeds (frontend/src/store/useBoardStore.ts, `addCard`).
use flow_logix.Common.{
  ◌≡◌, refl, ap, ◌∙◌, true, none, List, [], ◌∷◌, ◌++◌, Text, text_eq, text_eq_iff, cmp_refl, map,
  put, delete, lookup, lookup-put, lookup-delete, arith, inl, inr, Bool-cases,
}
use flow_logix.Board.State.{CardList, IsConsistent, without, count, places}
use flow_logix.Board.Store.{Store}
use flow_logix.Board.Create.{
  new_card, append_to, drop_from, can_add, with_card, begin_add, fail_add,
}

without-append : (x : Text) (ys : List Text) → count x ys ≡ 0 → without x (ys ++ x ∷ []) ≡ ys
unfolding count
without-append x [] h = ground (arith, cmp_refl x)
without-append x (y ∷ ys) h = ground (arith, without-append x ys)

dropped :
    (list_id x : Text) (ls : List CardList)
    → places x ls ≡ 0
    → map (drop_from list_id x) (map (append_to list_id x) ls) ≡ ls
unfolding places
dropped list_id x [] h = refl
dropped list_id x (l ∷ ls) h = elim (Bool-cases (text_eq l.id list_id)) [
  | inl here ↦ ground (
    arith,
    dropped list_id x ls (ground arith),
    without-append x l.card_ids (ground arith),
    here_again l (ground arith),
  )
  | inr other ↦ ground (arith, dropped list_id x ls (ground arith))
]
  where
    here_again :
        (l : CardList)
        → count x l.card_ids ≡ 0
        → (record l { card_ids = without x (l.card_ids ++ x ∷ []) }) ≡ l
    here_again l h =
        ap {B = CardList} (λ ids. record l { card_ids = ids }) (without-append x l.card_ids h)

begun-shown :
    (list_id trimmed temp_id : Text) (s : Store)
    → can_add list_id trimmed s ≡ true
    → begin_add list_id trimmed temp_id s
      ≡ record s { board = with_card list_id trimmed temp_id s.board; move_error = none }
unfolding begin_add
begun-shown list_id trimmed temp_id s h = ground arith

-- A card that is shown under a fresh temporary id, and whose creation then fails, leaves no trace on
-- a consistent board: every list is as it was before, and so is every card.
pub fail_add-begin_add :
    (list_id trimmed temp_id message : Text) (s : Store)
    → IsConsistent s.board
    → can_add list_id trimmed s ≡ true
    → lookup temp_id s.board.cards ≡ none
    → let t = fail_add list_id temp_id message (begin_add list_id trimmed temp_id s) in
      (t.board.lists ≡ s.board.lists)
      × ((x : Text) → lookup x t.board.cards ≡ lookup x s.board.cards)
unfolding fail_add
fail_add-begin_add list_id trimmed temp_id message s h can fresh =
    let shown = begun-shown list_id trimmed temp_id s can in
    (
      ap (λ t. map (drop_from list_id temp_id) t.board.lists) shown
          ∙ dropped list_id temp_id s.board.lists (ground (arith, h.one_place temp_id)),
      λ x.
          ap (λ t. lookup x (delete temp_id t.board.cards)) shown
          ∙ lookup-delete temp_id x (put temp_id (new_card temp_id trimmed) s.board.cards)
          ∙ ground (
            arith,
            lookup-put temp_id x (new_card temp_id trimmed) s.board.cards,
            text_eq_iff temp_id x,
          ),
    )
