-- ===== src/Board/Snapshot/Tests.antt =====
-- A board of two lists, one of them archived, as the server serves it.
use flow_logix.Common.{
  ◌+◌, ◌≤◌, ◌≡◌, ◌≢◌, refl, sym, ◌∙◌, true, false, none, List, [], ◌∷◌, Text, codes, cmp, text_eq,
  text_eq_iff, arith, Bool-cases, inl, inr, ap, get_or_else, get_elem?,
}
use flow_logix.Board.State.{IsConsistent}
use flow_logix.Board.Snapshot.{
  ApiCard, ApiList, ApiBoard, compose_board_snapshot, compose_lists, sort_by_position,
  insert_by_position, map_api_card, map_api_members,
}
use flow_logix.Board.Snapshot.Establishes.{
  one_if, times_shown, times_named, compose_board_snapshot-IsConsistent,
}

abbrev card : Text → Text → ApiCard
card id key = record {
  id = id;
  title = codes "A card";
  description = none;
  is_complete = false;
  position_idx = key;
  is_archived = false;
}

abbrev served : List (Text × List ApiCard)
served = (codes "l1", card (codes "c1") (codes "b") ∷ card (codes "c2") (codes "V") ∷ []) ∷ []

abbrev lists_served : List ApiList
lists_served =
    (record {
      id = codes "l1";
      title = codes "To do";
      position_idx = codes "V";
      is_archived = false;
    })
    ∷ (record {
      id = codes "l2";
      title = codes "Old";
      position_idx = codes "b";
      is_archived = true;
    })
    ∷ []

abbrev board : ApiBoard
board = record { id = codes "b1"; title = codes "Work of the week" }

at_most_one : (a b x : Text) → a ≢ b → one_if (text_eq a x) + (one_if (text_eq b x) + 0) + 0 ≤ 1
at_most_one a b x apart = elim (Bool-cases (text_eq a x)) [
  | inr other ↦ elim (Bool-cases (text_eq b x)) [
    | inl same ↦ ground arith
    | inr neither ↦ ground arith
  ]
  | inl same ↦ elim (Bool-cases (text_eq b x)) [
    | inl both ↦ absurd (apart ((text_eq_iff a x).0 same ∙ sym ((text_eq_iff b x).0 both)))
    | inr other ↦ ground arith
  ]
]

single : (a x : Text) → one_if (text_eq a x) + 0 ≤ 1
single a x = elim (Bool-cases (text_eq a x)) [ inl same ↦ ground arith | inr other ↦ ground arith ]

once : (x : Text) → times_shown served x lists_served ≤ 1
unfolding cmp
once x =
    at_most_one (codes "c1") (codes "c2") x
      (λ h. absurd (omega (arith, ap (λ t. get_or_else (get_elem? t 1) 0) h)))

alone : (i : Text) → times_named served i lists_served ≤ 1
alone i = single (codes "l1") i

served_board : IsConsistent (compose_board_snapshot served board lists_served []).state
served_board = compose_board_snapshot-IsConsistent served board lists_served [] once alone

first_list :
    (compose_board_snapshot served board lists_served []).state.lists
    ≡ (record { id = codes "l1"; title = codes "To do"; card_ids = codes "c2" ∷ codes "c1" ∷ [] })
      ∷ []
unfolding compose_board_snapshot compose_lists sort_by_position insert_by_position map_api_card
    map_api_members cmp
first_list = refl
