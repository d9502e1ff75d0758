-- ===== src/Board/Rollback.antt =====
-- The rollback of `moveCard` (frontend/src/store/useBoardStore.ts).
pub mod Stale
use flow_logix.Common.{
  ℕ, zero, suc, ◌≡◌, ◌≤◌, ◌+◌, refl, sym, ap, ◌∙◌, subst, Bool, true, false, Option, none, some,
  List, [], ◌∷◌, Text, text_eq, text_eq_iff, arith, lookup, put, is_some, if◌then◌else◌, lookup-put,
  inl, inr, Bool-cases, Option-cases, cmp, cmp_refl,
}
use flow_logix.Board.State.{
  Card, CardList, Cards, BoardState, IsConsistent, find_list, insert_at, places, count,
}
use flow_logix.Board.Store.{
  Store, PendingMove, index_of, remove_at, change_list, begin_move, show_move, roll_back, transfer,
  clear_key, restore_key, put_back, latest,
}
use flow_logix.Board.Transfers.{count-le-places, transfer-undone, find-transfer}
use flow_logix.Board.Remote.{key_of}
use flow_logix.Board.Places.{places-remove, count-remove_at, find-change_list}

restored_cards :
    (m : PendingMove) (card : Card) (cards : Cards)
    → lookup m.card_id cards ≡ some card
    → card.position_idx ≡ m.original_position_idx
    → (current : Card) × (lookup m.card_id (clear_key m.card_id cards) ≡ some current)
      × ((x : Text) → lookup x (restore_key m current (clear_key m.card_id cards)) ≡ lookup x cards)
unfolding clear_key restore_key
restored_cards m card cards known same = elim (Option-cases card.position_idx) [
  | inl unkeyed ↦ (card, ground arith, λ x. ground arith)
  | inr (key, keyed) ↦
      let bare : Card = record card { position_idx = none } in
      let back : (record card { position_idx = some key }) ≡ card =
        ap {B = Card} (λ p. record card { position_idx = p }) (sym keyed) in
      (
        bare,
        ground (arith, lookup-put m.card_id m.card_id bare cards, cmp_refl m.card_id),
        λ x. ground (
          arith,
          lookup-put m.card_id x bare cards,
          lookup-put m.card_id x (record card { position_idx = some key })
              (put m.card_id bare cards),
          text_eq_iff m.card_id x,
          back,
        ),
      )
]

begun :
    (c a b : Text) (n : ℕ) (m : PendingMove) (s t : Store)
    → begin_move c a b n s ≡ some (m, t)
    → (from : CardList) × (find_list a s.board.lists ≡ some from)
      × (index_of c from.card_ids ≡ some m.original_index)
      × (t ≡ record s { move_versions = put c m.version s.move_versions })
      × (m.card_id ≡ c)
      × (m.from_list_id ≡ a)
      × (m.to_list_id ≡ b)
      × (m.original_position_idx ≡ key_of s.board.cards c)
unfolding begin_move
begun c a b n m s t e = elim (Option-cases (find_list a s.board.lists)) [
  | inl missing ↦ absurd (ground arith)
  | inr (from, found) ↦ elim (Option-cases (index_of c from.card_ids)) [
    | inl missing ↦ absurd (ground arith)
    | inr (k, at) ↦ (
      from,
      found,
      ground arith,
      ground arith,
      ground arith,
      ground arith,
      ground arith,
      ground arith,
    )
  ]
]

-- The board parts of `show_move` and `roll_back` where neither returns early.
module _ (m : PendingMove) (s : Store) (from to : CardList) (k : ℕ)
    (found : find_list m.from_list_id s.board.lists ≡ some from)
    (there : find_list m.to_list_id s.board.lists ≡ some to) where
  abbrev shown_board : BoardState
  shown_board = record {
    lists = transfer m.card_id m.from_list_id m.to_list_id k m.to_index s.board.lists;
    cards = clear_key m.card_id s.board.cards;
  }

  show_move-shown :
      index_of m.card_id from.card_ids ≡ some k
      → show_move m s ≡ record s { board = shown_board; move_error = none }
  unfolding show_move
  show_move-shown at = ground arith

  roll_back-restored :
      (message : Text) (current : Card)
      → latest m s ≡ some current
      → (roll_back m message s).board ≡ record {
        lists = put_back m to s.board.lists;
        cards = restore_key m current s.board.cards;
      }
  unfolding roll_back
  roll_back-restored message current live = ground arith

put_back-at :
    (m : PendingMove) (target : CardList) (k : ℕ) (ls : List CardList)
    → index_of m.card_id target.card_ids ≡ some k
    → put_back m target ls ≡ transfer m.card_id m.to_list_id m.from_list_id k m.original_index ls
unfolding put_back
put_back-at m target k ls at = ground arith

-- A card that a list shows is a card of a consistent board.
placed_card :
    (c a : Text) (k : ℕ) (from : CardList) (s : BoardState)
    → IsConsistent s
    → find_list a s.lists ≡ some from
    → index_of c from.card_ids ≡ some k
    → (card : Card) × (lookup c s.cards ≡ some card) × Unit {0}
placed_card c a k from s h found at = elim (Option-cases (lookup c s.cards)) [
  | inl missing ↦ absurd (
      ground (
        arith,
        h.one_place c,
        count-remove_at c c k from.card_ids at,
        cmp_refl c,
        count-le-places c a from s.lists found,
      ))
  | inr (card, known) ↦ (card, known, tt)
]

answered :
    (m : PendingMove) (t : Store) (from to : CardList) (card : Card) (message : Text)
    → find_list m.from_list_id t.board.lists ≡ some from
    → find_list m.to_list_id t.board.lists ≡ some to
    → index_of m.card_id from.card_ids ≡ some m.original_index
    → lookup m.card_id t.board.cards ≡ some card
    → card.position_idx ≡ m.original_position_idx
    → places m.card_id t.board.lists ≡ 1
    → lookup m.card_id t.move_versions ≡ some m.version
    → ((roll_back m message (show_move m t)).board.lists ≡ t.board.lists)
      × ((x : Text)
          → lookup x (roll_back m message (show_move m t)).board.cards ≡ lookup x t.board.cards)
answered m t from to card message found there at known same once version =
    let board = shown_board m t from to m.original_index found there in
    let u : Store = record t { board = board; move_error = none } in
    let shown : show_move m t ≡ u = show_move-shown m t from to m.original_index found there at in
    let (k, target, there', at', undone) =
      transfer-undone m.card_id m.from_list_id m.to_list_id m.original_index m.to_index from to
        t.board.lists found there at once in
    let (current, known', back) = restored_cards m card t.board.cards known same in
    let live : latest m u ≡ some current = unfold latest in ground arith in
    elim (Option-cases (find_list m.from_list_id board.lists)) [
      | inl missing ↦ absurd (
          ground (
            arith,
            find-transfer m.from_list_id m.card_id m.from_list_id m.to_list_id m.original_index
                m.to_index t.board.lists,
          ))
      | inr (source, found') ↦
          let restored : (roll_back m message u).board ≡ record {
            lists = put_back m target u.board.lists;
            cards = restore_key m current u.board.cards;
          } =
            roll_back-restored m u source target 0 found' there' message current live in
          (
            ap (λ r. (roll_back m message r).board.lists) shown
                ∙ ap (λ r. r.lists) restored
                ∙ put_back-at m target k board.lists at'
                ∙ undone,
            λ x.
                ap (λ r. lookup x (roll_back m message r).board.cards) shown
                ∙ ap (λ r. lookup x r.cards) restored
                ∙ back x,
          )
    ]

-- A move that is begun, shown and then refused by the server leaves no trace on a consistent board
-- that has the target list: every list is as it was before, and so is every card, with its key.
pub roll_back-show_move :
    (c a b : Text) (n : ℕ) (m : PendingMove) (s t : Store) (to : CardList) (message : Text)
    → IsConsistent s.board
    → find_list b s.board.lists ≡ some to
    → begin_move c a b n s ≡ some (m, t)
    → ((roll_back m message (show_move m t)).board.lists ≡ s.board.lists)
      × ((x : Text)
          → lookup x (roll_back m message (show_move m t)).board.cards ≡ lookup x s.board.cards)
roll_back-show_move c a b n m s t to message h there e =
    let (from, found, at, same, ec, ea, eb, ek) = begun c a b n m s t e in
    let board : t.board ≡ s.board = ap (λ r. r.board) same in
    let (card, known, _) = placed_card c a m.original_index from s.board h found at in
    subst
      (λ r.
        ((roll_back m message (show_move m t)).board.lists ≡ r.lists)
        × ((x : Text)
            → lookup x (roll_back m message (show_move m t)).board.cards ≡ lookup x r.cards))
      board
      (answered m t from to card message
        (ap (λ r. find_list m.from_list_id r.lists) board
          ∙ ap (λ i. find_list i s.board.lists) ea
          ∙ found)
        (ap (λ r. find_list m.to_list_id r.lists) board
          ∙ ap (λ i. find_list i s.board.lists) eb
          ∙ there)
        (ap (λ i. index_of i from.card_ids) ec ∙ at)
        (ap (λ r. lookup m.card_id r.cards) board ∙ ap (λ i. lookup i s.board.cards) ec ∙ known)
        (ground (arith, ek))
        (ap (λ r. places m.card_id r.lists) board
          ∙ ap (λ i. places i s.board.lists) ec
          ∙ ground (arith, h.one_place c))
        (ap (lookup m.card_id) (ap (λ r. r.move_versions) same)
          ∙ ground (
            arith,
            ec,
            lookup-put c m.card_id m.version s.move_versions,
            cmp_refl c,
            ap (cmp c) ec,
          )))
