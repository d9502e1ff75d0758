-- ===== src/Board/Invariant.antt =====
-- The board stays consistent under every step of the store (frontend/src/store).
pub mod Remote
use flow_logix.Common.{
  ℕ, zero, suc, ◌≡◌, ◌≤◌, ◌+◌, refl, sym, subst, map, ap, ◌∙◌, Bool, true, false, Option, none,
  some, List, [], ◌∷◌, Text, text_eq, text_eq_iff, arith, lookup, put, is_some, if◌then◌else◌,
  lookup-put, inl, inr, Bool-cases, Option-cases,
}
use flow_logix.Board.State.{
  Card, CardList, Cards, BoardState, BoardMutationEnvelope, IsConsistent, find_list, insert_at,
  places, named,
}
use flow_logix.Board.Store.{
  Store, toggle_item, PendingMove, index_of, remove_at, change_list, toggle_checklist_item,
  apply_remote_mutation, begin_move, show_move, stamp_move, roll_back, transfer, clear_key,
  restore_key, put_back, latest, bump_version, merge_patch,
}
use flow_logix.Board.Steps.{Step, Steps, frame, toggle, begin, show, stamp, fail, done, next}
use flow_logix.Board.Places.{one, places-insert, places-remove, named-change_list, find-change_list}
use flow_logix.Board.Invariant.Remote.{IsSafe, reconciled-IsConsistent}
use flow_logix.Board.Remote.{
  ReconcilePatch, replaces, needs_resync, nothing, reconcile_remote_mutation,
}

pub same_cards :
    (x c : Text) (v : Card) (cards : Cards)
    → is_some (lookup c cards) ≡ true
    → is_some (lookup x (put c v cards)) ≡ is_some (lookup x cards)
same_cards x c v cards h = ground (arith, lookup-put c x v cards, text_eq_iff c x)

same-clear_key :
    (x c : Text) (cards : Cards) → is_some (lookup x (clear_key c cards)) ≡ is_some (lookup x cards)
unfolding clear_key
same-clear_key x c cards = elim (Option-cases (lookup c cards)) [
  | inl missing ↦ ground arith
  | inr (moved, found) ↦ elim (Option-cases moved.position_idx) [
    | inl unkeyed ↦ ground arith
    | inr (key, keyed) ↦ ground (arith, same_cards x c (record moved { position_idx = none }) cards)
  ]
]

module _ (card_id a b : Text) (current index : ℕ) (source : CardList) (ls : List CardList)
    (found : find_list a ls ≡ some source) (there : is_some (find_list b ls) ≡ true)
    (at : index_of card_id source.card_ids ≡ some current) where
  pub places-transfer : (x : Text) → places x (transfer card_id a b current index ls) ≡ places x ls
  unfolding transfer
  places-transfer x = omega (
    arith,
    places-insert x card_id b index (change_list a (remove_at current) ls)
        (find-change_list b a (remove_at current) ls ∙ there),
    places-remove x card_id a current source ls found at,
  )

  pub named-transfer : (i : Text) → named i (transfer card_id a b current index ls) ≡ named i ls
  unfolding transfer
  named-transfer i =
      named-change_list i b (insert_at index card_id) (change_list a (remove_at current) ls)
      ∙ named-change_list i a (remove_at current) ls

-- A board with the same places, the same lists and the same cards is as consistent.
pub carried :
    (s t : BoardState)
    → ((x : Text) → places x t.lists ≡ places x s.lists)
    → ((i : Text) → named i t.lists ≡ named i s.lists)
    → ((x : Text) → is_some (lookup x t.cards) ≡ is_some (lookup x s.cards))
    → IsConsistent s
    → IsConsistent t
carried s t p q r h = record {
  one_place = λ x. ground (arith, p x, r x, h.one_place x);
  one_list = λ i. omega (arith, q i, h.one_list i);
}

toggle-IsConsistent :
    (card_id item_id : Text) (s : Store)
    → IsConsistent s.board
    → IsConsistent (toggle_checklist_item card_id item_id s).board
unfolding toggle_checklist_item
toggle-IsConsistent card_id item_id s h = elim (Option-cases (lookup card_id s.board.cards)) [
  | inl missing ↦ subst IsConsistent (ground arith) h
  | inr (card, found) ↦
      carried s.board _ (λ x. ground arith) (λ i. ground arith)
        (λ x. ground (
          arith,
          same_cards x card_id
              (record card { checklist = map (toggle_item item_id) card.checklist }) s.board.cards,
        ))
        h
]

show_move-IsConsistent :
    (m : PendingMove) (s : Store) → IsConsistent s.board → IsConsistent (show_move m s).board
unfolding show_move
show_move-IsConsistent m s h = elim (Option-cases (find_list m.from_list_id s.board.lists)) [
  | inl missing ↦ subst IsConsistent (ground arith) h
  | inr (source, found) ↦ elim (Option-cases (find_list m.to_list_id s.board.lists)) [
    | inl missing ↦ subst IsConsistent (ground arith) h
    | inr (target, there) ↦ elim (Option-cases (index_of m.card_id source.card_ids)) [
      | inl missing ↦ subst IsConsistent (ground arith) h
      | inr (current, at) ↦ subst IsConsistent (ground arith) (
          carried s.board
            (record {
              lists =
                  transfer m.card_id m.from_list_id m.to_list_id current m.to_index s.board.lists;
              cards = clear_key m.card_id s.board.cards;
            })
            (places-transfer m.card_id m.from_list_id m.to_list_id current m.to_index source
              s.board.lists found (ground arith) at)
            (named-transfer m.card_id m.from_list_id m.to_list_id current m.to_index source
              s.board.lists found (ground arith) at)
            (λ x. same-clear_key x m.card_id s.board.cards) h)
    ]
  ]
]

pub known_of_latest :
    (m : PendingMove) (s : Store) (current : Card)
    → latest m s ≡ some current
    → lookup m.card_id s.board.cards ≡ some current
unfolding latest
known_of_latest m s current h = ground arith

stamp_move-IsConsistent :
    (m : PendingMove) (key : Option Text) (s : Store)
    → IsConsistent s.board
    → IsConsistent (stamp_move m key s).board
unfolding stamp_move
stamp_move-IsConsistent m none s h = h
stamp_move-IsConsistent m (some k) s h = elim (Option-cases (latest m s)) [
  | inl stale ↦ subst IsConsistent (ground arith) h
  | inr (current, live) ↦ subst IsConsistent (ground arith) (
      carried s.board
        (record s.board {
          cards = put m.card_id (record current { position_idx = some k }) s.board.cards;
        })
        (λ x. refl) (λ i. refl)
        (λ x. ground (
          arith,
          same_cards x m.card_id (record current { position_idx = some k }) s.board.cards,
          known_of_latest m s current live,
        ))
        h)
]

same-restore_key :
    (x : Text) (m : PendingMove) (current : Card) (cards : Cards)
    → is_some (lookup m.card_id cards) ≡ true
    → is_some (lookup x (restore_key m current cards)) ≡ is_some (lookup x cards)
unfolding restore_key
same-restore_key x m current cards h = elim (Option-cases m.original_position_idx) [
  | inl unkeyed ↦ ground arith
  | inr (key, keyed) ↦
      ground (arith, same_cards x m.card_id (record current { position_idx = some key }) cards h)
]

module _ (m : PendingMove) (target : CardList) (ls : List CardList)
    (found : find_list m.to_list_id ls ≡ some target)
    (there : is_some (find_list m.from_list_id ls) ≡ true) where
  places-put_back : (x : Text) → places x (put_back m target ls) ≡ places x ls
  unfolding put_back
  places-put_back x = elim (Option-cases (index_of m.card_id target.card_ids)) [
    | inl gone ↦ ground arith
    | inr (current, at) ↦ ground (
      arith,
      places-transfer m.card_id m.to_list_id m.from_list_id current m.original_index target ls found
          there at x,
    )
  ]

  named-put_back : (i : Text) → named i (put_back m target ls) ≡ named i ls
  unfolding put_back
  named-put_back i = elim (Option-cases (index_of m.card_id target.card_ids)) [
    | inl gone ↦ ground arith
    | inr (current, at) ↦ ground (
      arith,
      named-transfer m.card_id m.to_list_id m.from_list_id current m.original_index target ls found
          there at i,
    )
  ]

roll_back-IsConsistent :
    (m : PendingMove) (message : Text) (s : Store)
    → IsConsistent s.board
    → IsConsistent (roll_back m message s).board
unfolding roll_back
roll_back-IsConsistent m message s h = elim (Option-cases (latest m s)) [
  | inl stale ↦ subst IsConsistent (ground arith) h
  | inr (current, live) ↦ elim (Option-cases (find_list m.from_list_id s.board.lists)) [
    | inl missing ↦ subst IsConsistent (ground arith) h
    | inr (source, there) ↦ elim (Option-cases (find_list m.to_list_id s.board.lists)) [
      | inl missing ↦ subst IsConsistent (ground arith) h
      | inr (target, found) ↦ subst IsConsistent (ground arith) (
          carried s.board
            (record {
              lists = put_back m target s.board.lists;
              cards = restore_key m current s.board.cards;
            })
            (places-put_back m target s.board.lists found (ground arith))
            (named-put_back m target s.board.lists found (ground arith))
            (λ x.
              same-restore_key x m current s.board.cards
                (ground (arith, known_of_latest m s current live)))
            h)
    ]
  ]
]

begin_move-IsConsistent :
    (card_id from_list_id to_list_id : Text) (to_index : ℕ) (m : PendingMove) (s t : Store)
    → begin_move card_id from_list_id to_list_id to_index s ≡ some (m, t)
    → IsConsistent s.board
    → IsConsistent t.board
unfolding begin_move
begin_move-IsConsistent card_id from_list_id to_list_id to_index m s t e h =
    subst IsConsistent (ground arith) h

merge_patch-IsConsistent :
    (p : ReconcilePatch) (s : Store)
    → IsSafe p
    → IsConsistent s.board
    → IsConsistent (merge_patch p s).board
merge_patch-IsConsistent (replaces board) s safe h = safe
merge_patch-IsConsistent needs_resync s safe h = h
merge_patch-IsConsistent nothing s safe h = h

apply_remote-IsConsistent :
    (e : BoardMutationEnvelope) (s : Store)
    → IsConsistent s.board
    → IsConsistent (apply_remote_mutation e s).board
unfolding apply_remote_mutation bump_version
apply_remote-IsConsistent e s h = subst IsConsistent (ground arith) (
    merge_patch-IsConsistent (reconcile_remote_mutation s.board e) s
      (reconciled-IsConsistent s.board h e) h)

Step-IsConsistent : {s t : Store} → Step s t → IsConsistent s.board → IsConsistent t.board
Step-IsConsistent (frame e {s}) h = apply_remote-IsConsistent e s h
Step-IsConsistent (toggle c i {s}) h = toggle-IsConsistent c i s h
Step-IsConsistent (begin c a b n m {s} {t} e) h = begin_move-IsConsistent c a b n m s t e h
Step-IsConsistent (show m {s}) h = show_move-IsConsistent m s h
Step-IsConsistent (stamp m key {s}) h = stamp_move-IsConsistent m key s h
Step-IsConsistent (fail m message {s}) h = roll_back-IsConsistent m message s h

-- In every state that a consistent board reaches by the frames of peers, by clicks on checklists and
-- by the steps of any number of moves, begun, shown, stamped or rolled back in any order, every
-- card still stands in exactly one place, nothing else stands anywhere, and no two lists share an
-- id.
pub Steps-IsConsistent : (s t : Store) → Steps s t → IsConsistent s.board → IsConsistent t.board
Steps-IsConsistent s t done h = h
Steps-IsConsistent s t (next {t = r} first last) h =
    Step-IsConsistent last (Steps-IsConsistent s r first h)
