-- ===== src/Board/Invariant/Remote.antt =====
-- The board stays consistent under every frame (frontend/src/store/remoteMutations.ts).
use flow_logix.Common.{
  ℕ, ◌≡◌, refl, sym, subst, true, none, some, List, [], ◌∷◌, Text, text_eq, text_eq_iff, arith,
  lookup, put, delete, is_some, if◌then◌else◌, lookup-put, lookup-delete, contains, for_each, map,
  inl, inr, Option-cases,
}
use flow_logix.Board.State.{
  Card, CardList, Cards, BoardState, BoardMutationEnvelope, BoardMutationPayload, BoardMutationType,
  card_created, card_moved, card_updated, card_deleted, list_created, list_updated, list_deleted,
  IsConsistent, find_list, truthy, places,
}
use flow_logix.Board.Remote.{
  ReconcilePatch, replaces, needs_resync, nothing, drop_card, place_card, drop_if_listed,
  delete_card, remove_card, remove_list, move_card, reconcile_moved, reconcile_deleted,
  reconcile_list_deleted, reconcile_remote_mutation,
}
use flow_logix.Board.Places.{
  places-drop_card, places-place_card, places-keep, named-map, named-keep, named-positive,
  count-zero, count-positive, count-without,
}

-- A patch that leaves a consistent board: any that does not replace it, or one that puts such a
-- board in its place.
abbrev pub IsSafe : ReconcilePatch → Type 0
IsSafe (replaces board) = IsConsistent board
IsSafe needs_resync = Unit
IsSafe nothing = Unit

lookup-delete_cards :
    (x : Text) (cards : Cards) (ids : List Text)
    → lookup x (for_each delete_card cards ids) ≡ (if contains x ids then none else lookup x cards)
lookup-delete_cards x cards [] = refl
lookup-delete_cards x cards (y ∷ ids) =
    ground (arith, lookup-delete_cards x (delete y cards) ids, lookup-delete y x cards)

places-drop_if_listed :
    (x c : Text) (ls : List CardList)
    → places x (map (drop_if_listed c) ls) ≡ (if text_eq c x then 0 else places x ls)
unfolding places
places-drop_if_listed x c [] = ground arith
places-drop_if_listed x c (l ∷ ls) = ground (
  arith,
  places-drop_if_listed x c ls,
  count-without x c l.card_ids,
  count-zero c l.card_ids,
  text_eq_iff c x,
)

IsSafe-of : {p : ReconcilePatch} (q : ReconcilePatch) → p ≡ q → IsSafe q → IsSafe p
IsSafe-of q e h = subst IsSafe (sym e) h

module _ (s : BoardState) (h : IsConsistent s) where
  placed-IsConsistent :
      (card_id list_id : Text) (n : ℕ) (card : Card) (target : CardList)
      → is_some (lookup card_id s.cards) ≡ true
      → find_list list_id s.lists ≡ some target
      → IsConsistent record {
        lists = map (place_card card_id list_id n) (map (drop_card card_id) s.lists);
        cards = put card_id card s.cards;
      }
  placed-IsConsistent card_id list_id n card target known found = record {
    one_place = λ x. ground (
      arith,
      places-place_card x card_id list_id n (map (drop_card card_id) s.lists),
      places-drop_card x card_id s.lists,
      named-map list_id (drop_card card_id) (λ l. refl) s.lists,
      named-positive list_id target s.lists found,
      h.one_list list_id,
      h.one_place x,
      lookup-put card_id x card s.cards,
    );
    one_list = λ i. omega (
      arith,
      named-map i (place_card card_id list_id n) (λ l. ground arith)
          (map (drop_card card_id) s.lists),
      named-map i (drop_card card_id) (λ l. refl) s.lists,
      h.one_list i,
    );
  }

  move_card-IsSafe :
      (card_id list_id key : Text) (card : Card) (target : CardList)
      → lookup card_id s.cards ≡ some card
      → find_list list_id s.lists ≡ some target
      → IsSafe (move_card s card_id list_id key card)
  unfolding move_card
  move_card-IsSafe card_id list_id key card target known found =
      placed-IsConsistent card_id list_id _ _ target (ground arith) found

  remove_card-IsConsistent : (card_id : Text) → IsConsistent (remove_card s card_id)
  unfolding remove_card
  remove_card-IsConsistent card_id = record {
    one_place = λ x. ground (
      arith,
      places-drop_if_listed x card_id s.lists,
      h.one_place x,
      lookup-delete card_id x s.cards,
    );
    one_list = λ i.
        omega
          (arith, named-map i (drop_if_listed card_id) (λ l. ground arith) s.lists, h.one_list i);
  }

  remove_list-IsConsistent :
      (list_id : Text) (removed : CardList)
      → find_list list_id s.lists ≡ some removed
      → IsConsistent (remove_list s list_id removed)
  unfolding remove_list
  remove_list-IsConsistent list_id removed found = record {
    one_place = λ x. ground (
      arith,
      places-keep x list_id removed s.lists found (h.one_list list_id),
      h.one_place x,
      lookup-delete_cards x s.cards removed.card_ids,
      count-zero x removed.card_ids,
      count-positive x removed.card_ids,
    );
    one_list = λ i. omega (arith, named-keep i list_id s.lists, h.one_list i);
  }

  reconcile_moved-IsSafe : (payload : BoardMutationPayload) → IsSafe (reconcile_moved s payload)
  unfolding reconcile_moved
  reconcile_moved-IsSafe payload = elim (Option-cases (truthy payload.card_id)) [
    | inl absent ↦ IsSafe-of needs_resync (ground arith) tt
    | inr (card_id, e) ↦ elim (Option-cases (truthy payload.list_id)) [
      | inl absent ↦ IsSafe-of needs_resync (ground arith) tt
      | inr (list_id, f) ↦ elim (Option-cases payload.position_idx) [
        | inl absent ↦ IsSafe-of needs_resync (ground arith) tt
        | inr (key, g) ↦ elim (Option-cases (lookup card_id s.cards)) [
          | inl absent ↦ IsSafe-of needs_resync (ground arith) tt
          | inr (card, known) ↦ elim (Option-cases (find_list list_id s.lists)) [
            | inl absent ↦ IsSafe-of needs_resync (ground arith) tt
            | inr (target, found) ↦
                IsSafe-of (move_card s card_id list_id key card) (ground arith)
                  (move_card-IsSafe card_id list_id key card target known found)
          ]
        ]
      ]
    ]
  ]

  reconcile_deleted-IsSafe : (payload : BoardMutationPayload) → IsSafe (reconcile_deleted s payload)
  unfolding reconcile_deleted
  reconcile_deleted-IsSafe payload = elim (Option-cases (truthy payload.card_id)) [
    | inl absent ↦ IsSafe-of nothing (ground arith) tt
    | inr (card_id, e) ↦ elim (Option-cases (lookup card_id s.cards)) [
      | inl absent ↦ IsSafe-of nothing (ground arith) tt
      | inr (card, known) ↦
          IsSafe-of (replaces (remove_card s card_id)) (ground arith)
            (remove_card-IsConsistent card_id)
    ]
  ]

  reconcile_list_deleted-IsSafe :
      (payload : BoardMutationPayload) → IsSafe (reconcile_list_deleted s payload)
  unfolding reconcile_list_deleted
  reconcile_list_deleted-IsSafe payload = elim (Option-cases (truthy payload.list_id)) [
    | inl absent ↦ IsSafe-of nothing (ground arith) tt
    | inr (list_id, e) ↦ elim (Option-cases (find_list list_id s.lists)) [
      | inl absent ↦ IsSafe-of nothing (ground arith) tt
      | inr (removed, found) ↦
          IsSafe-of (replaces (remove_list s list_id removed)) (ground arith)
            (remove_list-IsConsistent list_id removed found)
    ]
  ]

  pub reconciled-IsConsistent : (e : BoardMutationEnvelope) → IsSafe (reconcile_remote_mutation s e)
  unfolding reconcile_remote_mutation
  reconciled-IsConsistent e = by_type e.type refl
    where
      by_type : (t : BoardMutationType) → e.type ≡ t → IsSafe (reconcile_remote_mutation s e)
      by_type card_created h' = IsSafe-of needs_resync (ground arith) tt
      by_type card_moved h' =
          IsSafe-of (reconcile_moved s e.payload) (ground arith) (reconcile_moved-IsSafe e.payload)
      by_type card_updated h' = IsSafe-of needs_resync (ground arith) tt
      by_type card_deleted h' =
          IsSafe-of (reconcile_deleted s e.payload) (ground arith)
            (reconcile_deleted-IsSafe e.payload)
      by_type list_created h' = IsSafe-of needs_resync (ground arith) tt
      by_type list_updated h' = IsSafe-of needs_resync (ground arith) tt
      by_type list_deleted h' =
          IsSafe-of (reconcile_list_deleted s e.payload) (ground arith)
            (reconcile_list_deleted-IsSafe e.payload)
