-- ===== src/Board/Snapshot/Establishes.antt =====
-- The board that frontend/src/api/mapBoard.ts composes is one on which every card stands once.
use flow_logix.Common.{
  ℕ, ◌+◌, ◌≤◌, ◌≡◌, refl, ◌∙◌, Bool, true, false, ◌||◌, List, [], ◌∷◌, Text, text_eq, text_lt, ltb,
  arith, is_some, lookup, put, lookup-put, for_each, keep, Bool-cases, inl, inr,
}
use flow_logix.Board.State.{Cards, count, places, named, IsConsistent}
use flow_logix.Board.Snapshot.{
  ApiCard, ApiList, ApiBoard, ApiBoardMember, insert_by_position, sort_by_position, map_api_card,
  live_list, list_key, card_key, shown_cards, list_cards, card_ids, add_card, compose_lists,
  compose_board_snapshot,
}

-- The sum of a measure over a list, which sorting does not change.
abbrev pub total : {A : Type 0} → (A → ℕ) → List A → ℕ
total f [] = 0
total f (x ∷ xs) = f x + total f xs

module _ {A : Type 0} (key_of : A → Text) (f : A → ℕ) where
  total-insert : (x : A) (xs : List A) → total f (insert_by_position key_of x xs) ≡ f x + total f xs
  unfolding insert_by_position
  total-insert x [] = refl
  total-insert x (y ∷ ys) = elim (Bool-cases (text_lt (key_of y) (key_of x))) [
    | inl before ↦ ground (arith, total-insert x ys)
    | inr after ↦ ground arith
  ]

  total-sort : (xs : List A) → total f (sort_by_position key_of xs) ≡ total f xs
  unfolding sort_by_position
  total-sort [] = refl
  total-sort (x ∷ xs) = omega (arith, total-insert x (sort_by_position key_of xs), total-sort xs)

total-same :
    {A : Type 0} (f g : A → ℕ) (xs : List A) → ((x : A) → f x ≡ g x) → total f xs ≡ total g xs
total-same f g [] h = refl
total-same f g (x ∷ xs) h = omega (arith, h x, total-same f g xs h)

-- Whether an id is the one in question, as a number.
abbrev pub one_if : Bool → ℕ
one_if true = 1
one_if false = 0

abbrev pub is_card : Text → ApiCard → ℕ
is_card x c = one_if (text_eq c.id x)

count-card_ids : (x : Text) (cs : List ApiCard) → count x (card_ids cs) ≡ total (is_card x) cs
unfolding count
count-card_ids x [] = refl
count-card_ids x (c ∷ cs) = ground (arith, count-card_ids x cs)

-- A card is in the map exactly if it is added or was there.
lookup-added :
    (x : Text) (cs : List ApiCard) (cards : Cards)
    → is_some (lookup x (for_each add_card cards cs))
      ≡ (ltb 0 (total (is_card x) cs) || is_some (lookup x cards))
lookup-added x [] cards = refl
lookup-added x (c ∷ cs) cards =
    lookup-added x cs (put c.id (map_api_card c) cards)
    ∙ ground (arith, lookup-put c.id x (map_api_card c) cards)

module _ (cards_by_list : List (Text × List ApiCard)) where
  -- How often the server's answers show a card, and how many lists that are shown have an id.
  abbrev pub shown_in : Text → ApiList → ℕ
  shown_in x l = total (is_card x) (shown_cards cards_by_list l)

  abbrev pub times_shown : Text → List ApiList → ℕ
  times_shown x api_lists = total (shown_in x) (keep live_list api_lists)

  abbrev pub times_named : Text → List ApiList → ℕ
  times_named i api_lists = total (λ l. one_if (text_eq l.id i)) (keep live_list api_lists)

  list_cards-shown :
      (x : Text) (l : ApiList) → total (is_card x) (list_cards cards_by_list l) ≡ shown_in x l
  list_cards-shown x l = total-sort card_key (is_card x) (shown_cards cards_by_list l)

  places-compose :
      (x : Text) (ls : List ApiList) (cards : Cards)
      → places x (compose_lists cards_by_list ls cards).lists ≡ total (shown_in x) ls
  unfolding places compose_lists
  places-compose x [] cards = refl
  places-compose x (l ∷ ls) cards = omega (
    arith,
    count-card_ids x (list_cards cards_by_list l),
    list_cards-shown x l,
    places-compose x ls (for_each add_card cards (list_cards cards_by_list l)),
  )

  named-compose :
      (i : Text) (ls : List ApiList) (cards : Cards)
      → named i (compose_lists cards_by_list ls cards).lists
        ≡ total (λ l. one_if (text_eq l.id i)) ls
  unfolding named compose_lists
  named-compose i [] cards = refl
  named-compose i (l ∷ ls) cards =
      ground (arith, named-compose i ls (for_each add_card cards (list_cards cards_by_list l)))

  lookup-compose :
      (x : Text) (ls : List ApiList) (cards : Cards)
      → is_some (lookup x (compose_lists cards_by_list ls cards).cards)
        ≡ (ltb 0 (total (shown_in x) ls) || is_some (lookup x cards))
  unfolding compose_lists
  lookup-compose x [] cards = refl
  lookup-compose x (l ∷ ls) cards =
      lookup-compose x ls (for_each add_card cards (list_cards cards_by_list l))
      ∙ ground (arith, lookup-added x (list_cards cards_by_list l) cards, list_cards-shown x l)

  -- If the server's answers show no card twice and no two of their lists share an id, archived ones
  -- aside, then the composed board is consistent: every card stands in exactly one place.
  pub compose_board_snapshot-IsConsistent :
      (board : ApiBoard) (api_lists : List ApiList) (api_members : List ApiBoardMember)
      → ((x : Text) → times_shown x api_lists ≤ 1)
      → ((i : Text) → times_named i api_lists ≤ 1)
      → IsConsistent (compose_board_snapshot cards_by_list board api_lists api_members).state
  unfolding compose_board_snapshot
  compose_board_snapshot-IsConsistent board api_lists api_members once alone =
      let sorted = sort_by_position list_key (keep live_list api_lists) in
      record {
        one_place = λ x. ground (
          arith,
          places-compose x sorted [],
          lookup-compose x sorted [],
          total-sort list_key (shown_in x) (keep live_list api_lists),
          once x,
        );
        one_list = λ i. omega (
          arith,
          named-compose i sorted [],
          total-sort list_key (λ l. one_if (text_eq l.id i)) (keep live_list api_lists),
          alone i,
        );
      }
