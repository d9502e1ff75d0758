-- ===== src/Board/State.antt =====
-- The entities of frontend/src/store/types.ts and the frames of frontend/src/realtime/types.ts.
use flow_logix.Common.{
  ℕ, suc, ◌≡◌, Bool, true, false, Option, none, some, List, [], ◌∷◌, ◌++◌, Text, text_eq, take,
  drop, lookup, ◌+◌, ◌≤◌, is_some, if◌then◌else◌,
}

pub data CardPriority : Type 0 where
  low medium high : CardPriority

pub record ChecklistItem : Type 0 where
  pub id : Text
  pub label : Text
  pub done : Bool

pub record Card : Type 0 where
  pub id : Text
  pub title : Text
  pub description : Option Text
  pub priority : CardPriority
  pub assignee_ids : List Text
  pub checklist : List ChecklistItem
  pub is_complete : Bool
  pub position_idx : Option Text

-- The interface `List` of the board.
pub record CardList : Type 0 where
  pub id : Text
  pub title : Text
  pub card_ids : List Text

abbrev pub Cards : Type 0
Cards = List (Text × Card)

pub record BoardState : Type 0 where
  pub lists : List CardList
  pub cards : Cards

pub data BoardMutationType : Type 0 where
  card_created card_moved card_updated card_deleted : BoardMutationType
  list_created list_updated list_deleted : BoardMutationType

pub record BoardMutationPayload : Type 0 where
  pub card_id : Option Text
  pub list_id : Option Text
  pub position_idx : Option Text

-- An envelope without `boardId` and `ts`, which the reconciliation does not read.
pub record BoardMutationEnvelope : Type 0 where
  pub seq : ℕ
  pub type : BoardMutationType
  pub payload : BoardMutationPayload

-- A text that JavaScript tests as true: present and not empty.
abbrev pub truthy : Option Text → Option Text
truthy none = none
truthy (some []) = none
truthy (some (c ∷ s)) = some (c ∷ s)

-- `lists.find((l) => l.id === id)`
abbrev pub find_list : Text → List CardList → Option CardList
find_list i [] = none
find_list i (l ∷ ls) = elim (text_eq l.id i) [ true ↦ some l | false ↦ find_list i ls ]

-- `ids.filter((id) => id !== x)`
abbrev pub without : Text → List Text → List Text
without x [] = []
without x (y ∷ ys) = elim (text_eq y x) [ true ↦ without x ys | false ↦ y ∷ without x ys ]

-- `[...ids.slice(0, n), x, ...ids.slice(n)]`, which is also `ids.splice(n, 0, x)`.
abbrev pub insert_at : ℕ → Text → List Text → List Text
insert_at n x ys = take n ys ++ x ∷ drop n ys

-- How often a card stands in a list of ids, and on a board.
unfoldable pub count : Text → List Text → ℕ
count x [] = 0
count x (y ∷ ys) = elim (text_eq y x) [ true ↦ suc (count x ys) | false ↦ count x ys ]

unfoldable pub places : Text → List CardList → ℕ
places x [] = 0
places x (l ∷ ls) = count x l.card_ids + places x ls

-- How many lists have an id.
unfoldable pub named : Text → List CardList → ℕ
named i [] = 0
named i (l ∷ ls) = elim (text_eq l.id i) [ true ↦ suc (named i ls) | false ↦ named i ls ]

-- Every card of the board stands in exactly one place, nothing else stands anywhere, and no two
-- lists share an id.
pub record IsConsistent (s : BoardState) : Type 0 where
  pub one_place : (x : Text) → places x s.lists ≡ (if is_some (lookup x s.cards) then 1 else 0)
  pub one_list : (i : Text) → named i s.lists ≤ 1
