-- ===== src/Board/Remote.antt =====
-- frontend/src/store/remoteMutations.ts.
use flow_logix.Common.{
  ℕ, suc, Bool, true, false, Option, none, some, List, [], ◌∷◌, Text, text_eq, text_lt, map, lookup,
  put, delete, for_each, keep, not, contains,
}
use flow_logix.Board.State.{
  Card, CardList, Cards, BoardState, BoardMutationEnvelope, BoardMutationPayload, card_created,
  card_moved, card_updated, card_deleted, list_created, list_updated, list_deleted, truthy,
  find_list, without, insert_at,
}

-- A structural patch replaces both parts of the board.
pub data ReconcilePatch : Type 0 where
  replaces : BoardState → ReconcilePatch
  needs_resync : ReconcilePatch
  nothing : ReconcilePatch

-- `sibling?.positionIdx`
abbrev pub key_of : Cards → Text → Option Text
key_of cards x = elim (lookup x cards) [ none ↦ none | some card ↦ card.position_idx ]

-- `sibling?.positionIdx !== undefined && key < sibling.positionIdx`
unfoldable pub sorts_before : Cards → Text → Text → Bool
sorts_before cards key sibling = elim (key_of cards sibling) [
  | none ↦ false
  | some k ↦ text_lt key k
]

unfoldable pub insertion_index_for_key : List Text → Cards → Text → ℕ
insertion_index_for_key [] cards key = 0
insertion_index_for_key (x ∷ xs) cards key = elim (sorts_before cards key x) [
  | true ↦ 0
  | false ↦ suc (insertion_index_for_key xs cards key)
]

abbrev pub drop_card : Text → CardList → CardList
drop_card card_id l = record l { card_ids = without card_id l.card_ids }

-- The card put at `index` of the list `list_id`.
abbrev pub place_card : Text → Text → ℕ → CardList → CardList
place_card card_id list_id index l = elim (text_eq l.id list_id) [
  | true ↦ record l { card_ids = insert_at index card_id l.card_ids }
  | false ↦ l
]

-- `targetAfter!.cardIds`
abbrev pub ids_of : Option CardList → List Text
ids_of none = []
ids_of (some l) = l.card_ids

abbrev pub drop_if_listed : Text → CardList → CardList
drop_if_listed card_id l = elim (contains card_id l.card_ids) [
  | true ↦ record l { card_ids = without card_id l.card_ids }
  | false ↦ l
]

-- `for (const id of ids) delete cards[id]`
abbrev pub delete_card : Cards → Text → Cards
delete_card cards x = delete x cards

abbrev pub other_list : Text → CardList → Bool
other_list list_id l = not (text_eq l.id list_id)

module _ (state : BoardState) where
  unfoldable pub move_card : Text → Text → Text → Card → ReconcilePatch
  move_card card_id list_id key card =
      let without_card = map (drop_card card_id) state.lists in
      let index =
        insertion_index_for_key (ids_of (find_list list_id without_card)) state.cards key in
      replaces record {
        lists = map (place_card card_id list_id index) without_card;
        cards = put card_id (record card { position_idx = some key }) state.cards;
      }

  -- `case 'card.moved'`
  unfoldable pub reconcile_moved : BoardMutationPayload → ReconcilePatch
  reconcile_moved payload = elim (truthy payload.card_id) [
    | none ↦ needs_resync
    | some card_id ↦ elim (truthy payload.list_id) [
      | none ↦ needs_resync
      | some list_id ↦ elim payload.position_idx [
        | none ↦ needs_resync
        | some key ↦ elim (lookup card_id state.cards) [
          | none ↦ needs_resync
          | some card ↦ elim (find_list list_id state.lists) [
            | none ↦ needs_resync
            | some target ↦ move_card card_id list_id key card
          ]
        ]
      ]
    ]
  ]

  unfoldable pub remove_card : Text → BoardState
  remove_card card_id = record {
    lists = map (drop_if_listed card_id) state.lists;
    cards = delete card_id state.cards;
  }

  -- `case 'card.deleted'`
  unfoldable pub reconcile_deleted : BoardMutationPayload → ReconcilePatch
  reconcile_deleted payload = elim (truthy payload.card_id) [
    | none ↦ nothing
    | some card_id ↦ elim (lookup card_id state.cards) [
      | none ↦ nothing
      | some card ↦ replaces (remove_card card_id)
    ]
  ]

  unfoldable pub remove_list : Text → CardList → BoardState
  remove_list list_id removed = record {
    lists = keep (other_list list_id) state.lists;
    cards = for_each delete_card state.cards removed.card_ids;
  }

  -- `case 'list.deleted'`
  unfoldable pub reconcile_list_deleted : BoardMutationPayload → ReconcilePatch
  reconcile_list_deleted payload = elim (truthy payload.list_id) [
    | none ↦ nothing
    | some list_id ↦ elim (find_list list_id state.lists) [
      | none ↦ nothing
      | some removed ↦ replaces (remove_list list_id removed)
    ]
  ]

  unfoldable pub reconcile_remote_mutation : BoardMutationEnvelope → ReconcilePatch
  reconcile_remote_mutation envelope = elim envelope.type [
    | card_moved ↦ reconcile_moved envelope.payload
    | card_deleted ↦ reconcile_deleted envelope.payload
    | list_deleted ↦ reconcile_list_deleted envelope.payload
    | card_created ↦ needs_resync
    | card_updated ↦ needs_resync
    | list_created ↦ needs_resync
    | list_updated ↦ needs_resync
  ]
