-- ===== src/Sync/Service/Keys.antt =====
-- backend/src/sync/sync.service.ts never stores a list or a card without a well-formed key.
pub mod Updates
pub mod Stays
use flow_logix.Common.{
  ◌≡◌, ◌⊎◌, inl, inr, refl, sym, ap, subst, Bool, true, Option, none, some, Text, codes, cmp, arith,
  Bool-cases, Option-cases,
}
use flow_logix.Crdt.Json.{Json, string}
use flow_logix.Crdt.Record.{Fields, field_of}
use flow_logix.Ordering.Indexer.{Indexer, ok}
use flow_logix.Ordering.Position.{base62, is_valid, key_for_append, base62-IsPlain}
use flow_logix.Ordering.Indexer.{base62_alphabet}
use flow_logix.Ordering.Indexer.Laws.{get_intermediate_key-between, IsBound, InOrder}
use flow_logix.Sync.Store.{SyncCollection, boards, lists, cards, SyncRow, EntityManager}
use flow_logix.Sync.Requests.{SyncChange, as_uuid, as_non_empty_string}
use flow_logix.Sync.Strategies.{
  resolve_position_key, append_key, last_key, new_columns, board_columns_of, list_columns_of,
  card_columns_of, is_list_in_org, is_board_in_org,
}
use flow_logix.Sync.Service.{sync}

abbrev pub position : Text
position = codes "positionIdx"

module _ (positions : Indexer) where
  abbrev pub HasKey : Fields → Type 0
  HasKey columns =
      (key : Text) × (field_of columns position ≡ string key) × (is_valid positions key ≡ true)

  -- The columns of a list or of a card hold a well-formed key.
  abbrev pub IsPositioned : SyncCollection → Fields → Type 0
  IsPositioned boards columns = Unit
  IsPositioned lists columns = HasKey columns
  IsPositioned cards columns = HasKey columns

  module _ (made : base62 ≡ ok positions) where
    InOrder-none : (last : Option Text) → InOrder last none
    InOrder-none none = tt
    InOrder-none (some key) = tt

    appended :
        (last : Option Text)
        → IsBound positions last
        → (key : Text) × (append_key positions last ≡ some key) × (is_valid positions key ≡ true)
    unfolding key_for_append is_valid
    appended last valid =
        let (key, minted, well_formed, _, _) =
          get_intermediate_key-between base62_alphabet none positions last none made
            (base62-IsPlain positions made) valid tt (InOrder-none last) in
        (key, ground arith, well_formed)

    last_key-IsBound :
        (last : Option SyncRow)
        → ((row : SyncRow) → last ≡ some row → HasKey row.columns)
        → IsBound positions (last_key positions last)
    unfolding is_valid
    last_key-IsBound none h = tt
    last_key-IsBound (some row) h =
        let (key, e, valid) = h row refl in subst (λ v. IsBound positions (of v)) (sym e) valid
      where
        of : Json → Option Text
        of (string s) = some s
        of v = none

    resolved :
        (provided : Json) (last : Option SyncRow)
        → ((row : SyncRow) → last ≡ some row → HasKey row.columns)
        → (key : Text) × (resolve_position_key positions provided last ≡ some key)
          × (is_valid positions key ≡ true)
    unfolding resolve_position_key
    resolved (string s) last h = elim (Bool-cases (is_valid positions s)) [
      | inl valid ↦ (s, rw valid refl, valid)
      | inr invalid ↦
          let (key, e, valid) = appended (last_key positions last) (last_key-IsBound last h) in
          (key, rw invalid e, valid)
    ]
    resolved _ last h = appended (last_key positions last) (last_key-IsBound last h)

  module _ {Db : Type 0} (manager : EntityManager Db) where
    -- Every stored list and card is positioned.
    abbrev pub IsKeyed : Db → Type 0
    IsKeyed db =
        (e : SyncCollection) (id : Text) (row : SyncRow)
        → manager.find_one db e id ≡ some row
        → IsPositioned e row.columns

    keys_last :
        (db : Db) (e : SyncCollection) (parent : Text)
        → ((columns : Fields) → IsPositioned e columns → HasKey columns)
        → IsKeyed db
        → (row : SyncRow) → manager.find_last db e parent ≡ some row
        → HasKey row.columns
    keys_last db e parent has keyed row h =
        let (id, found) = manager.find_last-stored db e parent row h in
        has row.columns (keyed e id row found)

    module _ (made : base62 ≡ ok positions) (org : Text) where
      -- A change is incomplete, or the columns of its new row are positioned.
      pub new_columns-IsPositioned :
          (e : SyncCollection) (db : Db) (change : SyncChange)
          → IsKeyed db
          → (new_columns manager positions e db org change ≡ none)
            ⊎ ((columns : Fields) × (new_columns manager positions e db org change
                  ≡ some (some columns))
                × IsPositioned e columns)
      unfolding new_columns cmp
      new_columns-IsPositioned boards db change keyed =
          elim (Option-cases (as_non_empty_string (field_of change.fields (codes "title")))) [
            | inl e ↦ inl (ground arith)
            | inr (title, e) ↦ inr (board_columns_of org change title, ground arith, tt)
          ]
      new_columns-IsPositioned lists db change keyed =
          elim (Option-cases (as_non_empty_string (field_of change.fields (codes "title")))) [
            | inl e ↦ inl (ground arith)
            | inr (title, e) ↦
                elim (Option-cases (as_uuid (field_of change.fields (codes "boardId")))) [
                  | inl f ↦ inl (ground arith)
                  | inr (board, f) ↦ elim (Bool-cases (is_board_in_org manager db board org)) [
                    | inr out ↦ inl (ground arith)
                    | inl own ↦
                        let (key, g, valid) =
                          resolved made (field_of change.fields position)
                            (manager.find_last db lists board)
                            (keys_last db lists board (λ columns h. h) keyed) in
                        inr
                          (list_columns_of change board title key, ground arith, (key, refl, valid))
                  ]
                ]
          ]
      new_columns-IsPositioned cards db change keyed =
          elim (Option-cases (as_non_empty_string (field_of change.fields (codes "title")))) [
            | inl e ↦ inl (ground arith)
            | inr (title, e) ↦
                elim (Option-cases (as_uuid (field_of change.fields (codes "listId")))) [
                  | inl f ↦ inl (ground arith)
                  | inr (list, f) ↦ elim (Bool-cases (is_list_in_org manager db list org)) [
                    | inr out ↦ inl (ground arith)
                    | inl own ↦
                        let (key, g, valid) =
                          resolved made (field_of change.fields position)
                            (manager.find_last db cards list)
                            (keys_last db cards list (λ columns h. h) keyed) in
                        inr
                          (card_columns_of change list title key, ground arith, (key, refl, valid))
                  ]
                ]
          ]
