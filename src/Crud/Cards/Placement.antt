-- ===== src/Crud/Cards/Placement.antt =====
-- Where `update` of backend/src/cards/cards.service.ts puts a card between the neighbours that a
-- client names.
use flow_logix.Common.{
  ◌≡◌, refl, sym, ap, ◌∙◌, subst, true, ◌||◌, Option, none, some, Text, codes, text_eq_iff, is_some,
  get_or_else, Option-cases, Bool-cases, inl, inr, lookup, put, lookup-put, arith,
}
use flow_logix.Crdt.Json.{string, undefined}
use flow_logix.Ordering.Indexer.{Indexer, ok, base62_alphabet}
use flow_logix.Ordering.Position.{base62, is_valid, key_between, base62-IsPlain}
use flow_logix.Ordering.Indexer.Laws.{
  SortsAbove, SortsBelow, get_intermediate_key-between, get_intermediate_key-ok_iff,
}
use flow_logix.Sync.Store.{SyncRow, EntityManager, cards}
use flow_logix.Crud.Answers.{
  Answer, answered, ◌>>=◌, ◌>>◌, >>=-eq-answered, refuse_if-eq-answered, of_result,
  of_result-eq-answered, refuse_if, answered-injective,
}
use flow_logix.Crud.Positions.{
  text_column, is_text, both_same, neighbor_key, resolve_position_from_neighbors,
}
use flow_logix.Crud.Cards.{
  UpdateCard, Saved, set_text, some_key, check_target, next_position, update, saved_update, assign,
  board_of_card, column_or_empty,
}
use flow_logix.Board.State.{card_moved}
use flow_logix.Sync.Requests.{text_of}
use flow_logix.Crud.Tenant.{assert_card_in_org}

-- A key that sorts strictly between two bounds that answered.
key_between-ok :
    (positions : Indexer) (prev next : Option Text) (key : Text)
    → base62 ≡ ok positions
    → key_between positions prev next ≡ ok key
    → (is_valid positions key ≡ true) × SortsAbove prev key × SortsBelow key next
unfolding key_between is_valid
key_between-ok positions prev next key made answers =
    let (p, q, in_order) =
      (get_intermediate_key-ok_iff base62_alphabet none positions prev next made
          (base62-IsPlain positions made)).0
        (key, answers) in
    let (k, minted, valid, above, below) =
      get_intermediate_key-between base62_alphabet none positions prev next made
        (base62-IsPlain positions made) p q in_order in
    let same : k ≡ key = cc in
    (
      subst (λ k. is_valid positions k ≡ true) same valid,
      subst (SortsAbove prev) same above,
      subst (λ k. SortsBelow k next) same below,
    )

module _ {Db : Type 0} (manager : EntityManager Db) where
  -- A neighbour is absent, or a card of the list whose key satisfies a condition.
  abbrev pub Beside : Db → Text → (Option Text → Type 0) → Option Text → Type 0
  Beside db list Holds none = Unit
  Beside db list Holds (some id) =
      (row : SyncRow) × (manager.find_one db cards id ≡ some row)
      × (is_text (text_column (codes "listId") row) list ≡ true)
      × Holds (text_column (codes "positionIdx") row)

  module _ (positions : Indexer) where
    neighbor_key-Beside :
        (db : Db) (list : Text) (Holds : Option Text → Type 0) (id key : Option Text)
        → neighbor_key manager positions db list id ≡ answered key
        → Holds key
        → Beside db list Holds id
    neighbor_key-Beside db list Holds none key h holds = tt
    neighbor_key-Beside db list Holds (some id) key h holds =
        elim (Option-cases (manager.find_one db cards id)) [
          | inl gone ↦ absurd (ground arith)
          | inr (row, there) ↦ elim (Bool-cases (is_text (text_column (codes "listId") row) list)) [
            | inr elsewhere ↦ absurd (ground arith)
            | inl here ↦
                let same : key ≡ text_column (codes "positionIdx") row = ground arith in
                (row, there, here, subst Holds same holds)
          ]
        ]

    neighbors-between :
        (made : base62 ≡ ok positions) (db : Db) (id list : Text) (before after : Option Text)
        (key : Text)
        → resolve_position_from_neighbors manager positions db id list before after ≡ answered key
        → (is_valid positions key ≡ true)
          × Beside db list (λ p. SortsAbove p key) before
          × Beside db list (λ p. SortsBelow key p) after
    unfolding resolve_position_from_neighbors
    neighbors-between made db id list before after key h =
        let minted : Option Text → Option Text → Answer Text =
          λ prev next. of_result (key_between positions prev next) in
        let from_prev : Option Text → Answer Text =
          λ prev. neighbor_key manager positions db list after >>= minted prev in
        let rest = neighbor_key manager positions db list before >>= from_prev in
        let (_, h1) =
          refuse_if-eq-answered (is_text before id || is_text after id)
            (refuse_if (both_same before after) >> rest) h in
        let (_, h2) = refuse_if-eq-answered (both_same before after) rest h1 in
        let (prev, p, h3) =
          >>=-eq-answered (neighbor_key manager positions db list before) from_prev h2 in
        let (next, n, h4) =
          >>=-eq-answered (neighbor_key manager positions db list after) (minted prev) h3 in
        let (valid, above, below) =
          key_between-ok positions prev next key made (of_result-eq-answered _ h4) in
        (
          valid,
          neighbor_key-Beside db list (λ p. SortsAbove p key) before prev p above,
          neighbor_key-Beside db list (λ p. SortsBelow key p) after next n below,
        )

    set_text-column :
        (column t : Text) (row : SyncRow)
        → text_column column (set_text column (some t) row) ≡ some t
    set_text-column column t row =
        let found : lookup column (put column (string t) row.columns) ≡ some (string t) =
          lookup-put column column (string t) row.columns
          ∙ rw ((text_eq_iff column column).1 refl) refl in
        ap (λ o. text_of (get_or_else o undefined)) found

    -- The list that the card is to stand in.
    abbrev pub target_of : UpdateCard → SyncRow → Text
    target_of dto card = get_or_else dto.list_id (column_or_empty (codes "listId") card)

    placed :
        (made : base62 ≡ ok positions) (db : Db) (id : Text) (dto : UpdateCard) (card : SyncRow)
        (placed? : Option Text)
        → (is_some dto.before_card_id || is_some dto.after_card_id) ≡ true
        → next_position manager positions db id dto card ≡ answered placed?
        → (key : Text) × (placed? ≡ some key)
          × (is_valid positions key ≡ true)
          × Beside db (target_of dto card) (λ p. SortsAbove p key) dto.before_card_id
          × Beside db (target_of dto card) (λ p. SortsBelow key p) dto.after_card_id
    unfolding next_position
    placed made db id dto card placed? named h =
        let minted =
          resolve_position_from_neighbors manager positions db id (target_of dto card)
            dto.before_card_id dto.after_card_id in
        let chosen : some_key manager positions minted ≡ answered placed? = ground arith in
        let keep_some : Text → Answer (Option Text) = λ key. answered (some key) in
        let (key, m, kept) = >>=-eq-answered minted keep_some chosen in
        let same : placed? ≡ some key = ground arith in
        let (valid, above, below) =
          neighbors-between made db id (target_of dto card) dto.before_card_id dto.after_card_id key
            m in
        (key, same, valid, above, below)

    -- If the client names a neighbour or two and `update` returns, the card is stored under a
    -- well-formed key that sorts after the key of the card named before it and before the key of
    -- the one named after it; these are cards of the list that the card is to stand in; and the
    -- event is a move.
    pub update-between :
        (made : base62 ≡ ok positions) (db : Db) (id org : Text) (dto : UpdateCard)
        (done : Saved Db)
        → (is_some dto.before_card_id || is_some dto.after_card_id) ≡ true
        → update manager positions db id org dto ≡ answered done
        → (card : SyncRow) × (key : Text) × (assert_card_in_org manager db id org ≡ answered card)
          × (manager.find_one done.db cards id ≡ some done.row)
          × (text_column (codes "positionIdx") done.row ≡ some key)
          × (is_valid positions key ≡ true)
          × Beside db (target_of dto card) (λ p. SortsAbove p key) dto.before_card_id
          × Beside db (target_of dto card) (λ p. SortsBelow key p) dto.after_card_id
          × (done.event.type ≡ card_moved)
    unfolding update
    update-between made db id org dto done named h =
        let saved : SyncRow → Option Text → Answer (Saved Db) =
          λ card key. answered (saved_update manager positions db id dto card key) in
        let placing : SyncRow → Answer (Saved Db) =
          λ card. next_position manager positions db id dto card >>= saved card in
        let checking : SyncRow → Answer (Unit {0}) = λ card.
          check_target manager positions db org (board_of_card manager positions db card)
            dto.list_id card in
        let (card, own, h1) =
          >>=-eq-answered (assert_card_in_org manager db id org)
            (λ card. checking card >>= (λ u. placing card)) h in
        let (_, _, h2) = >>=-eq-answered (checking card) (λ u. placing card) h1 in
        let (placed?, next, h3) =
          >>=-eq-answered (next_position manager positions db id dto card) (saved card) h2 in
        let (key, some_placed, valid, above, below) =
          placed made db id dto card placed? named next in
        let result = saved_update manager positions db id dto card (some key) in
        let is_result : result ≡ done =
          ap (saved_update manager positions db id dto card) (sym some_placed)
          ∙ answered-injective h3 in
        (
          card,
          key,
          own,
          subst (λ d. manager.find_one d.db cards id ≡ some d.row) is_result
              (manager.save-found db cards id result.row),
          subst (λ d. text_column (codes "positionIdx") d.row ≡ some key) is_result
              (set_text-column (codes "positionIdx") key
                (set_text (codes "listId") dto.list_id (assign dto.content card))),
          valid,
          above,
          below,
          subst (λ d. d.event.type ≡ card_moved) is_result refl,
        )
