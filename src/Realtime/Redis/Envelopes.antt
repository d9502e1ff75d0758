-- ===== src/Realtime/Redis/Envelopes.antt =====
-- A text of envelopes that can be read back, in place of `JSON.stringify` and `JSON.parse`.
use flow_logix.Common.{
  ℕ, zero, suc, ◌≡◌, refl, ap, ◌∙◌, Option, none, some, [], ◌∷◌, ◌++◌, Text, take, drop, length,
}
use flow_logix.Board.State.{
  BoardMutationType, card_created, card_moved, card_updated, card_deleted, list_created,
  list_updated, list_deleted,
}
use flow_logix.Realtime.Redis.{Envelope}

abbrev pub tag_of : BoardMutationType → ℕ
tag_of card_created = 0
tag_of card_moved = 1
tag_of card_updated = 2
tag_of card_deleted = 3
tag_of list_created = 4
tag_of list_updated = 5
tag_of list_deleted = 6

abbrev pub type_of : ℕ → BoardMutationType
type_of zero = card_created
type_of (suc zero) = card_moved
type_of (suc (suc zero)) = card_updated
type_of (suc (suc (suc zero))) = card_deleted
type_of (suc (suc (suc (suc zero)))) = list_created
type_of (suc (suc (suc (suc (suc zero))))) = list_updated
type_of (suc (suc (suc (suc (suc (suc n)))))) = list_deleted

type_of-tag_of : (t : BoardMutationType) → type_of (tag_of t) ≡ t
type_of-tag_of card_created = refl
type_of-tag_of card_moved = refl
type_of-tag_of card_updated = refl
type_of-tag_of card_deleted = refl
type_of-tag_of list_created = refl
type_of-tag_of list_updated = refl
type_of-tag_of list_deleted = refl

take-length : (s rest : Text) → take (length s) (s ++ rest) ≡ s
take-length [] rest = refl
take-length (c ∷ s) rest = ap (◌∷◌ c) (take-length s rest)

drop-length : (s rest : Text) → drop (length s) (s ++ rest) ≡ rest
drop-length [] rest = refl
drop-length (c ∷ s) rest = drop-length s rest

-- A text behind its length, and an optional one behind a mark.
abbrev pub write_text : Text → Text → Text
write_text s rest = length s ∷ (s ++ rest)

abbrev pub write_option : Option Text → Text → Text
write_option none rest = 0 ∷ rest
write_option (some s) rest = 1 ∷ write_text s rest

module _ {X : Type 0} where
  abbrev pub read_text : (Text → Text → Option X) → Text → Option X
  read_text next [] = none
  read_text next (n ∷ s) = next (take n s) (drop n s)

  abbrev pub read_option : (Option Text → Text → Option X) → Text → Option X
  read_option next [] = none
  read_option next (zero ∷ s) = next none s
  read_option next (suc n ∷ s) = read_text (λ t rest. next (some t) rest) s

  read-write_text :
      (next : Text → Text → Option X) (s rest : Text)
      → read_text next (write_text s rest) ≡ next s rest
  read-write_text next s rest =
      ap (λ t. next t (drop (length s) (s ++ rest))) (take-length s rest)
      ∙ ap (next s) (drop-length s rest)

  read-write_option :
      (next : Option Text → Text → Option X) (o : Option Text) (rest : Text)
      → read_option next (write_option o rest) ≡ next o rest
  read-write_option next none rest = refl
  read-write_option next (some s) rest = read-write_text (λ t rest. next (some t) rest) s rest

abbrev pub text_of : Envelope → Text
text_of e =
    e.seq
    ∷ e.ts
    ∷ tag_of e.type
    ∷ write_text e.board_id (
        write_option e.payload.card_id
          (write_option e.payload.list_id (write_option e.payload.position_idx [])))

module _ (seq ts : ℕ) (type : BoardMutationType) where
  abbrev built : Text → Option Text → Option Text → Option Text → Text → Option Envelope
  built board card list key s = some (record {
    seq = seq;
    board_id = board;
    type = type;
    payload = record { card_id = card; list_id = list; position_idx = key };
    ts = ts;
  })

  abbrev with_list : Text → Option Text → Option Text → Text → Option Envelope
  with_list board card list s = read_option (built board card list) s

  abbrev with_card : Text → Option Text → Text → Option Envelope
  with_card board card s = read_option (with_list board card) s

  abbrev with_board : Text → Text → Option Envelope
  with_board board s = read_option (with_card board) s

abbrev pub envelope_in : Text → Option Envelope
envelope_in (seq ∷ ts ∷ tag ∷ s) = read_text (with_board seq ts (type_of tag)) s
envelope_in s = none

pub envelope_in-text_of : (e : Envelope) → envelope_in (text_of e) ≡ some e
envelope_in-text_of e =
    let type = type_of (tag_of e.type) in
    let card = e.payload.card_id in
    let list = e.payload.list_id in
    let key = e.payload.position_idx in
    let keys = write_option key [] in
    let lists = write_option list keys in
    read-write_text (with_board e.seq e.ts type) e.board_id (write_option card lists)
    ∙ read-write_option (with_card e.seq e.ts type e.board_id) card lists
    ∙ read-write_option (with_list e.seq e.ts type e.board_id card) list keys
    ∙ read-write_option (built e.seq e.ts type e.board_id card list) key []
    ∙ ap (λ t. some (record e { type = t })) (type_of-tag_of e.type)
