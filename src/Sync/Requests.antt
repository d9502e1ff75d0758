-- ===== src/Sync/Requests.antt =====
-- backend/src/sync/dto/sync.dto.ts and the reading of a change in backend/src/sync/sync.service.ts.
-- What `class-validator` lets through arrives here: texts, objects and a natural deletion stamp.
use flow_logix.Common.{
  ℕ, zero, suc, Bool, true, false, ◌&&◌, ◌||◌, Option, none, some, List, [], ◌∷◌, Text, codes, leb,
  ◌==◌, if◌then◌else◌, put, for_each,
}
use flow_logix.Crdt.Json.{Json, string, number}
use flow_logix.Crdt.Record.{Fields, FieldClocks, field_of}
use flow_logix.Board.State.{BoardMutationType, BoardMutationPayload}
use flow_logix.Sync.Store.{SyncCollection, boards, lists, cards}

pub record SyncChange : Type 0 where
  pub id : Text
  pub fields : Fields
  -- `clocks` arrives as an unvalidated object.
  pub clocks : Fields
  pub node_id : Text
  pub deleted_at : Option ℕ

pub record SyncRequest : Type 0 where
  pub collection : SyncCollection
  pub since_checkpoint : ℕ
  pub changes : List SyncChange

-- A change as the response carries it: its clocks are numbers.
pub record EchoedChange : Type 0 where
  pub id : Text
  pub fields : Fields
  pub clocks : FieldClocks
  pub node_id : Text
  pub deleted_at : Option ℕ

pub record SyncResponse : Type 0 where
  pub changes : List EchoedChange
  pub checkpoint : ℕ
  pub accepted_ids : List Text

pub record PendingBoardEvent : Type 0 where
  pub type : BoardMutationType
  pub board_id : Text
  pub payload : BoardMutationPayload

abbrev pub max_sync_changes : ℕ
max_sync_changes = 1000

-- `syncFields` of the three strategies.
abbrev pub sync_fields : SyncCollection → List Text
sync_fields boards = codes "title" ∷ []
sync_fields lists = codes "title" ∷ codes "boardId" ∷ codes "positionIdx" ∷ []
sync_fields cards =
    codes "title"
    ∷ codes "description"
    ∷ codes "isComplete"
    ∷ codes "listId"
    ∷ codes "positionIdx"
    ∷ []

-- `typeof value === 'string' ? value : null`
abbrev pub text_of : Json → Option Text
text_of (string s) = some s
text_of v = none

-- `typeof value === 'number' && Number.isFinite(value)`: every number of the model is finite.
abbrev pub number_of : Json → Option ℕ
number_of (number n) = some n
number_of v = none

-- One round of the loop of `numericClocks`.
abbrev pub numeric_clock : Fields → FieldClocks → Text → FieldClocks
numeric_clock source out field = elim (number_of (field_of source field)) [
  | some n ↦ put field n out
  | none ↦ out
]

unfoldable pub numeric_clocks : Fields → List Text → FieldClocks
numeric_clocks source fields = for_each (numeric_clock source) [] fields

-- `[lo-hi]`
abbrev between : ℕ → ℕ → ℕ → Bool
between lo hi c = leb lo c && leb c hi

-- `[0-9a-f]` under the flag `i`
abbrev is_hex : ℕ → Bool
is_hex c = between b'0' b'9' c || (between b'a' b'f' c || between b'A' b'F' c)

-- The character classes of `UUID_RE`, in turn.
pub data UuidClass : Type 0 where
  hex dash version variant : UuidClass

abbrev in_class : UuidClass → ℕ → Bool
in_class hex c = is_hex c
in_class dash c = c == b'-'
in_class version c = between b'1' b'8' c
in_class variant c =
    c == b'8' || (c == b'9' || (c == b'a' || (c == b'b' || (c == b'A' || c == b'B'))))

-- `hex{n}` in front of the rest of the pattern.
abbrev hex_times : ℕ → List UuidClass → List UuidClass
hex_times zero rest = rest
hex_times (suc n) rest = hex ∷ hex_times n rest

abbrev uuid_pattern : List UuidClass
uuid_pattern = hex_times 8 (
    dash
    ∷ hex_times 4
        (dash ∷ version ∷ hex_times 3 (dash ∷ variant ∷ hex_times 3 (dash ∷ hex_times 12 []))))

abbrev matches : List UuidClass → Text → Bool
matches [] [] = true
matches [] (c ∷ s) = false
matches (k ∷ ks) [] = false
matches (k ∷ ks) (c ∷ s) = in_class k c && matches ks s

-- `UUID_RE.test(id)`
unfoldable pub is_uuid : Text → Bool
is_uuid id = matches uuid_pattern id

unfoldable pub as_uuid : Json → Option Text
unfolding is_uuid
as_uuid (string id) = if is_uuid id then some id else none
as_uuid v = none

-- The code units that `trim` removes: white space and line terminators.
abbrev is_space : ℕ → Bool
is_space c =
    between 9 13 c
    || (c == 32
        || (c == 160
            || (c == 5760
                || (between 8192 8202 c
                    || (c == 8232
                        || (c == 8233
                            || (c == 8239 || (c == 8287 || (c == 12288 || c == 65279)))))))))

-- `value.trim().length > 0`: some code unit is left.
unfoldable pub is_blank : Text → Bool
is_blank [] = true
is_blank (c ∷ s) = is_space c && is_blank s

unfoldable pub as_non_empty_string : Json → Option Text
unfolding is_blank
as_non_empty_string (string s) = if is_blank s then none else some s
as_non_empty_string v = none
