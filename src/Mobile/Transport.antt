-- ===== src/Mobile/Transport.antt =====
-- mobile/src/sync/httpSyncTransport.ts: the bodies that `HttpSyncTransport` posts, and the check of
-- what comes back. `none` is an exception.
pub mod Checked
pub mod Shapes
pub mod Values
mod Tests
use flow_logix.Common.{
  ℕ, Bool, true, false, not, ◌&&◌, Option, none, some, List, [], ◌∷◌, ◌++◌, Text, codes, text_eq,
  ◌==◌, if◌then◌else◌,
}
use flow_logix.Crdt.Json.{
  Json, undefined, null, number, string, array, object, Items, no_items, item, Members, no_members,
  member,
}

abbrev pub member_at : Members → Text → Json
member_at no_members key = undefined
member_at (member k v ms) key = if text_eq k key then v else member_at ms key

-- `typeof v === 'object' && v !== null`
abbrev pub is_object : Json → Bool
is_object (array xs) = true
is_object (object ms) = true
is_object v = false

-- `v.key` on an object; an array has no such property.
abbrev pub property : Json → Text → Json
property (object ms) key = member_at ms key
property v key = undefined

abbrev pub is_string : Json → Bool
is_string (string s) = true
is_string v = false

abbrev pub items_of : Items → List Json
items_of no_items = []
items_of (item x xs) = x ∷ items_of xs

-- `Array.isArray(v)`, with the items.
abbrev pub array_of : Json → Option (List Json)
array_of (array xs) = some (items_of xs)
array_of v = none

-- `typeof v === 'number'`, with the number.
abbrev pub number_of : Json → Option ℕ
number_of (number n) = some n
number_of v = none

-- The condition under which `parseChange` lets a change through.
unfoldable pub is_change : Json → Bool
is_change raw =
    is_object raw
    && (is_string (property raw (codes "id"))
        && (is_object (property raw (codes "fields")) && is_object (property raw (codes "clocks"))))

unfoldable pub parse_changes : List Json → Option (List Json)
parse_changes [] = some []
parse_changes (raw ∷ raws) =
    let rest = parse_changes raws in
    if is_change raw
    then (elim rest [ none ↦ none | some changes ↦ some (raw ∷ changes) ])
    else none

-- `.filter((id): id is string => typeof id === 'string')`
abbrev pub strings_of : List Json → List Text
strings_of [] = []
strings_of (string s ∷ vs) = s ∷ strings_of vs
strings_of (v ∷ vs) = strings_of vs

pub record ResponseBody : Type 0 where
  pub changes : List Json
  pub checkpoint : ℕ
  pub accepted_ids : List Text

abbrev pub accepted_in : Json → List Text
accepted_in raw = elim (array_of (property raw (codes "acceptedIds"))) [
  | none ↦ []
  | some ids ↦ strings_of ids
]

unfoldable pub parse : Json → Option ResponseBody
parse raw =
    if not (is_object raw) then none else (elim (array_of (property raw (codes "changes"))) [
      | none ↦ none
      | some raws ↦ elim (number_of (property raw (codes "checkpoint"))) [
        | none ↦ none
        | some checkpoint ↦ elim (parse_changes raws) [
          | none ↦ none
          | some changes ↦ some (record {
            changes = changes;
            checkpoint = checkpoint;
            accepted_ids = accepted_in raw;
          })
        ]
      ]
    ])

pub record RequestBody : Type 0 where
  pub collection : Text
  pub since_checkpoint : ℕ
  pub changes : List Json

-- What `fetch` resolves with, or that it rejects.
pub data FetchAnswer : Type 0 where
  response : (ok : Bool) (json : Option Json) → FetchAnswer
  rejected : FetchAnswer

-- The end of the address: `baseUrl.replace(/\/+$/, '')`.
unfoldable pub strip_slashes : Text → Text
strip_slashes [] = []
strip_slashes (c ∷ url) = elim (strip_slashes url) [
  | [] ↦ if c == b'/' then [] else c ∷ []
  | ◌∷◌ d rest ↦ c ∷ d ∷ rest
]

-- `Bearer ${token}`, if there is a token.
unfoldable pub authorization : Option Text → Option Text
authorization none = none
authorization (some []) = none
authorization (some (c ∷ token)) = some (codes "Bearer " ++ c ∷ token)

module _ (fetch : Text → Option Text → RequestBody → FetchAnswer) (base_url : Text)
    (token : Option Text) where
  unfoldable pub post : RequestBody → Option ResponseBody
  unfolding strip_slashes authorization
  post body = elim (fetch (strip_slashes base_url ++ codes "/sync") (authorization token) body) [
    | rejected ↦ none
    | response ok json ↦ if not ok then none else (elim json [ none ↦ none | some raw ↦ parse raw ])
  ]

  -- The changes and the checkpoint.
  unfoldable pub pull : Text → ℕ → Option (List Json × ℕ)
  pull collection since =
      elim (post (record { collection = collection; since_checkpoint = since; changes = [] })) [
        | none ↦ none
        | some r ↦ some (r.changes, r.checkpoint)
      ]

  -- The accepted ids.
  unfoldable pub push : Text → List Json → Option (List Text)
  push collection changes =
      elim (post (record { collection = collection; since_checkpoint = 0; changes = changes })) [
        | none ↦ none
        | some r ↦ some r.accepted_ids
      ]
