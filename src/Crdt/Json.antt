-- ===== src/Crdt/Json.antt =====
-- The values that a synced field holds, and `JSON.stringify` on them, by which mobile/src/crdt and
-- backend/src/sync break ties. Numbers are natural; the text of a fraction, of a negative number and
-- of an unpaired surrogate is outside the model.
use flow_logix.Common.{
  ℕ, zero, suc, ◌+◌, ◌-◌, ◌/◌, ◌%◌, Bool, true, false, Option, none, some, [], ◌∷◌, ◌++◌, Text,
  codes, cmp, Ordering, ltb, ◌==◌, if◌then◌else◌, get_or_else,
}

mutual
  pub data Json : Type 0 where
    undefined null : Json
    bool : Bool → Json
    number : ℕ → Json
    string : Text → Json
    array : Items → Json
    object : Members → Json

  pub data Items : Type 0 where
    no_items : Items
    item : Json → Items → Items

  pub data Members : Type 0 where
    no_members : Members
    member : Text → Json → Members → Members

-- Decimal digits, on fuel that exceeds their number.
decimal : ℕ → ℕ → Text → Text
decimal zero n rest = rest
decimal (suc fuel) n rest =
    let more = decimal fuel (n / 10) ((b'0' + n % 10) ∷ rest) in
    if ltb n 10 then (b'0' + n) ∷ rest else more

hex_digit : ℕ → ℕ
hex_digit d = if ltb d 10 then b'0' + d else b'a' + (d - 10)

-- The escape of one code unit inside a string.
escape : ℕ → Text
unfolding hex_digit
escape c =
    if c == b'"'
    then codes "\\\""
    else (if c == 92
        then codes "\\\\"
        else (if c == 8
            then codes "\\b"
            else (if c == 9
                then codes "\\t"
                else (if c == 10
                    then codes "\\n"
                    else (if c == 12
                        then codes "\\f"
                        else (if c == 13
                            then codes "\\r"
                            else (if ltb c 32
                                then codes "\\u00" ++ (hex_digit (c / 16) ∷ hex_digit (c % 16) ∷ [])
                                else (c ∷ []))))))))

escape_all : Text → Text
escape_all [] = []
escape_all (c ∷ s) = escape c ++ escape_all s

quote : Text → Text
quote s = b'"' ∷ (escape_all s ++ (b'"' ∷ []))

-- A separator before every part but the first.
abbrev comma : Bool → Text
comma true = []
comma false = codes ","

-- `JSON.stringify`; `none` is its answer `undefined`.
unfoldable mutual
  unfolding decimal quote escape_all escape

  pub stringify : Json → Option Text
  stringify undefined = none
  stringify null = some (codes "null")
  stringify (bool true) = some (codes "true")
  stringify (bool false) = some (codes "false")
  stringify (number n) = some (decimal (suc n) n [])
  stringify (string s) = some (quote s)
  stringify (array xs) = some (codes "[" ++ (stringify_items true xs ++ codes "]"))
  stringify (object ms) = some (codes "{" ++ (stringify_members true ms ++ codes "}"))

  pub stringify_items : Bool → Items → Text
  stringify_items first no_items = []
  stringify_items first (item x xs) =
      comma first ++ (get_or_else (stringify x) (codes "null") ++ stringify_items false xs)

  -- Members that hold `undefined` are left out.
  pub stringify_members : Bool → Members → Text
  stringify_members first no_members = []
  stringify_members first (member k v ms) = elim (stringify v) [
    | none ↦ stringify_members first ms
    | some t ↦ comma first ++ (quote k ++ (codes ":" ++ (t ++ stringify_members false ms)))
  ]

-- `a ?? null`
abbrev pub or_null : Json → Json
or_null undefined = null
or_null v = v

-- `JSON.stringify(a ?? null) ?? 'null'`
unfoldable pub canonical : Json → Text
canonical v = get_or_else (stringify (or_null v)) (codes "null")

-- Helper `compareValues` of both sides: -1, 0 and 1 are `lt`, `eq` and `gt`.
unfoldable pub compare_values : Json → Json → Ordering
compare_values a b = cmp (canonical a) (canonical b)
