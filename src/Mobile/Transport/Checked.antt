-- ===== src/Mobile/Transport/Checked.antt =====
-- The tests of mobile/src/sync/httpSyncTransport.ts that an answer of the server passes.
use flow_logix.Common.{
  ℕ, ◌≡◌, ◌↔◌, refl, sym, ap, ◌∙◌, subst, true, some, List, [], ◌∷◌, Text, codes, All, arith,
  Bool-cases, Option-cases, inl, inr,
}
use flow_logix.Crdt.Json.{Json, undefined, null, bool, number, string, array, object, Items}
use flow_logix.Mobile.Transport.{
  is_object, is_string, property, items_of, array_of, number_of, is_change, parse_changes, parse,
  accepted_in, ResponseBody,
}

-- A change that `parseChange` lets through.
pub record IsCheckedChange (raw : Json) : Type 0 where
  pub an_object : is_object raw ≡ true
  pub id : Text
  pub has_id : property raw (codes "id") ≡ string id
  pub has_fields : is_object (property raw (codes "fields")) ≡ true
  pub has_clocks : is_object (property raw (codes "clocks")) ≡ true

-- An answer that `parse` lets through, and its body.
pub record IsChecked (raw : Json) (r : ResponseBody) : Type 0 where
  pub an_object : is_object raw ≡ true
  pub items : Items
  pub has_changes : property raw (codes "changes") ≡ array items
  pub same_changes : r.changes ≡ items_of items
  pub sound : All IsCheckedChange (items_of items)
  pub has_checkpoint : property raw (codes "checkpoint") ≡ number r.checkpoint
  pub same_ids : r.accepted_ids ≡ accepted_in raw

string_of : (v : Json) → is_string v ≡ true → (s : Text) × (v ≡ string s)
string_of (string s) h = (s, refl)
string_of undefined h = cc
string_of null h = cc
string_of (bool b) h = cc
string_of (number n) h = cc
string_of (array xs) h = cc
string_of (object ms) h = cc

array_of-eq :
    (v : Json) (vs : List Json)
    → array_of v ≡ some vs
    → (xs : Items) × (v ≡ array xs) × (items_of xs ≡ vs)
array_of-eq (array xs) vs h = (xs, refl, cc)
array_of-eq undefined vs h = cc
array_of-eq null vs h = cc
array_of-eq (bool b) vs h = cc
array_of-eq (number n) vs h = cc
array_of-eq (string s) vs h = cc
array_of-eq (object ms) vs h = cc

number_of-eq : (v : Json) (n : ℕ) → number_of v ≡ some n → v ≡ number n
number_of-eq (number m) n h = cc
number_of-eq undefined n h = cc
number_of-eq null n h = cc
number_of-eq (bool b) n h = cc
number_of-eq (string s) n h = cc
number_of-eq (array xs) n h = cc
number_of-eq (object ms) n h = cc

is_change-IsCheckedChange : (raw : Json) → is_change raw ≡ true → IsCheckedChange raw
unfolding is_change
is_change-IsCheckedChange raw h =
    let (id, has_id) = string_of (property raw (codes "id")) (ground arith) in
    record {
      an_object = ground arith;
      id = id;
      has_id = has_id;
      has_fields = ground arith;
      has_clocks = ground arith;
    }

IsCheckedChange-is_change : (raw : Json) → IsCheckedChange raw → is_change raw ≡ true
unfolding is_change
IsCheckedChange-is_change raw h = rw (h.an_object, h.has_id, h.has_fields, h.has_clocks) refl

parsed_each :
    (raws changes : List Json)
    → parse_changes raws ≡ some changes
    → (changes ≡ raws) × All IsCheckedChange raws
unfolding parse_changes
parsed_each [] changes h = (cc, tt)
parsed_each (raw ∷ raws) changes h = elim (Bool-cases (is_change raw)) [
  | inr malformed ↦ absurd (ground arith)
  | inl sound ↦ elim (Option-cases (parse_changes raws)) [
    | inl refused ↦ absurd (ground arith)
    | inr (rest, e) ↦
        let (same, all_sound) = parsed_each raws rest e in
        let whole : raw ∷ rest ≡ changes = ground arith in
        (sym whole ∙ ap (◌∷◌ raw) same, (is_change-IsCheckedChange raw sound, all_sound))
  ]
]

parses_each : (raws : List Json) → All IsCheckedChange raws → parse_changes raws ≡ some raws
unfolding parse_changes
parses_each [] h = refl
parses_each (raw ∷ raws) (here, later) =
    ground (arith, IsCheckedChange-is_change raw here, parses_each raws later)

-- `parse` returns a body exactly for an answer that passes each of its tests.
pub parse-IsChecked_iff : (raw : Json) (r : ResponseBody) → (parse raw ≡ some r) ↔ IsChecked raw r
unfolding parse
parse-IsChecked_iff raw r = (accepts, refuses)
  where
    accepts : parse raw ≡ some r → IsChecked raw r
    accepts h = elim (Bool-cases (is_object raw)) [
      | inr other ↦ absurd (ground arith)
      | inl an_object ↦ elim (Option-cases (array_of (property raw (codes "changes")))) [
        | inl missing ↦ absurd (ground arith)
        | inr (raws, changes) ↦
            elim (Option-cases (number_of (property raw (codes "checkpoint")))) [
              | inl absent ↦ absurd (ground arith)
              | inr (n, checkpoint) ↦ elim (Option-cases (parse_changes raws)) [
                | inl malformed ↦ absurd (ground arith)
                | inr (parsed, e) ↦
                    let body : ResponseBody = record {
                      changes = parsed;
                      checkpoint = n;
                      accepted_ids = accepted_in raw;
                    } in
                    let same : body ≡ r = ground arith in
                    let (items, has_changes, whole) =
                      array_of-eq (property raw (codes "changes")) raws changes in
                    let (kept, sound) = parsed_each raws parsed e in
                    subst (IsChecked raw) same (record {
                      an_object = an_object;
                      items = items;
                      has_changes = has_changes;
                      same_changes = kept ∙ sym whole;
                      sound = subst (All IsCheckedChange) (sym whole) sound;
                      has_checkpoint =
                          number_of-eq (property raw (codes "checkpoint")) n checkpoint;
                      same_ids = refl;
                    })
              ]
            ]
      ]
    ]

    refuses : IsChecked raw r → parse raw ≡ some r
    refuses s =
        rw (s.an_object, s.has_changes, s.has_checkpoint, parses_each (items_of s.items) s.sound)
          (ap some {y = r} (λ i. record {
            changes = sym s.same_changes i;
            checkpoint = r.checkpoint;
            accepted_ids = sym s.same_ids i;
          }))
