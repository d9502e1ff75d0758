-- ===== src/Mobile/Transport/Values.antt =====
-- The shapes of JSON values, by which mobile/src/sync/httpSyncTransport.ts checks an answer.
use flow_logix.Common.{
  ◌≡◌, ◌≢◌, refl, sym, ap, ◌∙◌, subst, true, some, none, List, [], ◌∷◌, Text, codes, arith, text_eq,
  text_eq_iff, Bool-cases, inl, inr,
}
use flow_logix.Crdt.Json.{
  Json, undefined, null, bool, number, string, array, object, Items, no_items, item, Members,
  no_members, member,
}
use flow_logix.Mobile.Transport.{is_object, property, member_at, items_of, array_of, strings_of}

-- A value that has properties: not `null`, and no text, number or Boolean.
pub data HasProperties : Json → Type 0 where
  an_array : {xs : Items} → HasProperties (array xs)
  an_object : {ms : Members} → HasProperties (object ms)

-- The first member of a name.
pub data Holds : Members → Text → Json → Type 0 where
  here : {key : Text} {v : Json} {ms : Members} → Holds (member key v ms) key v
  later :
      {k key : Text} {v w : Json} {ms : Members}
      → k ≢ key
      → Holds ms key v
      → Holds (member k w ms) key v

pub data Listing : Items → List Json → Type 0 where
  end : Listing no_items []
  first : {x : Json} {xs : Items} {vs : List Json} → Listing xs vs → Listing (item x xs) (x ∷ vs)

-- The texts among some items, in their order.
pub data Texts : Items → List Text → Type 0 where
  no_texts : Texts no_items []
  a_text :
      {s : Text} {xs : Items} {ts : List Text} → Texts xs ts → Texts (item (string s) xs) (s ∷ ts)
  no_text :
      {v : Json} {xs : Items} {ts : List Text}
      → ((s : Text) → v ≢ string s)
      → Texts xs ts
      → Texts (item v xs) ts

pub data AcceptedIds : Members → List Text → Type 0 where
  given :
      {ms : Members} {xs : Items} {ids : List Text}
      → Holds ms (codes "acceptedIds") (array xs)
      → Texts xs ids
      → AcceptedIds ms ids
  not_given :
      {ms : Members}
      → ((xs : Items) → ¬ Holds ms (codes "acceptedIds") (array xs))
      → AcceptedIds ms []

pub is_object-HasProperties : (v : Json) → is_object v ≡ true → HasProperties v
is_object-HasProperties (array xs) h = an_array
is_object-HasProperties (object ms) h = an_object
is_object-HasProperties undefined h = cc
is_object-HasProperties null h = cc
is_object-HasProperties (bool b) h = cc
is_object-HasProperties (number n) h = cc
is_object-HasProperties (string s) h = cc

pub HasProperties-is_object : (v : Json) → HasProperties v → is_object v ≡ true
HasProperties-is_object v an_array = refl
HasProperties-is_object v an_object = refl

pub HasProperties-defined : (v : Json) → HasProperties v → v ≢ undefined
HasProperties-defined v an_array h = cc
HasProperties-defined v an_object h = cc

pub Holds-member_at : (ms : Members) (key : Text) (v : Json) → Holds ms key v → member_at ms key ≡ v
Holds-member_at ms key v here = rw ((text_eq_iff key key).1 refl) refl
Holds-member_at (member k w ms) key v (later apart h) = elim (Bool-cases (text_eq k key)) [
  | inl same ↦ absurd (apart ((text_eq_iff k key).0 same))
  | inr other ↦ rw other (Holds-member_at ms key v h)
]

pub member_at-Holds :
    (ms : Members) (key : Text) (v : Json) → member_at ms key ≡ v → v ≢ undefined → Holds ms key v
member_at-Holds no_members key v h defined = absurd (defined (sym h))
member_at-Holds (member k w ms) key v h defined = elim (Bool-cases (text_eq k key)) [
  | inl same ↦
      let at : k ≡ key = (text_eq_iff k key).0 same in
      let is_v : w ≡ v = ground arith in
      subst (λ j. Holds (member j w ms) key v) (sym at)
        (subst (λ x. Holds (member key x ms) key v) (sym is_v) here)
  | inr other ↦
      later (λ at. absurd (ground (arith, (text_eq_iff k key).1 at)))
        (member_at-Holds ms key v (ground arith) defined)
]

pub Listing-items_of : (xs : Items) (vs : List Json) → Listing xs vs → vs ≡ items_of xs
Listing-items_of xs vs end = refl
Listing-items_of (item x xs) (y ∷ vs) (first h) = ap (◌∷◌ x) (Listing-items_of xs vs h)

pub items_of-Listing : (xs : Items) → Listing xs (items_of xs)
items_of-Listing no_items = end
items_of-Listing (item x xs) = first (items_of-Listing xs)

pub Texts-strings_of : (xs : Items) (ts : List Text) → Texts xs ts → ts ≡ strings_of (items_of xs)
Texts-strings_of xs ts no_texts = refl
Texts-strings_of (item v xs) (s ∷ ts) (a_text h) = ap (◌∷◌ s) (Texts-strings_of xs ts h)
Texts-strings_of (item (string s) xs) ts (no_text other h) = absurd (other s refl)
Texts-strings_of (item undefined xs) ts (no_text other h) = Texts-strings_of xs ts h
Texts-strings_of (item null xs) ts (no_text other h) = Texts-strings_of xs ts h
Texts-strings_of (item (bool b) xs) ts (no_text other h) = Texts-strings_of xs ts h
Texts-strings_of (item (number n) xs) ts (no_text other h) = Texts-strings_of xs ts h
Texts-strings_of (item (array ys) xs) ts (no_text other h) = Texts-strings_of xs ts h
Texts-strings_of (item (object ms) xs) ts (no_text other h) = Texts-strings_of xs ts h

pub strings_of-Texts : (xs : Items) → Texts xs (strings_of (items_of xs))
strings_of-Texts no_items = no_texts
strings_of-Texts (item (string s) xs) = a_text (strings_of-Texts xs)
strings_of-Texts (item undefined xs) = no_text (λ s h. cc) (strings_of-Texts xs)
strings_of-Texts (item null xs) = no_text (λ s h. cc) (strings_of-Texts xs)
strings_of-Texts (item (bool b) xs) = no_text (λ s h. cc) (strings_of-Texts xs)
strings_of-Texts (item (number n) xs) = no_text (λ s h. cc) (strings_of-Texts xs)
strings_of-Texts (item (array ys) xs) = no_text (λ s h. cc) (strings_of-Texts xs)
strings_of-Texts (item (object ms) xs) = no_text (λ s h. cc) (strings_of-Texts xs)

abbrev pub accepted_at : Json → List Text
accepted_at v = elim (array_of v) [ none ↦ [] | some ids ↦ strings_of ids ]

pub accepted_at-AcceptedIds :
    (ms : Members) (v : Json)
    → member_at ms (codes "acceptedIds") ≡ v
    → AcceptedIds ms (accepted_at v)
accepted_at-AcceptedIds ms (array xs) h =
    given (member_at-Holds ms (codes "acceptedIds") (array xs) h (λ e. cc)) (strings_of-Texts xs)
accepted_at-AcceptedIds ms undefined h =
    not_given (λ xs held. absurd (let e = Holds-member_at ms _ _ held in cc))
accepted_at-AcceptedIds ms null h =
    not_given (λ xs held. absurd (let e = Holds-member_at ms _ _ held in cc))
accepted_at-AcceptedIds ms (bool b) h =
    not_given (λ xs held. absurd (let e = Holds-member_at ms _ _ held in cc))
accepted_at-AcceptedIds ms (number n) h =
    not_given (λ xs held. absurd (let e = Holds-member_at ms _ _ held in cc))
accepted_at-AcceptedIds ms (string s) h =
    not_given (λ xs held. absurd (let e = Holds-member_at ms _ _ held in cc))
accepted_at-AcceptedIds ms (object ns) h =
    not_given (λ xs held. absurd (let e = Holds-member_at ms _ _ held in cc))

pub no_array : (v : Json) → ((xs : Items) → v ≢ array xs) → accepted_at v ≡ []
no_array (array xs) h = absurd (h xs refl)
no_array undefined h = refl
no_array null h = refl
no_array (bool b) h = refl
no_array (number n) h = refl
no_array (string s) h = refl
no_array (object ms) h = refl

pub AcceptedIds-accepted_at :
    (ms : Members) (ids : List Text)
    → AcceptedIds ms ids
    → ids ≡ accepted_at (member_at ms (codes "acceptedIds"))
AcceptedIds-accepted_at ms ids (given {xs = xs} held texts) =
    Texts-strings_of xs ids texts
    ∙ sym (ap accepted_at (Holds-member_at ms (codes "acceptedIds") (array xs) held))
AcceptedIds-accepted_at ms ids (not_given absent) = sym (
    no_array (member_at ms (codes "acceptedIds"))
      (λ xs h. absent xs (member_at-Holds ms (codes "acceptedIds") (array xs) h (λ e. cc))))

pub shaped :
    (raw : Json) (key : Text) (v : Json)
    → property raw key ≡ v
    → v ≢ undefined
    → (ms : Members) × (raw ≡ object ms)
shaped (object ms) key v h defined = (ms, refl)
shaped undefined key v h defined = absurd (defined (sym h))
shaped null key v h defined = absurd (defined (sym h))
shaped (bool b) key v h defined = absurd (defined (sym h))
shaped (number n) key v h defined = absurd (defined (sym h))
shaped (string s) key v h defined = absurd (defined (sym h))
shaped (array xs) key v h defined = absurd (defined (sym h))

module _ (raw : Json) (ms : Members) (shape : raw ≡ object ms) where
  pub held : (key : Text) (v : Json) → property raw key ≡ v → v ≢ undefined → Holds ms key v
  held key v h defined = member_at-Holds ms key v (sym (ap (λ r. property r key) shape) ∙ h) defined

  pub read : (key : Text) (v : Json) → Holds ms key v → property raw key ≡ v
  read key v h = ap (λ r. property r key) shape ∙ Holds-member_at ms key v h
