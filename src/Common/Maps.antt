-- ===== src/Common/Maps.antt =====
-- JavaScript objects and maps with string keys, as association lists in the order of insertion.

use mathlib.Core.Path.{◌≡◌, refl, ap, ◌∙◌}
use mathlib.Core.Logic.{inl, inr}
use mathlib.Core.Bool.{Bool, true, false, not, ◌&&◌, ◌||◌}
use mathlib.Core.Option.{Option, none, some}
use mathlib.Core.List.{List, [], ◌∷◌, ◌++◌}
use native.Mathlib.Omega.{arith}
use flow_logix.Common.Tests.{if◌then◌else◌, Bool-cases, is_some}
use flow_logix.Common.Lists.{any}
use flow_logix.Common.Strings.{Text, text_eq, text_eq_iff}

-- `xs.includes(k)`
abbrev pub contains : Text → List Text → Bool
contains k [] = false
contains k (x ∷ xs) = text_eq x k || contains k xs

-- No text stands twice.
abbrev pub distinct : List Text → Bool
distinct [] = true
distinct (x ∷ xs) = not (contains x xs) && distinct xs

-- A `Set` of strings with the items of a list added to it, in the order of insertion.
unfoldable pub add_all : List Text → List Text → List Text
add_all set [] = set
add_all set (x ∷ xs) = add_all (if contains x set then set else set ++ x ∷ []) xs

-- The loop `for (const x of xs) s = step(s, x)`.
abbrev pub for_each {ℓ κ} : {S : Type ℓ} {A : Type κ} → (S → A → S) → S → List A → S
for_each step s [] = s
for_each step s (x ∷ xs) = for_each step (step s x) xs

-- `a ?? b` on values that may be missing.
abbrev pub or_else {ℓ} : {A : Type ℓ} → Option A → Option A → Option A
or_else none b = b
or_else (some a) b = some a

module _ {ℓ} {V : Type ℓ} where
  abbrev pub lookup : Text → List (Text × V) → Option V
  lookup k [] = none
  lookup k ((j, v) ∷ m) = if text_eq j k then some v else lookup k m

  -- `m[k] = v`
  abbrev pub put : Text → V → List (Text × V) → List (Text × V)
  put k v [] = (k, v) ∷ []
  put k v ((j, w) ∷ m) = if text_eq j k then (k, v) ∷ m else (j, w) ∷ put k v m

  -- `delete m[k]`
  abbrev pub delete : Text → List (Text × V) → List (Text × V)
  delete k [] = []
  delete k ((j, w) ∷ m) = elim (text_eq j k) [ true ↦ delete k m | false ↦ (j, w) ∷ delete k m ]

  abbrev pub keys : List (Text × V) → List Text
  keys [] = []
  keys ((j, v) ∷ m) = j ∷ keys m

  pub lookup-put :
      (k j : Text) (v : V) (m : List (Text × V))
      → lookup j (put k v m) ≡ (if text_eq k j then some v else lookup j m)
  lookup-put k j v [] = refl
  lookup-put k j v ((i, w) ∷ m) =
      ground (arith, text_eq_iff k j, text_eq_iff i k, text_eq_iff i j, lookup-put k j v m)

  pub lookup-delete :
      (k j : Text) (m : List (Text × V))
      → lookup j (delete k m) ≡ (if text_eq k j then none else lookup j m)
  lookup-delete k j [] = ground arith
  lookup-delete k j ((i, w) ∷ m) =
      ground (arith, text_eq_iff k j, text_eq_iff i k, text_eq_iff i j, lookup-delete k j m)

  pub contains-keys : (k : Text) (m : List (Text × V)) → contains k (keys m) ≡ is_some (lookup k m)
  contains-keys k [] = refl
  contains-keys k ((j, v) ∷ m) = ground (arith, contains-keys k m)

pub contains-append :
    (k : Text) (xs ys : List Text) → contains k (xs ++ ys) ≡ (contains k xs || contains k ys)
contains-append k [] ys = refl
contains-append k (x ∷ xs) ys = ground (arith, contains-append k xs ys)

pub contains-add_all :
    (k : Text) (set xs : List Text)
    → contains k (add_all set xs) ≡ (contains k set || contains k xs)
unfolding add_all
contains-add_all k set [] = ground arith
contains-add_all k set (x ∷ xs) = elim (Bool-cases (contains x set)) [
  | inl old ↦ rw old (contains-add_all k set xs ∙ ground (arith, text_eq_iff x k))
  | inr new ↦
      rw new
        (contains-add_all k (set ++ x ∷ []) xs ∙ ground (arith, contains-append k set (x ∷ [])))
]

-- A loop that writes `f k` under each key `k` that it visits, to one of the maps of its state.
module _ {ℓ κ} {S : Type ℓ} {V : Type κ} (maps : S → List (Text × V)) (step : S → Text → S)
    (f : Text → V) (writes : (s : S) (k : Text) → maps (step s k) ≡ put k (f k) (maps s)) where
  pub lookup-for_each :
      (j : Text) (s : S) (ks : List Text)
      → lookup j (maps (for_each step s ks))
        ≡ (if contains j ks then some (f j) else lookup j (maps s))
  lookup-for_each j s [] = refl
  lookup-for_each j s (k ∷ ks) = elim (Bool-cases (text_eq k j)) [
    | inl same ↦
        let e : k ≡ j = (text_eq_iff k j).0 same in
        lookup-for_each j (step s k) ks
        ∙ ground (arith, ap (lookup j) (writes s k), lookup-put k j (f k) (maps s), ap f e)
    | inr other ↦
        lookup-for_each j (step s k) ks
        ∙ ground (arith, ap (lookup j) (writes s k), lookup-put k j (f k) (maps s))
  ]

-- A loop that writes to the key `k` that it visits what `w k` gives, if it gives something.
module _ {ℓ κ} {S : Type ℓ} {V : Type κ} (maps : S → List (Text × V)) (step : S → Text → S)
    (w : Text → Option V)
    (writes : (s : S) (k j : Text)
      → lookup j (maps (step s k))
        ≡ or_else (if text_eq k j then w k else none) (lookup j (maps s))) where
  pub lookup-for_each_given :
      (j : Text) (s : S) (ks : List Text)
      → lookup j (maps (for_each step s ks))
        ≡ or_else (if contains j ks then w j else none) (lookup j (maps s))
  lookup-for_each_given j s [] = refl
  lookup-for_each_given j s (k ∷ ks) = elim (Bool-cases (text_eq k j)) [
    | inl same ↦
        let e : k ≡ j = (text_eq_iff k j).0 same in
        lookup-for_each_given j (step s k) ks ∙ ground (arith, writes s k j, ap w e)
    | inr other ↦ lookup-for_each_given j (step s k) ks ∙ ground (arith, writes s k j)
  ]

pub any-eq-false_of_contains :
    (p : Text → Bool) (k : Text) (ks : List Text)
    → any p ks ≡ false
    → contains k ks ≡ true
    → p k ≡ false
any-eq-false_of_contains p k [] none_holds h = absurd (cc)
any-eq-false_of_contains p k (x ∷ ks) none_holds h = elim (Bool-cases (text_eq x k)) [
  | inl same ↦ let e : x ≡ k = (text_eq_iff x k).0 same in ground (arith, ap p e)
  | inr other ↦ any-eq-false_of_contains p k ks (ground arith) (ground arith)
]

pub any-eq-false :
    (p : Text → Bool) (ks : List Text)
    → ((k : Text) → contains k ks ≡ true → p k ≡ false)
    → any p ks ≡ false
any-eq-false p [] h = refl
any-eq-false p (x ∷ ks) h =
    let here = h x (ground (arith, text_eq_iff x x)) in
    let later = any-eq-false p ks (λ k m. h k (ground arith)) in ground arith

-- A loop that raises a flag at the keys that a test picks.
module _ {ℓ} {S : Type ℓ} (flag : S → Bool) (step : S → Text → S) (p : Text → Bool)
    (raises : (s : S) (k : Text) → flag (step s k) ≡ (p k || flag s)) where
  pub flag-for_each : (s : S) (ks : List Text) → flag (for_each step s ks) ≡ (any p ks || flag s)
  flag-for_each s [] = refl
  flag-for_each s (k ∷ ks) = ground (arith, flag-for_each (step s k) ks, raises s k)
