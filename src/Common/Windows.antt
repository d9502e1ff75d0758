-- ===== src/Common/Windows.antt =====
-- A query's window: how many items a filter can lose, and how many must be read to find some.
use Prim.Native.Nat.{ℕ, zero, suc, ◌+◌, ◌≤◌}
use mathlib.Core.Path.{◌≡◌, refl, ap}
use mathlib.Core.Logic.{inl, inr}
use mathlib.Core.Bool.{Bool, true, false, not}
use mathlib.Core.List.{List, [], ◌∷◌}
use native.Mathlib.Omega.{arith}
use flow_logix.Common.Tests.{Bool-cases, if◌then◌else◌}
use flow_logix.Common.Lists.{length, take, keep}
use flow_logix.Common.Strings.{Text, text_eq, text_eq_iff}
use flow_logix.Common.Maps.{contains, distinct}

abbrev remove_one : Text → List Text → List Text
remove_one k [] = []
remove_one k (x ∷ xs) = if text_eq x k then xs else x ∷ remove_one k xs

length-remove_one :
    (k : Text) (xs : List Text) → contains k xs ≡ true → suc (length (remove_one k xs)) ≡ length xs
length-remove_one k [] h = cc
length-remove_one k (x ∷ xs) h = elim (Bool-cases (text_eq x k)) [
  | inl same ↦ ground arith
  | inr other ↦ ground (arith, length-remove_one k xs (ground arith))
]

contains-remove_one :
    (k j : Text) (xs : List Text)
    → text_eq k j ≡ false
    → contains j xs ≡ true
    → contains j (remove_one k xs) ≡ true
contains-remove_one k j [] other h = cc
contains-remove_one k j (x ∷ xs) other h = elim (Bool-cases (text_eq x k)) [
  | inl same ↦ ground (arith, text_eq_iff x k, text_eq_iff x j, text_eq_iff k j)
  | inr apart ↦ elim (Bool-cases (text_eq x j)) [
    | inl here ↦ ground arith
    | inr there ↦ ground (arith, contains-remove_one k j xs other (ground arith))
  ]
]

-- A list without repetitions whose items all stand in another is not longer than it.
pub length-distinct :
    (xs ys : List Text)
    → distinct xs ≡ true
    → ((k : Text) → contains k xs ≡ true → contains k ys ≡ true)
    → length xs ≤ length ys
length-distinct [] ys h inside = omega arith
length-distinct (x ∷ xs) ys h inside =
    let here = inside x (ground (arith, text_eq_iff x x)) in
    let rest : length xs ≤ length (remove_one x ys) =
      length-distinct xs (remove_one x ys) (ground arith) (λ k m. elim (Bool-cases (text_eq x k)) [
        | inl same ↦
            let e : x ≡ k = (text_eq_iff x k).0 same in
            absurd (ground (arith, ap (λ j. contains j xs) e))
        | inr other ↦ contains-remove_one x k ys other (inside k (ground arith))
      ]) in
    omega (arith, rest, length-remove_one x ys here)

module _ {ℓ} {A : Type ℓ} where
  -- If a filter drops at most `n` items, the first `m` that it keeps are among the first `m + n`.
  pub take-keep-take :
      (q : A → Bool) (m n window : ℕ) (xs : List A)
      → window ≡ m + n
      → length (keep q xs) ≤ n
      → take m (keep (λ x. not (q x)) (take window xs)) ≡ take m (keep (λ x. not (q x)) xs)
  take-keep-take q zero n window xs h few = refl
  take-keep-take q (suc m) n zero xs h few = absurd (omega arith)
  take-keep-take q (suc m) n (suc w) [] h few = refl
  take-keep-take q (suc m) zero (suc w) (x ∷ xs) h few = elim (Bool-cases (q x)) [
    | inl dropped ↦ absurd (ground arith)
    | inr kept ↦ ground (arith, take-keep-take q m zero w xs (omega arith) (ground arith))
  ]
  take-keep-take q (suc m) (suc n) (suc w) (x ∷ xs) h few = elim (Bool-cases (q x)) [
    | inl dropped ↦ ground (arith, take-keep-take q (suc m) n w xs (omega arith) (ground arith))
    | inr kept ↦ ground (arith, take-keep-take q m (suc n) w xs (omega arith) (ground arith))
  ]

  module _ (key_of : A → Text) where
    abbrev pub key_list : List A → List Text
    key_list [] = []
    key_list (x ∷ xs) = key_of x ∷ key_list xs

    contains-key_list-keep :
        (p : A → Bool) (k : Text) (xs : List A)
        → contains k (key_list (keep p xs)) ≡ true
        → contains k (key_list xs) ≡ true
    contains-key_list-keep p k [] h = h
    contains-key_list-keep p k (x ∷ xs) h = elim (Bool-cases (p x)) [
      | inl kept ↦ elim (Bool-cases (text_eq (key_of x) k)) [
        | inl same ↦ ground arith
        | inr other ↦ ground (arith, contains-key_list-keep p k xs (ground arith))
      ]
      | inr dropped ↦ ground (arith, contains-key_list-keep p k xs (ground arith))
    ]

    pub distinct-key_list-keep :
        (p : A → Bool) (xs : List A)
        → distinct (key_list xs) ≡ true
        → distinct (key_list (keep p xs)) ≡ true
    distinct-key_list-keep p [] h = refl
    distinct-key_list-keep p (x ∷ xs) h = elim (Bool-cases (p x)) [
      | inl kept ↦ elim (Bool-cases (contains (key_of x) (key_list (keep p xs)))) [
        | inl again ↦ absurd (ground (arith, contains-key_list-keep p (key_of x) xs again))
        | inr fresh ↦ ground (arith, distinct-key_list-keep p xs (ground arith))
      ]
      | inr dropped ↦ ground (arith, distinct-key_list-keep p xs (ground arith))
    ]

    pub contains-key_list-test :
        (ks : List Text) (k : Text) (xs : List A)
        → contains k (key_list (keep (λ x. contains (key_of x) ks) xs)) ≡ true
        → contains k ks ≡ true
    contains-key_list-test ks k [] h = cc
    contains-key_list-test ks k (x ∷ xs) h = elim (Bool-cases (contains (key_of x) ks)) [
      | inl kept ↦ elim (Bool-cases (text_eq (key_of x) k)) [
        | inl same ↦
            let e : key_of x ≡ k = (text_eq_iff (key_of x) k).0 same in
            ground (arith, ap (λ j. contains j ks) e)
        | inr other ↦ contains-key_list-test ks k xs (ground arith)
      ]
      | inr dropped ↦ contains-key_list-test ks k xs (ground arith)
    ]

    pub length-key_list : (xs : List A) → length (key_list xs) ≡ length xs
    length-key_list [] = refl
    length-key_list (x ∷ xs) = ap suc (length-key_list xs)

    -- Among items with different keys, at most as many have their key in a list as it is long.
    pub length-keep-contains :
        (ks : List Text) (xs : List A)
        → distinct (key_list xs) ≡ true
        → length (keep (λ x. contains (key_of x) ks) xs) ≤ length ks
    length-keep-contains ks xs h =
        let found = keep (λ x. contains (key_of x) ks) xs in
        omega (
          arith,
          length-key_list found,
          length-distinct (key_list found) ks (distinct-key_list-keep _ xs h)
              (λ k. contains-key_list-test ks k xs),
        )
