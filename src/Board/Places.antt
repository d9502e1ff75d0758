-- ===== src/Board/Places.antt =====
-- How the changes of lists and of ids (frontend/src/store) move the places of cards.
use flow_logix.Common.{
  ℕ, zero, suc, ◌≡◌, ◌≤◌, ◌+◌, refl, ap, ◌∙◌, true, false, some, List, [], ◌∷◌, ◌++◌, Text, text_eq,
  text_eq_iff, map, take, drop, take-append-drop, arith, contains, is_some, if◌then◌else◌, keep,
  inl, inr, Bool-cases,
}
use flow_logix.Board.State.{CardList, find_list, without, insert_at, count, places, named}
use flow_logix.Board.Remote.{drop_card, place_card, other_list}
use flow_logix.Board.Store.{index_of, remove_at, change_list}

-- 1 if the two cards are one.
abbrev pub one : Text → Text → ℕ
one c x = if text_eq c x then 1 else 0

count-append : (x : Text) (xs ys : List Text) → count x (xs ++ ys) ≡ count x xs + count x ys
unfolding count
count-append x [] ys = omega arith
count-append x (y ∷ xs) ys = ground (arith, count-append x xs ys)

pub count-insert_at :
    (x c : Text) (n : ℕ) (ys : List Text) → count x (insert_at n c ys) ≡ count x ys + one c x
unfolding count
count-insert_at x c n ys = ground (
  arith,
  count-append x (take n ys) (c ∷ drop n ys),
  count-append x (take n ys) (drop n ys),
  ap (count x) (take-append-drop n ys),
)

pub count-without :
    (x c : Text) (ys : List Text) → count x (without c ys) ≡ (if text_eq c x then 0 else count x ys)
unfolding count
count-without x c [] = ground arith
count-without x c (y ∷ ys) =
    ground (arith, count-without x c ys, text_eq_iff y c, text_eq_iff c x, text_eq_iff y x)

pub count-zero : (x : Text) (ys : List Text) → contains x ys ≡ false → count x ys ≡ 0
unfolding count
count-zero x [] h = refl
count-zero x (y ∷ ys) h = ground (arith, count-zero x ys)

pub count-positive : (x : Text) (ys : List Text) → contains x ys ≡ true → 1 ≤ count x ys
unfolding count
count-positive x [] h = absurd (cc)
count-positive x (y ∷ ys) h = ground (arith, count-positive x ys)

pub count-remove_at :
    (x c : Text) (k : ℕ) (ys : List Text)
    → index_of c ys ≡ some k
    → count x (remove_at k ys) + one c x ≡ count x ys
unfolding count
count-remove_at x c k [] h = absurd (cc)
count-remove_at x c zero (y ∷ ys) h = ground (arith, text_eq_iff y c)
count-remove_at x c (suc k) (y ∷ ys) h = ground (arith, count-remove_at x c k ys)

module _ (x c : Text) where
  pub places-drop_card :
      (ls : List CardList)
      → places x (map (drop_card c) ls) ≡ (if text_eq c x then 0 else places x ls)
  unfolding places
  places-drop_card [] = ground arith
  places-drop_card (l ∷ ls) = ground (arith, places-drop_card ls, count-without x c l.card_ids)

  pub places-place_card :
      (t : Text) (n : ℕ) (ls : List CardList)
      → places x (map (place_card c t n) ls) ≡ places x ls + (if text_eq c x then named t ls else 0)
  unfolding places named
  places-place_card t n [] = ground arith
  places-place_card t n (l ∷ ls) =
      ground (arith, places-place_card t n ls, count-insert_at x c n l.card_ids)

  pub places-insert :
      (t : Text) (n : ℕ) (ls : List CardList)
      → is_some (find_list t ls) ≡ true
      → places x (change_list t (insert_at n c) ls) ≡ places x ls + one c x
  unfolding places
  places-insert t n [] h = absurd (cc)
  places-insert t n (l ∷ ls) h =
      ground (arith, places-insert t n ls, count-insert_at x c n l.card_ids)

  pub places-remove :
      (t : Text) (k : ℕ) (l : CardList) (ls : List CardList)
      → find_list t ls ≡ some l
      → index_of c l.card_ids ≡ some k
      → places x (change_list t (remove_at k) ls) + one c x ≡ places x ls
  unfolding places
  places-remove t k l [] h i = absurd (cc)
  places-remove t k l (m ∷ ls) h i = elim (Bool-cases (text_eq m.id t)) [
    | inl here ↦
        let e : m ≡ l = ground arith in
        ground (arith, count-remove_at x c k m.card_ids (ap (λ r. index_of c r.card_ids) e ∙ i))
    | inr later ↦ ground (arith, places-remove t k l ls (ground arith) i)
  ]

pub named-map :
    (i : Text) (f : CardList → CardList)
    → ((l : CardList) → (f l).id ≡ l.id)
    → (ls : List CardList) → named i (map f ls) ≡ named i ls
unfolding named
named-map i f same [] = refl
named-map i f same (l ∷ ls) = ground (arith, same l, named-map i f same ls)

pub named-change_list :
    (i t : Text) (f : List Text → List Text) (ls : List CardList)
    → named i (change_list t f ls) ≡ named i ls
unfolding named
named-change_list i t f [] = refl
named-change_list i t f (l ∷ ls) = ground (arith, named-change_list i t f ls)

pub find-change_list :
    (i t : Text) (f : List Text → List Text) (ls : List CardList)
    → is_some (find_list i (change_list t f ls)) ≡ is_some (find_list i ls)
find-change_list i t f [] = refl
find-change_list i t f (l ∷ ls) = ground (arith, find-change_list i t f ls)

pub named-positive :
    (i : Text) (l : CardList) (ls : List CardList) → find_list i ls ≡ some l → 1 ≤ named i ls
unfolding named
named-positive i l [] h = absurd (cc)
named-positive i l (m ∷ ls) h = ground (arith, named-positive i l ls)

pub named-keep : (i t : Text) (ls : List CardList) → named i (keep (other_list t) ls) ≤ named i ls
unfolding named
named-keep i t [] = omega arith
named-keep i t (l ∷ ls) = ground (arith, named-keep i t ls)

places-keep_all :
    (x t : Text) (ls : List CardList)
    → named t ls ≡ 0
    → places x (keep (other_list t) ls) ≡ places x ls
unfolding places named
places-keep_all x t [] h = refl
places-keep_all x t (l ∷ ls) h = ground (arith, places-keep_all x t ls)

pub places-keep :
    (x t : Text) (l : CardList) (ls : List CardList)
    → find_list t ls ≡ some l
    → named t ls ≤ 1
    → places x (keep (other_list t) ls) + count x l.card_ids ≡ places x ls
unfolding places named
places-keep x t l [] h u = absurd (cc)
places-keep x t l (m ∷ ls) h u = elim (Bool-cases (text_eq m.id t)) [
  | inl here ↦
      let e : m ≡ l = ground arith in
      ground (arith, places-keep_all x t ls, ap (λ r. count x r.card_ids) e)
  | inr later ↦ ground (arith, places-keep x t l ls)
]
