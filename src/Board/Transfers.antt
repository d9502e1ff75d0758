-- ===== src/Board/Transfers.antt =====
-- The two splices of `moveCard` (frontend/src/store/useBoardStore.ts) and their undoing.
use flow_logix.Common.{
  ℕ, zero, suc, ◌≡◌, ◌≤◌, refl, sym, ap, ◌∙◌, subst, true, false, some, List, [], ◌∷◌, Text,
  text_eq, text_eq_iff, arith, is_some, inl, inr, Bool-cases, Option-cases, cmp_refl,
}
use flow_logix.Board.State.{CardList, find_list, insert_at, places, count}
use flow_logix.Board.Store.{index_of, remove_at, change_list, transfer}
use flow_logix.Board.Places.{places-remove, find-change_list}

index-insert_at :
    (c : Text) (n : ℕ) (ys : List Text)
    → count c ys ≡ 0
    → (k : ℕ) × (index_of c (insert_at n c ys) ≡ some k) × (remove_at k (insert_at n c ys) ≡ ys)
unfolding count
index-insert_at c zero ys h = (0, ground (arith, cmp_refl c), refl)
index-insert_at c (suc n) [] h = (0, ground (arith, cmp_refl c), refl)
index-insert_at c (suc n) (y ∷ ys) h =
    let (k, p, q) = index-insert_at c n ys (ground arith) in
    (suc k, ground arith, ap (λ t. y ∷ t) q)

insert_at-remove_at :
    (c : Text) (k : ℕ) (xs : List Text)
    → index_of c xs ≡ some k
    → insert_at k c (remove_at k xs) ≡ xs
insert_at-remove_at c k [] h = absurd (cc)
insert_at-remove_at c zero (x ∷ xs) h = ground (arith, text_eq_iff x c)
insert_at-remove_at c (suc k) (x ∷ xs) h =
    ap (λ t. x ∷ t) (insert_at-remove_at c k xs (ground arith))

pub count-le-places :
    (x i : Text) (l : CardList) (ls : List CardList)
    → find_list i ls ≡ some l
    → count x l.card_ids ≤ places x ls
unfolding places
count-le-places x i l [] h = absurd (cc)
count-le-places x i l (m ∷ ls) h = elim (Bool-cases (text_eq m.id i)) [
  | inl here ↦ let e : m ≡ l = ground arith in omega (arith, ap (λ r. count x r.card_ids) e)
  | inr later ↦ omega (arith, count-le-places x i l ls (ground arith))
]

module _ (i : Text) (f : List Text → List Text) (l : CardList) (ls : List CardList) where
  changes_here :
      text_eq l.id i ≡ true → change_list i f (l ∷ ls) ≡ record l { card_ids = f l.card_ids } ∷ ls
  changes_here h = ground arith

  changes_later : text_eq l.id i ≡ false → change_list i f (l ∷ ls) ≡ l ∷ change_list i f ls
  changes_later h = ground arith

module _ (i : Text) (f g : List Text → List Text) where
  find-change_list_same :
      (l : CardList) (ls : List CardList)
      → find_list i ls ≡ some l
      → find_list i (change_list i g ls) ≡ some (record l { card_ids = g l.card_ids })
  find-change_list_same l [] h = absurd (cc)
  find-change_list_same l (m ∷ ls) h = elim (Bool-cases (text_eq m.id i)) [
    | inl here ↦
        let e : m ≡ l = ground arith in
        ground (arith, ap {B = CardList} (λ r. record r { card_ids = g r.card_ids }) e)
    | inr later ↦ ground (arith, find-change_list_same l ls)
  ]

  change_list-change_list :
      (l : CardList) (ls : List CardList)
      → find_list i ls ≡ some l
      → f (g l.card_ids) ≡ l.card_ids
      → change_list i f (change_list i g ls) ≡ ls
  change_list-change_list l [] h e = refl
  change_list-change_list l (m ∷ ls) h e = elim (Bool-cases (text_eq m.id i)) [
    | inl here ↦
        let same : m ≡ l = ground arith in
        let back : f (g m.card_ids) ≡ m.card_ids =
          subst (λ r. f (g r.card_ids) ≡ r.card_ids) (sym same) e in
        ap (change_list i f) (changes_here i g m ls here)
        ∙ changes_here i f (record m { card_ids = g m.card_ids }) ls here
        ∙ ap {B = List CardList} (λ t. record m { card_ids = t } ∷ ls) back
    | inr later ↦
        ap (change_list i f) (changes_later i g m ls later)
        ∙ changes_later i f m (change_list i g ls) later
        ∙ ap (λ t. m ∷ t) (change_list-change_list l ls (ground arith) e)
  ]

-- A card that is taken out of `source` and put into `target`, and then taken out of `target` and
-- put back, if it stood in one place only.
pub transfer-undone :
    (c source target : Text) (original n : ℕ) (from to : CardList) (ls : List CardList)
    → find_list source ls ≡ some from
    → find_list target ls ≡ some to
    → index_of c from.card_ids ≡ some original
    → places c ls ≡ 1
    → (k : ℕ) × (shown : CardList) × (find_list target (transfer c source target original n ls)
        ≡ some shown)
      × (index_of c shown.card_ids ≡ some k)
      × (transfer c target source k original (transfer c source target original n ls) ≡ ls)
unfolding transfer
transfer-undone c source target original n from to ls found there at once =
    let out : List CardList = change_list source (remove_at original) ls in
    elim (Option-cases (find_list target out)) [
      | inl missing ↦
          absurd (ground (arith, find-change_list target source (remove_at original) ls))
      | inr (bare, there') ↦
          let gone : count c bare.card_ids ≡ 0 = ground (
            arith,
            count-le-places c target bare out there',
            places-remove c c source original from ls found at,
            cmp_refl c,
          ) in
          let (k, p, q) = index-insert_at c n bare.card_ids gone in
          let undone : change_list target (remove_at k) (change_list target (insert_at n c) out)
              ≡ out =
            change_list-change_list target (remove_at k) (insert_at n c) bare out there' q in
          (
            k,
            record bare { card_ids = insert_at n c bare.card_ids },
            find-change_list_same target (remove_at k) (insert_at n c) bare out there',
            p,
            ap (change_list source (insert_at original c)) undone
                ∙ change_list-change_list source (insert_at original c) (remove_at original) from ls
                    found (insert_at-remove_at c original from.card_ids at),
          )
    ]

pub find-transfer :
    (i c a b : Text) (k n : ℕ) (ls : List CardList)
    → is_some (find_list i (transfer c a b k n ls)) ≡ is_some (find_list i ls)
unfolding transfer
find-transfer i c a b k n ls =
    find-change_list i b (insert_at n c) (change_list a (remove_at k) ls)
    ∙ find-change_list i a (remove_at k) ls
