-- ===== src/Board/Ordered.antt =====
-- The slot of a moved card (frontend/src/store/remoteMutations.ts).
use flow_logix.Common.{
  suc, ◌≡◌, Bool, true, false, none, some, List, [], ◌∷◌, Text, text_eq, text_le, cmp-swap,
  cmp-lt_trans, eq_of_cmp, arith, All, All-append, All-take, All-drop, take, drop, lookup-put, put,
  cmp_refl, inl, inr, Option-cases, Bool-cases, contains, subst,
}
use flow_logix.Board.State.{Card, Cards, insert_at}
use flow_logix.Board.Remote.{key_of, sorts_before, insertion_index_for_key}

-- Of two keyed cards the first has no greater key; a card without a key fits anywhere.
abbrev pub fits : Cards → Text → Text → Bool
fits cards x y = elim (key_of cards x) [
  | none ↦ true
  | some a ↦ elim (key_of cards y) [ none ↦ true | some b ↦ text_le a b ]
]

abbrev pub InKeyOrder : Cards → List Text → Type 0
InKeyOrder cards [] = Unit
InKeyOrder cards (x ∷ xs) = All (λ y. fits cards x y ≡ true) xs × InKeyOrder cards xs

abbrev pub rekeyed : Text → Text → Card → Cards → Cards
rekeyed c key card cards = put c (record card { position_idx = some key }) cards

module _ (c key : Text) (card : Card) (cards : Cards) where
  key-moved : key_of (rekeyed c key card cards) c ≡ some key
  key-moved =
      ground (arith, lookup-put c c (record card { position_idx = some key }) cards, cmp_refl c)

  key-other :
      (x : Text) → text_eq c x ≡ false → key_of (rekeyed c key card cards) x ≡ key_of cards x
  key-other x h = ground (arith, lookup-put c x (record card { position_idx = some key }) cards)

  same_fits :
      (x : Text) (ys : List Text)
      → text_eq c x ≡ false
      → contains c ys ≡ false
      → All (λ y. fits cards x y ≡ true) ys
      → All (λ y. fits (rekeyed c key card cards) x y ≡ true) ys
  same_fits x [] hx hy h = tt
  same_fits x (y ∷ ys) hx hy h = (
    ground (arith, key-other x hx, key-other y, cmp-swap y c, h.0),
    same_fits x ys hx (ground arith) h.1,
  )

  same_order :
      (ys : List Text)
      → contains c ys ≡ false
      → InKeyOrder cards ys
      → InKeyOrder (rekeyed c key card cards) ys
  same_order [] h o = tt
  same_order (y ∷ ys) h o = (
    same_fits y ys (ground (arith, cmp-swap y c)) (ground arith) o.0,
    same_order ys (ground arith) o.1,
  )

  -- What follows a sibling that sorts after the key follows the moved card.
  fits_after :
      (x : Text) (ys : List Text)
      → sorts_before cards key x ≡ true
      → contains c ys ≡ false
      → All (λ y. fits cards x y ≡ true) ys
      → All (λ y. fits (rekeyed c key card cards) c y ≡ true) ys
  unfolding sorts_before
  fits_after x [] b hy h = tt
  fits_after x (y ∷ ys) b hy h = (here, fits_after x ys b (ground arith) h.1)
    where
      here : fits (rekeyed c key card cards) c y ≡ true
      here = elim (Option-cases (key_of cards x)) [
        | inl unkeyed ↦ absurd (ground arith)
        | inr (a, ex) ↦ elim (Option-cases (key_of cards y)) [
          | inl unkeyed ↦ ground (arith, key-moved, key-other y, cmp-swap y c)
          | inr (b', ey) ↦ ground (
            arith,
            key-moved,
            key-other y,
            cmp-swap y c,
            h.0,
            cmp-lt_trans key a b',
            eq_of_cmp a b',
          )
        ]
      ]

  follows :
      (x : Text)
      → text_eq c x ≡ false
      → sorts_before cards key x ≡ false
      → fits (rekeyed c key card cards) x c ≡ true
  unfolding sorts_before
  follows x other h = elim (Option-cases (key_of cards x)) [
    | inl unkeyed ↦ ground (arith, key-other x other)
    | inr (a, ex) ↦ ground (arith, key-other x other, key-moved, cmp-swap key a)
  ]

  -- In a list without the moved card whose keyed cards are in the order of their keys, they still
  -- are after the card is put, with its new key, at the index that `insertionIndexForKey` answers.
  pub insertion_index_for_key-InKeyOrder :
      (ids : List Text)
      → contains c ids ≡ false
      → InKeyOrder cards ids
      → InKeyOrder
          (rekeyed c key card cards)
          (insert_at (insertion_index_for_key ids cards key) c ids)
  unfolding insertion_index_for_key
  insertion_index_for_key-InKeyOrder [] h o = (tt, tt)
  insertion_index_for_key-InKeyOrder (x ∷ xs) h o = elim (Bool-cases (sorts_before cards key x)) [
    | inl before ↦
        let first : 0 ≡ insertion_index_for_key (x ∷ xs) cards key = ground arith in
        subst (λ n. InKeyOrder (rekeyed c key card cards) (insert_at n c (x ∷ xs))) first
          (
            (
              unfold sorts_before in ground (arith, key-moved, key-other x, cmp-swap x c),
              fits_after x xs before (ground arith) o.0,
            ),
            same_order (x ∷ xs) h o,
          )
    | inr after ↦
        let n = insertion_index_for_key xs cards key in
        let further : suc n ≡ insertion_index_for_key (x ∷ xs) cards key = ground arith in
        let kept = same_fits x xs (ground (arith, cmp-swap x c)) (ground arith) o.0 in
        subst (λ n. InKeyOrder (rekeyed c key card cards) (insert_at n c (x ∷ xs))) further
          (
            All-append (λ y. fits (rekeyed c key card cards) x y ≡ true) (take n xs) (c ∷ drop n xs)
                (All-take _ n xs kept)
                (follows x (ground (arith, cmp-swap x c)) after, All-drop _ n xs kept),
            insertion_index_for_key-InKeyOrder xs (ground arith) o.1,
          )
  ]
