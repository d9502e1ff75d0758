-- ===== src/Ordering/Indexer/Midpoint.antt =====
-- `midpoint` of fractional-indexer.ts: with enough fuel it returns a key between its bounds.

use flow_logix.Common.{
  ℕ, zero, suc, ◌+◌, ◌-◌, ◌/◌, ◌≤◌, ◌<◌, ◌≡◌, ◌≢◌, refl, inl, inr, true, false, none, some, [], ◌∷◌,
  Text, length, ltb, ◌==◌, arith, ◌∙◌, Bool-cases, Option-cases, lt_of_get_elem?, ltb→lt,
  get_elem?-lt, cmp, Ordering,
}
use flow_logix.Ordering.Indexer.{
  Indexer, ok, ends_in, is_empty, rank_of, lower_digit, upper_digit, middle_digit, keep_digit,
  split_digits, midpoint,
}
use flow_logix.Ordering.Indexer.Alphabet.{IsIndexer, units_ranked}

pub ends_in-cons : (z x : ℕ) (k : Text) → is_empty k ≡ false → ends_in z (x ∷ k) ≡ ends_in z k
ends_in-cons z x [] h = cc
ends_in-cons z x (y ∷ k) h = refl

pub record IsKey (ix : Indexer) (k : Text) : Type 0 where
  pub filled : is_empty k ≡ false
  pub known : units_ranked ix.rank_by_char k ≡ true
  pub spare : ends_in ix.zero_char k ≡ false

module _ (ix : Indexer) (w : IsIndexer ix) where
  pub digit_lt :
      (c d i j : ℕ) → ix.rank_by_char c ≡ some i → ix.rank_by_char d ≡ some j → i < j → c < d
  digit_lt c d i j p q lt = w.ascending i j (w.ranked c i p) (w.ranked d j q) lt

  pub digit_lt_length : (c i : ℕ) → ix.rank_by_char c ≡ some i → i < length ix.alphabet
  digit_lt_length c i p = lt_of_get_elem? ix.alphabet i (w.ranked c i p)

  pub zero-rank : ix.rank_by_char ix.zero_char ≡ some 0
  zero-rank = w.placed ix.zero_char 0 w.first

  pub digit_of_lt :
      (c d i j : ℕ) → ix.rank_by_char c ≡ some i → ix.rank_by_char d ≡ some j → c < d → i < j
  digit_of_lt c d i j p q lt = elim (Bool-cases (ltb i j)) [
    | inl less ↦ ltb→lt i j less
    | inr ge ↦ elim (Bool-cases (i == j)) [
      | inl same ↦
          let e : i ≡ j = ground arith in absurd (ground (arith, w.ranked c i p, w.ranked d j q))
      | inr other ↦ absurd (omega (arith, digit_lt d c j i q p (ground arith)))
    ]
  ]

  pub ne-zero : (c i : ℕ) → ix.rank_by_char c ≡ some i → 0 < i → c ≢ ix.zero_char
  ne-zero c i p pos = λ e. omega (arith, digit_lt ix.zero_char c 0 i zero-rank p pos)

  -- A digit strictly between two digits that are not consecutive.
  pub middle_digit_lem :
      (i j : ℕ)
      → i + 1 < j
      → j ≤ length ix.alphabet
      → (m : ℕ) × (middle_digit ix i j ≡ ok (m ∷ [])) × (ix.rank_by_char m ≡ some ((i + j + 1) / 2))
  unfolding middle_digit
  middle_digit_lem i j lt le =
      let (m, found) = get_elem?-lt ix.alphabet ((i + j + 1) / 2) (omega arith) in
      (m, ground arith, w.placed m ((i + j + 1) / 2) found)

  pub single-IsKey : (c i : ℕ) → ix.rank_by_char c ≡ some i → 0 < i → IsKey ix (c ∷ [])
  single-IsKey c i p pos = record {
    filled = refl;
    known = rw p;
    spare = ground (arith, ne-zero c i p pos);
  }

  pub cons-IsKey : (c i : ℕ) (k : Text) → ix.rank_by_char c ≡ some i → IsKey ix k → IsKey ix (c ∷ k)
  cons-IsKey c i k p v = record {
    filled = refl;
    known = rw p v.known;
    spare = ends_in-cons ix.zero_char c k v.filled ∙ v.spare;
  }

  pub midpoint_open :
      (fuel : ℕ) (a : Text)
      → units_ranked ix.rank_by_char a ≡ true
      → length a < fuel
      → (k : Text) × (midpoint ix fuel a none ≡ ok k) × IsKey ix k × (cmp a k ≡ Ordering.lt)
  unfolding midpoint split_digits lower_digit upper_digit rank_of keep_digit cmp
  midpoint_open zero a h lt = absurd (omega arith)
  midpoint_open (suc fuel) [] h lt =
      let two = w.two in
      let (m, made, ranked) = middle_digit_lem 0 (length ix.alphabet) (omega arith) (omega arith) in
      (m ∷ [], ground (arith, made), single-IsKey m _ ranked (omega arith), refl)
  midpoint_open (suc fuel) (x ∷ a) h lt = elim (Option-cases (ix.rank_by_char x)) [
    | inl missing ↦ absurd (ground arith)
    | inr (r, ranked) ↦
        let below = digit_lt_length x r ranked in
        elim (Bool-cases (ltb 1 (length ix.alphabet - r))) [
          | inl room ↦
              let (m, made, m_ranked) =
                middle_digit_lem r (length ix.alphabet) (ground arith) (omega arith) in
              (
                m ∷ [],
                ground (arith, made),
                single-IsKey m _ m_ranked (omega arith),
                ground (arith, digit_lt x m r _ ranked m_ranked (omega arith)),
              )
          | inr full ↦
              let (k, deeper, key, above) = midpoint_open fuel a (ground arith) (omega arith) in
              (
                x ∷ k,
                ground (arith, deeper, w.ranked x r ranked),
                cons-IsKey x r k ranked key,
                ground (arith, above),
              )
        ]
  ]
