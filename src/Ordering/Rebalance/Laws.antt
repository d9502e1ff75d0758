-- ===== src/Ordering/Rebalance/Laws.antt =====
-- `rebalance` of fractional-indexer.ts: the keys that it answers with, and when it answers.

use flow_logix.Common.{
  ℕ, zero, suc, ◌+◌, ◌*◌, ◌^◌, ◌-◌, ◌≡◌, ◌≤◌, ◌<◌, true, Option, none, some, List, [], ◌∷◌, Text,
  length, ltb, refl, arith, inl, inr, Bool-cases, ap, sym, subst, All, text_lt,
}
use flow_logix.Ordering.Indexer.{Indexer, ok, make, is_valid_key, Result-cases, ok-injective}
use flow_logix.Ordering.Indexer.Alphabet.{IsIndexer, IsPlain, make-IsIndexer}
use flow_logix.Ordering.Indexer.Laws.{IsKey-is_valid_key}
use flow_logix.Ordering.Rebalance.{
  past, encode_fixed, widen, key_width, spread, rebalance, is_wide, is_safe_integer,
}
use flow_logix.Ordering.Rebalance.Spelling.{
  spell, encode_fixed-spell, length-spell, spell-IsKey, spell_mono,
}
use flow_logix.Ordering.Rebalance.Width.{width-le, widen_total}
use flow_logix.Ordering.Rebalance.Spacing.{pick, pick_lt, pick-lt_capacity, pick_mod, past-pick}

-- Each key sorts before the next one.
abbrev pub Ascending : List Text → Type 0
Ascending [] = Unit
Ascending (a ∷ []) = Unit
Ascending (a ∷ b ∷ ks) = (text_lt a b ≡ true) × Ascending (b ∷ ks)

module _ (ix : Indexer) (w : IsIndexer ix) (gaps width : ℕ) where
  abbrev base : ℕ
  base = length ix.alphabet

  abbrev capacity : ℕ
  capacity = base ^ width

  -- The keys of `remaining` rounds from round `k` on.
  keys_from : ℕ → ℕ → List Text
  keys_from zero k = []
  keys_from (suc remaining) k =
      spell ix w width (pick base capacity gaps k) ∷ keys_from remaining (k + 1)

  spread-zero :
      (k : ℕ) (previous : Option ℕ) → spread ix.alphabet capacity gaps width zero k previous ≡ ok []
  unfolding spread
  spread-zero k previous = refl

  spread-suc :
      (remaining k : ℕ) (previous : Option ℕ) (v : ℕ) (key : Text) (keys : List Text)
      → past previous (pick base capacity gaps k) ≡ v
      → encode_fixed ix.alphabet v width ≡ ok key
      → spread ix.alphabet capacity gaps width remaining (k + 1) (some v) ≡ ok keys
      → spread ix.alphabet capacity gaps width (suc remaining) k previous ≡ ok (key ∷ keys)
  unfolding spread pick
  spread-suc remaining k previous v key keys fresh spelled rest = rw (fresh, spelled, rest)

  spread-keys_from :
      (remaining k : ℕ) (previous : Option ℕ)
      → ((j : ℕ)
          → past (some (pick base capacity gaps j)) (pick base capacity gaps (j + 1))
            ≡ pick base capacity gaps (j + 1))
      → past previous (pick base capacity gaps k) ≡ pick base capacity gaps k
      → spread ix.alphabet capacity gaps width remaining k previous ≡ ok (keys_from remaining k)
  unfolding keys_from
  spread-keys_from zero k previous steady fresh = spread-zero k previous
  spread-keys_from (suc remaining) k previous steady fresh =
      spread-suc remaining k previous (pick base capacity gaps k)
        (spell ix w width (pick base capacity gaps k)) (keys_from remaining (k + 1)) fresh
        (encode_fixed-spell ix w (pick base capacity gaps k) width)
        (spread-keys_from remaining (k + 1) (some (pick base capacity gaps k)) steady (steady k))

  length-keys_from : (remaining k : ℕ) → length (keys_from remaining k) ≡ remaining
  unfolding keys_from
  length-keys_from zero k = refl
  length-keys_from (suc remaining) k = ap suc (length-keys_from remaining (k + 1))

  module _ (some_gap : 0 < gaps) (roomy : 2 * gaps ≤ capacity) where
    keys_from-All :
        (plain : IsPlain ix.alphabet) (remaining k : ℕ) {n : ℕ}
        → width ≡ suc n
        → All (λ key. (is_valid_key ix key ≡ true) × (length key ≡ width)) (keys_from remaining k)
    unfolding keys_from
    keys_from-All plain zero k e = tt
    keys_from-All plain (suc remaining) k {n} e = (
      (
        subst (λ t. is_valid_key ix (spell ix w t (pick base capacity gaps k)) ≡ true) (sym e)
            (IsKey-is_valid_key ix w plain _ (
              spell-IsKey ix w n (pick base capacity gaps k)
                (pick_mod base capacity gaps w.two some_gap roomy k))),
        length-spell ix w width (pick base capacity gaps k),
      ),
      keys_from-All plain remaining (k + 1) e,
    )

    keys_from-Ascending :
        (remaining k : ℕ) → k + remaining < gaps → Ascending (keys_from remaining k)
    unfolding keys_from
    keys_from-Ascending zero k h = tt
    keys_from-Ascending (suc zero) k h = tt
    keys_from-Ascending (suc (suc remaining)) k h = (
      ground (
        arith,
        spell_mono ix w width (pick base capacity gaps k) (pick base capacity gaps (k + 1))
            (pick_lt base capacity gaps w.two some_gap roomy k)
            (pick-lt_capacity base capacity gaps w.two some_gap roomy (k + 1) (omega arith)),
      ),
      keys_from-Ascending (suc remaining) (k + 1) (omega arith),
    )

-- What a rebalanced column has: a key for each item, all well formed and of one width of at
-- least two characters, and ascending.
pub record IsBalanced (ix : Indexer) (count : ℕ) (keys : List Text) : Type 0 where
  pub width : ℕ
  pub wide : 2 ≤ width
  pub counted : length keys ≡ count
  pub sound : All (λ key. (is_valid_key ix key ≡ true) × (length key ≡ width)) keys
  pub ascending : Ascending keys

module _ (ix : Indexer) (w : IsIndexer ix) (plain : IsPlain ix.alphabet) where
  spread-IsBalanced :
      (width n : ℕ)
      → 2 ≤ width
      → 2 * (suc n + 1) ≤ length ix.alphabet ^ width
      → (keys : List Text) × (spread ix.alphabet
            (length ix.alphabet ^ width)
            (suc n + 1)
            width
            (suc n)
            0
            none
          ≡ ok keys)
        × IsBalanced ix (suc n) keys
  spread-IsBalanced width n wide roomy =
      let gaps = suc n + 1 in
      let cap = length ix.alphabet ^ width in
      (
        keys_from ix w gaps width (suc n) 0,
        spread-keys_from ix w gaps width (suc n) 0 none
            (λ j. past-pick (length ix.alphabet) cap gaps w.two (omega arith) roomy j) refl,
        record {
          width = width;
          wide = wide;
          counted = length-keys_from ix w gaps width (suc n) 0;
          sound =
              keys_from-All ix w gaps width (omega arith) roomy plain (suc n) 0 {n = width - 1}
                (omega arith);
          ascending =
              keys_from-Ascending ix w gaps width (omega arith) roomy (suc n) 0 (omega arith);
        },
      )

  widen_sound :
      (fuel base required width : ℕ) {found : ℕ}
      → widen fuel base required width ≡ ok found
      → (width ≤ found) × (required ≤ base ^ found)
  unfolding widen
  widen_sound zero base required width h = absurd (cc)
  widen_sound (suc fuel) base required width h = elim (Bool-cases (ltb (base ^ width) required)) [
    | inr fits ↦ ground arith
    | inl small ↦ elim (Bool-cases (is_safe_integer (base ^ (width + 1)))) [
      | inr unsafe ↦ absurd (ground arith)
      | inl safe ↦
          let (grown, enough) =
            widen_sound fuel base required (width + 1) (rw (small, safe) at h) in
          (omega arith, enough)
    ]
  ]

  key_width_sound :
      (required : ℕ) (target : Option ℕ) {found : ℕ}
      → is_wide target ≡ true
      → key_width (length ix.alphabet) required target ≡ ok found
      → (2 ≤ found) × (required ≤ length ix.alphabet ^ found)
  unfolding key_width
  key_width_sound required none wide h = widen_sound 55 (length ix.alphabet) required 2 h
  key_width_sound required (some target) wide h = ground arith

  rebalance_sound :
      (count : ℕ) (target : Option ℕ) {keys : List Text}
      → rebalance ix count target ≡ ok keys
      → IsBalanced ix count keys
  unfolding rebalance
  rebalance_sound zero target h = subst (IsBalanced ix 0) (ok-injective h) nothing
    where
      nothing : IsBalanced ix 0 []
      nothing = record { width = 2; wide = omega arith; counted = refl; sound = tt; ascending = tt }
  rebalance_sound (suc n) target h = elim (Bool-cases (is_wide target)) [
    | inr narrow ↦ absurd (ground arith)
    | inl wide ↦ elim (Result-cases (key_width (length ix.alphabet) (2 * (suc n + 1)) target)) [
      | inr (e, failed) ↦ absurd (ground arith)
      | inl (width, found) ↦
          let (two, roomy) = key_width_sound (2 * (suc n + 1)) target wide found in
          let (made, spread_ok, balanced) = spread-IsBalanced width n two roomy in
          subst (IsBalanced ix (suc n)) (ground arith) balanced
    ]
  ]

  rebalance_ok :
      (n : ℕ) (target : Option ℕ) (width : ℕ)
      → is_wide target ≡ true
      → key_width (length ix.alphabet) (2 * (suc n + 1)) target ≡ ok width
      → (keys : List Text) × (rebalance ix (suc n) target ≡ ok keys) × IsBalanced ix (suc n) keys
  unfolding rebalance
  rebalance_ok n target width wide found =
      let (two, roomy) = key_width_sound (2 * (suc n + 1)) target wide found in
      let (keys, spread_ok, balanced) = spread-IsBalanced width n two roomy in
      (keys, rw (wide, found, spread_ok), balanced)

-- For an indexer that the constructor accepts, of whose characters no surrogate pair can be made,
-- whatever `rebalance` answers with is one well-formed key for each item, in ascending order, all of one width of at least two characters.
pub rebalance-IsBalanced :
    (alphabet : Text) (seed : Option Text) (ix : Indexer) (count : ℕ) (target : Option ℕ)
    (keys : List Text)
    → make alphabet seed ≡ ok ix
    → IsPlain ix.alphabet
    → rebalance ix count target ≡ ok keys
    → IsBalanced ix count keys
rebalance-IsBalanced alphabet seed ix count target keys made plain h =
    rebalance_sound ix (make-IsIndexer alphabet seed made) plain count target h

-- For an indexer that the constructor accepts, of whose characters no surrogate pair can be made, and
-- a column of `n` + 1 items, `rebalance` with no
-- forced width answers, with keys as above, whenever some width of at least two characters gives
-- between 2 (n + 2) and 2^53 - 1 texts.
pub rebalance_total :
    (alphabet : Text) (seed : Option Text) (ix : Indexer) (n width : ℕ)
    → make alphabet seed ≡ ok ix
    → IsPlain ix.alphabet
    → 2 ≤ width
    → 2 * (n + 2) ≤ length ix.alphabet ^ width
    → length ix.alphabet ^ width < 2 ^ 53
    → (keys : List Text) × (rebalance ix (suc n) none ≡ ok keys) × IsBalanced ix (suc n) keys
unfolding key_width
rebalance_total alphabet seed ix n width made plain wide roomy safe =
    let w = make-IsIndexer alphabet seed made in
    let base = length ix.alphabet in
    let small = width-le base (2 * (suc n + 1)) width w.two safe in
    let (found, answer) =
      widen_total base (2 * (suc n + 1)) width w.two 55 2 wide (omega arith) (omega arith)
        (ground arith) in
    rebalance_ok ix w plain n none found refl answer
