-- ===== src/Ordering/Indexer/Between.antt =====
-- `midpoint` of fractional-indexer.ts between two bounds: it splits at the first digit that differs.
use flow_logix.Common.{
  ℕ, zero, suc, ◌+◌, ◌-◌, ◌/◌, ◌≤◌, ◌<◌, ◌≡◌, refl, inl, inr, true, false, Option, none, some, [],
  ◌∷◌, ◌++◌, Text, length, take, drop, ltb, arith, ◌∙◌, Bool-cases, Option-cases, cmp, Ordering,
}
use flow_logix.Ordering.Indexer.{
  Indexer, Result, ok, ends_in, is_empty, shared_run, rank_of, lower_digit, upper_digit, keep_digit,
  split_digits, midpoint,
}
use flow_logix.Ordering.Indexer.Alphabet.{IsIndexer, units_ranked}
use flow_logix.Ordering.Indexer.Midpoint.{
  IsKey, ends_in-cons, digit_lt, digit_of_lt, digit_lt_length, zero-rank, middle_digit_lem,
  single-IsKey, cons-IsKey, midpoint_open,
}
use flow_logix.Ordering.Indexer.SharedRun.{shared_run-Splits}

module _ (rank : ℕ → Option ℕ) where
  pub units_ranked-append :
      (a b : Text)
      → units_ranked rank a ≡ true
      → units_ranked rank b ≡ true
      → units_ranked rank (a ++ b) ≡ true
  units_ranked-append [] b p q = q
  units_ranked-append (x ∷ a) b p q = ground (arith, units_ranked-append a b)

  units_ranked-take :
      (n : ℕ) (a : Text) → units_ranked rank a ≡ true → units_ranked rank (take n a) ≡ true
  units_ranked-take zero a p = refl
  units_ranked-take (suc n) [] p = refl
  units_ranked-take (suc n) (x ∷ a) p = ground (arith, units_ranked-take n a)

  units_ranked-drop :
      (n : ℕ) (a : Text) → units_ranked rank a ≡ true → units_ranked rank (drop n a) ≡ true
  units_ranked-drop zero a p = p
  units_ranked-drop (suc n) [] p = refl
  units_ranked-drop (suc n) (x ∷ a) p = ground (arith, units_ranked-drop n a)

length-drop-le : (n : ℕ) (a : Text) → length (drop n a) ≤ length a
length-drop-le zero a = omega arith
length-drop-le (suc n) [] = omega arith
length-drop-le (suc n) (x ∷ a) = omega (arith, length-drop-le n a)

append-filled : (a k : Text) → is_empty k ≡ false → is_empty (a ++ k) ≡ false
append-filled [] k h = h
append-filled (x ∷ a) k h = refl

ends_in-append : (z : ℕ) (a k : Text) → is_empty k ≡ false → ends_in z (a ++ k) ≡ ends_in z k
ends_in-append z [] k h = refl
ends_in-append z (x ∷ a) k h =
    ends_in-cons z x (a ++ k) (append-filled a k h) ∙ ends_in-append z a k h

module _ (ix : Indexer) (w : IsIndexer ix) where
  pub append-IsKey :
      (a k : Text) → units_ranked ix.rank_by_char a ≡ true → IsKey ix k → IsKey ix (a ++ k)
  append-IsKey a k p v = record {
    filled = append-filled a k v.filled;
    known = units_ranked-append ix.rank_by_char a k p v.known;
    spare = ends_in-append ix.zero_char a k v.filled ∙ v.spare;
  }

-- The digit of the lower bound, below the digit `j` of the upper one, and what sorts after it.
record LowerDigit (ix : Indexer) (a : Text) (j : ℕ) : Type 0 where
  digit : ℕ
  char : ℕ
  found : lower_digit ix a ≡ ok digit
  ranked : ix.rank_by_char char ≡ some digit
  less : digit < j
  over : (m n : ℕ) (k : Text) → ix.rank_by_char m ≡ some n → digit < n → cmp a (m ∷ k) ≡ Ordering.lt
  deeper : (k : Text) → cmp (drop 1 a) k ≡ Ordering.lt → cmp a (char ∷ k) ≡ Ordering.lt

module _ (ix : Indexer) (w : IsIndexer ix) (y j : ℕ) (b : Text) where
  LowerDigit-of_lt :
      (a : Text)
      → ix.rank_by_char y ≡ some j
      → units_ranked ix.rank_by_char a ≡ true
      → cmp a (y ∷ b) ≡ Ordering.lt
      → shared_run ix.zero_char a (y ∷ b) ≡ 0
      → LowerDigit ix a j
  unfolding lower_digit rank_of cmp shared_run
  LowerDigit-of_lt [] ranked known lt done = record {
    digit = 0;
    char = ix.zero_char;
    found = refl;
    ranked = zero-rank ix w;
    less = ground (arith, w.ranked y j ranked, w.first);
    over = λ m n k p q. refl;
    deeper = λ k q. refl;
  }
  LowerDigit-of_lt (x ∷ a) ranked known lt done = elim (Option-cases (ix.rank_by_char x)) [
    | inl missing ↦ absurd (ground arith)
    | inr (i, x_ranked) ↦ record {
      digit = i;
      char = x;
      found = ground (arith, x_ranked);
      ranked = x_ranked;
      less = digit_of_lt ix w x y i j x_ranked ranked (ground arith);
      over = λ m n k p q. ground (arith, digit_lt ix w x m i n x_ranked p q);
      deeper = λ k q. ground arith;
    }
  ]

  -- The new key that the split answers with, and where it sorts.
  abbrev Between : Text → Result Text → Type 0
  Between a r =
      (k : Text) × (r ≡ ok k) × IsKey ix k × (cmp a k ≡ Ordering.lt) × (cmp k (y ∷ b) ≡ Ordering.lt)

  split_middle :
      (a : Text) (d : Result Text)
      → ix.rank_by_char y ≡ some j
      → (low : LowerDigit ix a j) → ltb 1 (j - low.digit) ≡ true
      → Between a (split_digits ix a (some (y ∷ b)) d)
  unfolding split_digits upper_digit rank_of cmp
  split_middle a d ranked low room =
      let top = digit_lt_length ix w y j ranked in
      let (m, middle, m_ranked) = middle_digit_lem ix w low.digit j (ground arith) (omega arith) in
      (
        m ∷ [],
        ground (arith, low.found, middle),
        single-IsKey ix w m ((low.digit + j + 1) / 2) m_ranked (ground arith),
        low.over m ((low.digit + j + 1) / 2) [] m_ranked (ground arith),
        ground (arith, digit_lt ix w m y ((low.digit + j + 1) / 2) j m_ranked ranked),
      )

module _ (ix : Indexer) (w : IsIndexer ix) (y j : ℕ) where
  -- With the lower bound's next key at hand, the split gives a key between the bounds.
  split_digits_lem :
      (b a : Text) (d : Result Text) (k' : Text)
      → ix.rank_by_char y ≡ some j
      → 0 < j
      → LowerDigit ix a j
      → d ≡ ok k'
      → IsKey ix k'
      → cmp (drop 1 a) k' ≡ Ordering.lt
      → Between ix w y j b a (split_digits ix a (some (y ∷ b)) d)
  unfolding split_digits upper_digit rank_of keep_digit cmp
  split_digits_lem b a d k' ranked pos low made key above =
      elim (Bool-cases (ltb 1 (j - low.digit))) [
        | inl room ↦ split_middle ix w y j b a d ranked low room
        | inr full ↦ ending b full
      ]
    where
      ending :
          (b : Text)
          → ltb 1 (j - low.digit) ≡ false
          → Between ix w y j b a (split_digits ix a (some (y ∷ b)) d)
      ending [] full = (
        low.char ∷ k',
        ground (arith, low.found, made, w.ranked low.char low.digit low.ranked),
        cons-IsKey ix w low.char low.digit k' low.ranked key,
        low.deeper k' above,
        ground (arith, digit_lt ix w low.char y low.digit j low.ranked ranked low.less),
      )
      ending (z ∷ b') full = (
        y ∷ [],
        ground (arith, low.found),
        single-IsKey ix w y j ranked pos,
        low.over y j [] ranked low.less,
        ground arith,
      )

module _ (ix : Indexer) (w : IsIndexer ix) where
  -- No run is shared: one split, and perhaps a search above the lower bound's tail.
  midpoint_split :
      (fuel : ℕ) (a b : Text)
      → units_ranked ix.rank_by_char a ≡ true
      → IsKey ix b
      → cmp a b ≡ Ordering.lt
      → shared_run ix.zero_char a b ≡ 0
      → length a + 1 < fuel
      → (k : Text) × (midpoint ix fuel a (some b) ≡ ok k)
        × IsKey ix k
        × (cmp a k ≡ Ordering.lt)
        × (cmp k b ≡ Ordering.lt)
  unfolding midpoint
  midpoint_split zero a b known key lt done enough = absurd (omega arith)
  midpoint_split (suc fuel) a [] known key lt done enough = absurd (cc (key.filled))
  midpoint_split (suc fuel) a (y ∷ b) known key lt done enough =
      elim (Option-cases (ix.rank_by_char y)) [
        | inl missing ↦ absurd (ground (arith, key.known))
        | inr (j, ranked) ↦
            let low = LowerDigit-of_lt ix w y j b a ranked known lt done in
            let (k', deeper, key', above) =
              midpoint_open ix w fuel (drop 1 a) (units_ranked-drop ix.rank_by_char 1 a known)
                (omega (arith, length-drop-le 1 a)) in
            let (k, made, is_key, over, under) =
              split_digits_lem ix w y j b a (midpoint ix fuel (drop 1 a) none) k' ranked
                (omega (arith, low.less)) low deeper key' above in
            (k, ground (arith, made), is_key, over, under)
      ]

  pub midpoint_between :
      (fuel : ℕ) (a b : Text)
      → units_ranked ix.rank_by_char a ≡ true
      → IsKey ix b
      → cmp a b ≡ Ordering.lt
      → length a + 2 < fuel
      → (k : Text) × (midpoint ix fuel a (some b) ≡ ok k)
        × IsKey ix k
        × (cmp a k ≡ Ordering.lt)
        × (cmp k b ≡ Ordering.lt)
  unfolding midpoint
  midpoint_between zero a b known key lt enough = absurd (omega arith)
  midpoint_between (suc fuel) a b known key lt enough =
      let n = shared_run ix.zero_char a b in
      elim (Bool-cases (ltb 0 n)) [
        | inr separate ↦ midpoint_split (suc fuel) a b known key lt (ground arith) (omega arith)
        | inl shared ↦
            let s = shared_run-Splits ix.zero_char a b lt key.spare in
            let rest_key : IsKey ix (drop n b) = record {
              filled = s.filled;
              known = units_ranked-drop ix.rank_by_char n b key.known;
              spare = s.spare;
            } in
            let (k, made, is_key, over, under) =
              midpoint_split fuel (drop n a) (drop n b)
                (units_ranked-drop ix.rank_by_char n a known) rest_key s.below s.done
                (omega (arith, length-drop-le n a)) in
            (
              take n b ++ k,
              ground (arith, made),
              append-IsKey ix w (take n b) k (units_ranked-take ix.rank_by_char n b key.known)
                  is_key,
              s.lower k over is_key.filled,
              s.upper k under,
            )
      ]
