-- ===== src/Ordering/Rebalance/Spelling.antt =====
-- The fixed-width numerals that `encodeFixed` of fractional-indexer.ts writes, and their order.
use native.Mathlib.Nat.{
  mod-lt, div-add-mod, pow-suc, pow-zero, le_trans, div-mul-le_self, le-div_iff_mul-le,
  div-lt_iff_lt-mul,
}
use flow_logix.Common.{
  ℕ, zero, suc, ◌*◌, ◌/◌, ◌%◌, ◌^◌, ◌≡◌, ◌≤◌, ◌<◌, true, some, [], ◌∷◌, ◌++◌, Text, length, ltb,
  get_or_else, refl, arith, inl, inr, Bool-cases, ap, ◌∙◌, sym, get_elem?, get_elem?-lt, cmp,
  Ordering, length-append, ltb→lt, ltb_false→le,
}
use mathlib.Core.List.{append_assoc, append-nil}
use flow_logix.Ordering.Indexer.{Indexer, ok}
use flow_logix.Ordering.Indexer.Alphabet.{IsIndexer, units_ranked}
use flow_logix.Ordering.Indexer.Midpoint.{IsKey, digit_lt, single-IsKey}
use flow_logix.Ordering.Indexer.Between.{append-IsKey, units_ranked-append}
use flow_logix.Ordering.Rebalance.{encode_from, encode_fixed}

cmp-append_lt :
    (a b x y : Text)
    → length a ≡ length b
    → cmp a b ≡ Ordering.lt
    → cmp (a ++ x) (b ++ y) ≡ Ordering.lt
unfolding cmp
cmp-append_lt [] [] x y h lt = absurd (cc)
cmp-append_lt [] (d ∷ b) x y h lt = absurd (omega arith)
cmp-append_lt (c ∷ a) [] x y h lt = absurd (cc)
cmp-append_lt (c ∷ a) (d ∷ b) x y h lt = ground (arith, cmp-append_lt a b x y)

cmp-append_self : (a x y : Text) → cmp (a ++ x) (a ++ y) ≡ cmp x y
unfolding cmp
cmp-append_self [] x y = refl
cmp-append_self (c ∷ a) x y = ground (arith, cmp-append_self a x y)

module _ (ix : Indexer) (w : IsIndexer ix) where
  abbrev base : ℕ
  base = length ix.alphabet

  char : ℕ → ℕ
  char i = get_or_else (get_elem? ix.alphabet i) 0

  -- The numeral of `v` with `width` digits, the most significant first.
  pub spell : ℕ → ℕ → Text
  spell zero v = []
  spell (suc width) v = spell width (v / base) ++ char (v % base) ∷ []

  digit_lt_base : (v : ℕ) → v % base < base
  digit_lt_base v = mod-lt v (omega (arith, w.two))

  char_found : (i : ℕ) → i < base → get_elem? ix.alphabet i ≡ some (char i)
  unfolding char
  char_found i h = let (c, found) = get_elem?-lt ix.alphabet i h in ground (arith, found)

  char_ranked : (i : ℕ) → i < base → ix.rank_by_char (char i) ≡ some i
  char_ranked i h = w.placed (char i) i (char_found i h)

  encode_from-suc :
      (width v : ℕ) (chars : Text)
      → encode_from ix.alphabet (suc width) v chars
        ≡ encode_from ix.alphabet width (v / base) (char (v % base) ∷ chars)
  unfolding encode_from
  encode_from-suc width v chars = ground (arith, char_found (v % base) (digit_lt_base v))

  spell-suc : (width v : ℕ) → spell (suc width) v ≡ spell width (v / base) ++ char (v % base) ∷ []
  unfolding spell
  spell-suc width v = refl

  encode_from-zero :
      (v : ℕ) (chars : Text) → encode_from ix.alphabet zero v chars ≡ ok (spell zero v ++ chars)
  unfolding encode_from spell
  encode_from-zero v chars = refl

  encode_from-spell :
      (width v : ℕ) (chars : Text)
      → encode_from ix.alphabet width v chars ≡ ok (spell width v ++ chars)
  encode_from-spell zero v chars = encode_from-zero v chars
  encode_from-spell (suc width) v chars =
      encode_from-suc width v chars
      ∙ encode_from-spell width (v / base) (char (v % base) ∷ chars)
      ∙ ap ok (sym (append_assoc (spell width (v / base)) (char (v % base) ∷ []) chars))
      ∙ ap (λ t. ok (t ++ chars)) (sym (spell-suc width v))

  pub encode_fixed-spell : (v width : ℕ) → encode_fixed ix.alphabet v width ≡ ok (spell width v)
  unfolding encode_fixed
  encode_fixed-spell v width = encode_from-spell width v [] ∙ ap ok (append-nil (spell width v))

  pub length-spell : (width v : ℕ) → length (spell width v) ≡ width
  unfolding spell
  length-spell zero v = refl
  length-spell (suc width) v = omega (
    arith,
    length-append (spell width (v / base)) (char (v % base) ∷ []),
    length-spell width (v / base),
  )

  units_ranked-spell : (width v : ℕ) → units_ranked ix.rank_by_char (spell width v) ≡ true
  unfolding spell
  units_ranked-spell zero v = refl
  units_ranked-spell (suc width) v =
      units_ranked-append ix.rank_by_char (spell width (v / base)) (char (v % base) ∷ [])
        (units_ranked-spell width (v / base)) (rw (char_ranked (v % base) (digit_lt_base v)))

  pub spell-IsKey : (width v : ℕ) → 0 < v % base → IsKey ix (spell (suc width) v)
  unfolding spell
  spell-IsKey width v pos =
      append-IsKey ix w (spell width (v / base)) (char (v % base) ∷ [])
        (units_ranked-spell width (v / base))
        (single-IsKey ix w (char (v % base)) (v % base) (char_ranked (v % base) (digit_lt_base v))
          pos)

  spell_lt_prefix :
      (width u v : ℕ)
      → cmp (spell width (u / base)) (spell width (v / base)) ≡ Ordering.lt
      → cmp (spell (suc width) u) (spell (suc width) v) ≡ Ordering.lt
  unfolding spell
  spell_lt_prefix width u v lt =
      cmp-append_lt (spell width (u / base)) (spell width (v / base)) _ _
        (length-spell width (u / base) ∙ sym (length-spell width (v / base))) lt

  spell_lt_digit :
      (width u v : ℕ)
      → u / base ≡ v / base
      → u % base < v % base
      → cmp (spell (suc width) u) (spell (suc width) v) ≡ Ordering.lt
  unfolding spell cmp
  spell_lt_digit width u v same lt = rw same (
      cmp-append_self (spell width (v / base)) (char (u % base) ∷ []) (char (v % base) ∷ [])
      ∙ ground (
        arith,
        digit_lt ix w (char (u % base)) (char (v % base)) (u % base) (v % base)
            (char_ranked (u % base) (digit_lt_base u)) (char_ranked (v % base) (digit_lt_base v))
            lt,
      ))

  base_pos : 0 < base
  base_pos = omega (arith, w.two)

  quotient_le : (u v : ℕ) → u ≤ v → u / base ≤ v / base
  quotient_le u v h = (le-div_iff_mul-le base_pos).1 (le_trans (div-mul-le_self u base) h)

  -- Numerals of one width sort as their values do.
  pub spell_mono :
      (width u v : ℕ) → u < v → v < base ^ width → cmp (spell width u) (spell width v) ≡ Ordering.lt
  spell_mono zero u v h lt = absurd (omega (arith, pow-zero base))
  spell_mono (suc width) u v h lt = elim (Bool-cases (ltb (u / base) (v / base))) [
    | inl less ↦ spell_lt_prefix width u v (
        spell_mono width (u / base) (v / base) (ltb→lt _ _ less)
          ((div-lt_iff_lt-mul base_pos).1 (rw pow-suc at lt)))
    | inr ge ↦
        let same : u / base ≡ v / base =
          omega (arith, ltb_false→le _ _ ge, quotient_le u v (omega arith)) in
        spell_lt_digit width u v same
          (omega (arith, div-add-mod u base, div-add-mod v base, ap (λ t. base * t) same))
  ]
