-- ===== src/Common/Strings.antt =====
-- The program's strings as lists of UTF-16 code units, and their order: `===`, `<` and `>` on
-- strings compare code units from the left.
use Prim.Native.Nat.{ℕ, compare, Ordering}
use Prim.Native.Char.{code}
use Prim.Native.String.{String}
use mathlib.Core.Path.{◌≡◌, refl}
use mathlib.Core.Logic.{◌↔◌}
use mathlib.Core.Bool.{Bool, true, false}
use mathlib.Core.List.{List, [], ◌∷◌}
use native.Mathlib.Omega.{arith}

abbrev pub Text : Type 0
Text = List ℕ

-- A literal of the program; its code units, for characters of the basic plane.
abbrev pub codes : String → Text
codes String.[] = []
codes (String.◌∷◌ c s) = code c ∷ codes s

unfoldable pub cmp : Text → Text → Ordering
cmp [] [] = Ordering.eq
cmp [] (y ∷ ys) = Ordering.lt
cmp (x ∷ xs) [] = Ordering.gt
cmp (x ∷ xs) (y ∷ ys) = elim (compare x y) [
  | Ordering.lt ↦ Ordering.lt
  | Ordering.eq ↦ cmp xs ys
  | Ordering.gt ↦ Ordering.gt
]

-- `a === b`, `a < b`, `a <= b` on strings.
abbrev pub text_eq : Text → Text → Bool
text_eq a b = elim (cmp a b) [ Ordering.eq ↦ true | _ ↦ false ]

abbrev pub text_lt : Text → Text → Bool
text_lt a b = elim (cmp a b) [ Ordering.lt ↦ true | _ ↦ false ]

abbrev pub text_le : Text → Text → Bool
text_le a b = elim (cmp a b) [ Ordering.gt ↦ false | _ ↦ true ]

abbrev pub swap_ordering : Ordering → Ordering
swap_ordering Ordering.lt = Ordering.gt
swap_ordering Ordering.eq = Ordering.eq
swap_ordering Ordering.gt = Ordering.lt

pub cmp_refl : (a : Text) → cmp a a ≡ Ordering.eq
unfolding cmp
cmp_refl [] = refl
cmp_refl (x ∷ a) = ground (arith, cmp_refl a)

pub eq_of_cmp : (a b : Text) → cmp a b ≡ Ordering.eq → a ≡ b
unfolding cmp
eq_of_cmp [] [] h = refl
eq_of_cmp [] (y ∷ b) h = cc
eq_of_cmp (x ∷ a) [] h = cc
eq_of_cmp (x ∷ a) (y ∷ b) h = ground (arith, eq_of_cmp a b)

pub cmp-swap : (a b : Text) → cmp b a ≡ swap_ordering (cmp a b)
unfolding cmp
cmp-swap [] [] = refl
cmp-swap [] (y ∷ b) = refl
cmp-swap (x ∷ a) [] = refl
cmp-swap (x ∷ a) (y ∷ b) = ground (arith, cmp-swap a b)

pub cmp-lt_trans :
    (a b c : Text) → cmp a b ≡ Ordering.lt → cmp b c ≡ Ordering.lt → cmp a c ≡ Ordering.lt
unfolding cmp
cmp-lt_trans [] b [] h k = ground (arith, cmp-swap [] b)
cmp-lt_trans [] b (z ∷ c) h k = refl
cmp-lt_trans (x ∷ a) [] c h k = cc
cmp-lt_trans (x ∷ a) (y ∷ b) [] h k = cc
cmp-lt_trans (x ∷ a) (y ∷ b) (z ∷ c) h k = ground (arith, cmp-lt_trans a b c)

pub text_eq_iff : (a b : Text) → (text_eq a b ≡ true) ↔ (a ≡ b)
text_eq_iff a b = ground (arith, eq_of_cmp a b, cmp_refl a)
