-- ===== src/Crdt/Join.antt =====
-- What a last-writer-wins merge means: the later of two stamped texts, and on a tie of the stamps
-- the greater text. Both merge routines of the program refine this join.
use flow_logix.Common.{
  ℕ, ◌≡◌, refl, ap, Bool, true, false, Option, none, some, Text, cmp, cmp_refl, cmp-swap,
  cmp-lt_trans, eq_of_cmp, Ordering, compare, arith, max, if◌then◌else◌,
}

abbrev pub Stamped : Type 0
Stamped = ℕ × Text

-- Whether the first text of a tie stays: it does unless the other is greater.
abbrev pub keeps : Text → Text → Bool
keeps t u = elim (cmp t u) [ Ordering.lt ↦ false | _ ↦ true ]

abbrev pub wins : ℕ → Text → ℕ → Text → Bool
wins c t d u = elim (compare c d) [
  | Ordering.lt ↦ false
  | Ordering.gt ↦ true
  | Ordering.eq ↦ keeps t u
]

unfoldable pub join : Stamped → Stamped → Stamped
join (c, t) (d, u) = if wins c t d u then (c, t) else (d, u)

pub join_idem : (a : Stamped) → join a a ≡ a
unfolding join
join_idem (c, t) = ground (arith, cmp_refl t)

pub join_comm : (a b : Stamped) → join a b ≡ join b a
unfolding join
join_comm (c, t) (d, u) = ground (arith, cmp-swap t u, eq_of_cmp t u)

pub join_assoc : (a b c : Stamped) → join (join a b) c ≡ join a (join b c)
unfolding join
join_assoc (c, t) (d, u) (e, v) = ground (
  arith,
  cmp-lt_trans t u v,
  cmp-lt_trans v u t,
  cmp-swap t u,
  cmp-swap u v,
  cmp-swap t v,
  eq_of_cmp t u,
  eq_of_cmp u v,
  eq_of_cmp t v,
)

-- The later of two deletion stamps; `none` is a record that was never deleted.
unfoldable pub later : Option ℕ → Option ℕ → Option ℕ
later none b = b
later (some s) none = some s
later (some s) (some r) = some (max s r)

pub later_idem : (a : Option ℕ) → later a a ≡ a
unfolding later
later_idem none = refl
later_idem (some s) = ap some (omega arith)

pub later_comm : (a b : Option ℕ) → later a b ≡ later b a
unfolding later
later_comm none none = refl
later_comm none (some r) = refl
later_comm (some s) none = refl
later_comm (some s) (some r) = ap some (omega arith)

pub later_assoc : (a b c : Option ℕ) → later (later a b) c ≡ later a (later b c)
unfolding later
later_assoc none b c = refl
later_assoc (some s) none c = refl
later_assoc (some s) (some r) none = refl
later_assoc (some s) (some r) (some q) = ap some (omega arith)
