-- ===== src/Crdt/ElementSet.antt =====
-- mobile/src/crdt/lwwElementSet.ts. A `Map` is an association list in the order of insertion.
pub mod Converges
use flow_logix.Common.{
  ℕ, Bool, true, false, Option, none, some, List, [], ◌∷◌, Text, lookup, put, keys, keep, ltb, ◌==◌,
  if◌then◌else◌,
}

pub data SetBias : Type 0 where
  add_bias remove_bias : SetBias

abbrev pub Stamps : Type 0
Stamps = List (Text × ℕ)

pub record ElementSet : Type 0 where
  pub adds : Stamps
  pub removes : Stamps
  pub bias : SetBias

-- Method `bump`.
unfoldable pub bump : Stamps → Text → ℕ → Stamps
bump m element timestamp = elim (lookup element m) [
  | none ↦ put element timestamp m
  | some current ↦ if ltb current timestamp then put element timestamp m else m
]

unfoldable pub add : Text → ℕ → ElementSet → ElementSet
add element timestamp s = record s { adds = bump s.adds element timestamp }

unfoldable pub remove : Text → ℕ → ElementSet → ElementSet
remove element timestamp s = record s { removes = bump s.removes element timestamp }

abbrev pub is_add_bias : SetBias → Bool
is_add_bias add_bias = true
is_add_bias remove_bias = false

unfoldable pub has : Text → ElementSet → Bool
has element s = elim (lookup element s.adds) [
  | none ↦ false
  | some added ↦ elim (lookup element s.removes) [
    | none ↦ true
    | some removed ↦ if added == removed then is_add_bias s.bias else ltb removed added
  ]
]

-- The members, before they are sorted.
unfoldable pub present : ElementSet → List Text
present s = keep (λ element. has element s) (keys s.adds)

-- `for (const [el, ts] of other) this.bump(map, el, ts)`
unfoldable pub bump_all : Stamps → Stamps → Stamps
bump_all m [] = m
bump_all m ((element, timestamp) ∷ other) = bump_all (bump m element timestamp) other

unfoldable pub merge : ElementSet → ElementSet → ElementSet
merge s other = record {
  adds = bump_all s.adds other.adds;
  removes = bump_all s.removes other.removes;
  bias = s.bias;
}

-- `fromJSON`: the set of a snapshot, whose objects' entries are added one by one.
unfoldable pub from_json : ElementSet → ElementSet
from_json state = record {
  adds = bump_all [] state.adds;
  removes = bump_all [] state.removes;
  bias = state.bias;
}
