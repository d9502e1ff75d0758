-- ===== src/Realtime/Redis/Memory.antt =====
-- A Redis in memory that keeps the promises of the client's interface.
use flow_logix.Common.{
  ℕ, suc, ◌-◌, ◌<◌, ◌≡◌, ◌≢◌, refl, ap, ◌∙◌, not, Option, some, List, [], ◌∷◌, ◌++◌, Text, text_eq,
  text_eq_iff, ltb, leb, if◌then◌else◌, get_or_else, lookup, put, lookup-put, keep, take, drop,
  length, All, arith, Bool-cases, inl, inr,
}
use flow_logix.Realtime.Redis.{
  Command, incr, z_add, z_rem_range_by_rank, expire, key_of, values, RedisClient,
}

pub record Memory : Type 0 where
  pub counters : List (Text × ℕ)
  pub sets : List (Text × List (ℕ × Text))

abbrev pub number_in : Text → Memory → Option ℕ
number_in key m = lookup key m.counters

abbrev pub set_in : Text → Memory → List (ℕ × Text)
set_in key m = get_or_else (lookup key m.sets) []

abbrev pub with_set : Text → List (ℕ × Text) → Memory → Memory
with_set key entries m = record m { sets = put key entries m.sets }

abbrev pub without : Text → List (ℕ × Text) → List (ℕ × Text)
without value entries = keep (λ entry. not (text_eq entry.1 value)) entries

abbrev pub insert_score : ℕ → Text → List (ℕ × Text) → List (ℕ × Text)
insert_score score value [] = (score, value) ∷ []
insert_score score value ((n, v) ∷ entries) =
    if ltb score n
    then (score, value) ∷ (n, v) ∷ entries
    else (n, v) ∷ insert_score score value entries

-- Removes the ranks from `first` to the `last`-th from the end.
abbrev pub remove_ranks : ℕ → ℕ → List (ℕ × Text) → List (ℕ × Text)
remove_ranks first last entries = take first entries ++ drop (length entries - (last - 1)) entries

unfoldable pub execute : Command → Memory → Memory
execute (incr key) m = record m {
  counters = put key (suc (get_or_else (lookup key m.counters) 0)) m.counters;
}
execute (z_add key score value) m =
    with_set key (insert_score score value (without value (set_in key m))) m
execute (z_rem_range_by_rank key first last) m =
    with_set key (remove_ranks first last (set_in key m)) m
execute (expire key seconds) m = m

put_other :
    {V : Type 0} (key j : Text) (v : V) (m : List (Text × V))
    → key ≢ j
    → lookup j (put key v m) ≡ lookup j m
put_other key j v m apart = elim (Bool-cases (text_eq key j)) [
  | inl same ↦ absurd (apart ((text_eq_iff key j).0 same))
  | inr other ↦ lookup-put key j v m ∙ rw other refl
]

pub put_same :
    {V : Type 0} (key : Text) (v : V) (m : List (Text × V)) → lookup key (put key v m) ≡ some v
put_same key v m = lookup-put key key v m ∙ rw ((text_eq_iff key key).1 refl) refl

pub set-with_set :
    (key : Text) (entries : List (ℕ × Text)) (m : Memory)
    → set_in key (with_set key entries m) ≡ entries
set-with_set key entries m = ap (λ o. get_or_else o []) (put_same key entries m.sets)

set-with_other :
    (key j : Text) (entries : List (ℕ × Text)) (m : Memory)
    → key ≢ j
    → set_in j (with_set key entries m) ≡ set_in j m
set-with_other key j entries m apart =
    ap (λ o. get_or_else o []) (put_other key j entries m.sets apart)

pub execute-others :
    (c : Command) (j : Text) (m : Memory)
    → key_of c ≢ j
    → (number_in j (execute c m) ≡ number_in j m) × (set_in j (execute c m) ≡ set_in j m)
unfolding execute
execute-others (incr key) j m apart = (put_other key j _ m.counters apart, refl)
execute-others (z_add key score value) j m apart = (refl, set-with_other key j _ m apart)
execute-others (z_rem_range_by_rank key first last) j m apart =
    (refl, set-with_other key j _ m apart)
execute-others (expire key seconds) j m apart = (refl, refl)

pub last_inserted :
    (score : ℕ) (value : Text) (entries : List (ℕ × Text))
    → All (λ entry. (entry.0 < score) × (entry.1 ≢ value)) entries
    → insert_score score value (without value entries) ≡ entries ++ (score, value) ∷ []
last_inserted score value [] h = refl
last_inserted score value ((n, v) ∷ entries) ((below, apart), later) =
    elim (Bool-cases (text_eq v value)) [
      | inl same ↦ absurd (apart ((text_eq_iff v value).0 same))
      | inr other ↦ ground (arith, last_inserted score value entries later)
    ]

unfoldable pub memory : RedisClient Memory
unfolding execute
memory = record {
  run = execute;
  number_at = number_in;
  entries = set_in;
  z_range_by_score = λ key lower m. values (keep (λ entry. leb lower entry.0) (set_in key m));
  run-others = execute-others;
  incr-next = λ key m. put_same key _ m.counters;
  z_add-last = λ key score value m fits.
      set-with_set key _ m ∙ last_inserted score value (set_in key m) fits;
  z_rem_range_by_rank-lowest = λ key kept m.
      set-with_set key _ m
      ∙ ap (λ k. drop (length (set_in key m) - k) (set_in key m)) (omega arith);
  expire-later = λ key seconds m. refl;
  z_range_by_score-from = λ key lower m. refl;
}
