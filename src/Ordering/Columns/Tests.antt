-- ===== src/Ordering/Columns/Tests.antt =====
-- A column of three rows in memory, one of which has a long key.
use flow_logix.Common.{
  ℕ, ◌≡◌, refl, Bool, true, false, none, List, [], ◌∷◌, Text, codes, cmp, text_lt, ltb, length,
  lookup, get_or_else, contains, some, Bool-cases, Option-cases, inl, inr, text_eq, text_eq_iff, ap,
  ◌∙◌, is_some, if◌then◌else◌, arith,
}
use flow_logix.Ordering.Indexer.{Indexer, Result, ok, throw, make}
use flow_logix.Ordering.Position.{base62}
use flow_logix.Ordering.Rebalance.Laws.{IsBalanced}
use flow_logix.Ordering.Columns.{
  cards, Columns, rebalance_column, keys_at, all_some, rebalance_column-IsBalanced,
}

abbrev Rows : Type 0
Rows = List (Text × Text)

abbrev insert_by_key : Text → Text → Rows → Rows
insert_by_key id key [] = (id, key) ∷ []
insert_by_key id key ((j, other) ∷ rows) =
    if text_lt other key
    then (j, other) ∷ insert_by_key id key rows
    else (id, key) ∷ (j, other) ∷ rows

abbrev by_key : Rows → Rows
by_key [] = []
by_key ((id, key) ∷ rows) = insert_by_key id key (by_key rows)

abbrev ids : Rows → List Text
ids [] = []
ids ((id, key) ∷ rows) = id ∷ ids rows

abbrev has_long : ℕ → Rows → Bool
has_long limit [] = false
has_long limit ((id, key) ∷ rows) = if ltb limit (length key) then true else has_long limit rows

-- `UPDATE` writes the rows that are there.
abbrev written : Rows → Rows → Rows
written pairs [] = []
written pairs ((id, key) ∷ rows) = (id, get_or_else (lookup id pairs) key) ∷ written pairs rows

lookup-written :
    (id : Text) (pairs rows : Rows)
    → lookup id (written pairs rows)
      ≡ elim (lookup id rows) [ none ↦ none | some key ↦ some (get_or_else (lookup id pairs) key) ]
lookup-written id pairs [] = refl
lookup-written id pairs ((j, key) ∷ rows) = elim (Bool-cases (text_eq j id)) [
  | inl same ↦
      let at : j ≡ id = (text_eq_iff j id).0 same in
      rw same (ap (λ i. some (get_or_else (lookup i pairs) key)) at)
  | inr other ↦ rw other (lookup-written id pairs rows)
]

ids-insert_by_key :
    (i id key : Text) (rows : Rows)
    → contains i (ids (insert_by_key id key rows)) ≡ contains i (id ∷ ids rows)
ids-insert_by_key i id key [] = refl
ids-insert_by_key i id key ((j, other) ∷ rows) = ground (arith, ids-insert_by_key i id key rows)

ids-by_key : (i : Text) (rows : Rows) → contains i (ids (by_key rows)) ≡ is_some (lookup i rows)
ids-by_key i [] = refl
ids-by_key i ((id, key) ∷ rows) =
    ground (arith, ids-insert_by_key i id key (by_key rows), ids-by_key i rows)

listed-written :
    (pairs rows : Rows) (id key : Text)
    → contains id (ids (by_key rows)) ≡ true
    → lookup id pairs ≡ some key
    → lookup id (written pairs rows) ≡ some key
listed-written pairs rows id key listed given = elim (Option-cases (lookup id rows)) [
  | inl missing ↦ absurd (ground (arith, ids-by_key id rows))
  | inr (old, there) ↦ lookup-written id pairs rows ∙ rw (there, given) refl
]

others-written :
    (pairs rows : Rows) (id : Text)
    → lookup id pairs ≡ none
    → lookup id (written pairs rows) ≡ lookup id rows
others-written pairs rows id absent = elim (Option-cases (lookup id rows)) [
  | inl missing ↦ lookup-written id pairs rows ∙ rw (missing) refl
  | inr (old, there) ↦ lookup-written id pairs rows ∙ rw (there, absent) refl
]

-- One column, whatever the tenant and the table.
one_column : Columns Rows
one_column = record {
  try_lock = λ db. true;
  organizations = λ db. codes "acme" ∷ [];
  overlong_parents = λ org table limit db. if has_long limit db then codes "todo" ∷ [] else [];
  sorted_ids = λ org table parent db. ids (by_key db);
  write_keys = λ org table pairs db. written pairs db;
  position_of = λ table id db. lookup id db;
  write_keys-listed =
      λ org table parent pairs db id key listed given. listed-written pairs db id key listed given;
  write_keys-others = λ org table pairs db id absent. others-written pairs db id absent;
}

indexer_of : Result Indexer → Indexer
indexer_of (ok ix) = ix
indexer_of (throw e) = record { alphabet = []; zero_char = 0; seed = 0; rank_by_char = λ c. none }

indexer : Indexer
unfolding make indexer_of
indexer = indexer_of base62

made : base62 ≡ ok indexer
unfolding indexer
made = refl

abbrev hot : Rows
hot =
    (codes "c1", codes "V")
    ∷ (codes "c2", codes "DaaaaaaaaaaaaaaaaaaaaaaaaaaaaaaaaaV")
    ∷ (codes "c3", codes "Da")
    ∷ []

in_order : ids (by_key hot) ≡ codes "c3" ∷ codes "c2" ∷ codes "c1" ∷ []
unfolding cmp
in_order = refl

column_spread :
    (done : Rows) × (keys : List Text) × (rebalance_column one_column indexer
        (codes "acme")
        cards
        (codes "todo")
        hot
      ≡ ok done)
    × (keys_at one_column indexer cards done
          (one_column.sorted_ids (codes "acme") cards (codes "todo") hot)
        ≡ all_some keys)
    × IsBalanced indexer
        (length (one_column.sorted_ids (codes "acme") cards (codes "todo") hot))
        keys
    × ((id : Text)
        → contains id (one_column.sorted_ids (codes "acme") cards (codes "todo") hot) ≡ false
        → one_column.position_of cards id done ≡ one_column.position_of cards id hot)
unfolding one_column cmp
column_spread =
    rebalance_column-IsBalanced one_column indexer (codes "acme") cards (codes "todo") hot made refl
      (omega arith)
