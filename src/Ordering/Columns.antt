-- ===== src/Ordering/Columns.antt =====
-- backend/src/common/ordering/position-rebalance.service.ts: columns whose keys have grown too long
-- are written anew, over an interface of the database.
mod Tests
use flow_logix.Common.{
  ℕ, zero, suc, ◌+◌, ◌*◌, ◌^◌, ◌<◌, ◌≤◌, ◌≡◌, refl, sym, ap, ◌∙◌, subst, Bool, true, false, Option,
  none, some, List, [], ◌∷◌, Text, length, if◌then◌else◌, lookup, contains, distinct, arith,
  text_eq, text_eq_iff,
}
use flow_logix.Ordering.Indexer.{Indexer, Result, ok, throw, ◌>>=◌, make, base62_alphabet}
use flow_logix.Ordering.Position.{base62, base62-IsPlain, rebalanced_keys}
use flow_logix.Ordering.Rebalance.{rebalance}
use flow_logix.Ordering.Rebalance.Laws.{IsBalanced, rebalance-IsBalanced, rebalance_total}

pub data Table : Type 0 where
  lists cards : Table

-- The statements of the job, with what SQL promises of the one that writes. `position_of` is the
-- key that a row of the table holds.
pub record Columns (Db : Type 0) : Type 0 where
  -- `pg_try_advisory_xact_lock`
  pub try_lock : Db → Bool
  pub organizations : Db → List Text
  -- The parents in a tenant with a key that is longer than the limit, once each.
  pub overlong_parents : Text → Table → ℕ → Db → List Text
  -- The ids of a column, by `position_idx`, `created_at` and `id`.
  pub sorted_ids : Text → Table → Text → Db → List Text
  -- `UPDATE … FROM unnest(ids, keys)`
  pub write_keys : Text → Table → List (Text × Text) → Db → Db
  pub position_of : Table → Text → Db → Option Text
  -- A row that the column lists takes the key that is given for it. An id that is listed nowhere
  -- need not have a row, and gets none.
  pub write_keys-listed :
      (org : Text) (table : Table) (parent : Text) (pairs : List (Text × Text)) (db : Db)
      (id key : Text)
      → contains id (sorted_ids org table parent db) ≡ true
      → lookup id pairs ≡ some key
      → position_of table id (write_keys org table pairs db) ≡ some key
  pub write_keys-others :
      (org : Text) (table : Table) (pairs : List (Text × Text)) (db : Db) (id : Text)
      → lookup id pairs ≡ none
      → position_of table id (write_keys org table pairs db) ≡ position_of table id db

abbrev pub max_key_length : ℕ
max_key_length = 32

abbrev pub zip : List Text → List Text → List (Text × Text)
zip [] keys = []
zip (id ∷ ids) [] = []
zip (id ∷ ids) (key ∷ keys) = (id, key) ∷ zip ids keys

-- What the job reports.
pub record Report (Db : Type 0) : Type 0 where
  pub db : Db
  pub lists : ℕ
  pub cards : ℕ
  pub skipped : Bool

abbrev lookups_at : List (Text × Text) → List Text → List (Option Text)
lookups_at pairs [] = []
lookups_at pairs (id ∷ ids) = lookup id pairs ∷ lookups_at pairs ids

abbrev pub all_some : List Text → List (Option Text)
all_some [] = []
all_some (key ∷ keys) = some key ∷ all_some keys

lookups_at-skip :
    (id key : Text) (pairs : List (Text × Text)) (ids : List Text)
    → contains id ids ≡ false
    → lookups_at ((id, key) ∷ pairs) ids ≡ lookups_at pairs ids
lookups_at-skip id key pairs [] h = refl
lookups_at-skip id key pairs (i ∷ ids) h = ground (
  arith,
  text_eq_iff i id,
  text_eq_iff id i,
  ap (◌∷◌ (lookup i pairs)) (lookups_at-skip id key pairs ids (ground arith)),
)

lookups_at-zip :
    (ids keys : List Text)
    → distinct ids ≡ true
    → length keys ≡ length ids
    → lookups_at (zip ids keys) ids ≡ all_some keys
lookups_at-zip [] [] h n = refl
lookups_at-zip [] (key ∷ keys) h n = absurd (omega arith)
lookups_at-zip (id ∷ ids) [] h n = absurd (omega arith)
lookups_at-zip (id ∷ ids) (key ∷ keys) h n =
    let here : lookup id ((id, key) ∷ zip ids keys) ≡ some key =
      rw ((text_eq_iff id id).1 refl) refl in
    let later : lookups_at ((id, key) ∷ zip ids keys) ids ≡ all_some keys =
      lookups_at-skip id key (zip ids keys) ids (ground arith)
      ∙ lookups_at-zip ids keys (ground arith) (omega arith) in
    ap (λ o. o ∷ lookups_at ((id, key) ∷ zip ids keys) ids) here ∙ ap (◌∷◌ (some key)) later

lookup-zip_missing :
    (id : Text) (ids keys : List Text) → contains id ids ≡ false → lookup id (zip ids keys) ≡ none
lookup-zip_missing id [] keys h = refl
lookup-zip_missing id (i ∷ ids) [] h = refl
lookup-zip_missing id (i ∷ ids) (key ∷ keys) h =
    ground (arith, lookup-zip_missing id ids keys (ground arith))

abbrev digits_of : Result Indexer → ℕ
digits_of (ok ix) = length ix.alphabet
digits_of (throw e) = 62

base62-digits : digits_of base62 ≡ 62
unfolding make
base62-digits = refl

-- A column that is not enormous gets one well-formed key for each row.
column_keys :
    (positions : Indexer) (count : ℕ)
    → base62 ≡ ok positions
    → 2 * (count + 1) ≤ 62 ^ 8
    → (keys : List Text) × (rebalance positions count none ≡ ok keys)
      × IsBalanced positions count keys
unfolding rebalance
column_keys positions zero made small = (
  [],
  refl,
  rebalance-IsBalanced base62_alphabet none positions 0 none [] made (base62-IsPlain positions made)
      refl,
)
column_keys positions (suc n) made small =
    let digits : 62 ≡ length positions.alphabet = sym base62-digits ∙ ap digits_of made in
    rebalance_total base62_alphabet none positions n 8 made (base62-IsPlain positions made)
      (omega arith) (subst (λ b. 2 * (n + 2) ≤ b ^ 8) digits (omega arith))
      (subst (λ b. b ^ 8 < 2 ^ 53) digits (omega arith))

module _ {Db : Type 0} (columns : Columns Db) (positions : Indexer) where
  -- One round of the loop of `rebalanceTable`.
  unfoldable pub rebalance_column : Text → Table → Text → Db → Result Db
  unfolding rebalanced_keys
  rebalance_column org table parent db = do
    keys ← rebalanced_keys positions (length (columns.sorted_ids org table parent db))
    ok (columns.write_keys org table (zip (columns.sorted_ids org table parent db) keys) db)

  unfoldable pub rebalance_all : Text → Table → List Text → Db → Result Db
  rebalance_all org table [] db = ok db
  rebalance_all org table (parent ∷ parents) db = do
    next ← rebalance_column org table parent db
    rebalance_all org table parents next

  -- `rebalanceTable`: the database after it, and how many columns were written.
  unfoldable pub rebalance_table : Text → Table → Db → Result (Db × ℕ)
  rebalance_table org table db = do
    done ← rebalance_all org table (columns.overlong_parents org table max_key_length db) db
    ok (done, length (columns.overlong_parents org table max_key_length db))

  unfoldable pub rebalance_orgs : List Text → Report Db → Result (Report Db)
  rebalance_orgs [] r = ok r
  rebalance_orgs (org ∷ orgs) r = do
    first ← rebalance_table org lists r.db
    second ← rebalance_table org cards (first.0)
    rebalance_orgs orgs
        (record r { db = second.0; lists = r.lists + first.1; cards = r.cards + second.1 })

  unfoldable pub rebalance_overlong_columns : Db → Result (Report Db)
  rebalance_overlong_columns db =
      if columns.try_lock db
      then rebalance_orgs (columns.organizations db)
          (record { db = db; lists = 0; cards = 0; skipped = false })
      else ok (record { db = db; lists = 0; cards = 0; skipped = true })

  -- The keys that the rows of a list of ids hold afterwards.
  abbrev pub keys_at : Table → Db → List Text → List (Option Text)
  keys_at table db [] = []
  keys_at table db (id ∷ ids) = columns.position_of table id db ∷ keys_at table db ids

  keys_at-write :
      (org : Text) (table : Table) (parent : Text) (pairs : List (Text × Text)) (db : Db)
      (ids keys : List Text)
      → ((i : Text)
          → contains i ids ≡ true
          → contains i (columns.sorted_ids org table parent db) ≡ true)
      → lookups_at pairs ids ≡ all_some keys
      → keys_at table (columns.write_keys org table pairs db) ids ≡ all_some keys
  keys_at-write org table parent pairs db [] keys listed h = h
  keys_at-write org table parent pairs db (id ∷ ids) [] listed h = cc
  keys_at-write org table parent pairs db (id ∷ ids) (key ∷ keys) listed h =
      let here : lookup id pairs ≡ some key = cc in
      let rest : lookups_at pairs ids ≡ all_some keys = cc in
      let written : columns.position_of table id (columns.write_keys org table pairs db)
          ≡ some key =
        columns.write_keys-listed org table parent pairs db id key
          (listed id (ground (arith, text_eq_iff id id))) here in
      ap (λ o. o ∷ keys_at table (columns.write_keys org table pairs db) ids) written
      ∙ ap (◌∷◌ (some key)) (
          keys_at-write org table parent pairs db ids keys (λ i inside. listed i (ground arith))
            rest)

  -- A column of at most 62^8 / 2 - 1 rows, each with an id of its own, is rewritten: its rows,
  -- in the order in which they stood, then hold well-formed keys of one width in ascending order, one
  -- for each, and the keys of all other rows of the table are as before.
  pub rebalance_column-IsBalanced :
      (org : Text) (table : Table) (parent : Text) (db : Db)
      → base62 ≡ ok positions
      → distinct (columns.sorted_ids org table parent db) ≡ true
      → 2 * (length (columns.sorted_ids org table parent db) + 1) ≤ 62 ^ 8
      → (done : Db) × (keys : List Text) × (rebalance_column org table parent db ≡ ok done)
        × (keys_at table done (columns.sorted_ids org table parent db) ≡ all_some keys)
        × IsBalanced positions (length (columns.sorted_ids org table parent db)) keys
        × ((id : Text)
            → contains id (columns.sorted_ids org table parent db) ≡ false
            → columns.position_of table id done ≡ columns.position_of table id db)
  unfolding rebalance_column rebalanced_keys
  rebalance_column-IsBalanced org table parent db made unique small =
      let ids = columns.sorted_ids org table parent db in
      let (keys, minted, balanced) = column_keys positions (length ids) made small in
      let pairs = zip ids keys in
      (
        columns.write_keys org table pairs db,
        keys,
        rw minted refl,
        keys_at-write org table parent pairs db ids keys (λ i inside. inside)
            (lookups_at-zip ids keys unique balanced.counted),
        balanced,
        λ id apart.
            columns.write_keys-others org table pairs db id (lookup-zip_missing id ids keys apart),
      )
