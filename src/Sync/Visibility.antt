-- ===== src/Sync/Visibility.antt =====
-- backend/src/common/sync-visibility.ts: which records the web client's reads show.
use flow_logix.Common.{
  ℕ, ◌≡◌, ◌↔◌, refl, sym, ◌∙◌, Bool, true, false, Option, none, some, List, [], ◌∷◌, Text, keys,
  get_or_else, max, leb, not, keep, distinct, contains, cmp_refl, text_eq_iff, arith,
}
use flow_logix.Crdt.Record
use flow_logix.Crdt.Record.{VersionedRecord, FieldClocks, max_clock}
use flow_logix.Crdt.Record.View.{SameView, is_deleted-eq_of_SameView}

-- The clocks of a row are a JSON value: `Number` of each is a number or, in `none`, not finite.
pub record SyncDeletable : Type 0 where
  pub sync_deleted_at : Option ℕ
  pub sync_clocks : Option (List (Text × Option ℕ))

-- `.map(Number).filter((n) => Number.isFinite(n))`, folded by `Math.max` from 0.
abbrev pub newest_finite : List (Text × Option ℕ) → ℕ
newest_finite [] = 0
newest_finite ((k, none) ∷ clocks) = newest_finite clocks
newest_finite ((k, some n) ∷ clocks) = max n (newest_finite clocks)

unfoldable pub is_sync_deleted : SyncDeletable → Bool
is_sync_deleted row = elim row.sync_deleted_at [
  | none ↦ false
  | some stamp ↦ leb (newest_finite (get_or_else row.sync_clocks [])) stamp
]

-- `filterVisible`
unfoldable pub filter_visible {ℓ} : {T : Type ℓ} → (T → SyncDeletable) → List T → List T
filter_visible row_of rows = keep (λ row. not (is_sync_deleted (row_of row))) rows

-- The row that stores a merged record: its clocks are numbers.
abbrev pub numbers : FieldClocks → List (Text × Option ℕ)
numbers [] = []
numbers ((k, n) ∷ clocks) = (k, some n) ∷ numbers clocks

abbrev pub row : VersionedRecord → SyncDeletable
row r = record { sync_deleted_at = r.deleted_at; sync_clocks = some (numbers r.clocks) }

-- The clocks of an object, whose keys are different.
newest-max_clock :
    (clocks : FieldClocks)
    → distinct (keys clocks) ≡ true
    → newest_finite (numbers clocks) ≡ max_clock clocks (keys clocks)
unfolding max_clock
newest-max_clock [] h = refl
newest-max_clock ((k, n) ∷ clocks) h = ground (
  arith,
  cmp_refl k,
  newest-max_clock clocks (ground arith),
  unseen clocks k n (keys clocks) (ground arith),
)
  where
    unseen :
        (clocks : FieldClocks) (k : Text) (n : ℕ) (ks : List Text)
        → contains k ks ≡ false
        → max_clock ((k, n) ∷ clocks) ks ≡ max_clock clocks ks
    unseen clocks k n [] u = refl
    unseen clocks k n (j ∷ ks) u =
        ground (arith, unseen clocks k n ks, text_eq_iff j k, text_eq_iff k j)

-- The web client's reads hide exactly the records that the mobile client holds for deleted: where a
-- stored row and a mobile record show the same fields, deletion and writer, and no key stands
-- twice among the row's clocks, the row is hidden if and only if the mobile record is deleted.
pub is_sync_deleted_iff :
    (stored mobile : VersionedRecord)
    → SameView stored mobile
    → distinct (keys stored.clocks) ≡ true
    → (is_sync_deleted (row stored) ≡ true) ↔ (Record.is_deleted mobile ≡ true)
unfolding is_sync_deleted Record.is_deleted Record.max_field_clock
is_sync_deleted_iff stored mobile same apart =
    let e : is_sync_deleted (row stored) ≡ Record.is_deleted mobile =
      ground (arith, newest-max_clock stored.clocks apart)
      ∙ is_deleted-eq_of_SameView stored mobile same in
    (λ h. sym e ∙ h, λ h. e ∙ h)
