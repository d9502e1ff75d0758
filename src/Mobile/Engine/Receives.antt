-- ===== src/Mobile/Engine/Receives.antt =====
-- What a pulled change does to the database (mobile/src/sync/SyncService.ts, `applyRemote`).
use flow_logix.Common.{
  ◌≡◌, ◌≢◌, ◌≤◌, refl, sym, ◌∙◌, Bool, true, false, some, Text, text_eq_iff, arith,
  any-eq-false_of_contains, contains, contains-keys, keys, get_or_else, Bool-cases, subst, inl, inr,
  not, ◌&&◌,
}
use flow_logix.Crdt.Record.{VersionedRecord, clock_of, merge_record, MergeResult, merges}
use flow_logix.Crdt.Record.View.{IsStamped, SameView}
use flow_logix.Crdt.Record.Refines.{Refines, merge_record-Refines}
use flow_logix.Crdt.Record.Changed.{merge_record-changed_iff}
use flow_logix.Mobile.Ports.{LocalRecord, LocalStore}
use flow_logix.Mobile.Engine.{local_is_ahead, newer_at, still_pending, same_flag, apply_remote}

-- The remote change is at least as new as the local record in every field and in its deletion.
pub record Covers (remote l : VersionedRecord) : Type 0 where
  pub clocks_covered : (key : Text) → clock_of l.clocks key ≤ clock_of remote.clocks key
  pub deletion_covered : get_or_else l.deleted_at 0 ≤ get_or_else remote.deleted_at 0

Covers-of_behind : (l remote : VersionedRecord) → local_is_ahead l remote ≡ false → Covers remote l
unfolding local_is_ahead
Covers-of_behind l remote h = record {
  clocks_covered = λ key. elim (Bool-cases (contains key (keys l.clocks))) [
    | inl seen ↦
        let level : newer_at l remote key ≡ false =
          any-eq-false_of_contains (newer_at l remote) key (keys l.clocks) (ground arith) seen in
        ground arith
    | inr unseen ↦ ground (arith, contains-keys key l.clocks)
  ];
  deletion_covered = ground arith;
}

-- The local record after a change: it shows the join of what it and the change showed, and an
-- unpushed edit stays pending unless the change is at least as new everywhere.
pub record Received (remote : VersionedRecord) (l after : LocalRecord) : Type 0 where
  pub joined : Refines l.content remote after.content
  pub edit_kept : l.pending ≡ true → after.pending ≡ false → Covers remote l.content
  pub no_new_edit : l.pending ≡ false → after.pending ≡ false

still_pending-kept :
    (l : LocalRecord) (remote : VersionedRecord)
    → l.pending ≡ true
    → still_pending l remote ≡ false
    → Covers remote l.content
unfolding still_pending
still_pending-kept l remote p q = Covers-of_behind l.content remote (ground arith)

refines_of_same_view :
    (l r merged : VersionedRecord)
    → IsStamped l
    → Refines l r merged
    → SameView merged l
    → Refines l r l
refines_of_same_view l r merged sl f v = record {
  same_id = refl;
  stamped = sl;
  fields_joined = λ key. sym (v.same_fields key) ∙ f.fields_joined key;
  deletion_joined = sym v.same_deletion ∙ f.deletion_joined;
  writer_joined = sym v.same_writer ∙ f.writer_joined;
}

module _ {Db : Type 0} (store : LocalStore Db) (remote : VersionedRecord) (db : Db) where
  abbrev pub stored : MergeResult → Bool → LocalRecord
  stored m pending = record { content = m.merged; pending = pending }

  pub apply-skipped :
      (l : LocalRecord) (m : MergeResult)
      → store.get_by_id remote.id db ≡ some l
      → merge_record l.content remote ≡ merges m
      → (not m.changed && same_flag (still_pending l remote) l.pending) ≡ true
      → apply_remote store remote db ≡ some (false, db)
  unfolding apply_remote
  apply-skipped l m e f g = ground arith

  pub apply-stored :
      (l : LocalRecord) (m : MergeResult)
      → store.get_by_id remote.id db ≡ some l
      → merge_record l.content remote ≡ merges m
      → (not m.changed && same_flag (still_pending l remote) l.pending) ≡ false
      → apply_remote store remote db
        ≡ some (m.changed, store.put_record (stored m (still_pending l remote)) db)
  unfolding apply_remote
  apply-stored l m e f g = ground arith

  -- A change to a known record is received without an error: the record then shows the join of what
  -- it showed and what the change shows, its unpushed edits stay pending unless the change is at
  -- least as new in every field and in its deletion, and no other record is touched, if neither
  -- the record nor the change has a clock without its field.
  pub apply_remote-Received :
      (l : LocalRecord)
      → store.get_by_id remote.id db ≡ some l
      → IsStamped l.content
      → IsStamped remote
      → (changed : Bool) × (db' : Db) × (after : LocalRecord) × (apply_remote store remote db
          ≡ some (changed, db'))
        × (store.get_by_id remote.id db' ≡ some after)
        × Received remote l after
        × ((i : Text) → i ≢ remote.id → store.get_by_id i db' ≡ store.get_by_id i db)
  apply_remote-Received l found sl sr =
      let same : l.content.id ≡ remote.id = store.get-id remote.id l db found in
      let (m, got, f) = merge_record-Refines l.content remote same sl sr in
      let (m', got', iff) = merge_record-changed_iff l.content remote same sl in
      let one : m' ≡ m = ground (arith, sym got' ∙ got) in
      elim (Bool-cases (not m.changed && same_flag (still_pending l remote) l.pending)) [
        | inl skip ↦
            let v : SameView m.merged l.content =
              subst (λ n. SameView n.merged l.content) one (iff.0 (ground (arith, one))) in
            (
              false,
              db,
              l,
              apply-skipped l m found got skip,
              found,
              record {
                joined = refines_of_same_view l.content remote m.merged sl f v;
                edit_kept = λ p q. absurd (ground arith);
                no_new_edit = λ p. p;
              },
              λ i other. refl,
            )
        | inr write ↦ (
          m.changed,
          store.put_record (stored m (still_pending l remote)) db,
          stored m (still_pending l remote),
          apply-stored l m found got write,
          ground (
            arith,
            store.get-put remote.id (stored m (still_pending l remote)) db,
            text_eq_iff m.merged.id remote.id,
            f.same_id ∙ same,
          ),
          record {
            joined = f;
            edit_kept = λ p q. still_pending-kept l remote p q;
            no_new_edit = λ p. unfold still_pending in ground arith;
          },
          λ i other. ground (
            arith,
            store.get-put i (stored m (still_pending l remote)) db,
            text_eq_iff m.merged.id i,
            f.same_id ∙ same,
            other,
          ),
        )
      ]
