-- ===== src/Mobile/Engine/Pulls.antt =====
-- No merge of a pull throws (mobile/src/sync/SyncService.ts, `pullAndMerge`).
use flow_logix.Common.{
  ℕ, ◌≡◌, ◌≤◌, ◌+◌, refl, Bool, true, false, some, List, [], ◌∷◌, length, arith, text_eq_iff, inl,
  inr, Bool-cases, Option-cases, not, ◌&&◌, if◌then◌else◌,
}
use flow_logix.Crdt.Record.{VersionedRecord, merge_record, merge_result, merges}
use flow_logix.Mobile.Ports.{LocalRecord, LocalStore, PullResult}
use flow_logix.Mobile.Engine.{
  Device, apply_remote, apply_all, pull_and_merge, still_pending, same_flag,
}

module _ {Db : Type 0} (store : LocalStore Db) where
  merge_found :
      (remote : VersionedRecord) (l : LocalRecord) (db : Db)
      → store.get_by_id remote.id db ≡ some l
      → merge_record l.content remote ≡ merges (merge_result l.content remote)
  unfolding merge_record
  merge_found remote l db found =
      ground (arith, store.get-id remote.id l db found, text_eq_iff l.content.id remote.id)

  apply_remote_total :
      (remote : VersionedRecord) (db : Db)
      → (changed : Bool) × (db' : Db) × (apply_remote store remote db ≡ some (changed, db'))
  unfolding apply_remote
  apply_remote_total remote db = elim (Option-cases (store.get_by_id remote.id db)) [
    | inl unseen ↦
        (true, store.put_record (record { content = remote; pending = false }) db, ground arith)
    | inr (l, found) ↦
        let m = merge_result l.content remote in
        let got = merge_found remote l db found in
        elim (Bool-cases (not m.changed && same_flag (still_pending l remote) l.pending)) [
          | inl skip ↦ (false, db, ground arith)
          | inr write ↦ (
            m.changed,
            store.put_record (record { content = m.merged; pending = still_pending l remote }) db,
            ground arith,
          )
        ]
  ]

  apply_all_total :
      (changes : List VersionedRecord) (db : Db)
      → (applied : ℕ) × (db' : Db) × (apply_all store changes db ≡ some (applied, db'))
        × (applied ≤ length changes)
  unfolding apply_all
  apply_all_total [] db = (0, db, refl, omega arith)
  apply_all_total (remote ∷ changes) db =
      let (changed, mid, step) = apply_remote_total remote db in
      let (applied, end, rest, few) = apply_all_total changes mid in
      ((if changed then applied + 1 else applied), end, ground arith, ground arith)

  -- No merge of a pulled answer throws, over a storage that answers. It counts no more changed records
  -- than changes, and leaves the checkpoint that the server sent.
  pull_and_merge_total :
      (result : PullResult) (device : Device Db)
      → (applied : ℕ) × (after : Device Db) × (pull_and_merge store result device
          ≡ some (applied, after))
        × (applied ≤ length result.changes)
        × (after.checkpoint ≡ result.checkpoint)
  unfolding pull_and_merge
  pull_and_merge_total result device =
      let (applied, db, all, few) = apply_all_total result.changes device.db in
      (applied, record device { db = db; checkpoint = result.checkpoint }, ground arith, few, refl)
