-- ===== src/Mobile/Engine.antt =====
-- `SyncEngine` of mobile/src/sync/SyncService.ts, over the interfaces of its ports.
pub mod Receives
pub mod Applies
pub mod Pulls
pub mod Acknowledges
use flow_logix.Common.{
  ℕ, ◌+◌, Bool, true, false, Option, none, some, List, [], ◌∷◌, Text, ltb, ◌==◌, ◌&&◌, ◌||◌, not,
  any, contains, keys, put, add_all, length, get_or_else, if◌then◌else◌,
}
use flow_logix.Crdt.Clock.{now}
use flow_logix.Crdt.Json.{Json, undefined}
use flow_logix.Crdt.Record.{
  VersionedRecord, Fields, FieldClocks, clock_of, merges, different_records, merge_record,
}
use flow_logix.Mobile.Ports.{LocalRecord, LocalStore, PullResult}

-- The database, the last stamp of the clock, and the checkpoint of the collection.
pub record Device (Db : Type 0) : Type 0 where
  pub db : Db
  pub last_stamp : ℕ
  pub checkpoint : ℕ

-- `for (const key of Object.keys(fields)) clocks[key] = now`
abbrev pub stamp_all : ℕ → Fields → FieldClocks → FieldClocks
stamp_all stamp [] clocks = clocks
stamp_all stamp ((k, v) ∷ fields) clocks = stamp_all stamp fields (put k stamp clocks)

abbrev pub is_undefined : Json → Bool
is_undefined undefined = true
is_undefined _ = false

-- The loop over the keys of a patch: a value that is `undefined` is skipped.
unfoldable pub patched : ℕ → Fields → Fields × FieldClocks → Fields × FieldClocks
patched stamp [] state = state
patched stamp ((k, v) ∷ patch) (fields, clocks) =
    patched stamp patch
      (if is_undefined v then (fields, clocks) else (put k v fields, put k stamp clocks))

-- `(local.clocks[key] ?? 0) > (remote.clocks[key] ?? 0)`
abbrev pub newer_at : VersionedRecord → VersionedRecord → Text → Bool
newer_at a b key = ltb (clock_of b.clocks key) (clock_of a.clocks key)

unfoldable pub local_is_ahead : VersionedRecord → VersionedRecord → Bool
local_is_ahead l r =
    any (newer_at l r) (keys l.clocks)
    || ltb (get_or_else r.deleted_at 0) (get_or_else l.deleted_at 0)

abbrev pub differs_at : VersionedRecord → VersionedRecord → Text → Bool
differs_at a b key = not (clock_of a.clocks key == clock_of b.clocks key)

unfoldable pub same_clocks : VersionedRecord → VersionedRecord → Bool
same_clocks a b =
    if not (get_or_else a.deleted_at 0 == get_or_else b.deleted_at 0)
    then false
    else not (any (differs_at a b) (add_all (add_all [] (keys a.clocks)) (keys b.clocks)))

-- `===` on flags.
abbrev pub same_flag : Bool → Bool → Bool
same_flag true b = b
same_flag false b = not b

abbrev pub contents : List LocalRecord → List VersionedRecord
contents [] = []
contents (r ∷ rs) = r.content ∷ contents rs

-- Variable `stillPending` of `applyRemote`.
unfoldable pub still_pending : LocalRecord → VersionedRecord → Bool
still_pending l r = l.pending && local_is_ahead l.content r

pub record SyncReport : Type 0 where
  pub pulled : ℕ
  pub merged : ℕ
  pub pushed : ℕ
  pub skipped_offline : Bool

abbrev pub offline_report : SyncReport
offline_report = record { pulled = 0; merged = 0; pushed = 0; skipped_offline = true }

module _ {Db : Type 0} (store : LocalStore Db) (node_id : Text) where
  unfoldable pub create : ℕ → Text → Fields → Device Db → Device Db
  create date_now i fields device =
      let stamp = now date_now device.last_stamp in
      record device {
        db =
            store.put_record
              record {
                content = record {
                  id = i;
                  fields = fields;
                  clocks = stamp_all stamp fields [];
                  node_id = node_id;
                  deleted_at = none;
                };
                pending = true;
              }
              device.db;
        last_stamp = stamp;
      }

  -- What `mutate` makes of a record at the given stamp.
  unfoldable pub mutated : ℕ → Fields → LocalRecord → LocalRecord
  mutated stamp patch existing =
      let state = patched stamp patch (existing.content.fields, existing.content.clocks) in
      record {
        content = record existing.content { fields = state.0; clocks = state.1; node_id = node_id };
        pending = true;
      }

  -- `none` is the error of an unknown record.
  unfoldable pub mutate : ℕ → Text → Fields → Device Db → Option (Device Db)
  mutate date_now i patch device = elim (store.get_by_id i device.db) [
    | none ↦ none
    | some existing ↦
        let stamp = now date_now device.last_stamp in
        some (record device {
          db = store.put_record (mutated stamp patch existing) device.db;
          last_stamp = stamp;
        })
  ]

  unfoldable pub remove : ℕ → Text → Device Db → Device Db
  remove date_now i device = elim (store.get_by_id i device.db) [
    | none ↦ device
    | some existing ↦
        let stamp = now date_now device.last_stamp in
        record device {
          db =
              store.put_record
                record {
                  content = record existing.content { deleted_at = some stamp; node_id = node_id };
                  pending = true;
                }
                device.db;
          last_stamp = stamp;
        }
  ]

module _ {Db : Type 0} (store : LocalStore Db) where
  -- `none` is an error thrown by the merge.
  unfoldable pub apply_remote : VersionedRecord → Db → Option (Bool × Db)
  apply_remote remote db = elim (store.get_by_id remote.id db) [
    | none ↦ some (true, store.put_record record { content = remote; pending = false } db)
    | some l ↦ elim (merge_record l.content remote) [
      | different_records ↦ none
      | merges m ↦
          let pending = still_pending l remote in
          if not m.changed && same_flag pending l.pending
          then some (false, db)
          else some
              (m.changed, store.put_record record { content = m.merged; pending = pending } db)
    ]
  ]

  unfoldable pub apply_all : List VersionedRecord → Db → Option (ℕ × Db)
  apply_all [] db = some (0, db)
  apply_all (remote ∷ changes) db = elim (apply_remote remote db) [
    | none ↦ none
    | some (changed, db') ↦ elim (apply_all changes db') [
      | none ↦ none
      | some (applied, db'') ↦ some ((if changed then applied + 1 else applied), db'')
    ]
  ]

  -- `pullAndMerge`, for the answer of the transport: the number of changes that were applied.
  unfoldable pub pull_and_merge : PullResult → Device Db → Option (ℕ × Device Db)
  pull_and_merge result device = elim (apply_all result.changes device.db) [
    | none ↦ none
    | some (applied, db) ↦ some (applied, record device { db = db; checkpoint = result.checkpoint })
  ]

  -- The round of the loop of `pushPending` for one record of the snapshot that was pushed.
  unfoldable pub acknowledge : List Text → Db → LocalRecord → Db
  acknowledge accepted db pushed =
      if not (contains pushed.content.id accepted)
      then db
      else (elim (store.get_by_id pushed.content.id db) [
        | none ↦ db
        | some current ↦
            if same_clocks current.content pushed.content
            then store.put_record (record current { pending = false }) db
            else db
      ])

  unfoldable pub acknowledge_all : List Text → List LocalRecord → Db → Db
  acknowledge_all accepted [] db = db
  acknowledge_all accepted (pushed ∷ snapshot) db =
      acknowledge_all accepted snapshot (acknowledge accepted db pushed)

  -- `pushPending`: `push` is the server's answer, and `meanwhile` what other calls do to the
  -- database while the push is awaited.
  unfoldable pub push_pending : (List VersionedRecord → List Text) → (Db → Db) → Db → ℕ × Db
  push_pending push meanwhile db = elim (store.get_pending db) [
    | [] ↦ (0, db)
    | ◌∷◌ r rs ↦
        let accepted = push (contents (r ∷ rs)) in
        (length (add_all [] accepted), acknowledge_all accepted (r ∷ rs) (meanwhile db))
  ]

  -- `pull` and `push` are the server's answers; `none` is an error thrown by the merge.
  unfoldable pub sync :
      Bool
      → (ℕ → PullResult)
      → (List VersionedRecord → List Text)
      → (Db → Db)
      → Device Db
      → Option (SyncReport × Device Db)
  sync online pull push meanwhile device = elim online [
    | false ↦ some (offline_report, device)
    | true ↦
        let result = pull device.checkpoint in
        elim (pull_and_merge result device) [
          | none ↦ none
          | some (applied, d) ↦
              let (pushed, db) = push_pending push meanwhile d.db in
              some (
                record {
                  pulled = length result.changes;
                  merged = applied;
                  pushed = pushed;
                  skipped_offline = false;
                },
                record d { db = db },
              )
        ]
  ]
