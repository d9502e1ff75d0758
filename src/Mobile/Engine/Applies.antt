-- ===== src/Mobile/Engine/Applies.antt =====
-- What a pull does to the database, change by change (mobile/src/sync/SyncService.ts,
-- `pullAndMerge`).
use flow_logix.Common.{
  ℕ, ◌≡◌, ◌≢◌, ◌+◌, ◌↔◌, refl, sym, ap, ◌∙◌, subst, Bool, true, false, none, some, List, [], ◌∷◌,
  Text, All, text_eq, text_eq_iff, arith, inl, inr, Bool-cases, Option-cases, not, ◌&&◌,
  if◌then◌else◌,
}
use flow_logix.Crdt.Record.{VersionedRecord}
use flow_logix.Crdt.Record.View.{IsStamped, SameView}
use flow_logix.Crdt.Record.Refines.{merge_record-Refines}
use flow_logix.Crdt.Record.Changed.{merge_record-changed_iff}
use flow_logix.Mobile.Ports.{LocalRecord, LocalStore, PullResult}
use flow_logix.Mobile.Engine.{
  Device, apply_remote, apply_all, pull_and_merge, still_pending, same_flag,
}
use flow_logix.Mobile.Engine.Receives.{Received, apply_remote-Received, apply-skipped, apply-stored}

SameView-refl : (r : VersionedRecord) → SameView r r
SameView-refl r = record { same_fields = λ key. refl; same_deletion = refl; same_writer = refl }

module _ {Db : Type 0} (store : LocalStore Db) where
  -- Every other record is as it was.
  abbrev pub Others : Text → Db → Db → Type 0
  Others i db db' = (j : Text) → j ≢ i → store.get_by_id j db' ≡ store.get_by_id j db

  -- The changes of a pull, one after the other, between two databases, and how many of them count.
  -- A change to an unknown record is stored as it is, and counts. A change to a known record is
  -- received, and counts unless the record shows afterwards what it showed before.
  pub data Applies : List VersionedRecord → Db → ℕ → Db → Type 0 where
    none_left : {db : Db} → Applies [] db 0 db
    stores :
        {c : VersionedRecord} {cs : List VersionedRecord} {db mid end : Db} {n : ℕ}
        → store.get_by_id c.id db ≡ none
        → store.get_by_id c.id mid ≡ some (record { content = c; pending = false })
        → Others c.id db mid
        → Applies cs mid n end
        → Applies (c ∷ cs) db (n + 1) end
    receives :
        {c : VersionedRecord} {cs : List VersionedRecord} {db mid end : Db} {n : ℕ} (changed : Bool)
        (l after : LocalRecord)
        → store.get_by_id c.id db ≡ some l
        → store.get_by_id c.id mid ≡ some after
        → Received c l after
        → (changed ≡ false) ↔ SameView after.content l.content
        → Others c.id db mid
        → Applies cs mid n end
        → Applies (c ∷ cs) db (if changed then n + 1 else n) end

  -- No stored record has a clock without its field.
  abbrev pub AllStamped : Db → Type 0
  AllStamped db = (i : Text) (l : LocalRecord) → store.get_by_id i db ≡ some l → IsStamped l.content

  stamped_after :
      (i : Text) (db mid : Db) (after : LocalRecord)
      → AllStamped db
      → store.get_by_id i mid ≡ some after
      → IsStamped after.content
      → Others i db mid
      → AllStamped mid
  stamped_after i db mid after all found stamped others j l at = elim (Bool-cases (text_eq j i)) [
    | inl same ↦
        let e : j ≡ i = (text_eq_iff j i).0 same in
        let one : after ≡ l = cc in subst (λ r. IsStamped r.content) one stamped
    | inr other ↦
        all j l (sym (others j (λ e. absurd (ground (arith, (text_eq_iff j i).1 e)))) ∙ at)
  ]

  apply_remote-changed :
      (c : VersionedRecord) (db db' : Db) (changed : Bool) (l after : LocalRecord)
      → store.get_by_id c.id db ≡ some l
      → IsStamped l.content
      → IsStamped c
      → apply_remote store c db ≡ some (changed, db')
      → store.get_by_id c.id db' ≡ some after
      → (changed ≡ false) ↔ SameView after.content l.content
  apply_remote-changed c db db' changed l after found sl sr ran at =
      let same : l.content.id ≡ c.id = store.get-id c.id l db found in
      let (m, got, f) = merge_record-Refines l.content c same sl sr in
      let (m', got', iff) = merge_record-changed_iff l.content c same sl in
      let agree : m' ≡ m = ground (arith, sym got' ∙ got) in
      let shows : (m.changed ≡ false) ↔ SameView m.merged l.content =
        subst (λ n. (n.changed ≡ false) ↔ SameView n.merged l.content) agree iff in
      elim (Bool-cases (not m.changed && same_flag (still_pending l c) l.pending)) [
        | inl skip ↦
            let skipped = apply-skipped store c db l m found got skip in
            let unchanged : changed ≡ false = ground (arith, sym skipped ∙ ran) in
            let still : db ≡ db' = ground (arith, sym skipped ∙ ran) in
            let one : l ≡ after =
              (let e : some l ≡ some after = sym found ∙ ap (store.get_by_id c.id) still ∙ at in
                cc) in
            (
              λ h. subst (λ r. SameView r.content l.content) one (SameView-refl l.content),
              λ h. unchanged,
            )
        | inr write ↦
            let wrote = apply-stored store c db l m found got write in
            let flag : m.changed ≡ changed = ground (arith, sym wrote ∙ ran) in
            let new : LocalRecord = record { content = m.merged; pending = still_pending l c } in
            let now : store.put_record new db ≡ db' = ground (arith, sym wrote ∙ ran) in
            let put_new : store.get_by_id c.id (store.put_record new db) ≡ some new =
              store.get-put c.id new db
              ∙ rw ((text_eq_iff m.merged.id c.id).1 (f.same_id ∙ same)) refl in
            let one : new ≡ after =
              (let e : some new ≡ some after = sym put_new ∙ ap (store.get_by_id c.id) now ∙ at in
                cc) in
            (
              λ h. subst (λ r. SameView r.content l.content) one (shows.0 (flag ∙ h)),
              λ v. sym flag ∙ shows.1 (subst (λ r. SameView r.content l.content) (sym one) v),
            )
      ]

  apply_remote-new :
      (c : VersionedRecord) (db : Db)
      → store.get_by_id c.id db ≡ none
      → apply_remote store c db
        ≡ some (true, store.put_record (record { content = c; pending = false }) db)
  unfolding apply_remote
  apply_remote-new c db unseen = ground arith

  apply_all-step :
      (c : VersionedRecord) (cs : List VersionedRecord) (db mid end : Db) (changed : Bool) (n : ℕ)
      → apply_remote store c db ≡ some (changed, mid)
      → apply_all store cs mid ≡ some (n, end)
      → apply_all store (c ∷ cs) db ≡ some ((if changed then n + 1 else n), end)
  unfolding apply_all
  apply_all-step c cs db mid end changed n first later = ground arith

  apply_all-Applies :
      (cs : List VersionedRecord) (db : Db)
      → AllStamped db
      → All IsStamped cs
      → (n : ℕ) × (end : Db) × (apply_all store cs db ≡ some (n, end)) × Applies cs db n end
  apply_all-Applies [] db stamped sound = (0, db, unfold apply_all in refl, none_left)
  apply_all-Applies (c ∷ cs) db stamped (sr, sound) =
      elim (Option-cases (store.get_by_id c.id db)) [
        | inl unseen ↦
            let new : LocalRecord = record { content = c; pending = false } in
            let mid : Db = store.put_record new db in
            let at : store.get_by_id c.id mid ≡ some new =
              store.get-put c.id new db ∙ rw ((text_eq_iff c.id c.id).1 refl) refl in
            let others : Others c.id db mid =
              λ j apart. ground (arith, store.get-put j new db, text_eq_iff c.id j, apart) in
            let (n, end, ran, rest) =
              apply_all-Applies cs mid (stamped_after c.id db mid new stamped at sr others) sound in
            (
              n + 1,
              end,
              apply_all-step c cs db mid end true n (apply_remote-new c db unseen) ran,
              stores unseen at others rest,
            )
        | inr (l, found) ↦
            let sl : IsStamped l.content = stamped c.id l found in
            let (changed, mid, after, first, at, received, others) =
              apply_remote-Received store c db l found sl sr in
            let shows = apply_remote-changed c db mid changed l after found sl sr first at in
            let (n, end, ran, rest) =
              apply_all-Applies cs mid
                (stamped_after c.id db mid after stamped at received.joined.stamped others) sound in
            (
              (if changed then n + 1 else n),
              end,
              apply_all-step c cs db mid end changed n first ran,
              receives changed l after found at received shows others rest,
            )
      ]

  -- If no stored record and no change of the answer has a clock without its field, and no other call
  -- runs in the midst of it, the merge of a pulled answer completes. It takes the changes one after the other: a change to an unknown record
  -- is stored as it is; a known record then shows the join of what it and the change showed, and
  -- its unpushed edits stay pending unless the change is at least as new everywhere; no other
  -- record is touched. The reported number counts the new records and the changes after which a record
  -- shows something else than before, and the checkpoint is that of the answer.
  pub pull_and_merge-Applies :
      (result : PullResult) (device : Device Db)
      → AllStamped device.db
      → All IsStamped result.changes
      → (applied : ℕ) × (after : Device Db) × (pull_and_merge store result device
          ≡ some (applied, after))
        × Applies result.changes device.db applied after.db
        × (after.checkpoint ≡ result.checkpoint)
        × (after.last_stamp ≡ device.last_stamp)
  unfolding pull_and_merge
  pull_and_merge-Applies result device stamped sound =
      let (applied, db, all, steps) = apply_all-Applies result.changes device.db stamped sound in
      (
        applied,
        record device { db = db; checkpoint = result.checkpoint },
        ground arith,
        steps,
        refl,
        refl,
      )
