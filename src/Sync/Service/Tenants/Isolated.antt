-- ===== src/Sync/Service/Tenants/Isolated.antt =====
-- `sync` of backend/src/sync/sync.service.ts keeps to one organisation.
use flow_logix.Common.{
  ℕ, ◌≡◌, ◌≢◌, ◌⊎◌, inl, inr, ◌∙◌, subst, true, some, List, [], ◌∷◌, Text, arith, Bool-cases,
  Option-cases,
}
use flow_logix.Ordering.Indexer.{Indexer}
use flow_logix.Sync.Merge.{merge_server_record}
use flow_logix.Sync.Store.{
  SyncCollection, SyncRow, EntityManager, inserted, unique_violation, Inserted-cases, same_row,
}
use flow_logix.Sync.Requests.{SyncChange, SyncRequest, is_uuid}
use flow_logix.Sync.Strategies.{
  in_org, load, new_columns, new_row, try_insert, created, declined, Insertion-cases,
}
use flow_logix.Sync.Service.{
  server_state, client_state, patch_of, Pass, store_merge, answer_merge, merge_change, with_insert,
  process_change, process_changes, sort_by_id, synced, Synced, sync,
}
use flow_logix.Sync.Service.Tenants.{loaded, in_org-owner, Keeps, kept_by}

module _ {Db : Type 0} (manager : EntityManager Db) (positions : Indexer) (org other : Text)
    (apart : org ≢ other) where
  Keeps-inserted :
      (db db' : Db) (e : SyncCollection) (id : Text) (row : SyncRow)
      → manager.insert db e id row ≡ inserted db'
      → Keeps manager other db db'
  Keeps-inserted db db' e id row h = kept_by manager other db db' (λ f j stored mine.
      let (there, _) = loaded manager f db j other stored mine in
      elim (same_row e f id j) [
        | inr different ↦ manager.insert-others db db' e f id j row h different ∙ there
        | inl (p, q) ↦ let (fresh, _) = manager.insert-fresh db db' e id row h in absurd (cc)
      ])

  Keeps-violation :
      (db db' : Db) (e : SyncCollection) (id : Text) (row : SyncRow)
      → manager.insert db e id row ≡ unique_violation db'
      → Keeps manager other db db'
  Keeps-violation db db' e id row h = kept_by manager other db db' (λ f j stored mine.
      let (there, _) = loaded manager f db j other stored mine in
      manager.violation-stored db db' e f id j row stored h there)

  Keeps-update :
      (db : Db) (e : SyncCollection) (id : Text) (own patch : SyncRow)
      → load manager e db id org ≡ some own
      → Keeps manager other db (manager.update db e id patch)
  Keeps-update db e id own patch ours =
      kept_by manager other db (manager.update db e id patch) (λ f j stored mine.
        let (there, theirs) = loaded manager f db j other stored mine in
        let (here, is_ours) = loaded manager e db id org own ours in
        elim (same_row e f id j) [
          | inr different ↦ manager.update-others db e f id j patch different ∙ there
          | inl (p, q) ↦
              let same : own ≡ stored = cc in
              let ours_too : in_org manager f db org stored ≡ true =
                subst (λ r. in_org manager f db org r ≡ true) same
                  (subst (λ c. in_org manager c db org own ≡ true) p is_ours) in
              absurd (apart (in_org-owner manager f db org other stored ours_too theirs))
        ])

  Keeps-merge_change :
      (e : SyncCollection) (p q : Pass Db) (change : SyncChange) (own : SyncRow)
      → load manager e p.db change.id org ≡ some own
      → merge_change manager positions org e p change ≡ some q
      → Keeps manager other p.db q.db
  unfolding merge_change store_merge answer_merge
  Keeps-merge_change e p q change own ours h =
      let (there, _) = loaded manager e p.db change.id org own ours in
      let result =
        merge_server_record (server_state e own)
          (client_state manager positions org e p.db change) in
      let db' = manager.update p.db e change.id (patch_of e result.merged) in
      elim (Bool-cases result.server_changed) [
        | inr same ↦ subst (Keeps manager other p.db) (ground arith) (λ f j row h. h)
        | inl changed ↦
            elim (Bool-cases (manager.accepts_update p.db e change.id (patch_of e result.merged))) [
              | inr refused ↦ absurd (ground arith)
              | inl fine ↦
                  subst (Keeps manager other p.db) (ground arith)
                    (Keeps-update p.db e change.id own (patch_of e result.merged) ours)
            ]
      ]

  Keeps-try_insert :
      (e : SyncCollection) (db db' : Db) (change : SyncChange)
      → (try_insert manager positions e db org change ≡ created db')
        ⊎ (try_insert manager positions e db org change ≡ declined db')
      → Keeps manager other db db'
  unfolding try_insert
  Keeps-try_insert e db db' change answer = elim (Bool-cases (is_uuid change.id)) [
    | inr bad ↦ nothing (ground arith)
    | inl good ↦ elim (Option-cases (new_columns manager positions e db org change)) [
      | inl incomplete ↦ nothing (ground arith)
      | inr (columns?, given) ↦ elim (Option-cases columns?) [
        | inl thrown ↦ absurd (ground arith)
        | inr (columns, complete) ↦
            let row = new_row e change columns in
            elim (Inserted-cases (manager.insert db e change.id row)) [
              | inl (next, h) ↦
                  subst (Keeps manager other db) (ground arith)
                    (Keeps-inserted db next e change.id row h)
              | inr (inl (next, h)) ↦
                  subst (Keeps manager other db) (ground arith)
                    (Keeps-violation db next e change.id row h)
              | inr (inr h) ↦ absurd (ground arith)
            ]
      ]
    ]
  ]
    where
      nothing : db ≡ db' → Keeps manager other db db'
      nothing same = subst (Keeps manager other db) same (λ f j row h. h)

  Keeps-process_change :
      (e : SyncCollection) (p q : Pass Db) (change : SyncChange)
      → process_change manager positions org e p change ≡ some q
      → Keeps manager other p.db q.db
  unfolding process_change
  Keeps-process_change e p q change h = elim (Option-cases (load manager e p.db change.id org)) [
    | inr (own, ours) ↦ Keeps-merge_change e p q change own ours (ground arith)
    | inl unseen ↦ elim (Insertion-cases (try_insert manager positions e p.db org change)) [
      | inl (db, new) ↦
          let same : with_insert manager positions org e db change p ≡ q = ground arith in
          subst (λ r. Keeps manager other p.db r.db) same
            (Keeps-try_insert e p.db db change (inl new))
      | inr (inl (db, declines)) ↦
          let first = Keeps-try_insert e p.db db change (inr declines) in
          let r : Pass Db = record p { db = db } in
          elim (Option-cases (load manager e db change.id org)) [
            | inl still ↦
                let same : r ≡ q = ground arith in
                subst (λ r. Keeps manager other p.db r.db) same first
            | inr (own, ours) ↦
                let second = Keeps-merge_change e r q change own ours (ground arith) in
                λ f j row mine. second f j row (first f j row mine)
          ]
      | inr (inr thrown) ↦ absurd (ground arith)
    ]
  ]

  Keeps-process_changes :
      (e : SyncCollection) (p q : Pass Db) (cs : List SyncChange)
      → process_changes manager positions org e p cs ≡ some q
      → Keeps manager other p.db q.db
  unfolding process_changes
  Keeps-process_changes e p q [] h =
      let same : p ≡ q = cc in
      subst (λ r. Keeps manager other p.db r.db) same (λ f j row mine. mine)
  Keeps-process_changes e p q (c ∷ cs) h =
      elim (Option-cases (process_change manager positions org e p c)) [
        | inl thrown ↦ absurd (ground arith)
        | inr (r, step) ↦
            let first = Keeps-process_change e p r c step in
            let later = Keeps-process_changes e r q cs (ground arith) in
            λ f j row mine. later f j row (first f j row mine)
      ]

  -- A `sync` of one organisation that completes leaves every board, list and card that a different
  -- organisation can load as it was: that organisation loads the same row afterwards.
  pub sync-Keeps :
      (last_micros wall : ℕ) (db : Db) (req : SyncRequest) (done : Synced Db)
      → sync manager positions org last_micros wall db req ≡ some done
      → (e : SyncCollection) (id : Text) (row : SyncRow) → load manager e db id other ≡ some row
      → load manager e done.db id other ≡ some row
  unfolding sync
  sync-Keeps last_micros wall db req done h =
      let start : Pass Db = record { db = db; changes = []; accepted = []; events = [] } in
      elim (Option-cases
        (process_changes manager positions org req.collection start (sort_by_id req.changes))) [
          | inl thrown ↦ absurd (ground arith)
          | inr (p, steps) ↦
              let same : synced manager positions org last_micros wall req p ≡ done =
                ground arith in
              subst (λ r. Keeps manager other db r.db) same
                (Keeps-process_changes req.collection start p (sort_by_id req.changes) steps)
        ]
