-- ===== src/Sync/Service/Keys/Stays.antt =====
-- `sync` of backend/src/sync/sync.service.ts keeps every key well-formed.
use flow_logix.Common.{
  ◌≡◌, ◌⊎◌, inl, inr, sym, ◌∙◌, subst, some, List, [], ◌∷◌, Text, arith, Bool-cases, Option-cases,
  ℕ,
}
use flow_logix.Ordering.Indexer.{Indexer, ok}
use flow_logix.Ordering.Position.{base62}
use flow_logix.Sync.Store.{
  SyncCollection, SyncRow, EntityManager, inserted, unique_violation, Inserted-cases, same_row,
}
use flow_logix.Sync.Requests.{SyncChange, SyncRequest, is_uuid}
use flow_logix.Sync.Strategies.{created, declined, load, try_insert, new_row, Insertion-cases}
use flow_logix.Sync.Service.{Pass, process_change, process_changes, sync, Synced, sort_by_id}
use flow_logix.Sync.Service.Keys.{IsPositioned, IsKeyed, new_columns-IsPositioned}
use flow_logix.Sync.Service.Keys.Updates.{merge_change-IsKeyed}

module _ {positions : Indexer} {Db : Type 0} (manager : EntityManager Db)
    (made : base62 ≡ ok positions) (org : Text) where
  -- The other transactions store positioned rows too.
  module _
      (others : (db db' : Db) (e : SyncCollection) (id : Text) (row : SyncRow)
        → IsKeyed positions manager db
        → manager.insert db e id row ≡ unique_violation db'
        → IsKeyed positions manager db') where
    IsKeyed-insert :
        (db db' : Db) (e : SyncCollection) (id : Text) (row : SyncRow)
        → IsKeyed positions manager db
        → IsPositioned positions e row.columns
        → manager.insert db e id row ≡ inserted db'
        → IsKeyed positions manager db'
    IsKeyed-insert db db' e id row keyed positioned h f j stored found = elim (same_row e f id j) [
      | inr other ↦
          keyed f j stored (sym (manager.insert-others db db' e f id j row h other) ∙ found)
      | inl (p, q) ↦
          let (_, fresh) = manager.insert-fresh db db' e id row h in
          let same : row ≡ stored = cc in
          subst (λ r. IsPositioned positions f r.columns) same
            (subst (λ c. IsPositioned positions c row.columns) p positioned)
    ]

    try_insert-IsKeyed :
        (e : SyncCollection) (db db' : Db) (change : SyncChange)
        → IsKeyed positions manager db
        → (try_insert manager positions e db org change ≡ created db')
          ⊎ (try_insert manager positions e db org change ≡ declined db')
        → IsKeyed positions manager db'
    unfolding try_insert new_row
    try_insert-IsKeyed e db db' change keyed answer = elim (Bool-cases (is_uuid change.id)) [
      | inr bad ↦ subst (IsKeyed positions manager) (ground arith) keyed
      | inl good ↦ elim (new_columns-IsPositioned positions manager made org e db change keyed) [
        | inl incomplete ↦ subst (IsKeyed positions manager) (ground arith) keyed
        | inr (columns, complete, positioned) ↦
            let row = new_row e change columns in
            elim (Inserted-cases (manager.insert db e change.id row)) [
              | inl (next, h) ↦
                  subst (IsKeyed positions manager) (ground arith)
                    (IsKeyed-insert db next e change.id row keyed positioned h)
              | inr (inl (next, h)) ↦
                  subst (IsKeyed positions manager) (ground arith)
                    (others db next e change.id row keyed h)
              | inr (inr h) ↦ absurd (ground arith)
            ]
      ]
    ]

    process_change-IsKeyed :
        (e : SyncCollection) (p q : Pass Db) (change : SyncChange)
        → IsKeyed positions manager p.db
        → process_change manager positions org e p change ≡ some q
        → IsKeyed positions manager q.db
    unfolding process_change
    process_change-IsKeyed e p q change keyed h =
        elim (Option-cases (load manager e p.db change.id org)) [
          | inr (row, known) ↦
              merge_change-IsKeyed manager made org e p q change keyed (ground arith)
          | inl unseen ↦ elim (Insertion-cases (try_insert manager positions e p.db org change)) [
            | inl (db, new) ↦
                subst (IsKeyed positions manager) (ground arith)
                  (try_insert-IsKeyed e p.db db change keyed (inl new))
            | inr (inl (db, declines)) ↦
                let first = try_insert-IsKeyed e p.db db change keyed (inr declines) in
                elim (Option-cases (load manager e db change.id org)) [
                  | inl still ↦ subst (IsKeyed positions manager) (ground arith) first
                  | inr (row, found) ↦
                      merge_change-IsKeyed manager made org e (record p { db = db }) q change first
                        (ground arith)
                ]
            | inr (inr thrown) ↦ absurd (ground arith)
          ]
        ]

    process_changes-IsKeyed :
        (e : SyncCollection) (p q : Pass Db) (cs : List SyncChange)
        → IsKeyed positions manager p.db
        → process_changes manager positions org e p cs ≡ some q
        → IsKeyed positions manager q.db
    unfolding process_changes
    process_changes-IsKeyed e p q [] keyed h =
        subst (IsKeyed positions manager) (ground arith) keyed
    process_changes-IsKeyed e p q (c ∷ cs) keyed h =
        elim (Option-cases (process_change manager positions org e p c)) [
          | inl thrown ↦ absurd (ground arith)
          | inr (r, step) ↦
              process_changes-IsKeyed e r q cs (process_change-IsKeyed e p r c keyed step)
                (ground arith)
        ]

    -- Over a database in which the other transactions store well-formed keys only, and from a state
    -- where every stored list and card holds a well-formed key: after a `sync` that completes,
    -- whatever the client sent, every stored list and card again holds a well-formed key.
    pub sync-IsKeyed :
        (last_micros wall : ℕ) (db : Db) (req : SyncRequest) (done : Synced Db)
        → IsKeyed positions manager db
        → sync manager positions org last_micros wall db req ≡ some done
        → IsKeyed positions manager done.db
    unfolding sync
    sync-IsKeyed last_micros wall db req done keyed h =
        let start : Pass Db = record { db = db; changes = []; accepted = []; events = [] } in
        elim (Option-cases
          (process_changes manager positions org req.collection start (sort_by_id req.changes))) [
            | inl thrown ↦ absurd (ground arith)
            | inr (p, steps) ↦ subst (IsKeyed positions manager) (ground arith) (
                process_changes-IsKeyed req.collection start p (sort_by_id req.changes) keyed steps)
          ]
