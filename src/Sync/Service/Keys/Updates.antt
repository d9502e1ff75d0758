-- ===== src/Sync/Service/Keys/Updates.antt =====
-- The update of a merged row in backend/src/sync/sync.service.ts keeps its key well-formed.
use flow_logix.Common.{
  ◌≡◌, ◌⊎◌, inl, inr, refl, sym, ap, ◌∙◌, subst, true, some, List, [], Text, cmp, arith, put,
  contains, lookup-for_each, Bool-cases, Option-cases, for_each,
}
use flow_logix.Crdt.Json.{Json, undefined}
use flow_logix.Crdt.Record.{field_of}
use flow_logix.Ordering.Indexer.{Indexer, ok}
use flow_logix.Ordering.Position.{base62}
use flow_logix.Sync.Merge.{RecordState, merge_server_record}
use flow_logix.Sync.Merge.Winners.{merged-field}
use flow_logix.Sync.Store.{
  SyncCollection, boards, lists, cards, SyncRow, EntityManager, IsPatched, written, same_row,
}
use flow_logix.Sync.Requests.{SyncChange, sync_fields}
use flow_logix.Sync.Service.{
  server_state, client_state, patch_of, Pass, merge_change, answer_merge, synced, store_merge,
}
use flow_logix.Sync.Service.Sanitize.{kept, sanitized, kept-position}
use flow_logix.Sync.Service.Keys.{position, HasKey, IsPositioned, IsKeyed}

-- A loop that copies the given fields.
field-copied :
    (value : Text → Json) (fields : List Text) (f : Text)
    → contains f fields ≡ true
    → field_of (for_each (λ out k. put k (value k) out) [] fields) f ≡ value f
field-copied value fields f h = ground (
  arith,
  lookup-for_each (λ out. out) (λ out k. put k (value k) out) value (λ out k. refl) f [] fields,
)

module _ {positions : Indexer} {Db : Type 0} (manager : EntityManager Db)
    (made : base62 ≡ ok positions) (org : Text) where
  -- What the merge writes leaves a positioned row positioned.
  merged-position :
      (e : SyncCollection) (db : Db) (change : SyncChange) (old : SyncRow)
      → contains position (sync_fields e) ≡ true
      → HasKey positions old.columns
      → let merged =
          (merge_server_record
            (server_state e old)
            (client_state manager positions org e db change)).merged in
        (field_of merged.fields position ≡ undefined) ⊎ HasKey positions merged.fields
  merged-position e db change old synced (key, held, valid) =
      let server = server_state e old in
      let client = client_state manager positions org e db change in
      elim (merged-field server client position) [
        | inl won ↦ inr (
          key,
          won ∙ field-copied (field_of old.columns) (sync_fields e) position synced ∙ held,
          valid,
        )
        | inr lost ↦
            let (cleaned, _) =
              sanitized manager positions org db change.fields (sync_fields e) change.clocks
                position in
            elim (Option-cases (kept manager positions org db change.fields position)) [
              | inl dropped ↦ inl (ground (arith, cleaned))
              | inr (value, admitted) ↦
                  let (own, text, well_formed) =
                    kept-position manager positions org db change.fields value admitted in
                  inr (own, ground (arith, cleaned), well_formed)
            ]
      ]

  patched-HasKey :
      (e : SyncCollection) (merged : RecordState) (old new : SyncRow)
      → contains position (sync_fields e) ≡ true
      → HasKey positions old.columns
      → (field_of merged.fields position ≡ undefined) ⊎ HasKey positions merged.fields
      → IsPatched old (patch_of e merged) new
      → HasKey positions new.columns
  patched-HasKey e merged old new synced (key, held, valid) (inl none_given) patched = (
    key,
    patched.columns_written position
        ∙ ap (written (field_of old.columns position))
            (field-copied (field_of merged.fields) (sync_fields e) position synced ∙ none_given)
        ∙ held,
    valid,
  )
  patched-HasKey e merged old new synced held (inr (key, given, valid)) patched = (
    key,
    patched.columns_written position
        ∙ ap (written (field_of old.columns position))
            (field-copied (field_of merged.fields) (sync_fields e) position synced ∙ given),
    valid,
  )

  patched-IsPositioned :
      (e : SyncCollection) (db : Db) (change : SyncChange) (old new : SyncRow)
      → IsPositioned positions e old.columns
      → let merged =
          (merge_server_record
            (server_state e old)
            (client_state manager positions org e db change)).merged in
        IsPatched old (patch_of e merged) new → IsPositioned positions e new.columns
  unfolding cmp
  patched-IsPositioned boards db change old new held patched = tt
  patched-IsPositioned lists db change old new held patched =
      patched-HasKey lists
        (merge_server_record (server_state lists old)
          (client_state manager positions org lists db change)).merged
        old new refl held (merged-position lists db change old refl held) patched
  patched-IsPositioned cards db change old new held patched =
      patched-HasKey cards
        (merge_server_record (server_state cards old)
          (client_state manager positions org cards db change)).merged
        old new refl held (merged-position cards db change old refl held) patched

  IsKeyed-update :
      (db : Db) (e : SyncCollection) (id : Text) (old patch : SyncRow)
      → IsKeyed positions manager db
      → manager.find_one db e id ≡ some old
      → ((new : SyncRow) → IsPatched old patch new → IsPositioned positions e new.columns)
      → IsKeyed positions manager (manager.update db e id patch)
  IsKeyed-update db e id old patch keyed there writes f j stored found = elim (same_row e f id j) [
    | inr other ↦ keyed f j stored (sym (manager.update-others db e f id j patch other) ∙ found)
    | inl (p, q) ↦
        let (new, now, patched) = manager.update-found db e id old patch there in
        let same : new ≡ stored = cc in
        subst (λ r. IsPositioned positions f r.columns) same
          (subst (λ c. IsPositioned positions c new.columns) p (writes new patched))
  ]

  pub merge_change-IsKeyed :
      (e : SyncCollection) (p q : Pass Db) (change : SyncChange)
      → IsKeyed positions manager p.db
      → merge_change manager positions org e p change ≡ some q
      → IsKeyed positions manager q.db
  unfolding merge_change store_merge answer_merge
  merge_change-IsKeyed e p q change keyed h =
      elim (Option-cases (manager.find_one p.db e change.id)) [
        | inl gone ↦ subst (IsKeyed positions manager) (ground arith) keyed
        | inr (old, there) ↦
            let server = server_state e old in
            let client = client_state manager positions org e p.db change in
            let result = merge_server_record server client in
            elim (Bool-cases result.server_changed) [
              | inr same ↦ subst (IsKeyed positions manager) (ground arith) keyed
              | inl changed ↦
                  elim (Bool-cases
                    (manager.accepts_update p.db e change.id (patch_of e result.merged))) [
                      | inr refused ↦ absurd (ground arith)
                      | inl fine ↦ subst (IsKeyed positions manager) (ground arith) (
                          IsKeyed-update p.db e change.id old (patch_of e result.merged) keyed there
                            (λ new patched.
                              patched-IsPositioned e p.db change old new
                                (keyed e change.id old there) patched))
                    ]
            ]
      ]
