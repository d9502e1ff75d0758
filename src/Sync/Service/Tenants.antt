-- ===== src/Sync/Service/Tenants.antt =====
-- backend/src/sync/sync.service.ts leaves the rows of other organisations alone.
pub mod Isolated
use flow_logix.Common.{
  ℕ, ◌≡◌, ◌≢◌, ◌⊎◌, inl, inr, refl, sym, ap, ◌∙◌, subst, Bool, true, false, not, ◌&&◌, Option, none,
  some, List, [], ◌∷◌, Text, codes, cmp, text_eq, text_eq_iff, if◌then◌else◌, arith, Bool-cases,
  Option-cases,
}
use flow_logix.Crdt.Record.{field_of}
use flow_logix.Ordering.Indexer.{Indexer}
use flow_logix.Sync.Merge.{merge_server_record}
use flow_logix.Sync.Store.{
  SyncCollection, boards, lists, cards, SyncRow, EntityManager, inserted, unique_violation,
  query_failed, Inserted-cases, same_row,
}
use flow_logix.Sync.Requests.{SyncChange, SyncRequest, is_uuid, text_of}
use flow_logix.Sync.Strategies.{
  board_in_org, joined, in_org, load, new_columns, new_row, try_insert, Insertion, created,
  declined, failed,
}
use flow_logix.Sync.Service.{
  server_state, client_state, patch_of, Pass, store_merge, answer_merge, merge_change, with_insert,
  process_change, process_changes, sort_by_id, synced, Synced, sync,
}

module _ {Db : Type 0} (manager : EntityManager Db) where
  joined_of :
      (db : Db) (parents : SyncCollection) (column : Text) (test : SyncRow → Bool) (row : SyncRow)
      → joined manager db parents column test row ≡ true
      → (id : Text) × (parent : SyncRow) × (text_of (field_of row.columns column) ≡ some id)
        × (manager.find_one db parents id ≡ some parent)
        × (test parent ≡ true)
  joined_of db parents column test row h =
      elim (Option-cases (text_of (field_of row.columns column))) [
        | inl e ↦ absurd (ground arith)
        | inr (id, e) ↦ elim (Option-cases (manager.find_one db parents id)) [
          | inl f ↦ absurd (ground arith)
          | inr (parent, f) ↦ (id, parent, e, f, ground arith)
        ]
      ]

  of_joined :
      (db : Db) (parents : SyncCollection) (column : Text) (test : SyncRow → Bool) (row : SyncRow)
      (id : Text) (parent : SyncRow)
      → text_of (field_of row.columns column) ≡ some id
      → manager.find_one db parents id ≡ some parent
      → test parent ≡ true
      → joined manager db parents column test row ≡ true
  of_joined db parents column test row id parent e f t = ground arith

  pub loaded :
      (e : SyncCollection) (db : Db) (id org : Text) (row : SyncRow)
      → load manager e db id org ≡ some row
      → (manager.find_one db e id ≡ some row) × (in_org manager e db org row ≡ true)
  unfolding load
  loaded e db id org row h = elim (Option-cases (manager.find_one db e id)) [
    | inl none_there ↦ absurd (ground arith)
    | inr (found, there) ↦ elim (Bool-cases (in_org manager e db org found)) [
      | inl own ↦
          let same : found ≡ row = ground arith in
          (there ∙ ap some same, subst (λ r. in_org manager e db org r ≡ true) same own)
      | inr foreign ↦ absurd (ground arith)
    ]
  ]

  load_of :
      (e : SyncCollection) (db : Db) (id org : Text) (row : SyncRow)
      → manager.find_one db e id ≡ some row
      → in_org manager e db org row ≡ true
      → load manager e db id org ≡ some row
  unfolding load
  load_of e db id org row there own = ground arith

  board-owner :
      (org other : Text) (row : SyncRow)
      → board_in_org manager org row ≡ true
      → board_in_org manager other row ≡ true
      → org ≡ other
  board-owner org other row p q =
      elim (Option-cases (text_of (field_of row.columns (codes "orgId")))) [
        | inl e ↦ absurd (ground arith)
        | inr (owner, e) ↦ ground (arith, text_eq_iff owner org, text_eq_iff owner other)
      ]

  joined-owner :
      (db : Db) (parents : SyncCollection) (column : Text) (test other : SyncRow → Bool)
      (row : SyncRow) (P : Type 0)
      → ((parent : SyncRow) → test parent ≡ true → other parent ≡ true → P)
      → joined manager db parents column test row ≡ true
      → joined manager db parents column other row ≡ true
      → P
  joined-owner db parents column test other row P both p q =
      let (id, parent, e, f, t) = joined_of db parents column test row p in
      let (id', parent', e', f', t') = joined_of db parents column other row q in
      let same_id : id' ≡ id = cc in
      let same_parent : parent' ≡ parent = cc in
      both parent t (subst (λ r. other r ≡ true) same_parent t')

  -- A row belongs to one organisation.
  pub in_org-owner :
      (e : SyncCollection) (db : Db) (org other : Text) (row : SyncRow)
      → in_org manager e db org row ≡ true
      → in_org manager e db other row ≡ true
      → org ≡ other
  unfolding in_org
  in_org-owner boards db org other row p q = board-owner org other row p q
  in_org-owner lists db org other row p q =
      joined-owner db boards (codes "boardId") (board_in_org manager org)
        (board_in_org manager other) row (org ≡ other) (board-owner org other) p q
  in_org-owner cards db org other row p q =
      joined-owner db lists (codes "listId")
        (joined manager db boards (codes "boardId") (board_in_org manager org))
        (joined manager db boards (codes "boardId") (board_in_org manager other)) row (org ≡ other)
        (λ parent.
          joined-owner db boards (codes "boardId") (board_in_org manager org)
            (board_in_org manager other) parent (org ≡ other) (board-owner org other))
        p q

  -- Every row that an organisation reads before, it reads unchanged after.
  abbrev pub Keeps : Text → Db → Db → Type 0
  Keeps org db db' =
      (e : SyncCollection) (id : Text) (row : SyncRow)
      → load manager e db id org ≡ some row
      → load manager e db' id org ≡ some row

  module _ (org : Text) (db db' : Db)
      (stays : (e : SyncCollection) (id : Text) (row : SyncRow)
        → load manager e db id org ≡ some row
        → manager.find_one db' e id ≡ some row) where
    list-stays :
        (row : SyncRow)
        → in_org manager lists db org row ≡ true
        → in_org manager lists db' org row ≡ true
    unfolding in_org
    list-stays row own =
        let (id, parent, e, f, t) =
          joined_of db boards (codes "boardId") (board_in_org manager org) row own in
        of_joined db' boards (codes "boardId") (board_in_org manager org) row id parent e
          (stays boards id parent (load_of boards db id org parent f t)) t

    in_org-stays :
        (e : SyncCollection) (row : SyncRow)
        → in_org manager e db org row ≡ true
        → in_org manager e db' org row ≡ true
    unfolding in_org
    in_org-stays boards row own = own
    in_org-stays lists row own = list-stays row own
    in_org-stays cards row own =
        let (id, parent, e, f, t) = joined_of db lists (codes "listId") _ row own in
        of_joined db' lists (codes "listId") _ row id parent e
          (stays lists id parent (load_of lists db id org parent f t)) (list-stays parent t)

    pub kept_by : Keeps org db db'
    kept_by e id row h =
        let (_, own) = loaded e db id org row h in
        load_of e db' id org row (stays e id row h) (in_org-stays e row own)
