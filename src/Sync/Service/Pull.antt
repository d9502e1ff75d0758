-- ===== src/Sync/Service/Pull.antt =====
-- The delta-pull of backend/src/sync/sync.service.ts reads enough rows.
use flow_logix.Common.{
  ℕ, zero, suc, ◌+◌, ◌<◌, ◌≡◌, refl, ap, ◌∙◌, Bool, true, not, ◌&&◌, List, [], ◌∷◌, Text, keep,
  contains, distinct, length, take, map, arith, Bool-cases, inl, inr, take-keep-take, key_list,
  distinct-key_list-keep, length-keep-contains,
}
use flow_logix.Sync.Store.{SyncCollection, SyncRow, EntityManager}
use flow_logix.Sync.Strategies.{in_org}
use flow_logix.Sync.Service.{is_newer, id_of, pulled, collect, pull_since_checkpoint}
use flow_logix.Ordering.Indexer.{Indexer}

module _ {Db : Type 0} (manager : EntityManager Db) (positions : Indexer) (org : Text) where
  -- Whether the response covers a row already.
  abbrev covered : List Text → SyncRow → Bool
  covered excluded row = contains (id_of row) excluded

  -- The rows of the organisation that are newer than the checkpoint, by id.
  abbrev pub newer_rows : SyncCollection → Db → ℕ → List SyncRow
  newer_rows e db cp =
      keep (λ row. in_org manager e db org row && is_newer cp row) (manager.find_all db e)

  -- The first `limit` of the newer rows that the response does not cover.
  abbrev pub owed : SyncCollection → Db → ℕ → List Text → ℕ → List SyncRow
  owed e db cp excluded limit =
      take limit (keep (λ row. not (covered excluded row)) (newer_rows e db cp))

  collect-take :
      (e : SyncCollection) (excluded : List Text) (limit count left : ℕ) (rows : List SyncRow)
      → count + suc left ≡ limit
      → collect e excluded limit count rows
        ≡ map (pulled e) (take (suc left) (keep (λ row. not (covered excluded row)) rows))
  unfolding collect
  collect-take e excluded limit count left [] h = refl
  collect-take e excluded limit count zero (row ∷ rows) h =
      elim (Bool-cases (covered excluded row)) [
        | inl skipped ↦ ground (arith, collect-take e excluded limit count zero rows h)
        | inr sent ↦ ground arith
      ]
  collect-take e excluded limit count (suc left) (row ∷ rows) h =
      elim (Bool-cases (covered excluded row)) [
        | inl skipped ↦ ground (arith, collect-take e excluded limit count (suc left) rows h)
        | inr sent ↦
            ground (arith, collect-take e excluded limit (count + 1) left rows (omega arith))
      ]

  -- For a table whose rows have different ids and a positive limit, the delta-pull answers with
  -- the rows of the organisation that are newer than the checkpoint and not yet covered by the
  -- response: all of them if they are at most `limit`, and else the first `limit` by id. The
  -- window that its query reads is wide enough for that.
  pub pull_since_checkpoint_complete :
      (e : SyncCollection) (db : Db) (cp : ℕ) (excluded : List Text) (limit : ℕ)
      → distinct (key_list id_of (manager.find_all db e)) ≡ true
      → 0 < limit
      → pull_since_checkpoint manager positions org e db cp excluded limit
        ≡ map (pulled e) (owed e db cp excluded limit)
  unfolding pull_since_checkpoint
  pull_since_checkpoint_complete e db cp excluded zero unique positive = absurd (omega arith)
  pull_since_checkpoint_complete e db cp excluded (suc l) unique positive =
      collect-take e excluded (suc l) 0 l (take (suc l + length excluded) (newer_rows e db cp))
        (omega arith)
      ∙ ap (map (pulled e)) (
          take-keep-take (covered excluded) (suc l) (length excluded) (suc l + length excluded)
            (newer_rows e db cp) refl
            (length-keep-contains id_of excluded (newer_rows e db cp)
              (distinct-key_list-keep id_of _ (manager.find_all db e) unique)))
