-- ===== src/Crdt/Record/Converges.antt =====
-- Convergence of `mergeRecord` (mobile/src/crdt/mergeRecord.ts): order and repetition do not count.
use flow_logix.Common.{
  ◌≡◌, refl, sym, ap, ◌∙◌, subst, Option, none, some, List, [], ◌∷◌, Memᴰ, Text, for_each,
  joined_same_items, All,
}
use flow_logix.Crdt.Join.{
  join, join_comm, join_assoc, join_idem, later, later_comm, later_assoc, later_idem,
}
use flow_logix.Crdt.Record.{VersionedRecord, MergeResult, merges, different_records, merge_record}
use flow_logix.Crdt.Record.View.{view, writer, IsStamped, SameView}
use flow_logix.Crdt.Record.Refines.{merge_record-Refines}

-- A replica that merges the records of a list into its own, one after another; `none` is a throw.
pub receive : VersionedRecord → List VersionedRecord → Option VersionedRecord
receive l [] = some l
receive l (r ∷ rs) = elim (merge_record l r) [
  | merges m ↦ receive m.merged rs
  | different_records ↦ none
]

-- What the records of a delivery have: the replica's id, and no clock without its field.
abbrev pub IsDelivery : Text → List VersionedRecord → Type 0
IsDelivery id = All (λ r. (r.id ≡ id) × IsStamped r)

-- The replica after a delivery, in the abstract view.
pub record Received (l : VersionedRecord) (rs : List VersionedRecord) (a : VersionedRecord)
    : Type 0 where
  pub same_id : a.id ≡ l.id
  pub fields_joined :
      (key : Text) → view a key ≡ for_each (λ s r. join s (view r key)) (view l key) rs
  pub deletion_joined : a.deleted_at ≡ for_each (λ s r. later s r.deleted_at) l.deleted_at rs
  pub writer_joined : writer a ≡ for_each (λ s r. join s (writer r)) (writer l) rs

receive-step :
    (l r : VersionedRecord) (rs : List VersionedRecord) (m : MergeResult)
    → merge_record l r ≡ merges m
    → receive l (r ∷ rs) ≡ receive m.merged rs
unfolding receive
receive-step l r rs m merged = rw (merged, receive)

receive-Received :
    (l : VersionedRecord) (rs : List VersionedRecord)
    → IsStamped l
    → IsDelivery l.id rs
    → (a : VersionedRecord) × (receive l rs ≡ some a) × Received l rs a
unfolding receive
receive-Received l [] sl d = (
  l,
  refl,
  record {
    same_id = refl;
    fields_joined = λ key. refl;
    deletion_joined = refl;
    writer_joined = refl;
  },
)
receive-Received l (r ∷ rs) sl ((same, sr), d) =
    let (m, merged, step) = merge_record-Refines l r (sym same) sl sr in
    let (a, answer, rest) =
      receive-Received m.merged rs step.stamped
        (subst (λ t. IsDelivery t rs) (sym step.same_id) d) in
    (
      a,
      receive-step l r rs m merged ∙ answer,
      record {
        same_id = rest.same_id ∙ step.same_id;
        fields_joined = λ key.
            rest.fields_joined key
            ∙ ap (λ t. for_each (λ s q. join s (view q key)) t rs) (step.fields_joined key);
        deletion_joined =
            rest.deletion_joined
            ∙ ap (λ t. for_each (λ s q. later s q.deleted_at) t rs) step.deletion_joined;
        writer_joined =
            rest.writer_joined
            ∙ ap (λ t. for_each (λ s q. join s (writer q)) t rs) step.writer_joined;
      },
    )

-- Replicas that start from one record and receive the same records, in any order and with any
-- repetitions, all succeed and show the same fields, deletion stamp and last writer, if the records
-- have the replica's id and no clock without its field.
pub receive-converges :
    (l : VersionedRecord) (xs ys : List VersionedRecord)
    → IsStamped l
    → IsDelivery l.id xs
    → IsDelivery l.id ys
    → ((r : VersionedRecord) → Memᴰ r xs → Memᴰ r ys)
    → ((r : VersionedRecord) → Memᴰ r ys → Memᴰ r xs)
    → (a b : VersionedRecord) × (receive l xs ≡ some a) × (receive l ys ≡ some b) × SameView a b
receive-converges l xs ys sl dx dy to from =
    let (a, got_a, ra) = receive-Received l xs sl dx in
    let (b, got_b, rb) = receive-Received l ys sl dy in
    (
      a,
      b,
      got_a,
      got_b,
      record {
        same_fields = λ key.
            ra.fields_joined key
            ∙ joined_same_items join join_comm join_assoc join_idem (λ r. view r key) (view l key)
                xs ys to from
            ∙ sym (rb.fields_joined key);
        same_deletion =
            ra.deletion_joined
            ∙ joined_same_items later later_comm later_assoc later_idem (λ r. r.deleted_at)
                l.deleted_at xs ys to from
            ∙ sym rb.deletion_joined;
        same_writer =
            ra.writer_joined
            ∙ joined_same_items join join_comm join_assoc join_idem writer (writer l) xs ys to from
            ∙ sym rb.writer_joined;
      },
    )

-- Two replicas that merge each other's record show the same record, if neither has a clock without
-- its field.
pub merge_record_comm :
    (l r : VersionedRecord)
    → l.id ≡ r.id
    → IsStamped l
    → IsStamped r
    → (m n : MergeResult) × (merge_record l r ≡ merges m)
      × (merge_record r l ≡ merges n)
      × SameView m.merged n.merged
merge_record_comm l r same sl sr =
    let (m, got_m, rm) = merge_record-Refines l r same sl sr in
    let (n, got_n, rn) = merge_record-Refines r l (sym same) sr sl in
    (
      m,
      n,
      got_m,
      got_n,
      record {
        same_fields = λ key.
            rm.fields_joined key ∙ join_comm (view l key) (view r key) ∙ sym (rn.fields_joined key);
        same_deletion =
            rm.deletion_joined ∙ later_comm l.deleted_at r.deleted_at ∙ sym rn.deletion_joined;
        same_writer = rm.writer_joined ∙ join_comm (writer l) (writer r) ∙ sym rn.writer_joined;
      },
    )
