-- ===== src/Sync/Merge/Replay.antt =====
-- A change that `mergeServerRecord` (backend/src/sync/sync-merge.ts) meets again.
use flow_logix.Common.{sym, ap, ◌∙◌, subst, Text}
use flow_logix.Crdt.Join.{join, join_assoc, join_idem, later, later_assoc, later_idem}
use flow_logix.Crdt.Record.{VersionedRecord}
use flow_logix.Crdt.Record.View.{IsStamped, SameView, view, writer}
use flow_logix.Crdt.Record.Refines.{Refines, merge_result-Refines}
use flow_logix.Sync.Merge.{RecordState, merge_server_record}
use flow_logix.Sync.Merge.Agrees.{as_record, merged-same}

absorbed : (l r m n : VersionedRecord) → Refines l r m → Refines m r n → SameView n m
absorbed l r m n f g = record {
  same_fields = λ key.
      g.fields_joined key
      ∙ ap (λ t. join t (view r key)) (f.fields_joined key)
      ∙ join_assoc (view l key) (view r key) (view r key)
      ∙ ap (join (view l key)) (join_idem (view r key))
      ∙ sym (f.fields_joined key);
  same_deletion =
      g.deletion_joined
      ∙ ap (λ t. later t r.deleted_at) f.deletion_joined
      ∙ later_assoc l.deleted_at r.deleted_at r.deleted_at
      ∙ ap (later l.deleted_at) (later_idem r.deleted_at)
      ∙ sym f.deletion_joined;
  same_writer =
      g.writer_joined
      ∙ ap (λ t. join t (writer r)) f.writer_joined
      ∙ join_assoc (writer l) (writer r) (writer r)
      ∙ ap (join (writer l)) (join_idem (writer r))
      ∙ sym f.writer_joined;
}

pub server-Refines :
    (id : Text) (s c : RecordState)
    → IsStamped (as_record id s)
    → IsStamped (as_record id c)
    → Refines (as_record id s) (as_record id c) (as_record id (merge_server_record s c).merged)
server-Refines id s c ss sc =
    subst (Refines (as_record id s) (as_record id c)) (sym (merged-same id s c))
      (merge_result-Refines (as_record id s) (as_record id c) ss sc)

-- A client change that the server merges a second time leaves its row as the first merge made it: in
-- every field, in its deletion and in its writer, if neither the row nor the change has a clock
-- without its field.
pub merge_server_record_idem :
    (id : Text) (s c : RecordState)
    → IsStamped (as_record id s)
    → IsStamped (as_record id c)
    → let first = (merge_server_record s c).merged in
      SameView (as_record id (merge_server_record first c).merged) (as_record id first)
merge_server_record_idem id s c ss sc =
    let first = (merge_server_record s c).merged in
    let f = server-Refines id s c ss sc in
    absorbed (as_record id s) (as_record id c) (as_record id first)
      (as_record id (merge_server_record first c).merged) f (server-Refines id first c f.stamped sc)
