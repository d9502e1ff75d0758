-- ===== src/Sync/Merge/Flags.antt =====
-- What the flag `serverAhead` of `mergeServerRecord` promises (backend/src/sync/sync-merge.ts).
use flow_logix.Common.{
  ◌≡◌, ◌≤◌, ap, false, Text, arith, any-eq-false_of_contains, contains, contains-keys, keys,
  get_or_else, inl, inr, Bool-cases,
}
use flow_logix.Crdt.Record.{clock_of}
use flow_logix.Crdt.Join.{later}
use flow_logix.Crdt.Record.View.{IsStamped, view}
use flow_logix.Crdt.Record.Refines.{join-clock}
use flow_logix.Sync.Merge.{RecordState, newer_at, is_server_ahead, merge_server_record}
use flow_logix.Sync.Merge.Agrees.{as_record}
use flow_logix.Sync.Merge.Replay.{server-Refines}

no_newer_field :
    (s c : RecordState) (id key : Text)
    → IsStamped (as_record id s)
    → is_server_ahead s c ≡ false
    → clock_of s.clocks key ≤ clock_of c.clocks key
unfolding is_server_ahead
no_newer_field s c id key ss h = elim (Bool-cases (contains key (keys s.fields))) [
  | inl seen ↦
      let level : newer_at s c key ≡ false =
        any-eq-false_of_contains (newer_at s c) key (keys s.fields) (ground arith) seen in
      ground arith
  | inr unseen ↦ ground (arith, contains-keys key s.fields, ss key)
]

-- If the server does not hold itself ahead of a client, and so echoes nothing, then the clocks of
-- the merged record are the client's in every field, and so is its deletion stamp, counted as 0
-- where there is none; neither record may have a clock without its field.
pub server_ahead-clocks :
    (id : Text) (s c : RecordState)
    → IsStamped (as_record id s)
    → IsStamped (as_record id c)
    → (merge_server_record s c).server_ahead ≡ false
    → ((key : Text) → clock_of (merge_server_record s c).merged.clocks key ≡ clock_of c.clocks key)
      × (get_or_else (merge_server_record s c).merged.deleted_at 0 ≡ get_or_else c.deleted_at 0)
server_ahead-clocks id s c ss sc h =
    let f = server-Refines id s c ss sc in
    let behind : is_server_ahead s c ≡ false = unfold merge_server_record in h in
    (
      λ key. omega (
        arith,
        ap (λ t. t.0) (f.fields_joined key),
        join-clock (view (as_record id s) key) (view (as_record id c) key),
        no_newer_field s c id key ss behind,
      ),
      unfold is_server_ahead later in ground (arith, behind, f.deletion_joined),
    )
