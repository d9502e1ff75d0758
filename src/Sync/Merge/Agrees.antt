-- ===== src/Sync/Merge/Agrees.antt =====
-- `mergeServerRecord` (backend/src/sync/sync-merge.ts) and `mergeRecord` (mobile/src/crdt) compute
-- the same record.
use flow_logix.Common.{
  ◌≡◌, refl, sym, ap, ◌∙◌, List, [], ◌∷◌, Text, arith, get_or_else, for_each, cmp-swap, eq_of_cmp,
  cmp_refl, put, subst,
}
use flow_logix.Crdt.Record
use flow_logix.Crdt.Record.{VersionedRecord, MergeResult, merges, merge_record}
use flow_logix.Crdt.Record.View.{IsStamped, SameView}
use flow_logix.Crdt.Record.Converges.{merge_record_comm}
use flow_logix.Sync.Merge.{
  RecordState, newest_clock, pick_field, merge_tombstone, newest_node, Merging, nothing_merged,
  winner_of, merge_key, all_keys, merge_keys, merge_server_record,
}

-- A server row as the record that travels: a missing node id is the empty text.
abbrev pub as_record : Text → RecordState → VersionedRecord
as_record id s = record {
  id = id;
  fields = s.fields;
  clocks = s.clocks;
  node_id = get_or_else s.node_id [];
  deleted_at = s.deleted_at;
}

module _ (id : Text) (s c : RecordState) where
  abbrev l : VersionedRecord
  l = as_record id s

  abbrev r : VersionedRecord
  r = as_record id c

  merge_key-same :
      (m : Merging) (n : Record.Merging) (key : Text)
      → m.fields ≡ n.fields
      → m.clocks ≡ n.clocks
      → ((merge_key s c m key).fields ≡ (Record.merge_key l r n key).fields)
        × ((merge_key s c m key).clocks ≡ (Record.merge_key l r n key).clocks)
  unfolding merge_key Record.merge_key winner_of Record.winner_of pick_field Record.pick_field
  merge_key-same m n key p q = (
    ground (
      arith,
      ap (put key (Record.field_of s.fields key)) p,
      ap (put key (Record.field_of c.fields key)) p,
    ),
    ground (
      arith,
      ap (put key (Record.clock_of s.clocks key)) q,
      ap (put key (Record.clock_of c.clocks key)) q,
    ),
  )

  for_each-same :
      (m : Merging) (n : Record.Merging) (ks : List Text)
      → m.fields ≡ n.fields
      → m.clocks ≡ n.clocks
      → ((for_each (merge_key s c) m ks).fields ≡ (for_each (Record.merge_key l r) n ks).fields)
        × ((for_each (merge_key s c) m ks).clocks ≡ (for_each (Record.merge_key l r) n ks).clocks)
  for_each-same m n [] p q = (p, q)
  for_each-same m n (key ∷ ks) p q =
      let (p', q') = merge_key-same m n key p q in
      for_each-same (merge_key s c m key) (Record.merge_key l r n key) ks p' q'

  tombstone-same :
      merge_tombstone s.deleted_at c.deleted_at ≡ Record.merge_deletion l.deleted_at r.deleted_at
  unfolding merge_tombstone Record.merge_deletion
  tombstone-same = refl

  newest_node-same : get_or_else (newest_node s c) [] ≡ Record.newest_node l r
  unfolding newest_node Record.newest_node newest_clock Record.max_field_clock
  newest_node-same = ground (
    arith,
    cmp-swap (get_or_else s.node_id []) (get_or_else c.node_id []),
    eq_of_cmp (get_or_else s.node_id []) (get_or_else c.node_id []),
  )

  pub merged-same : as_record id (merge_server_record s c).merged ≡ (Record.merge_result l r).merged
  unfolding merge_server_record Record.merge_result merge_keys Record.merge_keys
  merged-same =
      let (p, q) = for_each-same nothing_merged Record.nothing_merged (all_keys s c) refl refl in
      λ i. record {
        id = id;
        fields = p i;
        clocks = q i;
        node_id = newest_node-same i;
        deleted_at = tombstone-same i;
      }

-- The server's merge of a client change into its row gives the very fields, clocks, deletion stamp
-- and writer that the mobile `mergeRecord` gives with the server's row as the local record.
pub merge_server_record-eq-merge_record :
    (id : Text) (s c : RecordState)
    → (m : MergeResult) × (merge_record (as_record id s) (as_record id c) ≡ merges m)
      × (as_record id (merge_server_record s c).merged ≡ m.merged)
unfolding merge_record
merge_server_record-eq-merge_record id s c = (
  Record.merge_result (as_record id s) (as_record id c),
  ground (arith, cmp_refl id),
  merged-same id s c,
)

merges-same :
    (m' m : MergeResult) {a : VersionedRecord} → merges m' ≡ merges m → a ≡ m'.merged → m.merged ≡ a
merges-same m' m e p = sym (p ∙ merged_of e)
  where
    injective : merges m' ≡ merges m → m' ≡ m
    injective e = cc

    merged_of : merges m' ≡ merges m → m'.merged ≡ m.merged
    merged_of e = ap (λ t. t.merged) (injective e)

-- The server that merges a client's record and the client that merges the server's record show the
-- same record afterwards, if neither record has a clock without its field.
pub merge_server_record-converges :
    (id : Text) (s c : RecordState)
    → IsStamped (as_record id s)
    → IsStamped (as_record id c)
    → (n : MergeResult) × (merge_record (as_record id c) (as_record id s) ≡ merges n)
      × SameView (as_record id (merge_server_record s c).merged) n.merged
merge_server_record-converges id s c ss sc =
    let (m, n, got_m, got_n, same) =
      merge_record_comm (as_record id s) (as_record id c) refl ss sc in
    let (m', got', e) = merge_server_record-eq-merge_record id s c in
    (n, got_n, subst (λ t. SameView t n.merged) (merges-same m' m (sym got' ∙ got_m) e) same)
