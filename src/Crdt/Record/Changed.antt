-- ===== src/Crdt/Record/Changed.antt =====
-- The flag `changed` of `mergeRecord` (mobile/src/crdt/mergeRecord.ts).
use flow_logix.Common.{
  ℕ, ◌≡◌, ◌↔◌, refl, sym, ap, ◌∙◌, Bool, true, false, Option, none, some, Text, text_eq_iff, arith,
  cmp_refl, contains, any, ◌≤◌, keys, any-eq-false, any-eq-false_of_contains, flag-for_each, inl,
  inr, Bool-cases, ◌||◌,
}
use flow_logix.Crdt.Json.{canonical, compare_values}
use flow_logix.Crdt.Register.{MergeOutcome, remote}
use flow_logix.Crdt.Record.{
  VersionedRecord, field_of, pick_field, max_clock, Merging, MergeResult, merges, winner_of,
  merge_key, merge_keys, nothing_merged, merge_record, merge_result, stamps_differ, newest_node,
  merge_deletion, max_field_clock,
}
use flow_logix.Crdt.Record.View.{view, IsStamped, SameView, clock-le-max_clock, max_clock-le}
use flow_logix.Crdt.Record.Refines.{
  all_keys, chosen_field, chosen_clock, contains-all_keys, lookup-merged_fields,
  lookup-merged_clocks, merged_fields_record,
}

abbrev is_remote : MergeOutcome → Bool
is_remote remote = true
is_remote _ = false

pub stamps_same : (a b : Option ℕ) → stamps_differ a b ≡ false → a ≡ b
stamps_same none none h = refl
stamps_same none (some b) h = absurd (cc)
stamps_same (some a) none h = absurd (cc)
stamps_same (some a) (some b) h = ap some (ground arith)

pub stamps-same_of : (a b : Option ℕ) → a ≡ b → stamps_differ a b ≡ false
stamps-same_of none none h = refl
stamps-same_of none (some b) h = cc
stamps-same_of (some a) none h = cc
stamps-same_of (some a) (some b) h = ground arith

module _ (l r : VersionedRecord) where
  remote_wins : Text → Bool
  remote_wins key = is_remote (winner_of l r key)

  merge_key-changed :
      (s : Merging) (key : Text) → (merge_key l r s key).changed ≡ (remote_wins key || s.changed)
  unfolding merge_key remote_wins
  merge_key-changed s key = ground arith

  merge_keys-changed : (merge_keys l r).changed ≡ any remote_wins (all_keys l r)
  unfolding merge_keys all_keys
  merge_keys-changed =
      flag-for_each (λ s. s.changed) (merge_key l r) remote_wins merge_key-changed nothing_merged
        (all_keys l r)
      ∙ ground arith

  view_unchanged :
      (key : Text)
      → IsStamped l
      → (merge_keys l r).changed ≡ false
      → view (merged_fields_record l r) key ≡ view l key
  unfolding chosen_field chosen_clock
  view_unchanged key sl h = elim (Bool-cases (contains key (all_keys l r))) [
    | inl visited ↦
        let kept : remote_wins key ≡ false =
          any-eq-false_of_contains remote_wins key (all_keys l r) (sym merge_keys-changed ∙ h)
            visited in
        unfold remote_wins in
        ground (arith, lookup-merged_fields l r key, lookup-merged_clocks l r key, kept)
    | inr unseen ↦ ground (
      arith,
      lookup-merged_fields l r key,
      lookup-merged_clocks l r key,
      contains-all_keys l r key,
      sl key,
    )
  ]

  unchanged_of_view :
      ((key : Text) → view (merged_fields_record l r) key ≡ view l key)
      → (merge_keys l r).changed ≡ false
  unchanged_of_view same =
      merge_keys-changed
      ∙ any-eq-false remote_wins (all_keys l r) (λ key visited. loses key visited)
    where
      loses : (key : Text) → contains key (all_keys l r) ≡ true → remote_wins key ≡ false
      loses key visited =
          unfold remote_wins chosen_field chosen_clock winner_of pick_field compare_values in
          ground (
            arith,
            lookup-merged_fields l r key,
            lookup-merged_clocks l r key,
            same key,
            cmp_refl (canonical (field_of l.fields key)),
          )

module _ (l r : VersionedRecord) where
  SameView-of_unchanged :
      IsStamped l → (merge_result l r).changed ≡ false → SameView (merge_result l r).merged l
  unfolding merge_result max_field_clock
  SameView-of_unchanged sl quiet = record {
    same_fields = λ key. same_fields' key;
    same_deletion =
        stamps_same (merge_deletion l.deleted_at r.deleted_at) l.deleted_at (ground arith);
    same_writer = λ i. (same_clock i, same_node i);
  }
    where
      same_fields' : (key : Text) → view (merged_fields_record l r) key ≡ view l key
      same_fields' key = view_unchanged l r key sl (ground arith)

      at_most :
          max_clock (merge_keys l r).clocks (keys (merge_keys l r).clocks)
          ≤ max_clock l.clocks (keys l.clocks)
      at_most =
          max_clock-le (merge_keys l r).clocks _ _ (λ key.
            omega (arith, ap (λ t. t.0) (same_fields' key), clock-le-max_clock l.clocks key))

      at_least :
          max_clock l.clocks (keys l.clocks)
          ≤ max_clock (merge_keys l r).clocks (keys (merge_keys l r).clocks)
      at_least = max_clock-le l.clocks _ _ (λ key.
          omega (
            arith,
            ap (λ t. t.0) (same_fields' key),
            clock-le-max_clock (merge_keys l r).clocks key,
          ))

      same_clock : max_field_clock (merge_result l r).merged ≡ max_field_clock l
      same_clock = omega (arith, at_most, at_least)

      same_node : newest_node l r ≡ l.node_id
      same_node = (text_eq_iff (newest_node l r) l.node_id).0 (ground arith)

  unchanged_of_SameView : SameView (merge_result l r).merged l → (merge_result l r).changed ≡ false
  unfolding merge_result
  unchanged_of_SameView same = ground (
    arith,
    unchanged_of_view l r same.same_fields,
    stamps-same_of (merge_deletion l.deleted_at r.deleted_at) l.deleted_at same.same_deletion,
    (text_eq_iff (newest_node l r) l.node_id).1 (ap (λ t. t.1) same.same_writer),
  )

-- `mergeRecord` reports no change exactly when the merged record shows what the local record showed:
-- every field, the deletion stamp and the last writer, if the records are of one id and the local
-- record has no clock without its field.
pub merge_record-changed_iff :
    (l r : VersionedRecord)
    → l.id ≡ r.id
    → IsStamped l
    → (m : MergeResult) × (merge_record l r ≡ merges m)
      × ((m.changed ≡ false) ↔ SameView m.merged l)
unfolding merge_record
merge_record-changed_iff l r same sl = (
  merge_result l r,
  ground (arith, same, text_eq_iff l.id r.id),
  (SameView-of_unchanged l r sl, unchanged_of_SameView l r),
)
