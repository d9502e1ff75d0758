-- ===== src/Crdt/Record/Refines.antt =====
-- `mergeRecord` (mobile/src/crdt/mergeRecord.ts) refines the join of the views of its two records.
use flow_logix.Common.{
  ℕ, ◌≡◌, ◌≤◌, refl, sym, ap, ◌∙◌, Option, none, some, List, [], Text, text_eq_iff, arith, max,
  cmp-swap, eq_of_cmp, lookup, put, keys, contains, contains-keys, contains-add_all, add_all,
  is_some, inl, inr, Bool-cases, if◌then◌else◌, ◌||◌, lookup-for_each,
}
use flow_logix.Crdt.Json.{canonical, compare_values, Json}
use flow_logix.Crdt.Register.{remote}
use flow_logix.Crdt.Join.{Stamped, join, later, join_idem}
use flow_logix.Crdt.Record.{
  VersionedRecord, clock_of, field_of, max_clock, max_field_clock, pick_field, merge_deletion,
  newest_node, Merging, MergeResult, merges, winner_of, merge_key, merge_keys, nothing_merged,
  merge_record, merge_result,
}
use flow_logix.Crdt.Record.View.{view, writer, IsStamped, clock-le-max_clock, max_clock-le}

merge_deletion-later : (l r : Option ℕ) → merge_deletion l r ≡ later l r
unfolding merge_deletion later
merge_deletion-later none none = refl
merge_deletion-later none (some r) = ground arith
merge_deletion-later (some l) none = ground arith
merge_deletion-later (some l) (some r) = ground arith

newest_node-join : (l r : VersionedRecord) → newest_node l r ≡ (join (writer l) (writer r)).1
unfolding newest_node join
newest_node-join l r = ground (arith, cmp-swap l.node_id r.node_id, eq_of_cmp l.node_id r.node_id)

pub join-clock : (a b : Stamped) → (join a b).0 ≡ max a.0 b.0
unfolding join
join-clock (c, t) (d, u) = ground arith

module _ (l r : VersionedRecord) where
  unfoldable pub chosen_field : Text → Json
  chosen_field key = elim (winner_of l r key) [
    | remote ↦ field_of r.fields key
    | _ ↦ field_of l.fields key
  ]

  unfoldable pub chosen_clock : Text → ℕ
  chosen_clock key = elim (winner_of l r key) [
    | remote ↦ clock_of r.clocks key
    | _ ↦ clock_of l.clocks key
  ]

  unfoldable pub all_keys : List Text
  all_keys = add_all (add_all [] (keys l.fields)) (keys r.fields)

  pub contains-all_keys :
      (key : Text)
      → contains key all_keys ≡ (is_some (lookup key l.fields) || is_some (lookup key r.fields))
  unfolding all_keys
  contains-all_keys key = ground (
    arith,
    contains-add_all key (add_all [] (keys l.fields)) (keys r.fields),
    contains-add_all key [] (keys l.fields),
    contains-keys key l.fields,
    contains-keys key r.fields,
  )

  merge_key-fields :
      (s : Merging) (key : Text)
      → (merge_key l r s key).fields ≡ put key (chosen_field key) s.fields
  unfolding merge_key chosen_field
  merge_key-fields s key = ground arith

  merge_key-clocks :
      (s : Merging) (key : Text)
      → (merge_key l r s key).clocks ≡ put key (chosen_clock key) s.clocks
  unfolding merge_key chosen_clock
  merge_key-clocks s key = ground arith

  pub lookup-merged_fields :
      (key : Text)
      → lookup key (merge_keys l r).fields
        ≡ (if contains key all_keys then some (chosen_field key) else none)
  unfolding merge_keys all_keys
  lookup-merged_fields key =
      lookup-for_each (λ s. s.fields) (merge_key l r) chosen_field merge_key-fields key
        nothing_merged all_keys

  pub lookup-merged_clocks :
      (key : Text)
      → lookup key (merge_keys l r).clocks
        ≡ (if contains key all_keys then some (chosen_clock key) else none)
  unfolding merge_keys all_keys
  lookup-merged_clocks key =
      lookup-for_each (λ s. s.clocks) (merge_key l r) chosen_clock merge_key-clocks key
        nothing_merged all_keys

  -- The winner of a key is the join of the two views.
  chosen-join :
      (key : Text)
      → let chosen : Stamped = (chosen_clock key, canonical (chosen_field key)) in
        chosen ≡ join (view l key) (view r key)
  unfolding chosen_field chosen_clock winner_of pick_field compare_values join
  chosen-join key =
      ground
        (arith, eq_of_cmp (canonical (field_of l.fields key)) (canonical (field_of r.fields key)))

  abbrev pub merged_fields_record : VersionedRecord
  merged_fields_record = record l {
    fields = (merge_keys l r).fields;
    clocks = (merge_keys l r).clocks;
  }

  view-merge_keys :
      (key : Text)
      → IsStamped l
      → IsStamped r
      → view merged_fields_record key ≡ join (view l key) (view r key)
  view-merge_keys key sl sr = elim (Bool-cases (contains key all_keys)) [
    | inl visited ↦
        ground (arith, lookup-merged_fields key, lookup-merged_clocks key, chosen-join key)
    | inr unseen ↦ ground (
      arith,
      lookup-merged_fields key,
      lookup-merged_clocks key,
      contains-all_keys key,
      sl key,
      sr key,
      join_idem (view l key),
    )
  ]

  merge_keys-IsStamped : IsStamped merged_fields_record
  merge_keys-IsStamped key absent =
      ground (arith, lookup-merged_fields key, lookup-merged_clocks key)

  max_clock-merge_keys :
      IsStamped l
      → IsStamped r
      → max_field_clock merged_fields_record ≡ max (max_field_clock l) (max_field_clock r)
  unfolding max_field_clock
  max_clock-merge_keys sl sr = omega (arith, at_most, at_least_l, at_least_r)
    where
      merged_clock :
          (key : Text)
          → clock_of (merge_keys l r).clocks key
            ≡ max (clock_of l.clocks key) (clock_of r.clocks key)
      merged_clock key =
          ap (λ t. t.0) (view-merge_keys key sl sr) ∙ join-clock (view l key) (view r key)

      at_most :
          max_clock (merge_keys l r).clocks (keys (merge_keys l r).clocks)
          ≤ max (max_clock l.clocks (keys l.clocks)) (max_clock r.clocks (keys r.clocks))
      at_most = max_clock-le (merge_keys l r).clocks _ _ (λ key. omega (
        arith,
        merged_clock key,
        clock-le-max_clock l.clocks key,
        clock-le-max_clock r.clocks key,
      ))

      at_least_l :
          max_clock l.clocks (keys l.clocks)
          ≤ max_clock (merge_keys l r).clocks (keys (merge_keys l r).clocks)
      at_least_l =
          max_clock-le l.clocks _ _
            (λ key. omega (arith, merged_clock key, clock-le-max_clock (merge_keys l r).clocks key))

      at_least_r :
          max_clock r.clocks (keys r.clocks)
          ≤ max_clock (merge_keys l r).clocks (keys (merge_keys l r).clocks)
      at_least_r =
          max_clock-le r.clocks _ _
            (λ key. omega (arith, merged_clock key, clock-le-max_clock (merge_keys l r).clocks key))

max_clock-merge_result :
    (l r : VersionedRecord)
    → IsStamped l
    → IsStamped r
    → max_field_clock (merge_result l r).merged ≡ max (max_field_clock l) (max_field_clock r)
unfolding merge_result max_field_clock
max_clock-merge_result l r sl sr = max_clock-merge_keys l r sl sr

-- What the merge of `l` and `r` is, in the abstract view.
pub record Refines (l r merged : VersionedRecord) : Type 0 where
  pub same_id : merged.id ≡ l.id
  pub stamped : IsStamped merged
  pub fields_joined : (key : Text) → view merged key ≡ join (view l key) (view r key)
  pub deletion_joined : merged.deleted_at ≡ later l.deleted_at r.deleted_at
  pub writer_joined : writer merged ≡ join (writer l) (writer r)

pub merge_result-Refines :
    (l r : VersionedRecord) → IsStamped l → IsStamped r → Refines l r (merge_result l r).merged
unfolding merge_result
merge_result-Refines l r sl sr = record {
  same_id = refl;
  stamped = merge_keys-IsStamped l r;
  fields_joined = λ key. view-merge_keys l r key sl sr;
  deletion_joined = merge_deletion-later l.deleted_at r.deleted_at;
  writer_joined = λ i. (newest_clock i, newest_node-join l r i);
}
  where
    newest_clock : max_field_clock (merge_result l r).merged ≡ (join (writer l) (writer r)).0
    newest_clock = max_clock-merge_result l r sl sr ∙ sym (join-clock (writer l) (writer r))

-- `mergeRecord` on two records of the same id succeeds, and its result shows, for every field, for
-- the deletion stamp and for the last writer, the join of what the two records show, if neither
-- record has a clock without its field; the result has none either.
pub merge_record-Refines :
    (l r : VersionedRecord)
    → l.id ≡ r.id
    → IsStamped l
    → IsStamped r
    → (m : MergeResult) × (merge_record l r ≡ merges m) × Refines l r m.merged
unfolding merge_record
merge_record-Refines l r same sl sr =
    (merge_result l r, ground (arith, same, text_eq_iff l.id r.id), merge_result-Refines l r sl sr)
