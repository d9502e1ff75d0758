-- ===== src/Crdt/Record.antt =====
-- mobile/src/crdt/mergeRecord.ts and the record type of mobile/src/crdt/types.ts. Clocks are
-- epoch microseconds and so natural numbers.
pub mod View
pub mod Refines
pub mod Converges
pub mod Changed
use flow_logix.Common.{
  ℕ, zero, suc, ◌≡◌, Bool, true, false, Option, none, some, List, [], ◌∷◌, Text, text_eq, text_lt,
  text_le, Ordering, ltb, leb, ◌==◌, not, max, ◌&&◌, ◌||◌, if◌then◌else◌, get_or_else, is_some,
  lookup, put, keys, add_all, for_each,
}
use flow_logix.Crdt.Json.{Json, undefined, compare_values}
use flow_logix.Crdt.Register.{MergeOutcome, local, remote, equal}

abbrev pub Fields : Type 0
Fields = List (Text × Json)

abbrev pub FieldClocks : Type 0
FieldClocks = List (Text × ℕ)

pub record VersionedRecord : Type 0 where
  pub id : Text
  pub fields : Fields
  pub clocks : FieldClocks
  pub node_id : Text
  pub deleted_at : Option ℕ

-- `clocks[key] ?? 0`
abbrev pub clock_of : FieldClocks → Text → ℕ
clock_of clocks key = get_or_else (lookup key clocks) 0

-- `fields[key]`
abbrev pub field_of : Fields → Text → Json
field_of fields key = get_or_else (lookup key fields) undefined

-- `Math.max(0, ...Object.values(clocks))`, over the keys of the object.
unfoldable pub max_clock : FieldClocks → List Text → ℕ
max_clock clocks [] = 0
max_clock clocks (k ∷ ks) = max (clock_of clocks k) (max_clock clocks ks)

unfoldable pub max_field_clock : VersionedRecord → ℕ
max_field_clock record' = max_clock record'.clocks (keys record'.clocks)

unfoldable pub is_deleted : VersionedRecord → Bool
is_deleted r = elim r.deleted_at [ none ↦ false | some stamp ↦ leb (max_field_clock r) stamp ]

unfoldable pub pick_field : ℕ → Json → ℕ → Json → MergeOutcome
unfolding compare_values
pick_field l_clock l_value r_clock r_value =
    if not (l_clock == r_clock)
    then (if ltb r_clock l_clock then local else remote)
    else (elim (compare_values l_value r_value) [
      | Ordering.eq ↦ equal
      | Ordering.gt ↦ local
      | Ordering.lt ↦ remote
    ])

-- Helper `mergeDeletion`: on a tie `local.deletedAt ?? remote.deletedAt`.
unfoldable pub merge_deletion : Option ℕ → Option ℕ → Option ℕ
merge_deletion l r =
    if get_or_else l 0 == get_or_else r 0
    then (elim l [ none ↦ r | some stamp ↦ some stamp ])
    else (if ltb (get_or_else r 0) (get_or_else l 0) then l else r)

unfoldable pub newest_node : VersionedRecord → VersionedRecord → Text
newest_node l r =
    if not (max_field_clock l == max_field_clock r)
    then (if ltb (max_field_clock r) (max_field_clock l) then l.node_id else r.node_id)
    else (if text_lt r.node_id l.node_id then l.node_id else r.node_id)

-- The variables of the loop over the keys.
pub record Merging : Type 0 where
  pub fields : Fields
  pub clocks : FieldClocks
  pub report : List (Text × MergeOutcome)
  pub changed : Bool

pub record MergeResult : Type 0 where
  pub merged : VersionedRecord
  pub report : List (Text × MergeOutcome)
  pub changed : Bool

pub data MergeAnswer : Type 0 where
  merges : MergeResult → MergeAnswer
  -- `throw new Error('Cannot merge different records')`
  different_records : MergeAnswer

-- `a !== b` on deletion stamps.
abbrev pub stamps_differ : Option ℕ → Option ℕ → Bool
stamps_differ none none = false
stamps_differ none (some b) = true
stamps_differ (some a) none = true
stamps_differ (some a) (some b) = not (a == b)

-- The variables before the loop.
abbrev pub nothing_merged : Merging
nothing_merged = record { fields = []; clocks = []; report = []; changed = false }

module _ (l r : VersionedRecord) where
  unfoldable pub winner_of : Text → MergeOutcome
  winner_of key =
      pick_field (clock_of l.clocks key) (field_of l.fields key) (clock_of r.clocks key)
        (field_of r.fields key)

  -- One round of the loop.
  unfoldable pub merge_key : Merging → Text → Merging
  merge_key s key = elim (winner_of key) [
    | remote ↦ record {
      fields = put key (field_of r.fields key) s.fields;
      clocks = put key (clock_of r.clocks key) s.clocks;
      report = put key (winner_of key) s.report;
      changed = true;
    }
    | _ ↦ record {
      fields = put key (field_of l.fields key) s.fields;
      clocks = put key (clock_of l.clocks key) s.clocks;
      report = put key (winner_of key) s.report;
      changed = s.changed;
    }
  ]

  unfoldable pub merge_keys : Merging
  merge_keys =
      for_each merge_key nothing_merged (add_all (add_all [] (keys l.fields)) (keys r.fields))

  -- What `mergeRecord` returns for two records of one id.
  unfoldable pub merge_result : MergeResult
  merge_result =
      let deleted_at = merge_deletion l.deleted_at r.deleted_at in
      let node_id = newest_node l r in
      record {
        merged = record {
          id = l.id;
          fields = merge_keys.fields;
          clocks = merge_keys.clocks;
          node_id = node_id;
          deleted_at = deleted_at;
        };
        report = merge_keys.report;
        changed =
            merge_keys.changed
            || stamps_differ deleted_at l.deleted_at
            || not (text_eq node_id l.node_id);
      }

  unfoldable pub merge_record : MergeAnswer
  merge_record = if not (text_eq l.id r.id) then different_records else merges merge_result
