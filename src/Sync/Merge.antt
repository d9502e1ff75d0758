-- ===== src/Sync/Merge.antt =====
-- backend/src/sync/sync-merge.ts: the field-level merge of the server.
pub mod Agrees
pub mod Replay
pub mod Flags
pub mod Winners
use flow_logix.Common.{
  ℕ, ◌≡◌, Bool, true, false, Option, none, some, List, [], ◌∷◌, Text, text_eq, text_le, Ordering,
  ltb, leb, ◌==◌, not, any, ◌||◌, if◌then◌else◌, get_or_else, put, keys, add_all, for_each,
}
use flow_logix.Crdt.Json.{Json, compare_values}
use flow_logix.Crdt.Record.{Fields, FieldClocks, clock_of, field_of, max_clock, stamps_differ}

pub record RecordState : Type 0 where
  pub fields : Fields
  pub clocks : FieldClocks
  pub node_id : Option Text
  pub deleted_at : Option ℕ

pub data FieldWinner : Type 0 where
  server client equal : FieldWinner

pub record ServerMergeResult : Type 0 where
  pub merged : RecordState
  pub report : List (Text × FieldWinner)
  pub server_changed : Bool
  pub client_accepted : Bool
  pub server_ahead : Bool

-- `Math.max(0, ...Object.values(record.clocks))`
unfoldable pub newest_clock : RecordState → ℕ
newest_clock r = max_clock r.clocks (keys r.clocks)

unfoldable pub is_deleted : RecordState → Bool
is_deleted r = elim r.deleted_at [ none ↦ false | some stamp ↦ leb (newest_clock r) stamp ]

unfoldable pub pick_field : ℕ → Json → ℕ → Json → FieldWinner
unfolding compare_values
pick_field s_clock s_value c_clock c_value =
    if not (s_clock == c_clock)
    then (if ltb c_clock s_clock then server else client)
    else (elim (compare_values s_value c_value) [
      | Ordering.eq ↦ equal
      | Ordering.gt ↦ server
      | Ordering.lt ↦ client
    ])

unfoldable pub merge_tombstone : Option ℕ → Option ℕ → Option ℕ
merge_tombstone s c =
    if get_or_else s 0 == get_or_else c 0
    then (elim s [ none ↦ c | some stamp ↦ some stamp ])
    else (if ltb (get_or_else c 0) (get_or_else s 0) then s else c)

unfoldable pub newest_node : RecordState → RecordState → Option Text
newest_node s c =
    if not (newest_clock s == newest_clock c)
    then (if ltb (newest_clock c) (newest_clock s) then s.node_id else c.node_id)
    else (if text_le (get_or_else c.node_id []) (get_or_else s.node_id [])
        then s.node_id
        else c.node_id)

-- `(server.clocks[key] ?? 0) > (client.clocks[key] ?? 0)`
abbrev pub newer_at : RecordState → RecordState → Text → Bool
newer_at s c key = ltb (clock_of c.clocks key) (clock_of s.clocks key)

unfoldable pub is_server_ahead : RecordState → RecordState → Bool
is_server_ahead s c =
    any (newer_at s c) (keys s.fields)
    || ltb (get_or_else c.deleted_at 0) (get_or_else s.deleted_at 0)

-- The variables of the loop over the keys.
pub record Merging : Type 0 where
  pub fields : Fields
  pub clocks : FieldClocks
  pub report : List (Text × FieldWinner)
  pub server_changed : Bool
  pub client_accepted : Bool

abbrev pub nothing_merged : Merging
nothing_merged = record {
  fields = [];
  clocks = [];
  report = [];
  server_changed = false;
  client_accepted = false;
}

module _ (s c : RecordState) where
  unfoldable pub winner_of : Text → FieldWinner
  winner_of key =
      pick_field (clock_of s.clocks key) (field_of s.fields key) (clock_of c.clocks key)
        (field_of c.fields key)

  -- One round of the loop.
  unfoldable pub merge_key : Merging → Text → Merging
  merge_key m key = elim (winner_of key) [
    | client ↦ record {
      fields = put key (field_of c.fields key) m.fields;
      clocks = put key (clock_of c.clocks key) m.clocks;
      report = put key (winner_of key) m.report;
      server_changed = true;
      client_accepted = true;
    }
    | _ ↦ record m {
      fields = put key (field_of s.fields key) m.fields;
      clocks = put key (clock_of s.clocks key) m.clocks;
      report = put key (winner_of key) m.report;
    }
  ]

  abbrev pub all_keys : List Text
  all_keys = add_all (add_all [] (keys s.fields)) (keys c.fields)

  unfoldable pub merge_keys : Merging
  merge_keys = for_each merge_key nothing_merged all_keys

  unfoldable pub merge_server_record : ServerMergeResult
  merge_server_record =
      let deleted_at = merge_tombstone s.deleted_at c.deleted_at in
      record {
        merged = record {
          fields = merge_keys.fields;
          clocks = merge_keys.clocks;
          node_id = newest_node s c;
          deleted_at = deleted_at;
        };
        report = merge_keys.report;
        server_changed = stamps_differ deleted_at s.deleted_at || merge_keys.server_changed;
        client_accepted =
            ltb (get_or_else s.deleted_at 0) (get_or_else c.deleted_at 0)
            || merge_keys.client_accepted;
        server_ahead = is_server_ahead s c;
      }
