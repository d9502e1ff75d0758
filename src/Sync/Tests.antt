-- ===== src/Sync/Tests.antt =====
-- Runs of the server's merge and of the web reads' visibility at concrete inputs.
use flow_logix.Common.{
  ℕ, ◌≡◌, ◌↔◌, refl, true, none, some, [], ◌∷◌, Text, codes, cmp, get_or_else, arith,
}
use flow_logix.Crdt.Json.{string}
use flow_logix.Crdt.Record
use flow_logix.Crdt.Record.{VersionedRecord, clock_of, MergeResult, merges, merge_record}
use flow_logix.Crdt.Record.View.{IsStamped, SameView}
use flow_logix.Sync.Merge.{RecordState, merge_server_record, is_server_ahead}
use flow_logix.Sync.Merge.Agrees.{
  as_record, merge_server_record-eq-merge_record, merge_server_record-converges,
}
use flow_logix.Sync.Merge.Flags.{server_ahead-clocks}
use flow_logix.Sync.Merge.Replay.{merge_server_record_idem}
use flow_logix.Sync.Visibility.{row, is_sync_deleted, is_sync_deleted_iff}

abbrev state : Text → ℕ → RecordState
state title at = record {
  fields = (codes "title", string title) ∷ [];
  clocks = (codes "title", at) ∷ [];
  node_id = some (codes "phone");
  deleted_at = none;
}

abbrev stored : RecordState
stored = state (codes "Plan") 5

abbrev sent : RecordState
sent = state (codes "Ship") 7

abbrev card_id : Text
card_id = codes "c1"

state-IsStamped : (title : Text) (at : ℕ) → IsStamped (as_record card_id (state title at))
state-IsStamped title at key absent = ground arith

server_as_phone :
    (m : MergeResult) × (merge_record (as_record card_id stored) (as_record card_id sent)
      ≡ merges m)
    × (as_record card_id (merge_server_record stored sent).merged ≡ m.merged)
server_as_phone = merge_server_record-eq-merge_record card_id stored sent

server_and_phone :
    (n : MergeResult) × (merge_record (as_record card_id sent) (as_record card_id stored)
      ≡ merges n)
    × SameView (as_record card_id (merge_server_record stored sent).merged) n.merged
server_and_phone =
    merge_server_record-converges card_id stored sent (state-IsStamped (codes "Plan") 5)
      (state-IsStamped (codes "Ship") 7)

sent_again :
    let first = (merge_server_record stored sent).merged in
    SameView (as_record card_id (merge_server_record first sent).merged) (as_record card_id first)
sent_again =
    merge_server_record_idem card_id stored sent (state-IsStamped (codes "Plan") 5)
      (state-IsStamped (codes "Ship") 7)

abbrev deleted_card : VersionedRecord
deleted_card = record (as_record card_id stored) { deleted_at = some 6 }

same_card : SameView deleted_card deleted_card
same_card = record { same_fields = λ key. refl; same_deletion = refl; same_writer = refl }

hidden_everywhere :
    (is_sync_deleted (row deleted_card) ≡ true) ↔ (Record.is_deleted deleted_card ≡ true)
hidden_everywhere = is_sync_deleted_iff deleted_card deleted_card same_card refl

nothing_to_echo :
    ((key : Text)
      → clock_of (merge_server_record stored sent).merged.clocks key ≡ clock_of sent.clocks key)
    × (get_or_else (merge_server_record stored sent).merged.deleted_at 0
        ≡ get_or_else sent.deleted_at 0)
unfolding merge_server_record is_server_ahead cmp
nothing_to_echo =
    server_ahead-clocks card_id stored sent (state-IsStamped (codes "Plan") 5)
      (state-IsStamped (codes "Ship") 7) refl
