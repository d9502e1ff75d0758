-- ===== src/Crdt/Tests.antt =====
-- Runs of the conflict-free types at concrete inputs.
use flow_logix.Common.{
  ℕ, ◌≡◌, ◌≢◌, ◌↔◌, ◌≤◌, ◌*◌, refl, true, false, none, some, [], ◌∷◌, Text, codes, arith, Memᴰ,
}
use flow_logix.Crdt.Json.{string}
use flow_logix.Crdt.Clock.{stamps, now, StrictlyIncreasing, stamps-StrictlyIncreasing}
use flow_logix.Crdt.Register.{
  LwwRegister, merge_register, register_wins, compare_stamps, remote, merge_register-converges,
}
use flow_logix.Crdt.ElementSet.{ElementSet, remove_bias, merge}
use flow_logix.Crdt.ElementSet.Converges.{Agree, merge-Agree}
use flow_logix.Crdt.Record.{VersionedRecord, MergeResult, merges, merge_record}
use flow_logix.Crdt.Record.View.{IsStamped, SameView}
use flow_logix.Crdt.Record.Refines.{Refines, merge_record-Refines}
use flow_logix.Crdt.Record.Converges.{receive, receive-converges, merge_record_comm}
use flow_logix.Crdt.Record.Changed.{merge_record-changed_iff}

three_stamps :
    StrictlyIncreasing 0 (stamps (1 ∷ 1 ∷ 0 ∷ []) 0)
    × ((date_now before : ℕ) → date_now * 1000 ≤ now date_now before)
three_stamps = stamps-StrictlyIncreasing (1 ∷ 1 ∷ 0 ∷ []) 0

abbrev register : ℕ → ℕ → LwwRegister ℕ
register value at = record { value = value; updated_at = at; node_id = codes "n" }

registers_converge :
    (merge_register (register 1 5) (register 2 6) ≡ merge_register (register 2 6) (register 1 5))
    × (merge_register (merge_register (register 1 5) (register 2 6)) (register 3 4)
        ≡ merge_register (register 1 5) (merge_register (register 2 6) (register 3 4)))
    × ((register_wins (register 1 5) (register 2 6) ≡ true)
        ↔ (compare_stamps 5 (codes "n") 6 (codes "n") ≢ remote))
registers_converge =
    merge_register-converges (register 1 5) (register 2 6) (register 3 4) (λ h n. ground arith)

-- A card with one field, written at a time by a node.
abbrev card : Text → ℕ → Text → VersionedRecord
card title at node = record {
  id = codes "c1";
  fields = (codes "title", string title) ∷ [];
  clocks = (codes "title", at) ∷ [];
  node_id = node;
  deleted_at = none;
}

abbrev phone : VersionedRecord
phone = card (codes "Plan") 5 (codes "phone")

abbrev tablet : VersionedRecord
tablet = card (codes "Ship") 7 (codes "tablet")

card-IsStamped : (title : Text) (at : ℕ) (node : Text) → IsStamped (card title at node)
card-IsStamped title at node key absent = ground arith

phone-IsStamped : IsStamped phone
phone-IsStamped = card-IsStamped (codes "Plan") 5 (codes "phone")

tablet-IsStamped : IsStamped tablet
tablet-IsStamped = card-IsStamped (codes "Ship") 7 (codes "tablet")

two_cards_merge :
    (m : MergeResult) × (merge_record phone tablet ≡ merges m) × Refines phone tablet m.merged
two_cards_merge = merge_record-Refines phone tablet refl phone-IsStamped tablet-IsStamped

two_cards_commute :
    (m n : MergeResult) × (merge_record phone tablet ≡ merges m)
    × (merge_record tablet phone ≡ merges n)
    × SameView m.merged n.merged
two_cards_commute = merge_record_comm phone tablet refl phone-IsStamped tablet-IsStamped

two_cards_change :
    (m : MergeResult) × (merge_record phone tablet ≡ merges m)
    × ((m.changed ≡ false) ↔ SameView m.merged phone)
two_cards_change = merge_record-changed_iff phone tablet refl phone-IsStamped

once_of_twice : (r : VersionedRecord) → Memᴰ r (tablet ∷ tablet ∷ []) → Memᴰ r (tablet ∷ [])
once_of_twice r (Memᴰ.head e) = Memᴰ.head e
once_of_twice r (Memᴰ.tail m) = m

twice_of_once : (r : VersionedRecord) → Memᴰ r (tablet ∷ []) → Memᴰ r (tablet ∷ tablet ∷ [])
twice_of_once r m = Memᴰ.tail m

delivered_twice :
    (a b : VersionedRecord) × (receive phone (tablet ∷ []) ≡ some a)
    × (receive phone (tablet ∷ tablet ∷ []) ≡ some b)
    × SameView a b
delivered_twice =
    receive-converges phone (tablet ∷ []) (tablet ∷ tablet ∷ []) phone-IsStamped
      ((refl, tablet-IsStamped), tt) ((refl, tablet-IsStamped), ((refl, tablet-IsStamped), tt))
      twice_of_once once_of_twice

abbrev assignees : Text → ℕ → ElementSet
assignees who at = record {
  adds = (who, at) ∷ [];
  removes = (codes "ada", 6) ∷ [];
  bias = remove_bias;
}

abbrev first_set : ElementSet
first_set = assignees (codes "ada") 5

abbrev second_set : ElementSet
second_set = assignees (codes "ada") 6

sets_converge :
    Agree (merge first_set second_set) (merge second_set first_set)
    × Agree
        (merge (merge first_set second_set) first_set)
        (merge first_set (merge second_set first_set))
    × Agree (merge (merge first_set second_set) second_set) (merge first_set second_set)
sets_converge =
    merge-Agree first_set second_set first_set refl (refl, refl) (refl, refl) (refl, refl)
