-- ===== src/Mobile/Tests.antt =====
-- Runs of the mobile client at concrete inputs, over a database that is an association list.
use flow_logix.Common.{
  ℕ, ◌≡◌, ◌↔◌, ◌⊎◌, ◌≢◌, ◌≤◌, refl, subst, true, Bool, Option, none, some, List, [], ◌∷◌, Text,
  codes, cmp, arith, distinct, length, max, text_eq, text_eq_iff, if◌then◌else◌, inl, inr,
  Bool-cases, min, ◌+◌, ◌*◌, ◌^◌,
}
use flow_logix.Crdt.Json.{string}
use flow_logix.Crdt.Record.{VersionedRecord}
use flow_logix.Crdt.Record.View.{IsStamped}
use flow_logix.Mobile.Ports.{LocalRecord, LocalStore, PullResult}
use flow_logix.Mobile.Engine.Applies.{AllStamped, Applies, pull_and_merge-Applies}
use flow_logix.Mobile.Engine.{Device, pull_and_merge, apply_remote}
use flow_logix.Mobile.Engine.Receives.{Received, apply_remote-Received}
use flow_logix.Mobile.Network.{
  NetInfoState, before_hydrate, update, is_suitable_for_large_upload, update-suitable,
}
use flow_logix.Mobile.Uploads.{
  NewAttachmentUpload, AttachmentUpload, defaults, start_pass, worker_count, claim_next, enqueued,
  claim, Pass, queued, failed, retried,
}
use flow_logix.Mobile.Uploads.Retries.{after_all, enqueued-requeued, enqueued-parked}
use flow_logix.Mobile.Uploads.Pool.{Works, begun, goes_on, claims, pass-apart}

abbrev Db : Type 0
Db = List LocalRecord

find : Text → Db → Option LocalRecord
find i [] = none
find i (r ∷ db) = if text_eq r.content.id i then some r else find i db

unsent : Db → List LocalRecord
unsent [] = []
unsent (r ∷ db) = let rest = unsent db in if r.pending then r ∷ rest else rest

find-id : (i : Text) (r : LocalRecord) (db : Db) → find i db ≡ some r → r.content.id ≡ i
unfolding find
find-id i r [] h = absurd (cc)
find-id i r (q ∷ db) h = elim (Bool-cases (text_eq q.content.id i)) [
  | inl here ↦
      let e : q ≡ r = ground arith in
      subst (λ t. t.content.id ≡ i) e ((text_eq_iff q.content.id i).0 here)
  | inr later ↦ find-id i r db (ground arith)
]

-- A newer version of a record hides the older ones.
abbrev store : LocalStore Db
unfolding find
store = record {
  get_by_id = find;
  get_pending = unsent;
  put_record = λ r db. r ∷ db;
  get-put = λ i r db. refl;
  get-id = find-id;
}

abbrev content : Text → ℕ → VersionedRecord
content title at = record {
  id = codes "c1";
  fields = (codes "title", string title) ∷ [];
  clocks = (codes "title", at) ∷ [];
  node_id = codes "phone";
  deleted_at = none;
}

abbrev edited : LocalRecord
edited = record { content = content (codes "Plan") 5; pending = true }

abbrev pulled : VersionedRecord
pulled = content (codes "Ship") 7

content-IsStamped : (title : Text) (at : ℕ) → IsStamped (content title at)
content-IsStamped title at key absent = ground arith

change-Received :
    (changed : Bool) × (db' : Db) × (after : LocalRecord) × (apply_remote store pulled (edited ∷ [])
      ≡ some (changed, db'))
    × (find (codes "c1") db' ≡ some after)
    × Received pulled edited after
    × ((i : Text) → i ≢ codes "c1" → find i db' ≡ find i (edited ∷ []))
unfolding find cmp
change-Received =
    apply_remote-Received store pulled (edited ∷ []) edited refl
      (content-IsStamped (codes "Plan") 5) (content-IsStamped (codes "Ship") 7)

abbrev accept_all : List VersionedRecord → List Text
accept_all changes = codes "c1" ∷ []

edit_meanwhile : Db → Db
edit_meanwhile db = record { content = content (codes "Idea") 9; pending = true } ∷ db

abbrev photo : NewAttachmentUpload
photo = record {
  id = codes "a1";
  card_id = codes "c1";
  local_uri = codes "file:///a1";
  filename = codes "a1.png";
  mime_type = codes "image/png";
  size_bytes = 9000000;
}

abbrev lost : Text
lost = codes "lost"

second_failure :
    let r = after_all defaults photo ((10, lost) ∷ []) 2020 lost in
    (r.status ≡ queued)
    × (r.attempts ≡ 2)
    × (r.next_attempt_at ≡ 2020 + min defaults.backoff_max_ms (defaults.backoff_base_ms * 2 ^ 1))
second_failure = enqueued-requeued defaults photo ((10, lost) ∷ []) 2020 lost (omega arith)

abbrev five_failures : List (ℕ × Text)
five_failures = (1, lost) ∷ (2, lost) ∷ (3, lost) ∷ (4, lost) ∷ (5, lost) ∷ []

sixth_failure :
    let r = after_all defaults photo five_failures 6 lost in
    (r.status ≡ failed)
    × (r.attempts ≡ 6)
    × (retried r
        ≡ some (record r { status = queued; attempts = 0; next_attempt_at = 0; last_error = none }))
sixth_failure = enqueued-parked defaults photo five_failures 6 lost refl

abbrev one_upload : List AttachmentUpload
one_upload = enqueued photo ∷ []

abbrev claimed_pass : Pass
claimed_pass = record { unclaimed = []; in_flight = codes "a1" ∷ []; idle = 0 }

one_claimed : Works (start_pass defaults one_upload) claimed_pass
unfolding start_pass claim claim_next worker_count enqueued
one_claimed = goes_on begun (claims (enqueued photo) refl)

one_in_flight : (distinct claimed_pass.in_flight ≡ true) × (length claimed_pass.in_flight ≤ max 1 2)
one_in_flight = pass-apart defaults one_upload claimed_pass one_claimed

abbrev on_cellular : NetInfoState
on_cellular = record { is_connected = some true; type = codes "cellular" }

cellular_suits : (is_suitable_for_large_upload (update on_cellular before_hydrate) ≡ true) ↔ (
    (some true ≡ some true)
    × ((codes "cellular" ≡ codes "wifi")
        ⊎ (codes "cellular" ≡ codes "cellular")
        ⊎ (codes "cellular" ≡ codes "ethernet")))
cellular_suits = update-suitable on_cellular before_hydrate

abbrev answer : PullResult
answer = record { changes = pulled ∷ []; checkpoint = 10 }

abbrev device : Device Db
device = record { db = edited ∷ []; last_stamp = 5; checkpoint = 0 }

stored-IsStamped : AllStamped store (edited ∷ [])
unfolding find
stored-IsStamped i l found = elim (Bool-cases (text_eq (codes "c1") i)) [
  | inl same ↦
      let one : edited ≡ l = ground arith in
      subst (λ r. IsStamped r.content) one (content-IsStamped (codes "Plan") 5)
  | inr other ↦ absurd (ground arith)
]

pull-Applies :
    (applied : ℕ) × (after : Device Db) × (pull_and_merge store answer device
      ≡ some (applied, after))
    × Applies store (pulled ∷ []) (edited ∷ []) applied after.db
    × (after.checkpoint ≡ 10)
    × (after.last_stamp ≡ 5)
pull-Applies =
    pull_and_merge-Applies store answer device stored-IsStamped
      (content-IsStamped (codes "Ship") 7, tt)
