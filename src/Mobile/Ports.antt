-- ===== src/Mobile/Ports.antt =====
-- mobile/src/sync/ports.ts: what the sync engine asks of the storage and of the transport.
use flow_logix.Common.{ℕ, ◌≡◌, Bool, Option, some, List, Text, text_eq, if◌then◌else◌}
use flow_logix.Crdt.Record.{VersionedRecord}

pub record LocalRecord : Type 0 where
  pub content : VersionedRecord
  pub pending : Bool

-- The interface `LocalStore`, with what its comments promise: `put` inserts or replaces a record.
-- `Db` is the state of the database.
pub record LocalStore (Db : Type 0) : Type 0 where
  pub get_by_id : Text → Db → Option LocalRecord
  pub get_pending : Db → List LocalRecord
  pub put_record : LocalRecord → Db → Db
  pub get-put :
      (i : Text) (r : LocalRecord) (db : Db)
      → get_by_id i (put_record r db) ≡ (if text_eq r.content.id i then some r else get_by_id i db)
  pub get-id : (i : Text) (r : LocalRecord) (db : Db) → get_by_id i db ≡ some r → r.content.id ≡ i

pub record PullResult : Type 0 where
  pub changes : List VersionedRecord
  pub checkpoint : ℕ
