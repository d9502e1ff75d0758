-- ===== src/Mobile/Uploads.antt =====
-- mobile/src/attachments/AttachmentUploadQueue.ts, with the records of mobile/src/attachments/ports.ts.
pub mod Retries
pub mod Pool
use flow_logix.Common.{
  ℕ, zero, suc, ◌≡◌, ◌+◌, ◌-◌, ◌*◌, ◌^◌, Bool, true, false, Option, none, some, List, [], ◌∷◌, Text,
  text_eq, leb, min, max, length, contains, keep, not, ◌&&◌, ◌||◌, if◌then◌else◌,
}
use flow_logix.Board.State.{without}

pub data UploadStatus : Type 0 where
  queued uploading uploaded failed : UploadStatus

-- The file that is staged, by the fields that the queue hands on.
pub record NewAttachmentUpload : Type 0 where
  pub id : Text
  pub card_id : Text
  pub local_uri : Text
  pub filename : Text
  pub mime_type : Text
  pub size_bytes : ℕ

pub record AttachmentUpload : Type 0 where
  pub input : NewAttachmentUpload
  pub status : UploadStatus
  pub attempts : ℕ
  pub next_attempt_at : ℕ
  pub remote_url : Option Text
  pub last_error : Option Text

pub record Config : Type 0 where
  pub max_concurrent : ℕ
  pub max_attempts : ℕ
  pub backoff_base_ms : ℕ
  pub backoff_max_ms : ℕ

-- The defaults of the constructor.
abbrev pub defaults : Config
defaults = record {
  max_concurrent = 2;
  max_attempts = 6;
  backoff_base_ms = 2000;
  backoff_max_ms = 300000;
}

-- The record that `enqueue` puts.
unfoldable pub enqueued : NewAttachmentUpload → AttachmentUpload
enqueued input = record {
  input = input;
  status = queued;
  attempts = 0;
  next_attempt_at = 0;
  remote_url = none;
  last_error = none;
}

-- The record that `retry` puts; `none` is its early return.
unfoldable pub retried : AttachmentUpload → Option AttachmentUpload
retried r = elim r.status [
  | failed ↦
      some (record r { status = queued; attempts = 0; next_attempt_at = 0; last_error = none })
  | _ ↦ none
]

-- `Math.min(backoffMaxMs, backoffBaseMs * 2 ** (attempts - 1))`
unfoldable pub backoff : Config → ℕ → ℕ
backoff cfg attempts = min cfg.backoff_max_ms (cfg.backoff_base_ms * 2 ^ (attempts - 1))

-- The record that `handleFailure` puts, and the delay of the wake-up that it schedules.
unfoldable pub handle_failure : Config → ℕ → Text → AttachmentUpload → AttachmentUpload × Option ℕ
handle_failure cfg now message r =
    let attempts = r.attempts + 1 in
    if leb cfg.max_attempts attempts
    then (record r { status = failed; attempts = attempts; last_error = some message }, none)
    else (let delay = backoff cfg attempts in
        (
          record r {
            status = queued;
            attempts = attempts;
            next_attempt_at = now + delay;
            last_error = some message;
          },
          some delay,
        ))

pub data Answer : Type 0 where
  url : Text → Answer
  error : Text → Answer

-- The record that `runClaimed` puts last.
unfoldable pub run_claimed : Config → ℕ → Answer → AttachmentUpload → AttachmentUpload
run_claimed cfg now (url u) r = record r {
  status = uploaded;
  remote_url = some u;
  last_error = none;
}
run_claimed cfg now (error message) r = (handle_failure cfg now message r).0

abbrev pub is_queued : UploadStatus → Bool
is_queued queued = true
is_queued _ = false

-- Which records `listRunnable` answers and a pass keeps, apart from those in flight.
abbrev pub is_runnable : ℕ → AttachmentUpload → Bool
is_runnable now r = is_queued r.status && leb r.next_attempt_at now

-- One pass of the worker pool: the part of the runnable list that the cursor has not reached, the
-- ids in flight, and how many workers hold none.
pub record Pass : Type 0 where
  pub unclaimed : List AttachmentUpload
  pub in_flight : List Text
  pub idle : ℕ

-- `Math.min(runnable.length, Math.max(1, maxConcurrent))`
unfoldable pub worker_count : Config → List AttachmentUpload → ℕ
worker_count cfg runnable = min (length runnable) (max 1 cfg.max_concurrent)

unfoldable pub start_pass : Config → List AttachmentUpload → Pass
start_pass cfg runnable = record {
  unclaimed = runnable;
  in_flight = [];
  idle = worker_count cfg runnable;
}

-- The loop that moves the cursor to a record that is not in flight.
unfoldable pub claim_next :
    List Text → List AttachmentUpload → Option (AttachmentUpload × List AttachmentUpload)
claim_next in_flight [] = none
claim_next in_flight (r ∷ rs) = elim (contains r.input.id in_flight) [
  | true ↦ claim_next in_flight rs
  | false ↦ some (r, rs)
]

-- An idle worker claims a record, or returns.
unfoldable pub claim : Pass → Option (AttachmentUpload × Pass)
claim p = elim p.idle [
  | zero ↦ none
  | suc n ↦ elim (claim_next p.in_flight p.unclaimed) [
    | none ↦ none
    | some (r, rs) ↦
        some (r, record { unclaimed = rs; in_flight = r.input.id ∷ p.in_flight; idle = n })
  ]
]

-- The `finally` of a worker that held `id`.
unfoldable pub release : Text → Pass → Pass
release id p = record p { in_flight = without id p.in_flight; idle = p.idle + 1 }
