-- ===== src/Mobile/Uploads/Retries.antt =====
-- The life of one upload (mobile/src/attachments/AttachmentUploadQueue.ts).
use flow_logix.Common.{
  ℕ, suc, ◌≡◌, ◌≤◌, ◌<◌, ◌+◌, ◌*◌, ◌^◌, refl, ap, ◌∙◌, none, some, List, [], ◌∷◌, ◌++◌, Text, min,
  arith, length,
}
use flow_logix.Mobile.Uploads.{
  NewAttachmentUpload, AttachmentUpload, queued, failed, Config, error, enqueued, retried, backoff,
  handle_failure, run_claimed,
}

-- The record after uploads that fail at the given times, each with its message.
abbrev pub after_failures : Config → List (ℕ × Text) → AttachmentUpload → AttachmentUpload
after_failures cfg [] r = r
after_failures cfg ((now, message) ∷ ts) r =
    after_failures cfg ts (run_claimed cfg now (error message) r)

module _ (cfg : Config) (now : ℕ) (message : Text) (r : AttachmentUpload) where
  attempts-run_claimed : (run_claimed cfg now (error message) r).attempts ≡ suc r.attempts
  unfolding run_claimed handle_failure
  attempts-run_claimed = ground arith

  parked :
      cfg.max_attempts ≤ suc r.attempts → (run_claimed cfg now (error message) r).status ≡ failed
  unfolding run_claimed handle_failure
  parked h = ground arith

  requeued :
      suc r.attempts < cfg.max_attempts
      → ((run_claimed cfg now (error message) r).status ≡ queued)
        × ((run_claimed cfg now (error message) r).next_attempt_at
            ≡ now + backoff cfg (suc r.attempts))
  unfolding run_claimed handle_failure
  requeued h = (ground arith, ground (arith, ap (backoff cfg) _))

attempts-after_failures :
    (cfg : Config) (ts : List (ℕ × Text)) (r : AttachmentUpload)
    → (after_failures cfg ts r).attempts ≡ r.attempts + length ts
attempts-after_failures cfg [] r = omega arith
attempts-after_failures cfg ((now, message) ∷ ts) r = omega (
  arith,
  attempts-after_failures cfg ts (run_claimed cfg now (error message) r),
  attempts-run_claimed cfg now message r,
)

after_failures-append :
    (cfg : Config) (ts us : List (ℕ × Text)) (r : AttachmentUpload)
    → after_failures cfg (ts ++ us) r ≡ after_failures cfg us (after_failures cfg ts r)
after_failures-append cfg [] us r = refl
after_failures-append cfg ((now, message) ∷ ts) us r =
    after_failures-append cfg ts us (run_claimed cfg now (error message) r)

module _ (cfg : Config) (input : NewAttachmentUpload) (ts : List (ℕ × Text)) (now : ℕ)
    (message : Text) where
  abbrev earlier : AttachmentUpload
  earlier = after_failures cfg ts (enqueued input)

  -- The record after those failures and one more.
  abbrev pub after_all : AttachmentUpload
  after_all = after_failures cfg (ts ++ (now, message) ∷ []) (enqueued input)

  last_failure : after_all ≡ run_claimed cfg now (error message) earlier
  last_failure = after_failures-append cfg ts ((now, message) ∷ []) (enqueued input)

  attempts-earlier : earlier.attempts ≡ length ts
  unfolding enqueued
  attempts-earlier = omega (arith, attempts-after_failures cfg ts (enqueued input))

  -- A staged file whose uploads fail one after another, less often than the limit, is queued again,
  -- to be tried no sooner than a delay after its last failure that doubles with each failure up to
  -- its cap.
  pub enqueued-requeued :
      suc (length ts) < cfg.max_attempts
      → (after_all.status ≡ queued)
        × (after_all.attempts ≡ suc (length ts))
        × (after_all.next_attempt_at
            ≡ now + min cfg.backoff_max_ms (cfg.backoff_base_ms * 2 ^ length ts))
  unfolding backoff
  enqueued-requeued h =
      let (p, q) = requeued cfg now message earlier (omega (arith, attempts-earlier)) in
      (
        ap (λ t. t.status) last_failure ∙ p,
        ap (λ t. t.attempts) last_failure
            ∙ attempts-run_claimed cfg now message earlier
            ∙ omega (arith, attempts-earlier),
        ap (λ t. t.next_attempt_at) last_failure
            ∙ q
            ∙ ap (λ k. now + min cfg.backoff_max_ms (cfg.backoff_base_ms * 2 ^ k))
                (omega (arith, attempts-earlier)),
      )

  -- The failure of a staged file that reaches the limit parks it, and a manual retry then queues it
  -- afresh: without attempts, backoff or error.
  pub enqueued-parked :
      suc (length ts) ≡ cfg.max_attempts
      → (after_all.status ≡ failed)
        × (after_all.attempts ≡ cfg.max_attempts)
        × (retried after_all
            ≡ some (record after_all {
              status = queued;
              attempts = 0;
              next_attempt_at = 0;
              last_error = none;
            }))
  unfolding retried
  enqueued-parked h =
      let p = parked cfg now message earlier (omega (arith, attempts-earlier)) in
      (
        ap (λ t. t.status) last_failure ∙ p,
        ap (λ t. t.attempts) last_failure
            ∙ attempts-run_claimed cfg now message earlier
            ∙ omega (arith, attempts-earlier),
        ground (arith, ap (λ t. t.status) last_failure ∙ p),
      )
