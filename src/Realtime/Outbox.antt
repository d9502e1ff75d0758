-- ===== src/Realtime/Outbox.antt =====
-- frontend/src/realtime/boardSocketManager.ts: the outbound half, the queue of changes that the user
-- made. `flushOutbox` awaits the write of the head of the queue; what follows the answer runs on
-- the queue as it is then.
pub mod Order
use flow_logix.Common.{
  ℕ, ◌≡◌, ◌+◌, Bool, true, false, Option, none, some, List, [], ◌∷◌, ◌++◌, Text, text_eq, leb, map,
  keep, not, get_or_else, if◌then◌else◌,
}
use flow_logix.Board.State.{BoardMutationType, BoardMutationPayload}

pub record QueuedOutbound : Type 0 where
  pub id : Text
  pub type : BoardMutationType
  pub payload : BoardMutationPayload
  pub queued_at : ℕ
  pub attempts : Option ℕ

-- The outbox, and the changes that have left it: written by the server, or given up.
pub record Outbox : Type 0 where
  pub queue : List QueuedOutbound
  pub settled : List QueuedOutbound

-- `opts.maxOutboundAttempts ?? 5`
abbrev pub max_attempts : Option ℕ → ℕ
max_attempts option = get_or_else option 5

unfoldable pub enqueue_outbound : QueuedOutbound → Outbox → Outbox
enqueue_outbound item s = record s { queue = s.queue ++ item ∷ [] }

abbrev pub other_item : Text → QueuedOutbound → Bool
other_item i item = not (text_eq item.id i)

abbrev pub with_attempts : Text → ℕ → QueuedOutbound → QueuedOutbound
with_attempts i n item = elim (text_eq item.id i) [
  | true ↦ record item { attempts = some n }
  | false ↦ item
]

-- The queue without the item, which is settled.
unfoldable pub settle : QueuedOutbound → Outbox → Outbox
settle item s = record {
  queue = keep (other_item item.id) s.queue;
  settled = s.settled ++ item ∷ [];
}

-- What a failed write of `next` does; the Boolean says whether the loop goes on.
unfoldable pub write_failed : ℕ → QueuedOutbound → Outbox → Bool × Outbox
write_failed limit next s =
    let attempts = get_or_else next.attempts 0 + 1 in
    if leb limit attempts
    then (true, settle next s)
    else (false, record s { queue = map (with_attempts next.id attempts) s.queue })

-- What follows the answer to the write of `next`.
unfoldable pub answered : ℕ → Bool → QueuedOutbound → Outbox → Bool × Outbox
answered limit success next s = if success then (true, settle next s) else write_failed limit next s

-- While the write of the head is awaited, the user makes further changes.
pub record Turn : Type 0 where
  pub meanwhile : List QueuedOutbound
  pub success : Bool

abbrev pub enqueue_all : List QueuedOutbound → Outbox → Outbox
enqueue_all [] s = s
enqueue_all (item ∷ items) s = enqueue_all items (enqueue_outbound item s)

-- The loop of `flushOutbox`, for the turns that it takes until the socket disconnects.
unfoldable pub flush_outbox : ℕ → List Turn → Outbox → Outbox
flush_outbox limit [] s = s
flush_outbox limit (turn ∷ turns) s = elim s.queue [
  | [] ↦ s
  | ◌∷◌ next rest ↦
      let (again, t) = answered limit turn.success next (enqueue_all turn.meanwhile s) in
      let more = flush_outbox limit turns t in if again then more else t
]
