-- ===== src/Realtime/Outbox/Order.antt =====
-- The order in which `flushOutbox` (frontend/src/realtime/boardSocketManager.ts) settles changes.
use flow_logix.Common.{ℕ, ◌≡◌, ◌⊎◌, length, Bool, false, List, [], ◌∷◌, ◌++◌, Text, ◌+◌}
use flow_logix.Realtime.Outbox.{QueuedOutbound, Outbox, Turn, enqueue_all, answered}

abbrev pub ids : List QueuedOutbound → List Text
ids [] = []
ids (item ∷ items) = item.id ∷ ids items

-- Every change that was ever queued, settled or not, in order.
abbrev pub history : Outbox → List Text
history s = ids s.settled ++ ids s.queue

-- The changes made in a list of turns.
abbrev pub made : List Turn → List QueuedOutbound
made [] = []
made (turn ∷ turns) = turn.meanwhile ++ made turns

module _ (limit : ℕ) (turn : Turn) (turns : List Turn) (s : Outbox) where
  abbrev after_answer : QueuedOutbound → Bool × Outbox
  after_answer next = answered limit turn.success next (enqueue_all turn.meanwhile s)

-- Why a flush that took some turns ended: no turn is left, or the queue is empty, and each turn
-- settled a change; or the write of its last turn failed, and each other turn settled a change.
abbrev pub Ends : List Turn → List Turn → Outbox → Outbox → Type 0
Ends taken left s t =
    ((length t.settled ≡ length s.settled + length taken) × ((left ≡ []) ⊎ (t.queue ≡ [])))
    ⊎ ((length t.settled + 1 ≡ length s.settled + length taken)
        × (before : List Turn) × (last : Turn) × (taken ≡ before ++ last ∷ [])
        × (last.success ≡ false))

-- What a flush did to an outbox.
abbrev pub Extends : List Turn → Outbox → Outbox → Type 0
Extends turns s t =
    (taken : List Turn) × (left : List Turn) × (taken ++ left ≡ turns)
    × (history t ≡ history s ++ ids (made taken))
    × Ends taken left s t
