-- ===== src/Mobile/Engine/Acknowledges.antt =====
-- Which records a push clears (mobile/src/sync/SyncService.ts, `pushPending`).
use flow_logix.Common.{◌≡◌, ◌⊎◌, true, List, Text, contains, get_or_else, Memᴰ}
use flow_logix.Crdt.Record.{clock_of}
use flow_logix.Mobile.Ports.{LocalRecord}

-- The server has accepted what the record holds now.
abbrev pub IsAccepted : List LocalRecord → List Text → LocalRecord → Type 0
IsAccepted snapshot accepted current =
    (pushed : LocalRecord) × Memᴰ pushed snapshot
    × (pushed.content.id ≡ current.content.id)
    × (contains current.content.id accepted ≡ true)
    × ((key : Text) → clock_of current.content.clocks key ≡ clock_of pushed.content.clocks key)
    × (get_or_else current.content.deleted_at 0 ≡ get_or_else pushed.content.deleted_at 0)

-- The record after a push: its content is untouched, and so is its flag unless it was accepted.
abbrev pub Acknowledged : List LocalRecord → List Text → LocalRecord → LocalRecord → Type 0
Acknowledged snapshot accepted current after =
    (after.content ≡ current.content)
    × ((after.pending ≡ current.pending) ⊎ IsAccepted snapshot accepted current)
