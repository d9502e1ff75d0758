-- ===== src/Realtime/Tests.antt =====
-- Runs of the live connection at concrete inputs.
use flow_logix.Common.{ℕ, refl, true, none, [], ◌∷◌}
use flow_logix.Board.State.{BoardMutationEnvelope, card_moved}
use flow_logix.Realtime.Socket.{Manager, handle_incoming, on_sync_result, BoardSyncResult}
use flow_logix.Realtime.Socket.Frames.{
  Consecutive, nothing_told, Session, opened, then, frame, replay, Session-Consecutive,
}
use flow_logix.Realtime.Outbox.{QueuedOutbound, Outbox, Turn}

abbrev envelope : ℕ → BoardMutationEnvelope
envelope n = record {
  seq = n;
  type = card_moved;
  payload = record { card_id = none; list_id = none; position_idx = none };
}

abbrev fresh : Manager
fresh = record { last_seq = 0; log = [] }

abbrev missed : BoardSyncResult
missed = record { events = envelope 1 ∷ envelope 2 ∷ []; head_seq = 2 }

-- A frame that is early, and then the replay that it asks for.
abbrev caught_up : Manager
caught_up = on_sync_result missed (handle_incoming (envelope 2) fresh)

catching_up : Session fresh caught_up
catching_up = then (then opened (frame (envelope 2))) (replay missed (refl, tt))

frames_in_turn : Consecutive 0 caught_up.log caught_up.last_seq
frames_in_turn = Session-Consecutive fresh caught_up catching_up nothing_told

abbrev change : ℕ → QueuedOutbound
change n = record {
  id = n ∷ [];
  type = card_moved;
  payload = record { card_id = none; list_id = none; position_idx = none };
  queued_at = 0;
  attempts = none;
}

abbrev outbox : Outbox
outbox = record { queue = change 1 ∷ change 2 ∷ []; settled = [] }

abbrev turn : Turn
turn = record { meanwhile = change 3 ∷ []; success = true }
