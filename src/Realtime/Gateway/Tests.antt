-- ===== src/Realtime/Gateway/Tests.antt =====
-- A client that has seen one frame of three asks the gateway for the rest.
use flow_logix.Common.{
  Memᴰ, ℕ, ◌≤◌, subst, sym, ◌≡◌, refl, true, false, Bool, none, some, List, [], ◌∷◌, ◌++◌, Text,
  codes, cmp, arith,
}
use flow_logix.Board.State.{
  BoardMutationType, BoardMutationEnvelope, BoardMutationPayload, card_moved, card_created,
}
use flow_logix.Realtime.Redis.{
  Envelope, completes, emit, board_replay_key, current_sequence, append_to_replay_log,
  next_sequence, get_missed_events, fails_at_append,
}
use flow_logix.Realtime.Redis.Memory.{Memory, memory, execute}
use flow_logix.Realtime.Redis.Envelopes.{text_of, envelope_in, envelope_in-text_of}
use flow_logix.Realtime.Redis.Log.History.{History, started, emitted}
use flow_logix.Realtime.Gateway.{Gateway, replied, sync_result, handle_sync}
use flow_logix.Realtime.Gateway.CatchesUp.{frames_of, result_of, handle_sync-catches_up}
use flow_logix.Realtime.Socket.{
  Manager, on_sync_result, has_gap, apply_in_order, applied, status, synced,
}
use flow_logix.Realtime.Socket.Frames.{IsRun}

abbrev board : Text
board = codes "b1"

abbrev org : Text
org = codes "acme"

abbrev owns : Text → Text → Bool
owns b o = true

abbrev payload : BoardMutationPayload
payload = record { card_id = some (codes "c1"); list_id = none; position_idx = none }

abbrev empty : Memory
empty = record { counters = []; sets = [] }

abbrev after_one : Memory
after_one = (emit memory text_of completes 10 card_created board payload empty).0

abbrev after_two : Memory
after_two = (emit memory text_of completes 20 card_moved (codes "b2") payload after_one).0

abbrev after_three : Memory
after_three = (emit memory text_of completes 30 card_moved board payload after_two).0

abbrev frame_at : ℕ → BoardMutationType → BoardMutationEnvelope
frame_at n type = record { seq = n; type = type; payload = payload }

past : History memory text_of envelope_in envelope_in-text_of empty after_three
past =
    emitted 30 card_moved board payload
      (emitted 20 card_moved (codes "b2") payload (emitted 10 card_created board payload started))

abbrev idle : Gateway
idle = record { connected_sockets = 1; boards_by_socket = []; sent = [] }

abbrev client : Manager
client = record { last_seq = 1; log = [] }

head_of_board : current_sequence memory board after_three ≡ 2
unfolding current_sequence emit memory execute cmp append_to_replay_log next_sequence
head_of_board = refl

caught_up :
    let head = current_sequence memory board after_three in
    (events : List Envelope) × (g : Gateway) × (handle_sync memory envelope_in owns
        (codes "s1")
        (some board)
        (some org)
        (some 1)
        after_three
        after_three
        idle
      ≡ replied g)
    × (g.sent ≡ [] ++ sync_result (codes "s1") board events head ∷ [])
    × IsRun (frames_of events)
    × ((on_sync_result (result_of events head) client).last_seq ≡ head)
    × ((value : Text)
        → Memᴰ (2, value) (memory.entries (board_replay_key board) after_three)
        → has_gap (result_of events head) 1 ≡ false)
unfolding memory
caught_up =
    handle_sync-catches_up memory text_of envelope_in envelope_in-text_of owns empty after_three
      (codes "s1") board org idle client (λ key. refl) (λ key. refl) past (λ h. cc) (λ h. cc) refl
      (subst (λ n. 1 ≤ n) (sym head_of_board) (omega arith))

-- An emit that fails after it took its number leaves a hole in the log, and a client takes the
-- frames around the hole without asking again.
abbrev with_hole : Memory
with_hole =
    (emit memory text_of completes 30 card_moved board payload
      (emit memory text_of fails_at_append 20 card_moved board payload after_one).0).0

skipped :
    (current_sequence memory board with_hole ≡ 3)
    × ((on_sync_result
          (result_of (get_missed_events memory envelope_in board 0 with_hole) 3)
          (record { last_seq = 0; log = [] })).log
        ≡ applied (frame_at 1 card_created) ∷ applied (frame_at 3 card_moved) ∷ status synced ∷ [])
unfolding current_sequence emit memory execute cmp append_to_replay_log next_sequence
    get_missed_events on_sync_result has_gap apply_in_order
skipped = (refl, refl)
