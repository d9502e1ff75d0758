-- ===== src/Realtime/Gateway/CatchesUp.antt =====
-- A client of frontend/src/realtime that asks the gateway of backend/src/realtime for what it missed
-- catches up with the head of the board.
use flow_logix.Common.{
  Memᴰ, ℕ, ◌+◌, ◌≤◌, ◌≡◌, ◌≢◌, refl, sym, ap, subst, Bool, true, false, Option, none, some, List,
  [], ◌∷◌, ◌++◌, Text, ltb, arith, for_each, Bool-cases, inl, inr, get_or_else,
}
use flow_logix.Board.State.{BoardMutationEnvelope}
use flow_logix.Realtime.Redis.{
  Envelope, RedisClient, current_sequence, get_missed_events, board_sequence_key, board_replay_key,
}
use flow_logix.Realtime.Redis.Log.{RunFrom, IsLogged}
use flow_logix.Realtime.Redis.Log.History.{History, History-IsLogged, get_missed_events-RunFrom}
use flow_logix.Realtime.Gateway.{Gateway, sync_result, replied, handle_sync}
use flow_logix.Realtime.Socket.{
  Manager, BoardSyncResult, apply_in_order, realign, has_gap, on_sync_result,
}
use flow_logix.Realtime.Socket.Frames.{IsRun}

-- The frame as the client keeps it.
abbrev pub frame_of : Envelope → BoardMutationEnvelope
frame_of e = record { seq = e.seq; type = e.type; payload = e.payload }

abbrev pub frames_of : List Envelope → List BoardMutationEnvelope
frames_of [] = []
frames_of (e ∷ es) = frame_of e ∷ frames_of es

abbrev pub result_of : List Envelope → ℕ → BoardSyncResult
result_of events head = record { events = frames_of events; head_seq = head }

RunFrom-IsRun : (n : ℕ) (es : List Envelope) (m : ℕ) → RunFrom n es m → IsRun (frames_of es)
RunFrom-IsRun n [] m run = tt
RunFrom-IsRun n (e ∷ []) m run = tt
RunFrom-IsRun n (e ∷ f ∷ es) m (first, (next, run)) =
    (next, RunFrom-IsRun e.seq (f ∷ es) m (next, run))

replayed :
    (es : List Envelope) (m : ℕ) (s : Manager)
    → RunFrom s.last_seq es m
    → (for_each apply_in_order s (frames_of es)).last_seq ≡ m
unfolding apply_in_order
replayed [] m s run = run
replayed (e ∷ es) m s (first, run) =
    let next = apply_in_order s (frame_of e) in
    let at : next.last_seq ≡ e.seq = ground arith in
    replayed es m next (subst (λ n. RunFrom n es m) (sym at) run)

-- After a replay that starts no earlier than the client stands, the client stands at its head.
catches_up :
    (n m : ℕ) (es : List Envelope) (s : Manager)
    → s.last_seq ≤ n
    → RunFrom n es m
    → (on_sync_result (result_of es m) s).last_seq ≡ m
unfolding on_sync_result has_gap realign
catches_up n m [] s above run = elim (Bool-cases (ltb s.last_seq m)) [
  | inl gap ↦ rw gap refl
  | inr level ↦ rw level (ground arith)
]
catches_up n m (e ∷ es) s above (first, run) = elim (Bool-cases (ltb (s.last_seq + 1) e.seq)) [
  | inl gap ↦ rw gap refl
  | inr next ↦
      let at : n ≡ s.last_seq = ground arith in
      rw next (replayed (e ∷ es) m s (subst (λ k. RunFrom k (e ∷ es) m) at (first, run)))
]

no_gap :
    (m : ℕ) (es : List Envelope) (last n : ℕ)
    → n ≡ last
    → RunFrom n es m
    → has_gap (result_of es m) last ≡ false
unfolding has_gap
no_gap m [] last n same run = ground arith
no_gap m (e ∷ es) last n same (first, run) = ground arith

module _ {Store : Type 0} (redis : RedisClient Store) (stringify : Envelope → Text)
    (parse : Text → Option Envelope) (round_trip : (e : Envelope) → parse (stringify e) ≡ some e)
    (board_in_org : Text → Text → Bool) where
  -- Redis starts without counters and logs, any emits run to their end one after the other, and logs
  -- may lapse. Then the gateway answers the request of a client of the board's organisation that
  -- is not ahead of the board: the replay is a run without gaps, and having taken it the client
  -- stands exactly at the head of the board's sequence. As long as the log still holds the frame
  -- after the client's last one, the client sees no gap, so that it need not fetch the board again.
  pub handle_sync-catches_up :
      (begin store : Store) (socket board org : Text) (g : Gateway) (s : Manager)
      → ((key : Text) → redis.number_at key begin ≡ none)
      → ((key : Text) → redis.entries key begin ≡ [])
      → History redis stringify parse round_trip begin store
      → board ≢ []
      → org ≢ []
      → board_in_org board org ≡ true
      → s.last_seq ≤ current_sequence redis board store
      → (events : List Envelope) × (g' : Gateway) × (handle_sync redis parse board_in_org socket
            (some board)
            (some org)
            (some s.last_seq)
            store
            store
            g
          ≡ replied g')
        × (g'.sent
            ≡ g.sent ++ sync_result socket board events (current_sequence redis board store) ∷ [])
        × IsRun (frames_of events)
        × ((on_sync_result (result_of events (current_sequence redis board store)) s).last_seq
            ≡ current_sequence redis board store)
        × ((value : Text)
            → Memᴰ (s.last_seq + 1, value) (redis.entries (board_replay_key board) store)
            → has_gap (result_of events (current_sequence redis board store)) s.last_seq ≡ false)
  unfolding handle_sync current_sequence
  handle_sync-catches_up begin store socket [] org g s zero_at empty past named owned own below =
      absurd (named refl)
  handle_sync-catches_up begin store socket (c ∷ b) [] g s zero_at empty past named owned own
        below =
      absurd (owned refl)
  handle_sync-catches_up begin store socket (c ∷ b) (d ∷ org) g s zero_at empty past named owned own
        below =
      let board = c ∷ b in
      let head = current_sequence redis board store in
      let events = get_missed_events redis parse board s.last_seq store in
      let logged : IsLogged redis stringify parse round_trip board begin = (
        0,
        [],
        empty (board_replay_key board),
        ap (λ o. get_or_else o 0) (sym (zero_at (board_sequence_key board))),
      ) in
      let (first, above, run, meets) =
        get_missed_events-RunFrom redis stringify parse round_trip board s.last_seq store
          (History-IsLogged redis stringify parse round_trip board begin store past logged) below in
      (
        events,
        record g { sent = g.sent ++ sync_result socket board events head ∷ [] },
        rw own refl,
        refl,
        RunFrom-IsRun first events head run,
        catches_up first head events s above run,
        λ value inside. no_gap head events s.last_seq first (meets value inside) run,
      )
