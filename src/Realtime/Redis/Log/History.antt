-- ===== src/Realtime/Redis/Log/History.antt =====
-- What a board's replay log answers after any completed emits: redis-pubsub.service.ts and
-- board-events.service.ts of backend/src/realtime.
use flow_logix.Common.{
  Memᴰ, ℕ, ◌+◌, ◌≤◌, ◌≡◌, ◌⊎◌, inl, inr, refl, sym, ap, ◌∙◌, subst, Option, some, List, [], ◌∷◌,
  Text, leb, arith, get_or_else, keep, Bool-cases,
}
use flow_logix.Board.State.{BoardMutationType, BoardMutationPayload}
use flow_logix.Realtime.Redis.{
  Envelope, board_sequence_key, board_replay_key, values, RedisClient, completes, current_sequence,
  emit, parsed, get_missed_events,
}
use flow_logix.Realtime.Redis.Log.{
  RunFrom, RunFrom-keep, RunFrom-before, newer, entries_of, IsLogged, IsLogged-emit,
}

module _ {Store : Type 0} (redis : RedisClient Store) (stringify : Envelope → Text)
    (parse : Text → Option Envelope)
    (round_trip : (e : Envelope) → parse (stringify e) ≡ some e) where
  -- Emits of any boards that run to their end one after the other, and logs that pass away when
  -- their time to live is over.
  pub data History : Store → Store → Type 0 where
    started : {s : Store} → History s s
    emitted :
        {s t : Store} (now : ℕ) (type : BoardMutationType) (board : Text)
        (payload : BoardMutationPayload)
        → History s t
        → History s (emit redis stringify completes now type board payload t).0
    lapsed :
        {s t u : Store}
        → History s t
        → ((key : Text) → redis.number_at key u ≡ redis.number_at key t)
        → ((key : Text) → (redis.entries key u ≡ redis.entries key t) ⊎ (redis.entries key u ≡ []))
        → History s u

  IsLogged-lapsed :
      (board : Text) (t u : Store)
      → redis.number_at (board_sequence_key board) u ≡ redis.number_at (board_sequence_key board) t
      → (redis.entries (board_replay_key board) u ≡ redis.entries (board_replay_key board) t)
        ⊎ (redis.entries (board_replay_key board) u ≡ [])
      → IsLogged redis stringify parse round_trip board t
      → IsLogged redis stringify parse round_trip board u
  unfolding current_sequence
  IsLogged-lapsed board t u numbers (inl kept) (first, es, logged, run) = (
    first,
    es,
    kept ∙ logged,
    subst (RunFrom first es) (ap (λ o. get_or_else o 0) (sym numbers)) run,
  )
  IsLogged-lapsed board t u numbers (inr gone) (first, es, logged, run) =
      (current_sequence redis board u, [], gone, refl)

  pub History-IsLogged :
      (board : Text) (s t : Store)
      → History s t
      → IsLogged redis stringify parse round_trip board s
      → IsLogged redis stringify parse round_trip board t
  History-IsLogged board s t started logged = logged
  History-IsLogged board s t (emitted now type written payload past) logged =
      IsLogged-emit redis stringify parse round_trip now type written board payload _
        (History-IsLogged board s _ past logged)
  History-IsLogged board s t (lapsed past numbers sets) logged =
      IsLogged-lapsed board _ t (numbers (board_sequence_key board)) (sets (board_replay_key board))
        (History-IsLogged board s _ past logged)

  -- What `getMissedEvents` reads from a run.
  missed :
      (after : ℕ) (es : List Envelope)
      → parsed redis parse (
          values (
            keep
              (λ entry. leb (after + 1) entry.0)
              (entries_of redis stringify parse round_trip es)))
        ≡ keep (newer after) es
  missed after [] = refl
  missed after (e ∷ es) = elim (Bool-cases (newer after e)) [
    | inl new ↦ ground (arith, round_trip e, missed after es)
    | inr old ↦ ground (arith, missed after es)
  ]

  -- The replay is a run up to the head; it starts right after `after`, if that frame is still kept.
  pub get_missed_events-RunFrom :
      (board : Text) (after : ℕ) (store : Store)
      → IsLogged redis stringify parse round_trip board store
      → after ≤ current_sequence redis board store
      → (first : ℕ) × (after ≤ first)
        × RunFrom first
            (get_missed_events redis parse board after store)
            (current_sequence redis board store)
        × ((value : Text)
            → Memᴰ (after + 1, value) (redis.entries (board_replay_key board) store)
            → first ≡ after)
  unfolding get_missed_events
  get_missed_events-RunFrom board after store (first, es, logged, run) below =
      let head = current_sequence redis board store in
      let (first', above, newest, meets) = RunFrom-keep after first es head run below in
      let read : get_missed_events redis parse board after store ≡ keep (newer after) es =
        ap (parsed redis parse) (
          redis.z_range_by_score-from (board_replay_key board) (after + 1) store
          ∙ ap (λ xs. values (keep (λ entry. leb (after + 1) entry.0) xs)) logged)
        ∙ missed after es in
      (
        first',
        above,
        subst (λ fs. RunFrom first' fs head) (sym read) newest,
        λ value inside. meets (
            RunFrom-before redis stringify parse round_trip first es head after value run
              (subst (Memᴰ (after + 1, value)) logged inside)),
      )
