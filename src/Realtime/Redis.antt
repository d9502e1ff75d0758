-- ===== src/Realtime/Redis.antt =====
-- backend/src/realtime/redis-pubsub.service.ts and the keys of realtime.constants.ts, over an
-- interface of the Redis client.
pub mod Log
pub mod Memory
pub mod Envelopes
use flow_logix.Common.{
  ℕ, suc, ◌+◌, ◌-◌, ◌*◌, ◌<◌, ◌≡◌, ◌≢◌, Bool, true, false, not, Option, none, some, List, [], ◌∷◌,
  ◌++◌, Text, codes, ltb, leb, ◌==◌, if◌then◌else◌, get_or_else, for_each, keep, drop, length, All,
}
use flow_logix.Board.State.{BoardMutationType, BoardMutationPayload}

-- `BoardMutationEnvelope` as the server sends it.
pub record Envelope : Type 0 where
  pub seq : ℕ
  pub board_id : Text
  pub type : BoardMutationType
  pub payload : BoardMutationPayload
  pub ts : ℕ

abbrev pub board_room : Text → Text
board_room board = codes "board:room:" ++ board

abbrev pub board_sequence_key : Text → Text
board_sequence_key board = codes "board:seq:" ++ board

abbrev pub board_replay_key : Text → Text
board_replay_key board = codes "board:events:" ++ board

-- `text.startsWith(prefix) ? text.slice(prefix.length) : null`
abbrev strip_prefix : Text → Text → Option Text
strip_prefix [] text = some text
strip_prefix (c ∷ prefix) [] = none
strip_prefix (c ∷ prefix) (d ∷ text) = if c == d then strip_prefix prefix text else none

unfoldable pub board_id_from_room_channel : Text → Option Text
board_id_from_room_channel channel = strip_prefix (codes "board:room:") channel

abbrev pub replay_log_max_events : ℕ
replay_log_max_events = 500

abbrev pub replay_log_ttl_seconds : ℕ
replay_log_ttl_seconds = 60 * 60 * 24

-- The commands that write, each to one key. The last rank of `z_rem_range_by_rank` counts from the
-- end: `n` is the rank `-n`.
pub data Command : Type 0 where
  incr : (key : Text) → Command
  z_add : (key : Text) (score : ℕ) (value : Text) → Command
  z_rem_range_by_rank : (key : Text) (first last : ℕ) → Command
  expire : (key : Text) (seconds : ℕ) → Command

abbrev pub key_of : Command → Text
key_of (incr key) = key
key_of (z_add key score value) = key
key_of (z_rem_range_by_rank key first last) = key
key_of (expire key seconds) = key

abbrev pub values : List (ℕ × Text) → List Text
values [] = []
values ((score, value) ∷ entries) = value ∷ values entries

-- The client with what Redis documents of these commands. `entries` is a sorted set with its
-- scores, in ascending order, and `number_at` a counter.
pub record RedisClient (Store : Type 0) : Type 0 where
  pub run : Command → Store → Store
  pub number_at : Text → Store → Option ℕ
  pub entries : Text → Store → List (ℕ × Text)
  pub z_range_by_score : Text → ℕ → Store → List Text
  pub run-others :
      (c : Command) (j : Text) (store : Store)
      → key_of c ≢ j
      → (number_at j (run c store) ≡ number_at j store)
        × (entries j (run c store) ≡ entries j store)
  pub incr-next :
      (key : Text) (store : Store)
      → number_at key (run (incr key) store) ≡ some (suc (get_or_else (number_at key store) 0))
  pub z_add-last :
      (key : Text) (score : ℕ) (value : Text) (store : Store)
      → All (λ entry. (entry.0 < score) × (entry.1 ≢ value)) (entries key store)
      → entries key (run (z_add key score value) store) ≡ entries key store ++ (score, value) ∷ []
  pub z_rem_range_by_rank-lowest :
      (key : Text) (kept : ℕ) (store : Store)
      → entries key (run (z_rem_range_by_rank key 0 (kept + 1)) store)
        ≡ drop (length (entries key store) - kept) (entries key store)
  pub expire-later :
      (key : Text) (seconds : ℕ) (store : Store)
      → entries key (run (expire key seconds) store) ≡ entries key store
  pub z_range_by_score-from :
      (key : Text) (lower : ℕ) (store : Store)
      → z_range_by_score key lower store
        ≡ values (keep (λ entry. leb lower entry.0) (entries key store))

-- Where an `emit` is cut short, if it is.
pub data Fault : Type 0 where
  completes fails_at_incr fails_at_append fails_at_publish : Fault

module _ {Store : Type 0} (redis : RedisClient Store) where
  unfoldable pub current_sequence : Text → Store → ℕ
  current_sequence board store = get_or_else (redis.number_at (board_sequence_key board) store) 0

  -- `INCR`: the store after it, which holds the number that it answers.
  unfoldable pub next_sequence : Text → Store → Store
  next_sequence board store = redis.run (incr (board_sequence_key board)) store

  -- `parse` is `parseEnvelope`, which answers `null` for a text that is no JSON.
  abbrev pub parsed : (Text → Option Envelope) → List Text → List Envelope
  parsed parse [] = []
  parsed parse (text ∷ texts) = elim (parse text) [
    | none ↦ parsed parse texts
    | some envelope ↦ envelope ∷ parsed parse texts
  ]

  -- `getMissedEvents` on a natural `afterSeq`.
  unfoldable pub get_missed_events : (Text → Option Envelope) → Text → ℕ → Store → List Envelope
  get_missed_events parse board after store =
      parsed parse (redis.z_range_by_score (board_replay_key board) (after + 1) store)

  -- `stringify` is `JSON.stringify`.
  module _ (stringify : Envelope → Text) where
    unfoldable pub append_to_replay_log : Envelope → Store → Store
    append_to_replay_log envelope store =
        let key = board_replay_key envelope.board_id in
        redis.run (expire key replay_log_ttl_seconds) (
          redis.run (z_rem_range_by_rank key 0 (replay_log_max_events + 1))
            (redis.run (z_add key envelope.seq (stringify envelope)) store))

    abbrev pub envelope_of : ℕ → BoardMutationType → Text → BoardMutationPayload → Store → Envelope
    envelope_of now type board payload store = record {
      seq = current_sequence board store;
      board_id = board;
      type = type;
      payload = payload;
      ts = now;
    }

    -- `BoardEventsService.emit` of board-events.service.ts: the store that it leaves, and the frame
    -- that it publishes. An exception is logged and swallowed.
    unfoldable pub emit :
        Fault
        → ℕ
        → BoardMutationType
        → Text
        → BoardMutationPayload
        → Store
        → Store × Option Envelope
    emit fault now type board payload store =
        let stamped = next_sequence board store in
        let envelope = envelope_of now type board payload stamped in
        let logged = append_to_replay_log envelope stamped in
        elim fault [
          | fails_at_incr ↦ (store, none)
          | fails_at_append ↦ (stamped, none)
          | fails_at_publish ↦ (logged, none)
          | completes ↦ (logged, some envelope)
        ]
