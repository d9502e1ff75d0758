-- ===== src/Realtime/Socket.antt =====
-- frontend/src/realtime/boardSocketManager.ts: the inbound half. What the manager tells its
-- listeners, its owner and the server is a log, in the order in which it is told.
pub mod Frames
use flow_logix.Common.{
  ℕ, ◌≡◌, ◌+◌, Bool, true, false, Option, none, some, List, [], ◌∷◌, ◌++◌, ltb, leb, ◌&&◌, ◌||◌,
  for_each, if◌then◌else◌,
}
use flow_logix.Board.State.{BoardMutationEnvelope}

pub data BoardConnectionStatus : Type 0 where
  connecting connected synced disconnected : BoardConnectionStatus

pub data Told : Type 0 where
  -- A frame, to every listener of mutations.
  applied : BoardMutationEnvelope → Told
  -- `setLastSeq(head)` and `onNeedsResync`
  resync : ℕ → Told
  status : BoardConnectionStatus → Told
  -- `socket.emit(WS.SYNC, { lastSeq })`
  sync_request : ℕ → Told

pub record Manager : Type 0 where
  -- `getLastSeq()`, which lives in the storage.
  pub last_seq : ℕ
  pub log : List Told

pub record BoardSyncResult : Type 0 where
  pub events : List BoardMutationEnvelope
  pub head_seq : ℕ

abbrev pub tell : Told → Manager → Manager
tell t s = record s { log = s.log ++ t ∷ [] }

unfoldable pub request_sync : Manager → Manager
request_sync s = tell (sync_request s.last_seq) s

unfoldable pub realign : ℕ → Manager → Manager
realign head s = tell (status synced) (tell (resync head) (record s { last_seq = head }))

unfoldable pub apply_in_order : Manager → BoardMutationEnvelope → Manager
apply_in_order s envelope =
    if leb envelope.seq s.last_seq
    then s
    else record (tell (applied envelope) s) { last_seq = envelope.seq }

unfoldable pub handle_incoming : BoardMutationEnvelope → Manager → Manager
handle_incoming envelope s =
    if leb envelope.seq s.last_seq
    then s
    else (if ltb (s.last_seq + 1) envelope.seq then request_sync s else apply_in_order s envelope)

-- The handler of `board:joined`, up to the flush of the outbox.
unfoldable pub on_joined : ℕ → Manager → Manager
on_joined head s =
    let s' = tell (status connected) s in
    if ltb head s'.last_seq
    then realign head s'
    else (if ltb s'.last_seq head then request_sync s' else tell (status synced) s')

unfoldable pub has_gap : BoardSyncResult → ℕ → Bool
has_gap result last_seq = elim result.events [
  | [] ↦ ltb last_seq result.head_seq
  | ◌∷◌ first rest ↦ ltb (last_seq + 1) first.seq
]

-- The handler of `board:sync:result`.
unfoldable pub on_sync_result : BoardSyncResult → Manager → Manager
on_sync_result result s =
    if has_gap result s.last_seq
    then realign result.head_seq s
    else (let s' = for_each apply_in_order s result.events in
        tell (status (if ltb s'.last_seq result.head_seq then connected else synced)) s')
