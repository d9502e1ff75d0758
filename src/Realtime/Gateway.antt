-- ===== src/Realtime/Gateway.antt =====
-- backend/src/realtime/realtime.gateway.ts: the rooms that its sockets are in, and the replay of
-- the frames that a client missed.
pub mod CatchesUp
mod Tests
use flow_logix.Common.{
  ℕ, zero, suc, ◌+◌, ◌-◌, ◌≡◌, Bool, true, false, not, Option, none, some, List, [], ◌∷◌, ◌++◌,
  Text, codes, if◌then◌else◌, lookup, put, delete, keys, contains, length, keep, text_eq,
}
use flow_logix.Realtime.Redis.{
  Envelope, RedisClient, board_room, board_id_from_room_channel, current_sequence,
  get_missed_events,
}

-- What the gateway sends and reports, in order.
pub data Sent : Type 0 where
  websocket_pool_size active_board_users : ℕ → Sent
  joins leaves : (socket room : Text) → Sent
  joined : (socket board : Text) (head_seq : ℕ) → Sent
  sync_result : (socket board : Text) (events : List Envelope) (head_seq : ℕ) → Sent
  mutation : (room : Text) (envelope : Envelope) → Sent

pub record Gateway : Type 0 where
  pub connected_sockets : ℕ
  pub boards_by_socket : List (Text × List Text)
  pub sent : List Sent

-- `WsException` and the `NotFoundException` of the board's owner check.
pub data Refusal : Type 0 where
  board_id_required missing_org_id board_not_found : Refusal

pub data Reply : Type 0 where
  replied : Gateway → Reply
  refused : Refusal → Reply

abbrev send : Sent → Gateway → Gateway
send s g = record g { sent = g.sent ++ s ∷ [] }

abbrev pub active_users : Gateway → ℕ
active_users g = length (keys g.boards_by_socket)

unfoldable pub handle_connection : Gateway → Gateway
handle_connection g =
    let g' : Gateway = record g { connected_sockets = g.connected_sockets + 1 } in
    send (websocket_pool_size g'.connected_sockets) g'

-- `Math.max(0, n - 1)` is the subtraction of natural numbers.
unfoldable pub handle_disconnect : Text → Gateway → Gateway
handle_disconnect socket g =
    let g' : Gateway = record g {
      connected_sockets = g.connected_sockets - 1;
      boards_by_socket = delete socket g.boards_by_socket;
    } in
    send (active_board_users (active_users g')) (send (websocket_pool_size g'.connected_sockets) g')

-- `boards.add(boardId)`
abbrev add_board : Text → List Text → List Text
add_board board boards = if contains board boards then boards else boards ++ board ∷ []

abbrev boards_of : Text → Gateway → List Text
boards_of socket g = elim (lookup socket g.boards_by_socket) [ none ↦ [] | some boards ↦ boards ]

unfoldable pub track_board_join : Text → Text → Gateway → Gateway
track_board_join socket board g =
    let g' : Gateway = record g {
      boards_by_socket = put socket (add_board board (boards_of socket g)) g.boards_by_socket;
    } in
    send (active_board_users (active_users g')) g'

-- `boards.delete(boardId)`
abbrev remove_board : Text → List Text → List Text
remove_board board boards = keep (λ b. not (text_eq b board)) boards

unfoldable pub track_board_leave : Text → Text → Gateway → Gateway
track_board_leave socket board g = elim (lookup socket g.boards_by_socket) [
  | none ↦ g
  | some boards ↦
      let left = remove_board board boards in
      let g' : Gateway = record g {
        boards_by_socket = elim left [
          | [] ↦ delete socket g.boards_by_socket
          | ◌∷◌ b bs ↦ put socket (b ∷ bs) g.boards_by_socket
        ];
      } in
      send (active_board_users (active_users g')) g'
]

unfoldable pub broadcast : Bool → Text → Envelope → Gateway → Gateway
broadcast has_server channel envelope g = elim (board_id_from_room_channel channel) [
  | none ↦ g
  | some [] ↦ g
  | some (c ∷ board) ↦ if has_server then send (mutation (board_room (c ∷ board)) envelope) g else g
]

-- `requireBoardId` and `requireOrgId`: an id is a text that is not empty.
abbrev require : Refusal → Option Text → (Text → Reply) → Reply
require refusal none rest = refused refusal
require refusal (some []) rest = refused refusal
require refusal (some (c ∷ id)) rest = rest (c ∷ id)

module _ {Store : Type 0} (redis : RedisClient Store) (parse : Text → Option Envelope)
    (board_in_org : Text → Text → Bool) where
  -- `assertBoardInOrg`
  abbrev assert_board_in_org : Text → Text → Reply → Reply
  assert_board_in_org board org rest =
      if board_in_org board org then rest else refused board_not_found

  unfoldable pub handle_join : Text → Option Text → Option Text → Store → Gateway → Reply
  unfolding track_board_join current_sequence
  handle_join socket board_id org_id store g = require board_id_required board_id (λ board.
      require missing_org_id org_id (λ org. assert_board_in_org board org (
        replied (
          send (joined socket board (current_sequence redis board store))
            (track_board_join socket board (send (joins socket (board_room board)) g))))))

  unfoldable pub handle_leave : Text → Option Text → Gateway → Reply
  unfolding track_board_leave
  handle_leave socket board_id g = require board_id_required board_id (λ board.
      replied (track_board_leave socket board (send (leaves socket (board_room board)) g)))

  abbrev last_or_zero : Option ℕ → ℕ
  last_or_zero none = 0
  last_or_zero (some n) = n

  -- `Number.isFinite(body?.lastSeq) ? body.lastSeq : 0`, on natural numbers. The log is read
  -- first, and the counter of `later` after it.
  unfoldable pub handle_sync :
      Text → Option Text → Option Text → Option ℕ → Store → Store → Gateway → Reply
  unfolding get_missed_events current_sequence
  handle_sync socket board_id org_id last_seq store later g =
      require board_id_required board_id (λ board. require missing_org_id org_id (λ org.
        assert_board_in_org board org (
          replied (
            send
              (sync_result socket board
                (get_missed_events redis parse board (last_or_zero last_seq) store)
                (current_sequence redis board later))
              g))))
