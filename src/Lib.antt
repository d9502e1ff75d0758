-- ===== src/Lib.antt =====
-- A model of FlowLogix, a Kanban board with an offline-first mobile client, a live web client and a
-- server: its order keys, its conflict-free merges, its live connection and its queues.
--
-- The parts and how they interact. The server gives every card and list an order key
-- (backend/src/common/ordering). A mobile client edits a local database and synchronises it with
-- the server (mobile/src/sync); both sides merge records field by field, the client by
-- mobile/src/crdt and the server by backend/src/sync, in one transaction of one organisation. The
-- web client changes boards through the CRUD services, reads what the server holds visible
-- (backend/src/common/sync-visibility.ts), shows moves before they are stored (frontend/src/store) and
-- follows the frames of other users (frontend/src/realtime), which move cards by their order keys.
-- A write emits a frame, which Redis numbers, keeps for replays and passes to the gateway
-- (backend/src/realtime). Large files go through a queue of their own (mobile/src/attachments).
--
-- Which file models which part:
--   Ordering/Indexer.antt     backend/src/common/ordering/fractional-indexer.ts: `make` is the
--                             constructor, `get_intermediate_key` is `getIntermediateKey`, and so on
--   Ordering/Failure.antt     the exceptions of the calls of that file, as values
--   Ordering/Rebalance.antt   the method `rebalance` and its `encodeFixed`
--   Ordering/Collisions.antt  the comparator `compare` of items whose keys collide
--   Ordering/Position.antt    backend/src/common/ordering/position.service.ts
--   Crdt/Clock.antt           mobile/src/crdt/clock.ts
--   Crdt/Register.antt        mobile/src/crdt/lwwRegister.ts
--   Crdt/ElementSet.antt      mobile/src/crdt/lwwElementSet.ts
--   Crdt/Record.antt          mobile/src/crdt/mergeRecord.ts and types.ts; Crdt/Json.antt has the
--                             values of fields and their texts, Crdt/Join.antt the abstract merge
--   Ordering/Columns.antt     backend/src/common/ordering/position-rebalance.service.ts
--   Sync/Merge.antt           backend/src/sync/sync-merge.ts
--   Sync/Store.antt           the rows and TypeORM's `EntityManager`, as an interface with laws;
--                             Sync/Tables.antt has tables in memory that keep those laws
--   Sync/Requests.antt        backend/src/sync/dto/sync.dto.ts and the reading of a change
--   Sync/Strategies.antt      backend/src/sync/sync.service.ts, the strategies of the collections
--   Sync/Service.antt         the same file, `SyncService.sync` and all that it calls
--   Crud/Tenant.antt          backend/src/common/tenant/tenant-access.service.ts
--   Crud/Positions.antt       the order keys of the services of cards and lists
--   Crud/Cards.antt           backend/src/cards/cards.service.ts
--   Crud/Lists.antt           backend/src/lists/lists.service.ts
--   Crud/Boards.antt          backend/src/boards/boards.service.ts
--   Crud/Comments.antt        backend/src/comments/comments.service.ts
--   Crud/Members.antt         backend/src/board-members/board-members.service.ts
--   Auth.antt                 backend/src/auth/auth.service.ts
--   Sync/Visibility.antt      backend/src/common/sync-visibility.ts
--   Board/State.antt          frontend/src/store/types.ts, frontend/src/realtime/types.ts
--   Board/Remote.antt         frontend/src/store/remoteMutations.ts
--   Board/Store.antt          the board slice of frontend/src/store/useBoardStore.ts; every call of
--                             `set` is one step, and Board/Steps.antt lets the steps interleave
--   Board/Create.antt         the same slice's `addCard`
--   Board/Snapshot.antt       frontend/src/api/mapBoard.ts
--   Realtime/Redis.antt       backend/src/realtime/redis-pubsub.service.ts, board-events.service.ts
--                             and realtime.constants.ts, over an interface of the Redis client;
--                             Realtime/Redis/Memory.antt has a store that keeps its laws
--   Realtime/Gateway.antt     backend/src/realtime/realtime.gateway.ts
--   Realtime/Socket.antt      frontend/src/realtime/boardSocketManager.ts, inbound
--   Realtime/Outbox.antt      the same file, outbound: `flushOutbox`
--   Mobile/Ports.antt         mobile/src/sync/ports.ts: the interface of the local storage
--   Mobile/Engine.antt        mobile/src/sync/SyncService.ts, the class `SyncEngine`
--   Mobile/Network.antt       mobile/src/sync/networkMonitor.ts
--   Mobile/Transport.antt     mobile/src/sync/httpSyncTransport.ts
--   Mobile/Background.antt    mobile/src/attachments/backgroundUploadTask.ts
--   Mobile/Uploads.antt       mobile/src/attachments/AttachmentUploadQueue.ts
-- Common holds what they share: texts as lists of UTF-16 code units (where the source walks code
-- points, surrogate pairs are taken together), objects and maps as association
-- lists in the order of insertion, loops over keys. The files below a part prove; Tests run it.
--
-- Numbers are natural: clocks are epoch microseconds, sequence ids, counts and milliseconds. The
-- indexer tests for 2^53 itself, where a JavaScript number stops being exact, and so does its
-- model. `midpoint` and `widen` recurse on fuel: the lengths of both keys with three more, and a
-- number of widths that passes 2^53; running out is an error of its own, and what is shown to
-- answer never meets it. Texts of numbers are decimal on as much fuel as the number. The flush of the
-- outbox runs for a list of turns, one for each write that is awaited while the socket lives.
--
-- Code that is not in the repository is a parameter: `Date.parse`, the wall clock, `fetch`, the answers
-- of the uploader, `JSON.stringify` of a frame with its inverse, and the databases, which are records
-- of operations with the laws that their documentation promises: the storage of the device, the
-- entity manager of TypeORM, the statements of the rebalance job, and the commands of Redis. The
-- row of a primary key and the row with the greatest key are look-ups of the entity manager; the
-- conditions of a `where` clause are written out on them. A `sync` and a CRUD call run alone in their
-- transaction, save that an insert may meet a row which another transaction has committed; a
-- statement that the database rejects ends the `sync` with an exception. Awaits
-- inside one call of the sync engine are not split, save the push, which lets the database change
-- while it is awaited. The gateway reads the replay log first and the head of the sequence later.
--
-- Not modelled, since they are input and output or calls of frameworks: the guard that verifies
-- tokens, health and metrics; connecting to Redis; the views of the web client and its HTTP calls;
-- persisting moves over HTTP; the local database's schema; seeds, migrations and deployment.
pub mod Common
pub mod Ordering
pub mod Crdt
pub mod Crud
pub mod Sync
pub mod Auth
pub mod Board
pub mod Realtime
pub mod Mobile
