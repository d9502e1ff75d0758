-- ===== src/Realtime/Socket/Frames.antt =====
-- In what order the frames of a board (frontend/src/realtime/boardSocketManager.ts) are applied.
use flow_logix.Common.{
  ℕ, suc, ◌≡◌, ◌+◌, refl, sym, true, false, List, [], ◌∷◌, ◌++◌, arith, for_each, ltb, leb, subst,
  inl, inr, Bool-cases,
}
use flow_logix.Board.State.{BoardMutationEnvelope}
use flow_logix.Realtime.Socket.{
  Told, applied, resync, status, sync_request, Manager, BoardSyncResult, tell, request_sync,
  realign, apply_in_order, handle_incoming, on_joined, has_gap, on_sync_result, connected, synced,
  BoardConnectionStatus,
}

-- Every frame of a log is the next of its sequence: one more than the frame before it, or than the
-- head of the resync before it; the log starts after the frame `n` and ends after the frame `m`.
pub data Consecutive : ℕ → List Told → ℕ → Type 0 where
  nothing_told : {n : ℕ} → Consecutive n [] n
  next_frame :
      {n m : ℕ} {log : List Told} (e : BoardMutationEnvelope)
      → Consecutive n log m
      → e.seq ≡ suc m
      → Consecutive n (log ++ applied e ∷ []) e.seq
  resynced :
      {n m : ℕ} {log : List Told} (head : ℕ)
      → Consecutive n log m
      → Consecutive n (log ++ resync head ∷ []) head
  status_told :
      {n m : ℕ} {log : List Told} (s : BoardConnectionStatus)
      → Consecutive n log m
      → Consecutive n (log ++ status s ∷ []) m
  requested :
      {n m : ℕ} {log : List Told} (k : ℕ)
      → Consecutive n log m
      → Consecutive n (log ++ sync_request k ∷ []) m

-- A replay of the server: its frames follow each other without a gap.
abbrev pub IsRun : List BoardMutationEnvelope → Type 0
IsRun [] = Unit
IsRun (e ∷ []) = Unit
IsRun (e ∷ f ∷ es) = (f.seq ≡ suc e.seq) × IsRun (f ∷ es)

-- What reaches the manager: live frames of any number, joins, and replays.
pub data Inbound : Manager → Manager → Type 0 where
  frame : (e : BoardMutationEnvelope) {s : Manager} → Inbound s (handle_incoming e s)
  joined : (head : ℕ) {s : Manager} → Inbound s (on_joined head s)
  replay : (r : BoardSyncResult) {s : Manager} → IsRun r.events → Inbound s (on_sync_result r s)

pub data Session : Manager → Manager → Type 0 where
  opened : {s : Manager} → Session s s
  then : {s t u : Manager} → Session s t → Inbound t u → Session s u

abbrev Kept : ℕ → Manager → Type 0
Kept n s = Consecutive n s.log s.last_seq

apply_in_order-Kept :
    (n : ℕ) (s : Manager) (e : BoardMutationEnvelope)
    → leb e.seq (suc s.last_seq) ≡ true
    → Kept n s
    → Kept n (apply_in_order s e)
unfolding apply_in_order
apply_in_order-Kept n s e near k = elim (Bool-cases (leb e.seq s.last_seq)) [
  | inl old ↦ rw old k
  | inr new ↦ rw new (next_frame e k (ground arith))
]

-- After a frame of a run, the next one is no more than one ahead.
replayed-Kept :
    (n : ℕ) (s : Manager) (e : BoardMutationEnvelope) (es : List BoardMutationEnvelope)
    → IsRun (e ∷ es)
    → leb e.seq (suc s.last_seq) ≡ true
    → Kept n s
    → Kept n (for_each apply_in_order s (e ∷ es))
replayed-Kept n s e [] run near k = apply_in_order-Kept n s e near k
replayed-Kept n s e (f ∷ es) (step, run) near k =
    replayed-Kept n (apply_in_order s e) f es run (unfold apply_in_order in ground arith)
      (apply_in_order-Kept n s e near k)

realign-Kept : (n head : ℕ) (s : Manager) → Kept n s → Kept n (realign head s)
unfolding realign
realign-Kept n head s k = status_told synced (resynced head k)

handle_incoming-Kept :
    (n : ℕ) (e : BoardMutationEnvelope) (s : Manager) → Kept n s → Kept n (handle_incoming e s)
unfolding handle_incoming request_sync
handle_incoming-Kept n e s k = elim (Bool-cases (leb e.seq s.last_seq)) [
  | inl old ↦ rw old k
  | inr new ↦ elim (Bool-cases (ltb (s.last_seq + 1) e.seq)) [
    | inl gap ↦ rw (new, gap) (requested s.last_seq k)
    | inr next ↦ rw (new, next) (apply_in_order-Kept n s e (ground arith) k)
  ]
]

on_joined-Kept : (n head : ℕ) (s : Manager) → Kept n s → Kept n (on_joined head s)
unfolding on_joined request_sync
on_joined-Kept n head s k = elim (Bool-cases (ltb head s.last_seq)) [
  | inl reset ↦ rw reset (realign-Kept n head (tell (status connected) s) (status_told connected k))
  | inr same ↦ elim (Bool-cases (ltb s.last_seq head)) [
    | inl behind ↦ rw (same, behind) (requested s.last_seq (status_told connected k))
    | inr level ↦ rw (same, level) (status_told synced (status_told connected k))
  ]
]

run-Kept :
    (n : ℕ) (r : BoardSyncResult) (s : Manager)
    → IsRun r.events
    → has_gap r s.last_seq ≡ false
    → Kept n s
    → Kept n (for_each apply_in_order s r.events)
unfolding has_gap
run-Kept n r s run whole k = by_events r.events refl
  where
    by_events :
        (es : List BoardMutationEnvelope)
        → r.events ≡ es
        → Kept n (for_each apply_in_order s r.events)
    by_events [] e = subst (λ es. Kept n (for_each apply_in_order s es)) (sym e) k
    by_events (f ∷ fs) e =
        subst (λ es. Kept n (for_each apply_in_order s es)) (sym e)
          (replayed-Kept n s f fs (subst IsRun e run) (ground arith) k)

on_sync_result-Kept :
    (n : ℕ) (r : BoardSyncResult) (s : Manager)
    → IsRun r.events
    → Kept n s
    → Kept n (on_sync_result r s)
unfolding on_sync_result
on_sync_result-Kept n r s run k = elim (Bool-cases (has_gap r s.last_seq)) [
  | inl gap ↦ rw gap (realign-Kept n r.head_seq s k)
  | inr whole ↦ rw whole (status_told _ (run-Kept n r s run whole k))
]

Inbound-Kept : (n : ℕ) {s t : Manager} → Inbound s t → Kept n s → Kept n t
Inbound-Kept n (frame e {s}) k = handle_incoming-Kept n e s k
Inbound-Kept n (joined head {s}) k = on_joined-Kept n head s k
Inbound-Kept n (replay r {s} run) k = on_sync_result-Kept n r s run k

-- Whatever reaches the manager in a session, live frames that are late, early or repeated, joins and
-- replays that are runs of the server's sequence, it applies every frame exactly in its turn: each
-- is the successor of the last one applied, or of the head of the last resync.
pub Session-Consecutive :
    (s t : Manager)
    → Session s t
    → Consecutive s.last_seq s.log s.last_seq
    → Consecutive s.last_seq t.log t.last_seq
Session-Consecutive s t opened k = k
Session-Consecutive s t (then first last) k =
    Inbound-Kept s.last_seq last (Session-Consecutive s _ first k)
