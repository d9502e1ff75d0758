-- ===== src/Realtime/Redis/Log.antt =====
-- The replay log of backend/src/realtime/redis-pubsub.service.ts while emits run to their end.
pub mod History
use flow_logix.Common.{
  ℕ, zero, suc, ◌+◌, ◌-◌, ◌<◌, ◌≤◌, ◌≡◌, ◌≢◌, ◌⊎◌, inl, inr, refl, sym, ap, ◌∙◌, subst, Bool, true,
  false, Option, none, some, List, [], ◌∷◌, ◌++◌, Text, codes, leb, ltb, arith, get_or_else, keep,
  drop, length, Memᴰ, get_elem?, All, Bool-cases, Option-cases, text_eq, text_eq_iff,
}
use flow_logix.Board.State.{BoardMutationType, BoardMutationPayload}
use flow_logix.Realtime.Redis.{
  Envelope, board_sequence_key, board_replay_key, Command, incr, z_add, z_rem_range_by_rank, expire,
  key_of, values, RedisClient, completes, current_sequence, next_sequence, append_to_replay_log,
  envelope_of, emit, parsed, get_missed_events, replay_log_max_events, replay_log_ttl_seconds,
}

-- Frames that follow each other, from the one after `n` up to `m`.
abbrev pub RunFrom : ℕ → List Envelope → ℕ → Type 0
RunFrom n [] m = n ≡ m
RunFrom n (e ∷ es) m = (e.seq ≡ suc n) × RunFrom e.seq es m

pub RunFrom-le : (n : ℕ) (es : List Envelope) (m : ℕ) → RunFrom n es m → n ≤ m
RunFrom-le n [] m h = omega arith
RunFrom-le n (e ∷ es) m (next, run) = omega (arith, RunFrom-le e.seq es m run)

RunFrom-snoc :
    (n : ℕ) (es : List Envelope) (m : ℕ) (e : Envelope)
    → RunFrom n es m
    → e.seq ≡ suc m
    → RunFrom n (es ++ e ∷ []) e.seq
RunFrom-snoc n [] m e h next = (next ∙ ap suc (sym h), refl)
RunFrom-snoc n (f ∷ es) m e (first, run) next = (first, RunFrom-snoc f.seq es m e run next)

RunFrom-drop :
    (k n : ℕ) (es : List Envelope) (m : ℕ) → RunFrom n es m → (n' : ℕ) × RunFrom n' (drop k es) m
RunFrom-drop zero n es m run = (n, run)
RunFrom-drop (suc k) n [] m run = (n, run)
RunFrom-drop (suc k) n (e ∷ es) m (first, run) = RunFrom-drop k e.seq es m run

keep-true :
    (p : Envelope → Bool) (e : Envelope) (es : List Envelope)
    → p e ≡ true
    → keep p (e ∷ es) ≡ e ∷ keep p es
keep-true p e es h = ground arith

keep-false :
    (p : Envelope → Bool) (e : Envelope) (es : List Envelope)
    → p e ≡ false
    → keep p (e ∷ es) ≡ keep p es
keep-false p e es h = ground arith

abbrev pub newer : ℕ → Envelope → Bool
newer last e = leb (last + 1) e.seq

keep_all :
    (last n : ℕ) (es : List Envelope) (m : ℕ)
    → last ≤ n
    → RunFrom n es m
    → RunFrom n (keep (newer last) es) m
keep_all last n [] m h run = run
keep_all last n (e ∷ es) m h (first, run) =
    subst (λ fs. RunFrom n fs m) (sym (keep-true (newer last) e es (ground arith)))
      (first, keep_all last e.seq es m (omega arith) run)

-- The frames of a run that are newer than `last` are a run too; it starts right after `last`, if the
-- run starts no later.
pub RunFrom-keep :
    (last n : ℕ) (es : List Envelope) (m : ℕ)
    → RunFrom n es m
    → last ≤ m
    → (n' : ℕ) × (last ≤ n') × RunFrom n' (keep (newer last) es) m × (n ≤ last → n' ≡ last)
RunFrom-keep last n [] m run h = (m, h, refl, λ early. omega arith)
RunFrom-keep last n (e ∷ es) m (first, run) h = elim (Bool-cases (newer last e)) [
  | inr old ↦
      let (n', above, later, meets) = RunFrom-keep last e.seq es m run h in
      (
        n',
        above,
        subst (λ fs. RunFrom n' fs m) (sym (keep-false (newer last) e es old)) later,
        λ early. meets (ground arith),
      )
  | inl new ↦ (
    n,
    ground arith,
    keep_all last n (e ∷ es) m (ground arith) (first, run),
    λ early. ground arith,
  )
]

abbrev letter : ℕ → Text → ℕ
letter i text = get_or_else (get_elem? text i) 0

sequence_key-apart : (a b : Text) → board_sequence_key a ≢ board_replay_key b
sequence_key-apart a b h = absurd (omega (arith, ap (letter 6) h))

replay_key-injective : (a b : Text) → board_replay_key a ≡ board_replay_key b → a ≡ b
replay_key-injective a b h = ap (drop 13) h

sequence_key-injective : (a b : Text) → board_sequence_key a ≡ board_sequence_key b → a ≡ b
sequence_key-injective a b h = ap (drop 10) h

module _ {Store : Type 0} (redis : RedisClient Store) (stringify : Envelope → Text)
    (parse : Text → Option Envelope)
    (round_trip : (e : Envelope) → parse (stringify e) ≡ some e) where
  abbrev pub entries_of : List Envelope → List (ℕ × Text)
  entries_of [] = []
  entries_of (e ∷ es) = (e.seq, stringify e) ∷ entries_of es

  -- The log of a board is a run that ends at the head of its sequence.
  abbrev pub IsLogged : Text → Store → Type 0
  IsLogged board store =
      (first : ℕ) × (es : List Envelope) × (redis.entries (board_replay_key board) store
        ≡ entries_of es)
      × RunFrom first es (current_sequence redis board store)

  -- A run starts before each of its frames.
  pub RunFrom-before :
      (n : ℕ) (es : List Envelope) (m after : ℕ) (value : Text)
      → RunFrom n es m
      → Memᴰ (after + 1, value) (entries_of es)
      → n ≤ after
  RunFrom-before n [] m after value run inside = elim inside [ ]
  RunFrom-before n (e ∷ es) m after value (first, run) (Memᴰ.head same) =
      let at : after + 1 ≡ e.seq = ap (λ p. p.0) same in omega (arith, RunFrom-le e.seq es m run)
  RunFrom-before n (e ∷ es) m after value (first, run) (Memᴰ.tail later) =
      omega (arith, RunFrom-before e.seq es m after value run later)

  entries_of-snoc :
      (es : List Envelope) (e : Envelope)
      → entries_of (es ++ e ∷ []) ≡ entries_of es ++ (e.seq, stringify e) ∷ []
  entries_of-snoc [] e = refl
  entries_of-snoc (f ∷ es) e = ap (◌∷◌ (f.seq, stringify f)) (entries_of-snoc es e)

  entries_of-drop : (k : ℕ) (es : List Envelope) → drop k (entries_of es) ≡ entries_of (drop k es)
  entries_of-drop zero es = refl
  entries_of-drop (suc k) [] = refl
  entries_of-drop (suc k) (e ∷ es) = entries_of-drop k es

  -- A new frame is later than a run's frames, and its text is none of theirs.
  older_frames :
      (n : ℕ) (es : List Envelope) (m : ℕ) (e : Envelope)
      → RunFrom n es m
      → e.seq ≡ suc m
      → All (λ entry. (entry.0 < e.seq) × (entry.1 ≢ stringify e)) (entries_of es)
  older_frames n [] m e run next = tt
  older_frames n (f ∷ es) m e (first, run) next =
      let below : f.seq < e.seq = omega (arith, RunFrom-le f.seq es m run) in
      (
        (
          below,
          λ same.
              let one : some f ≡ some e = sym (round_trip f) ∙ ap parse same ∙ round_trip e in
              let seqs : f.seq ≡ e.seq = ap (λ o. elim o [ none ↦ 0 | some g ↦ g.seq ]) one in
              absurd (omega arith),
        ),
        older_frames f.seq es m e run next,
      )

  run-kept :
      (c : Command) (board : Text) (store : Store)
      → key_of c ≢ board_sequence_key board
      → key_of c ≢ board_replay_key board
      → IsLogged board store
      → IsLogged board (redis.run c store)
  unfolding current_sequence
  run-kept c board store apart_seq apart_log (first, es, logged, run) =
      let (numbers, _) = redis.run-others c (board_sequence_key board) store apart_seq in
      let (_, sets) = redis.run-others c (board_replay_key board) store apart_log in
      (
        first,
        es,
        sets ∙ logged,
        subst (RunFrom first es) (ap (λ o. get_or_else o 0) (sym numbers)) run,
      )

  sequence-append :
      (e : Envelope) (board : Text) (store : Store)
      → redis.number_at (board_sequence_key board) (append_to_replay_log redis stringify e store)
        ≡ redis.number_at (board_sequence_key board) store
  unfolding append_to_replay_log
  sequence-append e board store =
      let key = board_replay_key e.board_id in
      let apart : key ≢ board_sequence_key board =
        λ h. sequence_key-apart board e.board_id (sym h) in
      let added = redis.run (z_add key e.seq (stringify e)) store in
      let trimmed = redis.run (z_rem_range_by_rank key 0 (replay_log_max_events + 1)) added in
      (redis.run-others (expire key replay_log_ttl_seconds) (board_sequence_key board) trimmed
        apart).0
      ∙ (redis.run-others (z_rem_range_by_rank key 0 (replay_log_max_events + 1))
          (board_sequence_key board) added apart).0
      ∙ (redis.run-others (z_add key e.seq (stringify e)) (board_sequence_key board) store apart).0

  -- The append of the next frame: the newest ones stay.
  append-logged :
      (e : Envelope) (head first : ℕ) (es : List Envelope) (store : Store)
      → redis.entries (board_replay_key e.board_id) store ≡ entries_of es
      → RunFrom first es head
      → e.seq ≡ suc head
      → (first' : ℕ) × (es' : List Envelope) × (redis.entries
            (board_replay_key e.board_id)
            (append_to_replay_log redis stringify e store)
          ≡ entries_of es')
        × RunFrom first' es' e.seq
  unfolding append_to_replay_log
  append-logged e head first es store logged run next =
      let key = board_replay_key e.board_id in
      let added = redis.run (z_add key e.seq (stringify e)) store in
      let all = es ++ e ∷ [] in
      let cut = length (redis.entries key added) - replay_log_max_events in
      let (first', later) =
        RunFrom-drop cut first all e.seq (RunFrom-snoc first es head e run next) in
      let fits : All (λ entry. (entry.0 < e.seq) × (entry.1 ≢ stringify e))
          (redis.entries key store) =
        subst (All _) (sym logged) (older_frames first es head e run next) in
      (
        first',
        drop cut all,
        redis.expire-later key replay_log_ttl_seconds _
            ∙ redis.z_rem_range_by_rank-lowest key replay_log_max_events added
            ∙ ap (drop cut) (
                redis.z_add-last key e.seq (stringify e) store fits
                ∙ ap (λ xs. xs ++ (e.seq, stringify e) ∷ []) logged
                ∙ sym (entries_of-snoc es e))
            ∙ entries_of-drop cut all,
        later,
      )

  IsLogged-own :
      (now : ℕ) (type : BoardMutationType) (board : Text) (payload : BoardMutationPayload)
      (store : Store)
      → IsLogged board store
      → IsLogged board (emit redis stringify completes now type board payload store).0
  unfolding emit next_sequence current_sequence
  IsLogged-own now type board payload store (first, es, logged, run) =
      let stamped = next_sequence redis board store in
      let e = envelope_of redis stringify now type board payload stamped in
      let (_, sets) =
        redis.run-others (incr (board_sequence_key board)) (board_replay_key board) store
          (sequence_key-apart board board) in
      let next : e.seq ≡ suc (current_sequence redis board store) =
        ap (λ o. get_or_else o 0) (redis.incr-next (board_sequence_key board) store) in
      let (first', es', log, later) =
        append-logged e (current_sequence redis board store) first es stamped (sets ∙ logged) run
          next in
      (
        first',
        es',
        log,
        subst (RunFrom first' es')
            (ap (λ o. get_or_else o 0) (sym (sequence-append e board stamped))) later,
      )

  IsLogged-foreign :
      (now : ℕ) (type : BoardMutationType) (written board : Text) (payload : BoardMutationPayload)
      (store : Store)
      → written ≢ board
      → IsLogged board store
      → IsLogged board (emit redis stringify completes now type written payload store).0
  unfolding emit next_sequence append_to_replay_log
  IsLogged-foreign now type written board payload store apart logged =
      let not_seq : board_replay_key written ≢ board_sequence_key board =
        λ h. sequence_key-apart board written (sym h) in
      let not_log : board_replay_key written ≢ board_replay_key board =
        λ h. apart (replay_key-injective written board h) in
      run-kept (expire (board_replay_key written) replay_log_ttl_seconds) board _ not_seq not_log (
        run-kept (z_rem_range_by_rank (board_replay_key written) 0 (replay_log_max_events + 1))
          board _ not_seq not_log
          (run-kept (z_add (board_replay_key written) _ _) board _ not_seq not_log (
            run-kept (incr (board_sequence_key written)) board store
              (λ h. apart (sequence_key-injective written board h))
              (sequence_key-apart written board) logged)))

  pub IsLogged-emit :
      (now : ℕ) (type : BoardMutationType) (written board : Text) (payload : BoardMutationPayload)
      (store : Store)
      → IsLogged board store
      → IsLogged board (emit redis stringify completes now type written payload store).0
  IsLogged-emit now type written board payload store logged =
      elim (Bool-cases (text_eq written board)) [
        | inl same ↦
            let e : board ≡ written = sym ((text_eq_iff written board).0 same) in
            subst (λ b. IsLogged board (emit redis stringify completes now type b payload store).0)
              e (IsLogged-own now type board payload store logged)
        | inr other ↦
            IsLogged-foreign now type written board payload store
              (λ e. absurd (ground (arith, (text_eq_iff written board).1 e))) logged
      ]
