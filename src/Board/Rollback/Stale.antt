-- ===== src/Board/Rollback/Stale.antt =====
-- An answer to `moveCard` (frontend/src/store/useBoardStore.ts) that comes after a newer move.
use flow_logix.Common.{
  ℕ, suc, ◌≡◌, ◌≤◌, ◌<◌, ◌+◌, refl, ap, Option, none, some, Text, arith, lookup, get_or_else,
  lookup-put, text_eq_iff, cmp_refl, inl, inr, Option-cases,
}
use flow_logix.Board.State.{BoardMutationEnvelope}
use flow_logix.Board.Remote.{
  ReconcilePatch, replaces, needs_resync, nothing, reconcile_remote_mutation,
}
use flow_logix.Board.Store.{
  Store, PendingMove, version_of, toggle_checklist_item, apply_remote_mutation, begin_move,
  show_move, stamp_move, roll_back, latest, bump_version, merge_patch, overridden_card,
}
use flow_logix.Board.Steps.{Step, Steps, frame, toggle, begin, show, stamp, fail, done, next}

-- What overrides a pending move of a card: a frame of a peer that moves or deletes the card, or the
-- start of another move of it.
pub data Overrides (m : PendingMove) : Store → Store → Type 0 where
  by_frame :
      (e : BoardMutationEnvelope) {s : Store}
      → overridden_card e ≡ some m.card_id
      → Overrides m s (apply_remote_mutation e s)
  by_move :
      (from_list_id to_list_id : Text) (to_index : ℕ) (n : PendingMove) {s t : Store}
      → begin_move m.card_id from_list_id to_list_id to_index s ≡ some (n, t)
      → Overrides m s t

merge_patch-versions :
    (p : ReconcilePatch) (s : Store) → (merge_patch p s).move_versions ≡ s.move_versions
merge_patch-versions (replaces board) s = refl
merge_patch-versions needs_resync s = refl
merge_patch-versions nothing s = refl

apply_remote-versions :
    (c : Text) (e : BoardMutationEnvelope) (s : Store)
    → version_of s c ≤ version_of (apply_remote_mutation e s) c
unfolding apply_remote_mutation bump_version
apply_remote-versions c e s =
    let patched = merge_patch (reconcile_remote_mutation s.board e) s in
    elim (Option-cases (overridden_card e)) [
      | inl untouched ↦
          ground
            (arith, ap (lookup c) (merge_patch-versions (reconcile_remote_mutation s.board e) s))
      | inr (d, touched) ↦ ground (
        arith,
        ap (lookup c) (merge_patch-versions (reconcile_remote_mutation s.board e) s),
        lookup-put d c (version_of patched d + 1) patched.move_versions,
        text_eq_iff d c,
      )
    ]

apply_remote-bumps :
    (c : Text) (e : BoardMutationEnvelope) (s : Store)
    → overridden_card e ≡ some c
    → version_of s c < version_of (apply_remote_mutation e s) c
unfolding apply_remote_mutation bump_version
apply_remote-bumps c e s touched =
    let patched = merge_patch (reconcile_remote_mutation s.board e) s in
    ground (
      arith,
      ap (lookup c) (merge_patch-versions (reconcile_remote_mutation s.board e) s),
      lookup-put c c (version_of patched c + 1) patched.move_versions,
      cmp_refl c,
    )

begin_move-versions :
    (c d a b : Text) (n : ℕ) (m : PendingMove) (s t : Store)
    → begin_move d a b n s ≡ some (m, t)
    → version_of s c ≤ version_of t c
unfolding begin_move
begin_move-versions c d a b n m s t e =
    ground (arith, lookup-put d c (version_of s d + 1) s.move_versions, text_eq_iff d c)

begin_move-bumps :
    (c a b : Text) (n : ℕ) (m : PendingMove) (s t : Store)
    → begin_move c a b n s ≡ some (m, t)
    → (version_of t c ≡ suc (version_of s c)) × (m.version ≡ version_of t c) × (m.card_id ≡ c)
unfolding begin_move
begin_move-bumps c a b n m s t e = (
  ground (arith, lookup-put c c (version_of s c + 1) s.move_versions, cmp_refl c),
  ground (arith, lookup-put c c (version_of s c + 1) s.move_versions, cmp_refl c),
  ground arith,
)

toggle-versions :
    (c i : Text) (s : Store) → (toggle_checklist_item c i s).move_versions ≡ s.move_versions
unfolding toggle_checklist_item
toggle-versions c i s = ground arith

show_move-versions : (m : PendingMove) (s : Store) → (show_move m s).move_versions ≡ s.move_versions
unfolding show_move
show_move-versions m s = ground arith

stamp_move-versions :
    (m : PendingMove) (key : Option Text) (s : Store)
    → (stamp_move m key s).move_versions ≡ s.move_versions
unfolding stamp_move
stamp_move-versions m key s = ground arith

roll_back-versions :
    (m : PendingMove) (message : Text) (s : Store)
    → (roll_back m message s).move_versions ≡ s.move_versions
unfolding roll_back
roll_back-versions m message s = ground arith

Step-versions : (c : Text) {s t : Store} → Step s t → version_of s c ≤ version_of t c
Step-versions c (frame e {s}) = apply_remote-versions c e s
Step-versions c (toggle d i {s}) =
    omega (arith, ap (λ v. get_or_else (lookup c v) 0) (toggle-versions d i s))
Step-versions c (begin d a b n m {s} {t} e) = begin_move-versions c d a b n m s t e
Step-versions c (show m {s}) =
    omega (arith, ap (λ v. get_or_else (lookup c v) 0) (show_move-versions m s))
Step-versions c (stamp m key {s}) =
    omega (arith, ap (λ v. get_or_else (lookup c v) 0) (stamp_move-versions m key s))
Step-versions c (fail m message {s}) =
    omega (arith, ap (λ v. get_or_else (lookup c v) 0) (roll_back-versions m message s))

Steps-versions : (c : Text) {s t : Store} → Steps s t → version_of s c ≤ version_of t c
Steps-versions c done = omega arith
Steps-versions c (next first last) = omega (arith, Steps-versions c first, Step-versions c last)

Overrides-bumps :
    {m : PendingMove} {s t : Store}
    → Overrides m s t
    → version_of s m.card_id < version_of t m.card_id
Overrides-bumps {m} (by_frame e {s} touched) = apply_remote-bumps m.card_id e s touched
Overrides-bumps {m} (by_move a b n k {s} {t} e) =
    omega (arith, (begin_move-bumps m.card_id a b n k s t e).0)

stale_of_version :
    (m : PendingMove) (s : Store) → m.version < version_of s m.card_id → latest m s ≡ none
unfolding latest
stale_of_version m s h = ground arith

-- Once a frame of a peer, or a newer move, has overridden a pending move, the answer to it leaves the
-- board as it finds it: neither the rollback of a failure nor the key of a success changes a list or
-- a card. Before the override, and between it and the answer, any number of frames, toggled items
-- and begun, shown, answered and failed moves may come, but no new snapshot of the board is loaded.
pub overridden-board :
    (c a b : Text) (n : ℕ) (m : PendingMove) (s t u v w : Store) (key : Option Text)
    (message : Text)
    → begin_move c a b n s ≡ some (m, t)
    → Steps t u
    → Overrides m u v
    → Steps v w
    → ((roll_back m message w).board ≡ w.board) × (stamp_move m key w ≡ w)
unfolding roll_back stamp_move
overridden-board c a b n m s t u v w key message begun first over second =
    let (p, q, r) = begin_move-bumps c a b n m s t begun in
    let stale : latest m w ≡ none = stale_of_version m w (
      omega (
        arith,
        q,
        ap (version_of t) r,
        Steps-versions m.card_id first,
        Overrides-bumps over,
        Steps-versions m.card_id second,
      )) in
    (ground arith, ground arith)
