-- ===== src/Crdt/Clock.antt =====
-- mobile/src/crdt/clock.ts: `HybridClock`, whose state is the last stamp that it issued. The wall
-- clock, in milliseconds, is an argument of each call.
use flow_logix.Common.{ℕ, ◌+◌, ◌*◌, ◌<◌, ◌≤◌, List, [], ◌∷◌, arith, ltb, if◌then◌else◌}

-- Method `now`: the new state, which is the stamp that it returns.
pub now : ℕ → ℕ → ℕ
now date_now last = let wall = date_now * 1000 in if ltb last wall then wall else last + 1

-- The stamps of a run of calls, by the wall clock's reading at each.
pub stamps : List ℕ → ℕ → List ℕ
stamps [] last = []
stamps (t ∷ ts) last = now t last ∷ stamps ts (now t last)

abbrev pub StrictlyIncreasing : ℕ → List ℕ → Type 0
StrictlyIncreasing last [] = Unit
StrictlyIncreasing last (s ∷ ss) = (last < s) × StrictlyIncreasing s ss

now-lt : (date_now last : ℕ) → last < now date_now last
unfolding now
now-lt date_now last = ground arith

now-ge : (date_now last : ℕ) → date_now * 1000 ≤ now date_now last
unfolding now
now-ge date_now last = ground arith

stamps-rising : (readings : List ℕ) (last : ℕ) → StrictlyIncreasing last (stamps readings last)
unfolding stamps
stamps-rising [] last = tt
stamps-rising (t ∷ ts) last = (now-lt t last, stamps-rising ts (now t last))

-- Whatever the wall clock reads, stalled or stepped back, each stamp exceeds all those before it,
-- and no stamp lies behind the wall clock at which it was issued.
pub stamps-StrictlyIncreasing :
    (readings : List ℕ) (last : ℕ)
    → StrictlyIncreasing last (stamps readings last)
      × ((date_now before : ℕ) → date_now * 1000 ≤ now date_now before)
stamps-StrictlyIncreasing readings last = (stamps-rising readings last, now-ge)
