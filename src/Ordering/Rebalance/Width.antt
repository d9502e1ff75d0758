-- ===== src/Ordering/Rebalance/Width.antt =====
-- The width that `rebalance` (backend/src/common/ordering/fractional-indexer.ts) settles on.
use native.Mathlib.Nat.{pow-le-pow_left, pow-le-pow_right, le_trans, lt_irrefl}
use flow_logix.Common.{
  ℕ, zero, suc, ◌+◌, ◌^◌, ◌≡◌, ◌≤◌, ◌<◌, true, ltb, ◌==◌, arith, inl, inr, Bool-cases, ap, ltb→lt,
  ltb_false→le,
}
use flow_logix.Ordering.Indexer.{ok}
use flow_logix.Ordering.Rebalance.{widen, is_safe_integer}

module _ (base required width : ℕ) (two : 2 ≤ base) where
  pub width-le : base ^ width < 2 ^ 53 → width < 53
  width-le h = elim (Bool-cases (ltb width 53)) [
    | inl small ↦ ltb→lt _ _ small
    | inr large ↦
        let grown : 2 ^ 53 ≤ 2 ^ width = pow-le-pow_right (omega arith) (ltb_false→le _ _ large) in
        absurd (lt_irrefl _ (le_trans h (le_trans grown (pow-le-pow_left two width))))
  ]

  grow :
      (start : ℕ)
      → start ≤ width
      → required ≤ base ^ width
      → ltb (base ^ start) required ≡ true
      → start + 1 ≤ width
  grow start le enough small = elim (Bool-cases (start == width)) [
    | inr other ↦ ground arith
    | inl same ↦
        let e : start ≡ width = ground arith in absurd (ground (arith, ap (λ t. base ^ t) e))
  ]

  -- The loop ends at a width that suffices, if one exists in the safe range.
  pub widen_total :
      (fuel start : ℕ)
      → start ≤ width
      → width < fuel + start
      → required ≤ base ^ width
      → is_safe_integer (base ^ width) ≡ true
      → (found : ℕ) × (widen fuel base required start ≡ ok found)
  unfolding widen
  widen_total zero start le fuel enough safe = absurd (omega arith)
  widen_total (suc fuel) start le more enough safe =
      elim (Bool-cases (ltb (base ^ start) required)) [
        | inr fits ↦ (start, rw fits)
        | inl small ↦
            let next = grow start le enough small in
            let mono : base ^ (start + 1) ≤ base ^ width = pow-le-pow_right (omega arith) next in
            let (found, answer) = widen_total fuel (start + 1) next (omega arith) enough safe in
            (found, ground (arith, answer))
      ]
