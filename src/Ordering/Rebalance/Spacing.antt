-- ===== src/Ordering/Rebalance/Spacing.antt =====
-- The evenly spaced values of `rebalance`: far enough apart that a nudge off a trailing zero keeps
-- their order, and all below the capacity.
use native.Mathlib.Nat.{
  div-add-mod, mul-le-mul_right, le-div_iff_mul-le, div-mul-le_self, mul-add-mod_self_left,
  mod-eq_of_lt,
}
use flow_logix.Common.{
  ℕ, ◌+◌, ◌*◌, ◌/◌, ◌%◌, ◌≡◌, ◌≤◌, ◌<◌, some, leb, ◌==◌, arith, inl, inr, Bool-cases, ap, ◌∙◌,
  leb→le, sym,
}
use flow_logix.Ordering.Rebalance.{past, nudge}

module _ (base capacity gaps : ℕ) where
  -- The value of round `k`, before the test against the previous one.
  unfoldable pub pick : ℕ → ℕ
  pick k = nudge base ((k + 1) * capacity / gaps)

  module _ (two : 2 ≤ base) (some_gap : 0 < gaps) (roomy : 2 * gaps ≤ capacity) where
    nudge_bounds : (v : ℕ) → (v ≤ nudge base v) × (nudge base v ≤ v + 1)
    nudge_bounds v = ground arith

    one_more : (v : ℕ) → v % base ≡ 0 → (v + 1) % base ≡ 1
    one_more v h =
        let split : base * (v / base) + 1 ≡ v + 1 = omega (arith, div-add-mod v base) in
        ap (λ t. t % base) (sym split)
        ∙ mul-add-mod_self_left base (v / base) 1
        ∙ mod-eq_of_lt (omega arith)

    nudge_mod : (v : ℕ) → 0 < nudge base v % base
    nudge_mod v = elim (Bool-cases ((v % base) == 0)) [
      | inr odd ↦ ground arith
      | inl even ↦ rw (even) (rw (one_more v (ground arith)) (omega arith))
    ]

    quotient_gap : (k : ℕ) → (k + 1) * capacity / gaps + 2 ≤ (k + 2) * capacity / gaps
    quotient_gap k =
        (le-div_iff_mul-le some_gap).1 (omega (arith, div-mul-le_self ((k + 1) * capacity) gaps))

    quotient_bound : (k : ℕ) → k + 1 < gaps → (k + 1) * capacity / gaps + 2 ≤ capacity
    quotient_bound k h = elim (Bool-cases (leb ((k + 1) * capacity / gaps + 2) capacity)) [
      | inl fits ↦ leb→le _ _ fits
      | inr over ↦
          let q = (k + 1) * capacity / gaps in
          let wide : capacity ≤ q + 1 = ground arith in
          absurd (
            omega (
              arith,
              div-mul-le_self ((k + 1) * capacity) gaps,
              mul-le-mul_right gaps wide,
              mul-le-mul_right capacity h,
            ))
    ]

    pub pick_lt : (k : ℕ) → pick k < pick (k + 1)
    unfolding pick
    pick_lt k =
        let step : (k + 1 + 1) * capacity / gaps ≡ (k + 2) * capacity / gaps =
          ap (λ t. t * capacity / gaps) (omega arith) in
        omega (
          arith,
          nudge_bounds ((k + 1) * capacity / gaps),
          nudge_bounds ((k + 1 + 1) * capacity / gaps),
          quotient_gap k,
          step,
        )

    pub pick-lt_capacity : (k : ℕ) → k + 1 < gaps → pick k < capacity
    unfolding pick
    pick-lt_capacity k h =
        omega (arith, nudge_bounds ((k + 1) * capacity / gaps), quotient_bound k h)

    pub pick_mod : (k : ℕ) → 0 < pick k % base
    unfolding pick
    pick_mod k = nudge_mod ((k + 1) * capacity / gaps)

    -- The test against the previous value never fires.
    pub past-pick : (k : ℕ) → past (some (pick k)) (pick (k + 1)) ≡ pick (k + 1)
    past-pick k = ground (arith, pick_lt k)
