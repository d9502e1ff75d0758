-- ===== src/Ordering/Indexer/SharedRun.antt =====
-- The leading run that two bounds of `midpoint` share (fractional-indexer.ts), with zero padding.
use flow_logix.Common.{
  ℕ, zero, suc, ◌≡◌, refl, inl, inr, false, [], ◌∷◌, ◌++◌, Text, take, drop, ◌==◌, arith, ◌∙◌,
  Bool-cases, cmp, cmp_refl, sym, subst, Ordering,
}
use flow_logix.Ordering.Indexer.{ends_in, is_empty, shared_run}
use flow_logix.Ordering.Indexer.Midpoint.{ends_in-cons}

drop-nil : (n : ℕ) → drop {A = ℕ} n [] ≡ []
drop-nil zero = refl
drop-nil (suc n) = refl

filled_of_lt : (a b : Text) → cmp a b ≡ Ordering.lt → is_empty b ≡ false
unfolding cmp
filled_of_lt [] [] h = cc
filled_of_lt (x ∷ a) [] h = cc
filled_of_lt a (y ∷ b) h = refl

-- What remains of two bounds after their shared run, and how a key between the rests extends.
pub record Splits (z : ℕ) (a b : Text) (n : ℕ) : Type 0 where
  pub filled : is_empty (drop n b) ≡ false
  pub below : cmp (drop n a) (drop n b) ≡ Ordering.lt
  pub spare : ends_in z (drop n b) ≡ false
  pub done : shared_run z (drop n a) (drop n b) ≡ 0
  pub lower :
      (k : Text)
      → cmp (drop n a) k ≡ Ordering.lt
      → is_empty k ≡ false
      → cmp a (take n b ++ k) ≡ Ordering.lt
  pub upper : (k : Text) → cmp k (drop n b) ≡ Ordering.lt → cmp (take n b ++ k) b ≡ Ordering.lt

Splits-cons : (z x : ℕ) (a b : Text) (n : ℕ) → Splits z a b n → Splits z (x ∷ a) (x ∷ b) (suc n)
unfolding cmp
Splits-cons z x a b n s = record {
  filled = s.filled;
  below = s.below;
  spare = s.spare;
  done = s.done;
  lower = λ k h e. ground (arith, s.lower k h e);
  upper = λ k h. ground (arith, s.upper k h);
}

Splits-pad : (z : ℕ) (b : Text) (n : ℕ) → Splits z [] b n → Splits z [] (z ∷ b) (suc n)
unfolding cmp
Splits-pad z b n s = record {
  filled = s.filled;
  below = rw drop-nil at s.below;
  spare = s.spare;
  done = rw drop-nil at s.done;
  lower = λ k h e. refl;
  upper = λ k h. ground (arith, s.upper k h);
}

Splits-here :
    (z : ℕ) (a b : Text)
    → is_empty b ≡ false
    → cmp a b ≡ Ordering.lt
    → ends_in z b ≡ false
    → shared_run z a b ≡ 0
    → Splits z a b 0
Splits-here z a b e lt spare done = record {
  filled = e;
  below = lt;
  spare = spare;
  done = done;
  lower = λ k h e. h;
  upper = λ k h. h;
}

module _ (z : ℕ) where
  shared_run_same : (x : ℕ) (a b : Text) → shared_run z (x ∷ a) (x ∷ b) ≡ suc (shared_run z a b)
  unfolding shared_run
  shared_run_same x a b = ground arith

  shared_run_pad : (b : Text) → shared_run z [] (z ∷ b) ≡ suc (shared_run z [] b)
  unfolding shared_run
  shared_run_pad b = ground arith

  shared_run_other : (x y : ℕ) (a b : Text) → x == y ≡ false → shared_run z (x ∷ a) (y ∷ b) ≡ 0
  unfolding shared_run
  shared_run_other x y a b h = ground arith

  shared_run_other_pad : (y : ℕ) (b : Text) → z == y ≡ false → shared_run z [] (y ∷ b) ≡ 0
  unfolding shared_run
  shared_run_other_pad y b h = ground arith

  cmp-tail : (x : ℕ) (a b : Text) → cmp (x ∷ a) (x ∷ b) ≡ cmp a b
  unfolding cmp
  cmp-tail x a b = ground arith

  pad_filled :
      (b : Text) → ends_in z (z ∷ b) ≡ false → (is_empty b ≡ false) × (cmp [] b ≡ Ordering.lt)
  unfolding cmp
  pad_filled [] h = absurd (ground arith)
  pad_filled (x ∷ b) h = (refl, refl)

  pub shared_run-Splits :
      (a b : Text) → cmp a b ≡ Ordering.lt → ends_in z b ≡ false → Splits z a b (shared_run z a b)
  shared_run-Splits [] [] lt spare = absurd (cc (cmp_refl []))
  shared_run-Splits (x ∷ a) [] lt spare = absurd (cc (filled_of_lt (x ∷ a) [] lt))
  shared_run-Splits [] (y ∷ b) lt spare = elim (Bool-cases (z == y)) [
    | inl same ↦
        let e : z ≡ y = ground arith in
        let spare' = subst (λ t. ends_in z (t ∷ b) ≡ false) (sym e) spare in
        let (filled, less) = pad_filled b spare' in
        subst (λ t. Splits z [] (t ∷ b) (shared_run z [] (t ∷ b))) e
          (rw (shared_run_pad b) (
            Splits-pad z b (shared_run z [] b)
              (shared_run-Splits [] b less (sym (ends_in-cons z z b filled) ∙ spare'))))
    | inr other ↦
        let none_shared = shared_run_other_pad y b other in
        rw none_shared (Splits-here z [] (y ∷ b) refl lt spare none_shared)
  ]
  shared_run-Splits (x ∷ a) (y ∷ b) lt spare = elim (Bool-cases (x == y)) [
    | inl same ↦
        let e : x ≡ y = ground arith in
        let less : cmp a b ≡ Ordering.lt = sym (cmp-tail x a b) ∙ (rw (← e) at lt) in
        subst (λ t. Splits z (x ∷ a) (t ∷ b) (shared_run z (x ∷ a) (t ∷ b))) e
          (rw (shared_run_same x a b) (
            Splits-cons z x a b (shared_run z a b) (
              shared_run-Splits a b less
                (sym (ends_in-cons z y b (filled_of_lt a b less)) ∙ spare))))
    | inr other ↦
        let none_shared = shared_run_other x y a b other in
        rw none_shared (Splits-here z (x ∷ a) (y ∷ b) refl lt spare none_shared)
  ]
