-- ===== src/Ordering/Collisions.antt =====
-- backend/src/common/ordering/fractional-indexer.ts: the comparator for items whose position keys
-- may collide. `date_parse` is `Date.parse`; `none` stands for NaN. Epoch milliseconds are natural
-- numbers, so dates before 1970 are outside the model.
use flow_logix.Common.{
  ℕ, ◌≡◌, Option, Text, swap_ordering, cmp-swap, cmp-lt_trans, eq_of_cmp, text_eq_iff, ◌↔◌, ◌⊎◌,
  inl, inr, ◌<◌, refl, none, some, ap, sym, ◌∙◌, cmp_refl, arith, cmp, compare, Ordering,
  get_or_else,
}

pub data Timestamp : Type 0 where
  -- A `Date` or a number, by its milliseconds.
  date number : Option ℕ → Timestamp
  iso : Text → Timestamp

-- The time that a timestamp stands for: its epoch milliseconds, and 0 for each one that is invalid.
pub data StandsFor (date_parse : Text → Option ℕ) : Timestamp → ℕ → Type 0 where
  valid_date : {ms : ℕ} → StandsFor date_parse (date (some ms)) ms
  invalid_date : StandsFor date_parse (date none) 0
  valid_number : {ms : ℕ} → StandsFor date_parse (number (some ms)) ms
  not_a_number : StandsFor date_parse (number none) 0
  parsed : {s : Text} {ms : ℕ} → date_parse s ≡ some ms → StandsFor date_parse (iso s) ms
  unparsed : {s : Text} → date_parse s ≡ none → StandsFor date_parse (iso s) 0

pub record OrderableItem : Type 0 where
  pub position_idx : Text
  pub created_at : Timestamp
  pub id : Text

module _ (date_parse : Text → Option ℕ) where
  unfoldable pub to_millis : Timestamp → ℕ
  to_millis (date ms) = get_or_else ms 0
  to_millis (number ms) = get_or_else ms 0
  to_millis (iso s) = get_or_else (date_parse s) 0

  -- `a < b ? -1 : a > b ? 1 : next`
  abbrev first_of_two : Ordering → Ordering → Ordering
  first_of_two Ordering.lt next = Ordering.lt
  first_of_two Ordering.gt next = Ordering.gt
  first_of_two Ordering.eq next = next

  -- -1, 0 and 1 are `lt`, `eq` and `gt`.
  unfoldable pub compare_items : OrderableItem → OrderableItem → Ordering
  compare_items a b =
      first_of_two (cmp a.position_idx b.position_idx)
        (first_of_two (compare (to_millis a.created_at) (to_millis b.created_at)) (cmp a.id b.id))

  first_of_two-eq-lt :
      (o next : Ordering)
      → first_of_two o next ≡ Ordering.lt
      → (o ≡ Ordering.lt) ⊎ ((o ≡ Ordering.eq) × (next ≡ Ordering.lt))
  first_of_two-eq-lt Ordering.lt next h = inl refl
  first_of_two-eq-lt Ordering.eq next h = inr (refl, h)
  first_of_two-eq-lt Ordering.gt next h = cc

  -- By key, then by time, then by id.
  abbrev pub SortsBefore : OrderableItem → ℕ → OrderableItem → ℕ → Type 0
  SortsBefore a at_a b at_b =
      (cmp a.position_idx b.position_idx ≡ Ordering.lt)
      ⊎ ((a.position_idx ≡ b.position_idx) × (at_a < at_b))
      ⊎ ((a.position_idx ≡ b.position_idx) × (at_a ≡ at_b) × (cmp a.id b.id ≡ Ordering.lt))

  to_millis-StandsFor : (t : Timestamp) (ms : ℕ) → StandsFor date_parse t ms → to_millis t ≡ ms
  unfolding to_millis
  to_millis-StandsFor t ms valid_date = refl
  to_millis-StandsFor t ms invalid_date = refl
  to_millis-StandsFor t ms valid_number = refl
  to_millis-StandsFor t ms not_a_number = refl
  to_millis-StandsFor t ms (parsed h) = rw h refl
  to_millis-StandsFor t ms (unparsed h) = rw h refl

  -- The comparator sorts one item before another exactly if its key is the lesser, or the keys are
  -- equal and its time is the earlier, or keys and times are equal and its id is the lesser, where
  -- an invalid time counts as 0.
  pub compare_items_iff :
      (a b : OrderableItem) (at_a at_b : ℕ)
      → StandsFor date_parse a.created_at at_a
      → StandsFor date_parse b.created_at at_b
      → (compare_items a b ≡ Ordering.lt) ↔ SortsBefore a at_a b at_b
  unfolding compare_items
  compare_items_iff a b at_a at_b p q =
      let ta : to_millis a.created_at ≡ at_a = to_millis-StandsFor a.created_at at_a p in
      let tb : to_millis b.created_at ≡ at_b = to_millis-StandsFor b.created_at at_b q in
      (
        λ h. elim (first_of_two-eq-lt (cmp a.position_idx b.position_idx) _ h) [
          | inl lesser ↦ inl lesser
          | inr (level, later) ↦
              let keys : a.position_idx ≡ b.position_idx =
                eq_of_cmp a.position_idx b.position_idx level in
              elim (first_of_two-eq-lt (compare (to_millis a.created_at) (to_millis b.created_at)) _
                later) [
                  | inl earlier ↦ inr (inl (keys, ground arith))
                  | inr (same, last) ↦ inr (inr (keys, ground arith, last))
                ]
        ],
        λ h. elim h [
          | inl lesser ↦ rw lesser refl
          | inr (inl (keys, earlier)) ↦
              let level : cmp a.position_idx b.position_idx ≡ Ordering.eq =
                ap (cmp a.position_idx) (sym keys) ∙ cmp_refl a.position_idx in
              rw level (ground arith)
          | inr (inr (keys, same, last)) ↦
              let level : cmp a.position_idx b.position_idx ≡ Ordering.eq =
                ap (cmp a.position_idx) (sym keys) ∙ cmp_refl a.position_idx in
              rw level (ground arith)
        ],
      )

  compare_items-swap : (a b : OrderableItem) → compare_items b a ≡ swap_ordering (compare_items a b)
  unfolding compare_items
  compare_items-swap a b =
      ground (arith, cmp-swap a.position_idx b.position_idx, cmp-swap a.id b.id)

  -- Items that sort one before the other are transitive: the comparator sorts the first of three
  -- before the third if it sorts the first before the second and the second before the third.
  pub compare_items_trans :
      (a b c : OrderableItem)
      → compare_items a b ≡ Ordering.lt
      → compare_items b c ≡ Ordering.lt
      → compare_items a c ≡ Ordering.lt
  unfolding compare_items
  compare_items_trans a b c h k = ground (
    arith,
    cmp-lt_trans a.position_idx b.position_idx c.position_idx,
    cmp-lt_trans a.id b.id c.id,
    eq_of_cmp a.position_idx b.position_idx,
    eq_of_cmp b.position_idx c.position_idx,
    eq_of_cmp a.id b.id,
    eq_of_cmp b.id c.id,
  )

  -- Swapping two items swaps the comparator's answer, and it answers 0 exactly if the items have the
  -- same key, the same time in milliseconds and the same id.
  pub compare_items-total :
      (a b : OrderableItem)
      → (compare_items b a ≡ swap_ordering (compare_items a b))
        × ((compare_items a b ≡ Ordering.eq) ↔ (
            (a.position_idx ≡ b.position_idx)
            × (to_millis a.created_at ≡ to_millis b.created_at)
            × (a.id ≡ b.id)))
  unfolding compare_items
  compare_items-total a b = (
    compare_items-swap a b,
    (
      λ h. (
        ground (arith, eq_of_cmp a.position_idx b.position_idx),
        ground arith,
        ground (arith, eq_of_cmp a.id b.id),
      ),
      λ h.
          ground (
            arith,
            h.0,
            h.1,
            h.2,
            text_eq_iff a.position_idx b.position_idx,
            text_eq_iff a.id b.id,
          ),
    ),
  )
