-- ===== src/Ordering/Tests.antt =====
-- Runs of the ordering component at concrete inputs.
use flow_logix.Common.{
  ℕ, ◌≡◌, refl, inl, inr, ◌↔◌, true, false, ◌++◌, Option, none, some, List, [], ◌∷◌, Text, codes,
  cmp, arith, length, Ordering,
}
use flow_logix.Ordering.Indexer.{
  Indexer, Result, ok, throw, make, base62_alphabet, get_intermediate_key, is_valid_key,
  assert_valid_bound, assert_valid_key, midpoint, split_digits, shared_run, lower_digit,
  upper_digit, rank_of, middle_digit, keep_digit, trailing_zero, not_before, bad_target_length,
}
use flow_logix.Ordering.Indexer.Laws.{
  IsBound, InOrder, SortsAbove, SortsBelow, get_intermediate_key-between,
  get_intermediate_key-ok_iff,
}
use flow_logix.Ordering.Rebalance.{rebalance, key_width, widen, spread, encode_fixed, encode_from}
use flow_logix.Ordering.Rebalance.Laws.{
  IsBalanced, rebalance-IsBalanced, rebalance_total, Ascending,
}
use flow_logix.Ordering.Collisions.{
  OrderableItem, iso, number, compare_items, compare_items_iff, SortsBefore, unparsed, valid_number,
}
use flow_logix.Ordering.Position.{append_times, append_times-Ascending, is_valid}

-- A small indexer over the digits 0 to 9.
abbrev digits : Text
digits = codes "0123456789"

indexer_of : Result Indexer → Indexer
indexer_of (ok ix) = ix
indexer_of (throw e) = record { alphabet = []; zero_char = 0; seed = 0; rank_by_char = λ c. none }

decimal : Indexer
unfolding make indexer_of
decimal = indexer_of (make digits none)

decimal_made : make digits none ≡ ok decimal
unfolding decimal
decimal_made = refl

base62_indexer : Indexer
unfolding make indexer_of
base62_indexer = indexer_of (make base62_alphabet none)

base62_made : make base62_alphabet none ≡ ok base62_indexer
unfolding base62_indexer
base62_made = refl

program : Unit {0}
unfolding get_intermediate_key is_valid_key assert_valid_bound assert_valid_key midpoint
    split_digits shared_run lower_digit upper_digit rank_of middle_digit keep_digit cmp
    base62_indexer decimal rebalance key_width widen spread encode_fixed encode_from is_valid
    compare_items
program = tt

-- Two halves of a surrogate pair are two digits to the constructor and no digit to the test of a
-- key: the key that the indexer answers with is not one.
paired : Indexer
unfolding make indexer_of
paired = indexer_of (make (digits ++ 55357 ∷ 56832 ∷ []) none)

refuses_own_key :
    (get_intermediate_key paired (some (55357 ∷ 55357 ∷ [])) (some (56832 ∷ []))
      ≡ ok (55357 ∷ 56832 ∷ []))
    × (is_valid_key paired (55357 ∷ 56832 ∷ []) ≡ false)
unfolding program paired
refuses_own_key = (refl, refl)

runs :
    (get_intermediate_key base62_indexer (some (codes "b")) (some (codes "c")) ≡ ok (codes "bV"))
    × (get_intermediate_key base62_indexer none none ≡ ok (codes "M"))
    × (get_intermediate_key base62_indexer (some (codes "10")) none ≡ throw trailing_zero)
    × (get_intermediate_key base62_indexer (some (codes "c")) (some (codes "b")) ≡ throw not_before)
    × (rebalance decimal 3 none ≡ ok (codes "25" ∷ codes "51" ∷ codes "75" ∷ []))
    × (rebalance decimal 3 (some 1) ≡ throw bad_target_length)
unfolding program
runs = (refl, refl, refl, refl, refl, refl)

between_two_keys :
    (k : Text) × (get_intermediate_key base62_indexer (some (codes "b")) (some (codes "c")) ≡ ok k)
    × (is_valid_key base62_indexer k ≡ true)
    × SortsAbove (some (codes "b")) k
    × SortsBelow k (some (codes "c"))
unfolding program
between_two_keys =
    get_intermediate_key-between base62_alphabet none base62_indexer (some (codes "b"))
      (some (codes "c")) base62_made refl refl refl refl

answers-InOrder :
    ((k : Text) × (get_intermediate_key base62_indexer (some (codes "b")) (some (codes "a"))
        ≡ ok k))
    ↔ (IsBound base62_indexer (some (codes "b"))
        × IsBound base62_indexer (some (codes "a"))
        × InOrder (some (codes "b")) (some (codes "a")))
unfolding base62_indexer
answers-InOrder =
    get_intermediate_key-ok_iff base62_alphabet none base62_indexer (some (codes "b"))
      (some (codes "a")) base62_made refl

three_keys : IsBalanced decimal 3 (codes "25" ∷ codes "51" ∷ codes "75" ∷ [])
unfolding program
three_keys =
    rebalance-IsBalanced digits none decimal 3 none (codes "25" ∷ codes "51" ∷ codes "75" ∷ [])
      decimal_made refl refl

four_keys_exist :
    (keys : List Text) × (rebalance decimal 4 none ≡ ok keys) × IsBalanced decimal 4 keys
unfolding decimal
four_keys_exist =
    rebalance_total digits none decimal 3 2 decimal_made refl (omega arith) (omega arith)
      (omega arith)

abbrev parse_nothing : Text → Option ℕ
parse_nothing s = none

abbrev item : ℕ → OrderableItem
item n = record { position_idx = codes "M"; created_at = iso (codes "today"); id = n ∷ [] }

-- Of two items with one key, the one whose time is invalid comes first, though its id is the greater.
abbrev made_then : OrderableItem
made_then = record { position_idx = codes "M"; created_at = number (some 7); id = 1 ∷ [] }

sorts_by_time :
    (compare_items parse_nothing (item 2) made_then ≡ Ordering.lt)
    ↔ SortsBefore parse_nothing (item 2) 0 made_then 7
sorts_by_time = compare_items_iff parse_nothing (item 2) made_then 0 7 (unparsed refl) valid_number

in_time_order : compare_items parse_nothing (item 2) made_then ≡ Ordering.lt
in_time_order =
    (compare_items_iff parse_nothing (item 2) made_then 0 7 (unparsed refl) valid_number).1
      (inr (inl (refl, omega arith)))

appends_three :
    (keys : List Text) × (append_times base62_indexer 3 (codes "z") ≡ ok keys)
    × (length keys ≡ 3)
    × Ascending (codes "z" ∷ keys)
unfolding program
appends_three = append_times-Ascending base62_indexer 3 (codes "z") base62_made refl
