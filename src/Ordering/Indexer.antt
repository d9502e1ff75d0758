-- ===== src/Ordering/Indexer.antt =====
-- backend/src/common/ordering/fractional-indexer.ts: the class `FractionalIndexer`. A key is a
-- text over an ordered alphabet. The numbers that the source computes are below 2^53, where a
-- JavaScript number is exact; the code tests that bound itself and so does the model.
pub mod Alphabet
pub mod Between
pub mod SharedRun
pub mod Laws
pub mod Midpoint
pub use flow_logix.Ordering.Failure.{
  Error, short_alphabet, duplicate_char, unsorted_alphabet, bad_seed, zero_seed, empty_key,
  foreign_char, trailing_zero, not_before, not_between, midpoint_precondition, bad_target_length,
  unsafe_capacity, target_too_small, undefined_read, out_of_fuel, Result, ok, throw, guard, ◌>>=◌,
  ◌>>◌, >>=-eq-ok, guard-eq-ok, ok-injective, Result-cases,
}
use flow_logix.Common.{
  ℕ, zero, suc, ◌+◌, ◌-◌, ◌/◌, Bool, true, false, ◌&&◌, ◌||◌, not, Option, none, some, [], ◌∷◌,
  ◌++◌, Text, codes, text_lt, length, get_elem?, take, drop, ltb, leb, ◌==◌, if◌then◌else◌, is_some,
  get_or_else,
}

-- `alphabet`, `zero`, `seed` and `rankByChar`.
pub record Indexer : Type 0 where
  pub alphabet : Text
  pub zero_char : ℕ
  pub seed : ℕ
  pub rank_by_char : ℕ → Option ℕ

abbrev pub set_rank : (ℕ → Option ℕ) → ℕ → ℕ → ℕ → Option ℕ
set_rank rank c i d = if c == d then some i else rank d

-- `i > 0 && alphabet[i - 1] >= char`
abbrev pub not_after : Option ℕ → ℕ → Bool
not_after none c = false
not_after (some p) c = leb c p

-- The loop of the constructor from index `i` on; `before` is `alphabet[i - 1]`.
pub scan_alphabet : ℕ → Option ℕ → (ℕ → Option ℕ) → Text → Result (ℕ → Option ℕ)
scan_alphabet i before rank [] = ok rank
scan_alphabet i before rank (c ∷ cs) =
    let rest = scan_alphabet (i + 1) (some c) (set_rank rank c i) cs in
    if is_some (rank c)
    then throw duplicate_char
    else (if not_after before c then throw unsorted_alphabet else rest)

-- `alphabet[i]`, where the source reads inside the string.
abbrev pub char_at : Text → ℕ → Result ℕ
char_at s i = elim (get_elem? s i) [ none ↦ throw undefined_read | some c ↦ ok c ]

-- `seed ?? (rank.has('M') ? 'M' : alphabet[Math.floor(alphabet.length / 2)])`
abbrev pub resolve_seed : Text → (ℕ → Option ℕ) → Option Text → Result Text
resolve_seed alphabet rank (some seed) = ok seed
resolve_seed alphabet rank none =
    if is_some (rank b'M')
    then ok (b'M' ∷ [])
    else (do c ← char_at alphabet (length alphabet / 2); ok (c ∷ []))

-- The tests on the resolved seed, and its only character.
abbrev pub check_seed : (ℕ → Option ℕ) → ℕ → Text → Result ℕ
check_seed rank zero_char (c ∷ []) =
    if is_some (rank c) then (if c == zero_char then throw zero_seed else ok c) else throw bad_seed
check_seed rank zero_char _ = throw bad_seed

unfoldable pub make : Text → Option Text → Result Indexer
unfolding scan_alphabet
make alphabet seed = do
  guard (leb 2 (length alphabet)) short_alphabet
  rank ← scan_alphabet 0 none (λ _. none) alphabet
  zero_char ← char_at alphabet 0
  resolved ← resolve_seed alphabet rank seed
  c ← check_seed rank zero_char resolved
  ok (record { alphabet = alphabet; zero_char = zero_char; seed = c; rank_by_char = rank })

abbrev pub base62_alphabet : Text
base62_alphabet = codes "0123456789ABCDEFGHIJKLMNOPQRSTUVWXYZabcdefghijklmnopqrstuvwxyz"

-- `key[key.length - 1] === zero`
abbrev pub ends_in : ℕ → Text → Bool
ends_in z [] = false
ends_in z (c ∷ []) = c == z
ends_in z (c ∷ d ∷ cs) = ends_in z (d ∷ cs)

-- The two halves of a code point beyond the first 2^16, U+D800 to U+DBFF and U+DC00 to U+DFFF.
abbrev pub is_high_surrogate : ℕ → Bool
is_high_surrogate c = leb 55296 c && ltb c 56320

abbrev pub is_low_surrogate : ℕ → Bool
is_low_surrogate c = leb 56320 c && ltb c 57344

abbrev pub is_pair : ℕ → ℕ → Bool
is_pair c d = is_high_surrogate c && is_low_surrogate d

-- `for (const char of key)` takes a surrogate pair for one character, of two code units. The ranks
-- are those of single code units, so that no pair has one.
abbrev pub all_ranked : (ℕ → Option ℕ) → Text → Bool
all_ranked rank [] = true
all_ranked rank (c ∷ []) = is_some (rank c)
all_ranked rank (c ∷ d ∷ cs) =
    if is_pair c d then false else is_some (rank c) && all_ranked rank (d ∷ cs)

abbrev pub is_empty : Text → Bool
is_empty [] = true
is_empty (c ∷ cs) = false

-- The number of leading characters that `b` shares with `a`, which is padded by `zero`.
unfoldable pub shared_run : ℕ → Text → Text → ℕ
shared_run z a [] = 0
shared_run z [] (y ∷ b) = if z == y then suc (shared_run z [] b) else 0
shared_run z (x ∷ a) (y ∷ b) = if x == y then suc (shared_run z a b) else 0

module _ (ix : Indexer) where
  unfoldable pub rank_of : ℕ → Result ℕ
  rank_of c = elim (ix.rank_by_char c) [ none ↦ throw foreign_char | some r ↦ ok r ]

  -- `a.length > 0 ? rank(a[0]) : 0`
  unfoldable pub lower_digit : Text → Result ℕ
  lower_digit [] = ok 0
  lower_digit (x ∷ a) = rank_of x

  -- `b !== null ? rank(b[0]) : alphabet.length`
  unfoldable pub upper_digit : Option Text → Result ℕ
  upper_digit none = ok (length ix.alphabet)
  upper_digit (some []) = throw foreign_char
  upper_digit (some (y ∷ b)) = rank_of y

  -- `b !== null && a >= b`
  abbrev pub not_below : Text → Option Text → Bool
  not_below a none = false
  not_below a (some b) = not (text_lt a b)

  abbrev pub run_length : Text → Option Text → ℕ
  run_length a none = 0
  run_length a (some b) = shared_run ix.zero_char a b

  -- `b !== null && b.length > 1`, and `b.slice(0, 1)`.
  abbrev pub truncated : Option Text → Option Text
  truncated none = none
  truncated (some b) = if ltb 1 (length b) then some (take 1 b) else none

  -- `alphabet[Math.round(0.5 * (digitA + digitB))]`
  unfoldable pub middle_digit : ℕ → ℕ → Result Text
  middle_digit digit_a digit_b = do
    m ← char_at ix.alphabet ((digit_a + digit_b + 1) / 2)
    ok (m ∷ [])

  -- `alphabet[digitA] + midpoint(a.slice(1), null)`
  unfoldable pub keep_digit : ℕ → Result Text → Result Text
  keep_digit digit_a descend = do c ← char_at ix.alphabet digit_a; k ← descend; ok (c ∷ k)

  -- The rest of `midpoint` once no run is shared; `descend` is its last recursive call.
  unfoldable pub split_digits : Text → Option Text → Result Text → Result Text
  unfolding middle_digit keep_digit
  split_digits a b descend = do
    digit_a ← lower_digit a
    digit_b ← upper_digit b
    (if ltb 1 (digit_b - digit_a)
        then middle_digit digit_a digit_b
        else (elim (truncated b) [ none ↦ keep_digit digit_a descend | some t ↦ ok t ]))

  -- Private method `midpoint`, on fuel for its recursion.
  unfoldable pub midpoint : ℕ → Text → Option Text → Result Text
  midpoint zero a b = throw out_of_fuel
  midpoint (suc fuel) a b =
      let n = run_length a b in
      let inner = midpoint fuel (drop n a) (elim b [ none ↦ none | some t ↦ some (drop n t) ]) in
      let descend = midpoint fuel (drop 1 a) none in
      let split = split_digits a b descend in
      if not_below a b
      then throw midpoint_precondition
      else (if ltb 0 n then (do k ← inner; ok (take n (get_or_else b []) ++ k)) else split)

  unfoldable pub is_valid_key : Text → Bool
  is_valid_key key =
      if is_empty key
      then false
      else (if all_ranked ix.rank_by_char key then not (ends_in ix.zero_char key) else false)

  unfoldable pub assert_valid_key : Text → Result (Unit {0})
  assert_valid_key key =
      if is_empty key
      then throw empty_key
      else (if all_ranked ix.rank_by_char key
          then (if ends_in ix.zero_char key then throw trailing_zero else ok tt)
          else throw foreign_char)

  -- `if (prev !== null) this.assertValidKey(prev)`
  unfoldable pub assert_valid_bound : Option Text → Result (Unit {0})
  assert_valid_bound none = ok tt
  assert_valid_bound (some key) = assert_valid_key key

  -- `prev !== null && next !== null && prev >= next`
  abbrev pub bounds_crossed : Option Text → Option Text → Bool
  bounds_crossed (some p) (some q) = not (text_lt p q)
  bounds_crossed _ _ = false

  -- The defensive post-condition.
  abbrev pub is_outside : Option Text → Option Text → Text → Bool
  is_outside prev next key =
      (elim prev [ none ↦ false | some p ↦ not (text_lt p key) ])
      || (elim next [ none ↦ false | some q ↦ not (text_lt key q) ])

  abbrev pub is_open : Option Text → Option Text → Bool
  is_open none none = true
  is_open _ _ = false

  -- The fuel for `midpoint`: each call drops a character of a bound, or the upper bound itself.
  abbrev pub midpoint_fuel : Text → Option Text → ℕ
  midpoint_fuel a b = length a + length (get_or_else b []) + 3

  unfoldable pub get_intermediate_key : Option Text → Option Text → Result Text
  get_intermediate_key prev next = do
    assert_valid_bound prev
    assert_valid_bound next
    guard (not (bounds_crossed prev next)) not_before
    let a = get_or_else prev []
    let inside = (do
      key ← midpoint (midpoint_fuel a next) a next
      guard (not (is_outside prev next key)) not_between
      ok key)
    if is_open prev next then ok (ix.seed ∷ []) else inside
