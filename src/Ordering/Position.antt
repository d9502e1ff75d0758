-- ===== src/Ordering/Position.antt =====
-- backend/src/common/ordering/position.service.ts: `PositionService`, over one Base62 indexer.
use flow_logix.Common.{
  ℕ, zero, suc, ◌≡◌, refl, Bool, true, Option, none, some, List, [], ◌∷◌, Text, length, ap, subst,
  if◌then◌else◌,
}
use flow_logix.Ordering.Indexer.{
  Indexer, Result, ok, throw, ◌>>=◌, make, base62_alphabet, get_intermediate_key, is_valid_key,
}
use flow_logix.Ordering.Indexer.Alphabet.{IsPlain}
use flow_logix.Ordering.Indexer.Laws.{get_intermediate_key-between}
use flow_logix.Ordering.Rebalance.{rebalance}
use flow_logix.Ordering.Rebalance.Laws.{Ascending}

-- `new FractionalIndexer()`
abbrev pub base62 : Result Indexer
base62 = make base62_alphabet none

pub data ServiceResult {ℓ} (A : Type ℓ) : Type ℓ where
  done : A → ServiceResult A
  -- `BadRequestException`
  bad_request : Text → ServiceResult A

module _ (indexer : Indexer) where
  unfoldable pub key_between : Option Text → Option Text → Result Text
  key_between prev next = get_intermediate_key indexer prev next

  unfoldable pub key_for_append : Option Text → Result Text
  key_for_append last = get_intermediate_key indexer last none

  unfoldable pub is_valid : Text → Bool
  is_valid key = is_valid_key indexer key

  pub assert_valid : Text → ServiceResult (Unit {0})
  unfolding is_valid
  assert_valid key = if is_valid key then done tt else bad_request key

  unfoldable pub rebalanced_keys : ℕ → Result (List Text)
  rebalanced_keys count = rebalance indexer count none

  -- The keys that `n` further appends mint after `last`.
  pub append_times : ℕ → Text → Result (List Text)
  append_times zero last = ok []
  append_times (suc n) last = do
    next ← key_for_append (some last)
    keys ← append_times n next
    ok (next ∷ keys)

abbrev alphabet_of : Result Indexer → Text
alphabet_of (ok ix) = ix.alphabet
alphabet_of (throw e) = []

alphabet_of-IsPlain : IsPlain (alphabet_of base62)
unfolding make
alphabet_of-IsPlain = refl

pub base62-IsPlain : (indexer : Indexer) → base62 ≡ ok indexer → IsPlain indexer.alphabet
base62-IsPlain indexer made = subst (λ r. IsPlain (alphabet_of r)) made alphabet_of-IsPlain

appends :
    (indexer : Indexer) (n : ℕ) (last : Text)
    → base62 ≡ ok indexer
    → is_valid indexer last ≡ true
    → (keys : List Text) × (append_times indexer n last ≡ ok keys)
      × (length keys ≡ n)
      × Ascending (last ∷ keys)
unfolding append_times key_for_append is_valid
appends indexer zero last made valid = ([], refl, refl, tt)
appends indexer (suc n) last made valid =
    let (next, minted, next_valid, above, _) =
      get_intermediate_key-between base62_alphabet none indexer (some last) none made
        (base62-IsPlain indexer made) valid tt tt in
    let (keys, more, counted, ascending) = appends indexer n next made next_valid in
    (next ∷ keys, rw (minted, more), ap suc counted, (above, ascending))

-- From a well-formed last key, any number of appends through the Base62 service succeeds; it mints
-- one key for each append, and the column stays in ascending order.
pub append_times-Ascending :
    (indexer : Indexer) (n : ℕ) (last : Text)
    → base62 ≡ ok indexer
    → is_valid indexer last ≡ true
    → (keys : List Text) × (append_times indexer n last ≡ ok keys)
      × (length keys ≡ n)
      × Ascending (last ∷ keys)
append_times-Ascending indexer n last made valid = appends indexer n last made valid
