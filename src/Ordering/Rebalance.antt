-- ===== src/Ordering/Rebalance.antt =====
-- backend/src/common/ordering/fractional-indexer.ts: `rebalance` and `encodeFixed`. The item count
-- and the forced width are natural numbers, so the tests that refuse negative and fractional ones
-- have no counterpart. The quotients are exact in the source too, which computes them in BigInt.
pub mod Width
pub mod Laws
pub mod Spelling
pub mod Spacing
use flow_logix.Common.{
  ℕ, zero, suc, ◌+◌, ◌*◌, ◌/◌, ◌%◌, ◌^◌, ◌-◌, ◌≡◌, Bool, true, false, not, Option, none, some, List,
  [], ◌∷◌, Text, length, leb, ltb, ◌==◌, if◌then◌else◌, get_or_else,
}
use flow_logix.Ordering.Indexer.{
  Indexer, Result, ok, throw, ◌>>=◌, ◌>>◌, guard, char_at, bad_target_length, unsafe_capacity,
  target_too_small, out_of_fuel,
}

-- `Number.isSafeInteger(n)`, for a natural number.
abbrev pub is_safe_integer : ℕ → Bool
is_safe_integer n = leb n (2 ^ 53 - 1)

-- The loop of `encodeFixed`, from the last character to the first.
unfoldable pub encode_from : Text → ℕ → ℕ → Text → Result Text
encode_from alphabet zero v chars = ok chars
encode_from alphabet (suc i) v chars = do
  c ← char_at alphabet (v % length alphabet)
  encode_from alphabet i (v / length alphabet) (c ∷ chars)

unfoldable pub encode_fixed : Text → ℕ → ℕ → Result Text
encode_fixed alphabet value width = encode_from alphabet width value []

-- The loop that widens the keys until the capacity suffices; it answers with the width.
unfoldable pub widen : ℕ → ℕ → ℕ → ℕ → Result ℕ
widen zero base required width = throw out_of_fuel
widen (suc fuel) base required width =
    let rest = widen fuel base required (width + 1) in
    if ltb (base ^ width) required
    then (if is_safe_integer (base ^ (width + 1)) then rest else throw unsafe_capacity)
    else ok width

-- The width of the keys: forced by the caller and then checked, or found by `widen`.
unfoldable pub key_width : ℕ → ℕ → Option ℕ → Result ℕ
key_width base required none = widen 55 base required 2
key_width base required (some target) = do
  guard (is_safe_integer (base ^ target)) unsafe_capacity
  guard (not (ltb (base ^ target) required)) target_too_small
  ok target

-- `value <= previousValue ? previousValue + 1 : value`, where `none` is the initial -1.
abbrev pub past : Option ℕ → ℕ → ℕ
past none value = value
past (some previous) value = if leb value previous then previous + 1 else value

-- `value % base === 0 ? value + 1 : value`
abbrev pub nudge : ℕ → ℕ → ℕ
nudge base value = if (value % base) == 0 then value + 1 else value

-- The loop that spaces the keys; `remaining` rounds are left from round `k` on.
unfoldable pub spread : Text → ℕ → ℕ → ℕ → ℕ → ℕ → Option ℕ → Result (List Text)
spread alphabet capacity gaps width zero k previous = ok []
spread alphabet capacity gaps width (suc remaining) k previous =
    let value = past previous (nudge (length alphabet) ((k + 1) * capacity / gaps)) in
    let rest = spread alphabet capacity gaps width remaining (k + 1) (some value) in
    (do key ← encode_fixed alphabet value width; keys ← rest; ok (key ∷ keys))

-- `targetLength === undefined || targetLength >= 2`
abbrev pub is_wide : Option ℕ → Bool
is_wide none = true
is_wide (some target) = leb 2 target

unfoldable pub rebalance : Indexer → ℕ → Option ℕ → Result (List Text)
rebalance ix zero target = ok []
rebalance ix (suc n) target = do
  guard (is_wide target) bad_target_length
  width ← key_width (length ix.alphabet) (2 * (suc n + 1)) target
  spread ix.alphabet (length ix.alphabet ^ width) (suc n + 1) width (suc n) 0 none
