-- ===== src/Ordering/Indexer/Laws.antt =====
-- `getIntermediateKey` of fractional-indexer.ts: when it answers, and where its answer sorts.
use flow_logix.Common.{
  ◌+◌, ◌≡◌, ◌↔◌, refl, inl, inr, true, false, Option, none, some, [], ◌∷◌, Text, length, arith, cmp,
  text_lt, Ordering,
}
use flow_logix.Ordering.Indexer.{
  Indexer, ok, is_empty, midpoint, is_valid_key, assert_valid_key, assert_valid_bound,
  bounds_crossed, midpoint_fuel, get_intermediate_key, make, Result-cases,
}
use flow_logix.Ordering.Indexer.Alphabet.{
  IsIndexer, make-IsIndexer, IsPlain, units_ranked, all_ranked-units_ranked,
  units_ranked-all_ranked,
}
use flow_logix.Ordering.Indexer.Midpoint.{IsKey, midpoint_open, single-IsKey}
use flow_logix.Ordering.Indexer.Between.{midpoint_between}

-- A bound of an insertion: absent, or a well-formed key.
abbrev pub IsBound : Indexer → Option Text → Type 0
IsBound ix none = Unit
IsBound ix (some key) = is_valid_key ix key ≡ true

abbrev pub SortsAbove : Option Text → Text → Type 0
SortsAbove none k = Unit
SortsAbove (some p) k = text_lt p k ≡ true

abbrev pub SortsBelow : Text → Option Text → Type 0
SortsBelow k none = Unit
SortsBelow k (some q) = text_lt k q ≡ true

abbrev pub InOrder : Option Text → Option Text → Type 0
InOrder none next = Unit
InOrder (some p) next = SortsBelow p next

nil-text_lt : (b : Text) → is_empty b ≡ false → text_lt [] b ≡ true
unfolding cmp
nil-text_lt [] h = cc
nil-text_lt (y ∷ b) h = refl

module _ (ix : Indexer) where
  pub is_valid_key-IsKey : (k : Text) → is_valid_key ix k ≡ true → IsKey ix k
  unfolding is_valid_key
  is_valid_key-IsKey k h = record {
    filled = ground arith;
    known = all_ranked-units_ranked ix.rank_by_char k (ground arith);
    spare = ground arith;
  }

  pub IsKey-is_valid_key :
      IsIndexer ix → IsPlain ix.alphabet → (k : Text) → IsKey ix k → is_valid_key ix k ≡ true
  unfolding is_valid_key
  IsKey-is_valid_key w plain k v =
      ground (arith, units_ranked-all_ranked ix w plain k v.known, v.filled, v.spare)

  assert_valid_bound-ok : (b : Option Text) → IsBound ix b → assert_valid_bound ix b ≡ ok tt
  unfolding assert_valid_bound assert_valid_key is_valid_key
  assert_valid_bound-ok none h = refl
  assert_valid_bound-ok (some k) h = ground arith

  assert_valid_bound-IsBound :
      (b : Option Text) {u : Unit {0}} → assert_valid_bound ix b ≡ ok u → IsBound ix b
  unfolding assert_valid_bound assert_valid_key is_valid_key
  assert_valid_bound-IsBound none h = tt
  assert_valid_bound-IsBound (some k) h = ground arith

  module _ (w : IsIndexer ix) (plain : IsPlain ix.alphabet) where
    seed-IsKey : IsKey ix (ix.seed ∷ [])
    seed-IsKey = let (i, ranked, pos) = w.seed_ranked in single-IsKey ix w ix.seed i ranked pos

    midpoint_next :
        (a : Text) (next : Option Text)
        → units_ranked ix.rank_by_char a ≡ true
        → IsBound ix next
        → SortsBelow a next
        → (k : Text) × (midpoint ix (midpoint_fuel ix a next) a next ≡ ok k)
          × IsKey ix k
          × (cmp a k ≡ Ordering.lt)
          × SortsBelow k next
    midpoint_next a none known bound lt =
        let (k, made, key, above) = midpoint_open ix w (length a + 0 + 3) a known (omega arith) in
        (k, made, key, above, tt)
    midpoint_next a (some b) known bound lt =
        let (k, made, key, above, below) =
          midpoint_between ix w (length a + length b + 3) a b known (is_valid_key-IsKey b bound)
            (ground arith) (omega arith) in
        (k, made, key, above, ground arith)

    leave :
        (a : Text) (next : Option Text) (k : Text)
        → IsBound ix (some a)
        → IsBound ix next
        → SortsBelow a next
        → midpoint ix (midpoint_fuel ix a next) a next ≡ ok k
        → cmp a k ≡ Ordering.lt
        → SortsBelow k next
        → get_intermediate_key ix (some a) next ≡ ok k
    unfolding get_intermediate_key
    leave a none k p q o made above below =
        ground (arith, assert_valid_bound-ok (some a) p, assert_valid_bound-ok none q)
    leave a (some b) k p q o made above below =
        ground (arith, assert_valid_bound-ok (some a) p, assert_valid_bound-ok (some b) q)

    get_intermediate_key_total :
        (prev next : Option Text)
        → IsBound ix prev
        → IsBound ix next
        → InOrder prev next
        → (k : Text) × (get_intermediate_key ix prev next ≡ ok k)
          × (is_valid_key ix k ≡ true)
          × SortsAbove prev k
          × SortsBelow k next
    unfolding get_intermediate_key
    get_intermediate_key_total none none p q o = (
      ix.seed ∷ [],
      rw (assert_valid_bound-ok none tt),
      IsKey-is_valid_key w plain _ seed-IsKey,
      tt,
      tt,
    )
    get_intermediate_key_total none (some b) p q o =
        let (k, made, key, above, below) =
          midpoint_next [] (some b) refl q (nil-text_lt b (is_valid_key-IsKey b q).filled) in
        (
          k,
          ground
              (arith, made, below, assert_valid_bound-ok none tt, assert_valid_bound-ok (some b) q),
          IsKey-is_valid_key w plain k key,
          tt,
          below,
        )
    get_intermediate_key_total (some a) next p q o =
        let (k, made, key, above, below) =
          midpoint_next a next (is_valid_key-IsKey a p).known q o in
        (
          k,
          leave a next k p q o made above below,
          IsKey-is_valid_key w plain k key,
          ground arith,
          below,
        )

    get_intermediate_key_sound :
        (prev next : Option Text) {k : Text}
        → get_intermediate_key ix prev next ≡ ok k
        → IsBound ix prev × IsBound ix next × InOrder prev next
    unfolding get_intermediate_key
    get_intermediate_key_sound prev next h = elim (Result-cases (assert_valid_bound ix prev)) [
      | inr (e, failed) ↦ absurd (ground arith)
      | inl (u, fine) ↦ elim (Result-cases (assert_valid_bound ix next)) [
        | inr (e, failed) ↦ absurd (ground arith)
        | inl (v, sound) ↦ (
          assert_valid_bound-IsBound prev fine,
          assert_valid_bound-IsBound next sound,
          ordered prev next (ground arith),
        )
      ]
    ]
      where
        ordered : (p q : Option Text) → bounds_crossed ix p q ≡ false → InOrder p q
        ordered none q f = tt
        ordered (some a) none f = tt
        ordered (some a) (some b) f = ground arith

-- For an indexer that the constructor accepts, of whose characters no surrogate pair can be made, and
-- bounds that are null or well-formed keys with
-- the first one sorting before the second, `getIntermediateKey` answers, with a well-formed key
-- that sorts strictly after the first bound and strictly before the second.
pub get_intermediate_key-between :
    (alphabet : Text) (seed : Option Text) (ix : Indexer) (prev next : Option Text)
    → make alphabet seed ≡ ok ix
    → IsPlain ix.alphabet
    → IsBound ix prev
    → IsBound ix next
    → InOrder prev next
    → (k : Text) × (get_intermediate_key ix prev next ≡ ok k)
      × (is_valid_key ix k ≡ true)
      × SortsAbove prev k
      × SortsBelow k next
get_intermediate_key-between alphabet seed ix prev next made plain p q o =
    get_intermediate_key_total ix (make-IsIndexer alphabet seed made) plain prev next p q o

-- For an indexer that the constructor accepts, of whose characters no surrogate pair can be made,
-- `getIntermediateKey` answers exactly when each
-- bound is null or a well-formed key and the first, if both are given, sorts before the second;
-- in every other case it throws.
pub get_intermediate_key-ok_iff :
    (alphabet : Text) (seed : Option Text) (ix : Indexer) (prev next : Option Text)
    → make alphabet seed ≡ ok ix
    → IsPlain ix.alphabet
    → ((k : Text) × (get_intermediate_key ix prev next ≡ ok k))
      ↔ (IsBound ix prev × IsBound ix next × InOrder prev next)
get_intermediate_key-ok_iff alphabet seed ix prev next made plain =
    let w = make-IsIndexer alphabet seed made in
    (
      λ h. get_intermediate_key_sound ix w plain prev next h.1,
      λ h.
          let (k, answer, _, _, _) = get_intermediate_key_total ix w plain prev next h.0 h.1 h.2 in
          (k, answer),
    )
