-- ===== src/Ordering/Indexer/Alphabet.antt =====
-- What the constructor of fractional-indexer.ts establishes of the alphabet and its ranks.
use flow_logix.Common.{
  ℕ, zero, suc, ◌+◌, ◌≤◌, ◌<◌, ◌≡◌, refl, ◌⊎◌, inl, inr, Bool, true, false, ◌&&◌, any, Option, none,
  some, [], ◌∷◌, Text, length, get_elem?, leb, ◌==◌, arith, Bool-cases, is_some, ◌≢◌, Option-cases,
  ap, ◌∙◌, subst,
}
use flow_logix.Ordering.Indexer.{
  Indexer, ok, set_rank, not_after, scan_alphabet, char_at, resolve_seed, check_seed, make,
  ok-injective, Result-cases, is_high_surrogate, is_low_surrogate, is_pair, all_ranked,
}

pub record IsIndexer (ix : Indexer) : Type 0 where
  pub two : 2 ≤ length ix.alphabet
  pub ascending :
      (i j : ℕ) {c d : ℕ}
      → get_elem? ix.alphabet i ≡ some c
      → get_elem? ix.alphabet j ≡ some d
      → i < j
      → c < d
  pub ranked : (c i : ℕ) → ix.rank_by_char c ≡ some i → get_elem? ix.alphabet i ≡ some c
  pub placed : (c i : ℕ) → get_elem? ix.alphabet i ≡ some c → ix.rank_by_char c ≡ some i
  pub first : get_elem? ix.alphabet 0 ≡ some ix.zero_char
  pub seed_ranked : (i : ℕ) × (ix.rank_by_char ix.seed ≡ some i) × (0 < i)

-- Every code unit of a text has a rank.
abbrev pub units_ranked : (ℕ → Option ℕ) → Text → Bool
units_ranked rank [] = true
units_ranked rank (c ∷ cs) = is_some (rank c) && units_ranked rank cs

-- An alphabet of whose characters no surrogate pair can be made.
abbrev pub IsPlain : Text → Type 0
IsPlain alphabet = (any is_high_surrogate alphabet && any is_low_surrogate alphabet) ≡ false

any-get_elem? :
    (p : ℕ → Bool) (s : Text) (i : ℕ) {c : ℕ} → get_elem? s i ≡ some c → p c ≡ true → any p s ≡ true
any-get_elem? p [] i e h = cc
any-get_elem? p (x ∷ s) zero e h = ground arith
any-get_elem? p (x ∷ s) (suc i) e h = ground (arith, any-get_elem? p s i e h)

-- A text whose characters are ranked has ranked code units.
pub all_ranked-units_ranked :
    (rank : ℕ → Option ℕ) (k : Text) → all_ranked rank k ≡ true → units_ranked rank k ≡ true
all_ranked-units_ranked rank [] h = refl
all_ranked-units_ranked rank (c ∷ []) h = ground arith
all_ranked-units_ranked rank (c ∷ d ∷ cs) h = ground (arith, all_ranked-units_ranked rank (d ∷ cs))

module _ (ix : Indexer) (w : IsIndexer ix) (plain : IsPlain ix.alphabet) where
  pairless :
      (c d : ℕ)
      → is_some (ix.rank_by_char c) ≡ true
      → is_some (ix.rank_by_char d) ≡ true
      → is_pair c d ≡ false
  pairless c d p q = elim (Option-cases (ix.rank_by_char c)) [
    | inl unranked ↦ absurd (ground arith)
    | inr (i, at_i) ↦ elim (Option-cases (ix.rank_by_char d)) [
      | inl unranked ↦ absurd (ground arith)
      | inr (j, at_j) ↦ elim (Bool-cases (is_pair c d)) [
        | inr fine ↦ fine
        | inl pair ↦
            let high =
              any-get_elem? is_high_surrogate ix.alphabet i (w.ranked c i at_i) (ground arith) in
            let low =
              any-get_elem? is_low_surrogate ix.alphabet j (w.ranked d j at_j) (ground arith) in
            absurd (ground arith)
      ]
    ]
  ]

  pub units_ranked-all_ranked :
      (k : Text) → units_ranked ix.rank_by_char k ≡ true → all_ranked ix.rank_by_char k ≡ true
  units_ranked-all_ranked [] h = refl
  units_ranked-all_ranked (c ∷ []) h = ground arith
  units_ranked-all_ranked (c ∷ d ∷ cs) h =
      let single : is_pair c d ≡ false = pairless c d (ground arith) (ground arith) in
      ground (arith, units_ranked-all_ranked (d ∷ cs) (ground arith))

-- Each character sorts after the one before it.
abbrev Chain : Option ℕ → Text → Type 0
Chain before [] = Unit
Chain before (c ∷ cs) = (not_after before c ≡ false) × Chain (some c) cs

place : ℕ → Text → (ℕ → Option ℕ) → ℕ → Option ℕ
place i [] rank = rank
place i (c ∷ cs) rank = place (i + 1) cs (set_rank rank c i)

scan_alphabet-eq-ok :
    (i : ℕ) (before : Option ℕ) (rank : ℕ → Option ℕ) (cs : Text) {rank' : ℕ → Option ℕ}
    → scan_alphabet i before rank cs ≡ ok rank'
    → Chain before cs × (ok (place i cs rank) ≡ ok rank')
unfolding scan_alphabet place
scan_alphabet-eq-ok i before rank [] h = (tt, h)
scan_alphabet-eq-ok i before rank (c ∷ cs) {rank'} h = elim (Bool-cases (is_some (rank c))) [
  | inl dup ↦ absurd (ground arith)
  | inr new ↦ elim (Bool-cases (not_after before c)) [
    | inl late ↦ absurd (ground arith)
    | inr fine ↦
        let more : scan_alphabet (i + 1) (some c) (set_rank rank c i) cs ≡ ok rank' =
          rw (new, fine) at h in
        let (chain, same) = scan_alphabet-eq-ok (i + 1) (some c) (set_rank rank c i) cs more in
        ((fine, chain), same)
  ]
]

Chain-lt : (p : ℕ) (cs : Text) (k : ℕ) {d : ℕ} → Chain (some p) cs → get_elem? cs k ≡ some d → p < d
Chain-lt p [] k h e = absurd (cc)
Chain-lt p (c ∷ cs) zero h e = ground arith
Chain-lt p (c ∷ cs) (suc k) h e = ground (arith, Chain-lt c cs k h.1 e)

Chain-ascending :
    (before : Option ℕ) (cs : Text) (i j : ℕ) {c d : ℕ}
    → Chain before cs
    → get_elem? cs i ≡ some c
    → get_elem? cs j ≡ some d
    → i < j
    → c < d
Chain-ascending before [] i j h e f lt = absurd (cc)
Chain-ascending before (x ∷ cs) zero zero h e f lt = absurd (omega arith)
Chain-ascending before (x ∷ cs) zero (suc j) h e f lt = ground (arith, Chain-lt x cs j h.1 f)
Chain-ascending before (x ∷ cs) (suc i) zero h e f lt = absurd (omega arith)
Chain-ascending before (x ∷ cs) (suc i) (suc j) h e f lt =
    Chain-ascending (some x) cs i j h.1 e f (omega arith)

place_absent :
    (i p d : ℕ) (cs : Text) (rank : ℕ → Option ℕ)
    → Chain (some p) cs
    → d ≤ p
    → place i cs rank d ≡ rank d
unfolding place
place_absent i p d [] rank h le = refl
place_absent i p d (c ∷ cs) rank h le =
    ground (arith, place_absent (i + 1) c d cs (set_rank rank c i) h.1)

place_placed :
    (i : ℕ) (before : Option ℕ) (cs : Text) (rank : ℕ → Option ℕ) (k : ℕ) {d : ℕ}
    → Chain before cs
    → get_elem? cs k ≡ some d
    → place i cs rank d ≡ some (i + k)
unfolding place
place_placed i before [] rank k h e = cc
place_placed i before (c ∷ cs) rank zero {d} h e =
    ground (arith, place_absent (i + 1) c d cs (set_rank rank c i) h.1)
place_placed i before (c ∷ cs) rank (suc k) h e =
    ground (arith, place_placed (i + 1) (some c) cs (set_rank rank c i) k h.1 e)

place_ranked :
    (i : ℕ) (cs : Text) (rank : ℕ → Option ℕ) (d j : ℕ)
    → place i cs rank d ≡ some j
    → (rank d ≡ some j) ⊎ ((k : ℕ) × (j ≡ i + k) × (get_elem? cs k ≡ some d))
unfolding place
place_ranked i [] rank d j h = inl h
place_ranked i (c ∷ cs) rank d j h = elim (place_ranked (i + 1) cs (set_rank rank c i) d j h) [
  | inl old ↦ elim (Bool-cases (c == d)) [
    | inl same ↦ inr (0, ground arith, ground arith)
    | inr other ↦ inl (ground arith)
  ]
  | inr (k, at, found) ↦ inr (suc k, omega arith, found)
]

char_at-eq-ok : (s : Text) (i : ℕ) {c : ℕ} → char_at s i ≡ ok c → get_elem? s i ≡ some c
char_at-eq-ok s i h = ground arith

check_seed-eq-ok :
    (rank : ℕ → Option ℕ) (z : ℕ) (s : Text) {c : ℕ}
    → check_seed rank z s ≡ ok c
    → (i : ℕ) × (rank c ≡ some i) × (c ≢ z)
check_seed-eq-ok rank z [] h = absurd (cc)
check_seed-eq-ok rank z (x ∷ []) {c} h = elim (Option-cases (rank x)) [
  | inl foreign ↦ absurd (ground arith)
  | inr (i, ranked) ↦ (i, ground arith, ground arith)
]
check_seed-eq-ok rank z (x ∷ y ∷ s) h = absurd (cc)

module _ (alphabet : Text) (rank : ℕ → Option ℕ) (z c : ℕ) where
  IsIndexer-of_parts :
      2 ≤ length alphabet
      → Chain none alphabet
      → place 0 alphabet (λ _. none) ≡ rank
      → get_elem? alphabet 0 ≡ some z
      → (i : ℕ) × (rank c ≡ some i) × (c ≢ z)
      → IsIndexer (record { alphabet = alphabet; zero_char = z; seed = c; rank_by_char = rank })
  IsIndexer-of_parts two chain same first (i, seed_rank, seed_ne) = record {
    two = two;
    ascending = λ i j. Chain-ascending none alphabet i j chain;
    ranked = λ d j h. elim (place_ranked 0 alphabet (λ _. none) d j (rw same h)) [
      | inl old ↦ cc
      | inr (k, at, found) ↦ let e : j ≡ k = omega arith in rw e found
    ];
    placed = λ d j h.
        rw (← same) (place_placed 0 none alphabet (λ _. none) j chain h ∙ ap some (omega arith));
    first = first;
    seed_ranked = (i, seed_rank, seed_pos i seed_rank);
  }
    where
      seed_pos : (i : ℕ) → rank c ≡ some i → 0 < i
      seed_pos zero e = elim (place_ranked 0 alphabet (λ _. none) c 0 (rw same e)) [
        | inl old ↦ absurd (cc)
        | inr (k, at, found) ↦
            let here : 0 ≡ k = omega arith in
            let head : get_elem? alphabet 0 ≡ some c = rw here found in absurd (seed_ne (cc))
      ]
      seed_pos (suc i) e = omega arith

-- A successful constructor gives an indexer whose digits and characters are in the same order.
pub make-IsIndexer :
    (alphabet : Text) (seed : Option Text) {ix : Indexer}
    → make alphabet seed ≡ ok ix
    → IsIndexer ix
unfolding make
make-IsIndexer alphabet seed {ix} h = elim (Bool-cases (leb 2 (length alphabet))) [
  | inr short ↦ absurd (ground arith)
  | inl two ↦ elim (Result-cases (scan_alphabet 0 none (λ _. none) alphabet)) [
    | inr (e, failed) ↦ absurd (ground arith)
    | inl (rank, scanned) ↦ elim (Option-cases (get_elem? alphabet 0)) [
      | inl missing ↦ absurd (ground arith)
      | inr (z, first) ↦ elim (Result-cases (resolve_seed alphabet rank seed)) [
        | inr (e, failed) ↦ absurd (ground arith)
        | inl (s, resolved) ↦ elim (Result-cases (check_seed rank z s)) [
          | inr (e, failed) ↦ absurd (ground arith)
          | inl (c, checked) ↦
              let (chain, same) = scan_alphabet-eq-ok 0 none (λ _. none) alphabet scanned in
              subst IsIndexer (ground arith) (
                IsIndexer-of_parts alphabet rank z c (ground arith) chain (ok-injective same) first
                  (check_seed-eq-ok rank z s checked))
        ]
      ]
    ]
  ]
]
