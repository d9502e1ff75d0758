-- ===== src/Crdt/ElementSet/Converges.antt =====
-- Merges of LWW-element-sets (mobile/src/crdt/lwwElementSet.ts).
use flow_logix.Common.{
  ℕ, ◌≡◌, refl, sym, ap, ◌∙◌, true, Option, none, some, [], ◌∷◌, Text, text_eq, text_eq_iff, lookup,
  put, keys, contains, contains-keys, distinct, lookup-put, ◌||◌, arith, if◌then◌else◌, inl, inr,
  Bool-cases, Option-cases,
}
use flow_logix.Crdt.Join.{later, later_comm, later_assoc, later_idem}
use flow_logix.Crdt.ElementSet.{Stamps, ElementSet, bump, bump_all, merge, has}

-- A map has one entry of each key.
abbrev pub IsMap : Stamps → Type 0
IsMap m = distinct (keys m) ≡ true

lookup-bump :
    (j k : Text) (t : ℕ) (m : Stamps)
    → lookup j (bump m k t) ≡ (if text_eq k j then later (lookup j m) (some t) else lookup j m)
unfolding bump later
lookup-bump j k t m =
    ground
      (arith, lookup-put k j t m, text_eq_iff k j, ap (λ i. lookup i m), Option-cases (lookup k m))

later-none : (a : Option ℕ) → later a none ≡ a
unfolding later
later-none none = refl
later-none (some s) = refl

lookup-bump_all :
    (j : Text) (m other : Stamps)
    → IsMap other
    → lookup j (bump_all m other) ≡ later (lookup j m) (lookup j other)
unfolding bump_all
lookup-bump_all j m [] h = sym (later-none (lookup j m))
lookup-bump_all j m ((k, t) ∷ other) h = elim (Bool-cases (text_eq k j)) [
  | inl same ↦
      lookup-bump_all j (bump m k t) other (ground arith)
      ∙ ground (
        arith,
        lookup-bump j k t m,
        contains-keys k other,
        text_eq_iff k j,
        ap (λ i. lookup i other),
        later-none (later (lookup j m) (some t)),
      )
  | inr differs ↦
      lookup-bump_all j (bump m k t) other (ground arith) ∙ ground (arith, lookup-bump j k t m)
]

contains-keys-put :
    (x k : Text) (t : ℕ) (m : Stamps)
    → contains x (keys (put k t m)) ≡ (contains x (keys m) || text_eq k x)
contains-keys-put x k t [] = ground arith
contains-keys-put x k t ((j, u) ∷ m) =
    ground (arith, contains-keys-put x k t m, text_eq_iff j k, text_eq_iff k x, text_eq_iff j x)

put-IsMap : (k : Text) (t : ℕ) (m : Stamps) → IsMap m → IsMap (put k t m)
put-IsMap k t [] h = refl
put-IsMap k t ((j, u) ∷ m) h =
    ground (arith, put-IsMap k t m, contains-keys-put j k t m, text_eq_iff j k, text_eq_iff k j)

bump-IsMap : (k : Text) (t : ℕ) (m : Stamps) → IsMap m → IsMap (bump m k t)
unfolding bump
bump-IsMap k t m h = ground (arith, put-IsMap k t m h)

bump_all-IsMap : (m other : Stamps) → IsMap m → IsMap (bump_all m other)
unfolding bump_all
bump_all-IsMap m [] h = h
bump_all-IsMap m ((k, t) ∷ other) h = bump_all-IsMap (bump m k t) other (bump-IsMap k t m h)

abbrev pub HasMaps : ElementSet → Type 0
HasMaps s = IsMap s.adds × IsMap s.removes

-- Two replicas hold the same stamps of every element, and so the same members.
pub record Agree (a b : ElementSet) : Type 0 where
  pub same_adds : (element : Text) → lookup element a.adds ≡ lookup element b.adds
  pub same_removes : (element : Text) → lookup element a.removes ≡ lookup element b.removes
  pub same_members : (element : Text) → has element a ≡ has element b

agree :
    (a b : ElementSet)
    → a.bias ≡ b.bias
    → ((element : Text) → lookup element a.adds ≡ lookup element b.adds)
    → ((element : Text) → lookup element a.removes ≡ lookup element b.removes)
    → Agree a b
agree a b e p q = record {
  same_adds = p;
  same_removes = q;
  same_members = λ element. unfold has in ground (arith, p element, q element, e);
}

-- Replicas of one set converge: of three sets with one bias, whose maps have one entry of each
-- element, neither the order nor the grouping of merges matters, nor a merge that is repeated.
pub merge-Agree :
    (a b c : ElementSet)
    → a.bias ≡ b.bias
    → HasMaps a
    → HasMaps b
    → HasMaps c
    → Agree (merge a b) (merge b a)
      × Agree (merge (merge a b) c) (merge a (merge b c))
      × Agree (merge (merge a b) b) (merge a b)
unfolding merge
merge-Agree a b c e (aa, ar) (ba, br) (ca, cr) = (
  agree (merge a b) (merge b a) e (λ x. commutes x a.adds b.adds aa ba)
      (λ x. commutes x a.removes b.removes ar br),
  agree (merge (merge a b) c) (merge a (merge b c)) refl
      (λ x. regroups x a.adds b.adds c.adds ba ca)
      (λ x. regroups x a.removes b.removes c.removes br cr),
  agree (merge (merge a b) b) (merge a b) refl (λ x. repeats x a.adds b.adds ba)
      (λ x. repeats x a.removes b.removes br),
)
  where
    commutes :
        (x : Text) (m n : Stamps)
        → IsMap m
        → IsMap n
        → lookup x (bump_all m n) ≡ lookup x (bump_all n m)
    commutes x m n hm hn =
        lookup-bump_all x m n hn
        ∙ later_comm (lookup x m) (lookup x n)
        ∙ sym (lookup-bump_all x n m hm)

    regroups :
        (x : Text) (m n o : Stamps)
        → IsMap n
        → IsMap o
        → lookup x (bump_all (bump_all m n) o) ≡ lookup x (bump_all m (bump_all n o))
    regroups x m n o hn ho =
        lookup-bump_all x (bump_all m n) o ho
        ∙ ap (λ t. later t (lookup x o)) (lookup-bump_all x m n hn)
        ∙ later_assoc (lookup x m) (lookup x n) (lookup x o)
        ∙ ap (later (lookup x m)) (sym (lookup-bump_all x n o ho))
        ∙ sym (lookup-bump_all x m (bump_all n o) (bump_all-IsMap n o hn))

    repeats :
        (x : Text) (m n : Stamps)
        → IsMap n
        → lookup x (bump_all (bump_all m n) n) ≡ lookup x (bump_all m n)
    repeats x m n hn =
        lookup-bump_all x (bump_all m n) n hn
        ∙ ap (λ t. later t (lookup x n)) (lookup-bump_all x m n hn)
        ∙ later_assoc (lookup x m) (lookup x n) (lookup x n)
        ∙ ap (later (lookup x m)) (later_idem (lookup x n))
        ∙ sym (lookup-bump_all x m n hn)
