-- ===== src/Common/Semilattice.antt =====
-- A loop that joins the items of a list into its state, for a commutative, associative and
-- idempotent join: its result depends only on which items occur.
use mathlib.Core.Path.{◌≡◌, refl, sym, ap, ◌∙◌}
use mathlib.Core.List.{List, [], ◌∷◌, Memᴰ}
use flow_logix.Common.Maps.{for_each}

module _ {ℓ κ} {A : Type ℓ} {B : Type κ} (op : A → A → A) (comm : (a b : A) → op a b ≡ op b a)
    (assoc : (a b c : A) → op (op a b) c ≡ op a (op b c)) (idem : (a : A) → op a a ≡ a)
    (g : B → A) where
  abbrev joined : A → List B → A
  joined x ys = for_each (λ s b. op s (g b)) x ys

  absorb_twice : (x y u : A) → op (op x y) u ≡ u → op x u ≡ u
  absorb_twice x y u h =
      ap (op x) (sym h)
      ∙ sym (assoc x (op x y) u)
      ∙ ap (λ t. op t u) (sym (assoc x x y) ∙ ap (λ t. op t y) (idem x))
      ∙ h

  start-le : (x : A) (ys : List B) → op x (joined x ys) ≡ joined x ys
  start-le x [] = idem x
  start-le x (y ∷ ys) = absorb_twice x (g y) (joined (op x (g y)) ys) (start-le (op x (g y)) ys)

  item-le : (x : A) (ys : List B) (b : B) → Memᴰ b ys → op (g b) (joined x ys) ≡ joined x ys
  item-le x [] b m = elim m [ ]
  item-le x (y ∷ ys) b (Memᴰ.head e) =
      ap (λ t. op (g t) (joined x (y ∷ ys))) e
      ∙ absorb_twice (g y) x (joined (op x (g y)) ys)
          (ap (λ t. op t (joined (op x (g y)) ys)) (comm (g y) x) ∙ start-le (op x (g y)) ys)
  item-le x (y ∷ ys) b (Memᴰ.tail m) = item-le (op x (g y)) ys b m

  joined-le :
      (x : A) (ys : List B) (u : A)
      → op x u ≡ u
      → ((b : B) → Memᴰ b ys → op (g b) u ≡ u)
      → op (joined x ys) u ≡ u
  joined-le x [] u h k = h
  joined-le x (y ∷ ys) u h k =
      joined-le (op x (g y)) ys u (assoc x (g y) u ∙ ap (op x) (k y (Memᴰ.head refl)) ∙ h)
        (λ b m. k b (Memᴰ.tail m))

  pub joined_same_items :
      (x : A) (ys zs : List B)
      → ((b : B) → Memᴰ b ys → Memᴰ b zs)
      → ((b : B) → Memᴰ b zs → Memᴰ b ys)
      → joined x ys ≡ joined x zs
  joined_same_items x ys zs to from =
      sym (joined-le x zs (joined x ys) (start-le x ys) (λ b m. item-le x ys b (from b m)))
      ∙ comm (joined x zs) (joined x ys)
      ∙ joined-le x ys (joined x zs) (start-le x zs) (λ b m. item-le x zs b (to b m))
