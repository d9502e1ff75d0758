-- ===== src/Ordering/Failure.antt =====
-- The exceptions of backend/src/common/ordering as values.
use flow_logix.Common.{◌≡◌, refl, ◌⊎◌, inl, inr, Bool, true, false, if◌then◌else◌}

pub data Error : Type 0 where
  short_alphabet duplicate_char unsorted_alphabet bad_seed zero_seed : Error
  empty_key foreign_char trailing_zero not_before not_between midpoint_precondition : Error
  bad_target_length unsafe_capacity target_too_small : Error
  -- A read past the end of a string, which gives `undefined` in the source.
  undefined_read : Error
  -- The recursion bound of the model is used up.
  out_of_fuel : Error

-- What a call throws or returns.
pub data Result {ℓ} (A : Type ℓ) : Type ℓ where
  throw : Error → Result A
  ok : A → Result A

-- `if (!test) throw e`
abbrev pub guard : Bool → Error → Result (Unit {0})
guard test e = if test then ok tt else throw e

infixl 4 ◌>>=◌ ◌>>◌
-- The rest of a call, which runs if the first part returns.
abbrev pub ◌>>=◌ {κ ℓ} : {B : Type κ} {A : Type ℓ} → Result A → (A → Result B) → Result B
m >>= rest = elim m [ throw e ↦ throw e | ok a ↦ rest a ]

abbrev pub ◌>>◌ {κ} : {B : Type κ} → Result (Unit {0}) → Result B → Result B
m >> rest = elim m [ throw e ↦ throw e | ok u ↦ rest ]

pub ok-injective {ℓ} : {A : Type ℓ} {a b : A} → ok a ≡ ok b → a ≡ b
ok-injective h = cc

pub Result-cases {ℓ} :
    {A : Type ℓ} (m : Result A) → ((a : A) × (m ≡ ok a)) ⊎ ((e : Error) × (m ≡ throw e))
Result-cases (ok a) = inl (a, refl)
Result-cases (throw e) = inr (e, refl)

module _ {κ} {B : Type κ} {b : B} where
  -- Inversion of a successful step.
  pub >>=-eq-ok {ℓ} :
      {A : Type ℓ} (m : Result A) (rest : A → Result B)
      → (m >>= rest) ≡ ok b
      → (a : A) × (m ≡ ok a) × (rest a ≡ ok b)
  >>=-eq-ok (throw e) rest h = cc
  >>=-eq-ok (ok a) rest h = (a, refl, h)

  -- Inversion of a successful test.
  pub guard-eq-ok :
      (test : Bool) (e : Error) (rest : Result B)
      → (guard test e >> rest) ≡ ok b
      → (test ≡ true) × (rest ≡ ok b)
  guard-eq-ok true e rest h = (refl, h)
  guard-eq-ok false e rest h = cc
