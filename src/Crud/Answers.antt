-- ===== src/Crud/Answers.antt =====
-- What a service call of backend/src answers: its value, or an exception.
use flow_logix.Common.{◌≡◌, refl, Bool, true, false, Option, none, some, if◌then◌else◌}
use flow_logix.Ordering.Failure.{Error, Result, throw, ok}

pub data Answer {ℓ} (A : Type ℓ) : Type ℓ where
  answered : A → Answer A
  -- `NotFoundException`
  not_found : Answer A
  -- `BadRequestException`
  bad_request : Answer A
  -- An `Error` of the order keys.
  failed : Error → Answer A

infixl 4 ◌>>=◌ ◌>>◌
abbrev pub ◌>>=◌ {κ ℓ} : {B : Type κ} {A : Type ℓ} → Answer A → (A → Answer B) → Answer B
m >>= rest = elim m [
  | answered a ↦ rest a
  | not_found ↦ not_found
  | bad_request ↦ bad_request
  | failed e ↦ failed e
]

abbrev pub ◌>>◌ {κ} : {B : Type κ} → Answer (Unit {0}) → Answer B → Answer B
m >> rest = m >>= (λ u. rest)

-- `if (test) throw new BadRequestException(…)`
abbrev pub refuse_if : Bool → Answer (Unit {0})
refuse_if test = if test then bad_request else answered tt

abbrev pub of_result {ℓ} : {A : Type ℓ} → Result A → Answer A
of_result (throw e) = failed e
of_result (ok a) = answered a

-- `if (!row) throw new NotFoundException(…)`
abbrev pub found_or_404 {ℓ} : {A : Type ℓ} → Option A → Answer A
found_or_404 none = not_found
found_or_404 (some a) = answered a

-- Inversion of a call that returned.
pub >>=-eq-answered {κ ℓ} :
    {B : Type κ} {A : Type ℓ} (m : Answer A) (rest : A → Answer B) {b : B}
    → (m >>= rest) ≡ answered b
    → (a : A) × (m ≡ answered a) × (rest a ≡ answered b)
>>=-eq-answered (answered a) rest h = (a, refl, h)
>>=-eq-answered not_found rest h = cc
>>=-eq-answered bad_request rest h = cc
>>=-eq-answered (failed e) rest h = cc

pub refuse_if-eq-answered {κ} :
    {B : Type κ} (test : Bool) (rest : Answer B) {b : B}
    → (refuse_if test >> rest) ≡ answered b
    → (test ≡ false) × (rest ≡ answered b)
refuse_if-eq-answered true rest h = cc
refuse_if-eq-answered false rest h = (refl, h)

pub of_result-eq-answered {ℓ} :
    {A : Type ℓ} (r : Result A) {a : A} → of_result r ≡ answered a → r ≡ ok a
of_result-eq-answered (throw e) h = cc
of_result-eq-answered (ok b) h = cc

pub answered-injective {ℓ} : {A : Type ℓ} {a b : A} → answered a ≡ answered b → a ≡ b
answered-injective h = cc
