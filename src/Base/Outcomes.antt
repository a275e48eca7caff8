-- ===== src/Base/Outcomes.antt =====
-- What a service function answers: `Ok(Ok(a))`, a typed refusal `Ok(Err(e))`, or an operational
-- error `Err(_)`, such as a constraint of the database that fails or a row that is not there.
use mathlib.Core.Path.{◌≡◌, refl}
use mathlib.Core.Bool.{Bool, true, false}
use mathlib.Core.Logic.{◌⊎◌, inl, inr}
use mathlib.Core.Option.{Option, none, some}

pub data Outcome {ℓ} (E A : Type ℓ) : Type ℓ where
  ok : A → Outcome E A
  refused : E → Outcome E A
  failed : Outcome E A

infixl 5 ◌>>=◌ ◌>>◌
abbrev pub ◌>>=◌ {ℓ} : {E A B : Type ℓ} → Outcome E A → (A → Outcome E B) → Outcome E B
ok a >>= f = f a
refused e >>= f = refused e
failed >>= f = failed

abbrev pub ◌>>◌ {ℓ} : {E B : Type ℓ} → Outcome E Unit → Outcome E B → Outcome E B
m >> k = m >>= λ _. k

-- An early return of a refusal.
abbrev pub refuse_if {ℓ} : {E : Type ℓ} → Bool → E → Outcome E Unit
refuse_if true e = refused e
refuse_if false e = ok tt

-- A missing row is a refusal (`let Some(..) else`), or an error (`fetch_one`).
abbrev pub some_or_refuse {ℓ} : {E A : Type ℓ} → Option A → E → Outcome E A
some_or_refuse none e = refused e
some_or_refuse (some a) e = ok a

abbrev pub fetch_one {ℓ} : {E A : Type ℓ} → Option A → Outcome E A
fetch_one none = failed
fetch_one (some a) = ok a

-- A CHECK, a foreign key or a trigger: the statement fails unless the test holds.
abbrev pub require {ℓ} : {E : Type ℓ} → Bool → Outcome E Unit
require true = ok tt
require false = failed

pub >>=-eq-ok {ℓ} :
    {E A B : Type ℓ} (step : Outcome E A) (rest : A → Outcome E B) {final : B}
    → (step >>= rest) ≡ ok final
    → (value : A) × (step ≡ ok value) × (rest value ≡ ok final)
>>=-eq-ok (ok value) rest h = (value, refl, h)
>>=-eq-ok (refused reason) rest h = cc
>>=-eq-ok failed rest h = cc

-- To split on a computed outcome and keep the equation.
pub Outcome-cases :
    {E A : Type 0} (o : Outcome E A)
    → ((a : A) × (o ≡ ok a)) ⊎ ((o ≡ failed) ⊎ ((x : E) × (o ≡ refused x)))
Outcome-cases (ok a) = inl (a, refl)
Outcome-cases (refused e) = inr (inr (e, refl))
Outcome-cases failed = inr (inl refl)

-- A guard, or a read, that a successful service went past.
pub refuse_if-ok {ℓ} :
    {E B : Type ℓ} (test : Bool) (reason : E) (rest : Outcome E B) {final : B}
    → (refuse_if test reason >> rest) ≡ ok final
    → (test ≡ false) × (rest ≡ ok final)
refuse_if-ok true reason rest h = cc
refuse_if-ok false reason rest h = (refl, h)

pub require-ok {ℓ} :
    {E B : Type ℓ} (test : Bool) (rest : Outcome E B) {final : B}
    → (require test >> rest) ≡ ok final
    → (test ≡ true) × (rest ≡ ok final)
require-ok true rest h = (refl, h)
require-ok false rest h = cc

pub fetch_one-ok {ℓ} :
    {E A B : Type ℓ} (row : Option A) (rest : A → Outcome E B) {final : B}
    → (fetch_one row >>= rest) ≡ ok final
    → (a : A) × (row ≡ some a) × (rest a ≡ ok final)
fetch_one-ok none rest h = cc
fetch_one-ok (some a) rest h = (a, refl, h)

pub some_or_refuse-ok {ℓ} :
    {E A B : Type ℓ} (row : Option A) (reason : E) (rest : A → Outcome E B) {final : B}
    → (some_or_refuse row reason >>= rest) ≡ ok final
    → (a : A) × (row ≡ some a) × (rest a ≡ ok final)
some_or_refuse-ok none reason rest h = cc
some_or_refuse-ok (some a) reason rest h = (a, refl, h)
