-- ===== src/Base/Outcome.antt =====
-- The outcome of a run of C code. `fault` is undefined behaviour: an access out of bounds or
-- through a null or dangling pointer, a signed overflow, a division by zero, a failed assertion.
-- `out_of_fuel` is what a loop gives whose rounds are bounded in the model and were used up.
use mathlib.Core.Path.{◌≡◌, refl}
use mathlib.Core.Logic.{◌⊎◌, inl, inr}

pub data Run {ℓ} (A : Type ℓ) : Type ℓ where
  ok : A → Run A
  fault : Run A
  out_of_fuel : Run A

infixl 5 ◌>>=◌ ◌>>◌
abbrev pub ◌>>=◌ {ℓ κ} : {A : Type ℓ} {B : Type κ} → Run A → (A → Run B) → Run B
ok a >>= f = f a
fault >>= f = fault
out_of_fuel >>= f = out_of_fuel

abbrev pub ◌>>◌ {ℓ} : {B : Type ℓ} → Run (Unit {0}) → Run B → Run B
m >> k = m >>= λ _. k

-- Total correctness: the run ends without a fault and its result satisfies `P`.
pub data Returns {ℓ κ} {A : Type ℓ} (P : A → Type κ) : Run A → Type (ℓ ⊔ κ) where
  returns : {a : A} → P a → Returns P (ok a)

module _ {ℓ κ} {A : Type ℓ} {P : A → Type κ} where
  pub Returns-bind {μ ν} :
      {B : Type μ} {Q : B → Type ν} {r : Run A} {k : A → Run B}
      → Returns P r
      → ((a : A) → P a → Returns Q (k a))
      → Returns Q (r >>= k)
  Returns-bind (returns p) next = next _ p

  pub Returns-mono {μ} :
      {Q : A → Type μ} {r : Run A} → Returns P r → ((a : A) → P a → Q a) → Returns Q r
  Returns-mono (returns p) weaken = returns (weaken _ p)

  pub Returns-value : {r : Run A} → Returns P r → (a : A) × (r ≡ ok a) × P a
  Returns-value (returns {a} p) = (a, refl, p)

  pub Returns-of_eq : {r : Run A} {a : A} → r ≡ ok a → P a → Returns P r
  Returns-of_eq e p = rw e (returns p)

pub Run-cases {ℓ} :
    {A : Type ℓ} (r : Run A) → ((a : A) × (r ≡ ok a)) ⊎ ((r ≡ fault) ⊎ (r ≡ out_of_fuel))
Run-cases (ok a) = inl (a, refl)
Run-cases fault = inr (inl refl)
Run-cases out_of_fuel = inr (inr refl)

pub >>=-ok {ℓ} : {A : Type ℓ} (r : Run A) → (r >>= λ a. ok a) ≡ r
>>=-ok (ok a) = refl
>>=-ok fault = refl
>>=-ok out_of_fuel = refl

-- Partial correctness: if the run gives a result, it satisfies `P`.
abbrev pub Ensures {ℓ κ} : {A : Type ℓ} → (A → Type κ) → Run A → Type κ
Ensures P (ok a) = P a
Ensures P fault = Unit
Ensures P out_of_fuel = Unit

pub Ensures-bind {ℓ κ μ ν} :
    {A : Type ℓ} {B : Type μ} (P : A → Type κ) (Q : B → Type ν) (r : Run A) (k : A → Run B)
    → Ensures P r
    → ((a : A) → P a → Ensures Q (k a))
    → Ensures Q (r >>= k)
Ensures-bind P Q (ok a) k p next = next a p
Ensures-bind P Q fault k p next = tt
Ensures-bind P Q out_of_fuel k p next = tt

pub Ensures-ok {ℓ κ} :
    {A : Type ℓ} (P : A → Type κ) (r : Run A) (a : A) → Ensures P r → r ≡ ok a → P a
Ensures-ok P r a p e = rw e at p
