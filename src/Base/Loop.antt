-- ===== src/Base/Loop.antt =====
-- The counted `for` loops of the program and their invariant rules.
use Prim.Native.Nat.{ℕ, zero, suc, ◌+◌, ◌-◌, ◌≤◌, ◌<◌}
use mathlib.Core.Path.{◌≡◌}
use native.Mathlib.Omega.{arith}
use core_technologies.Base.Outcome.{
  Run, ok, ◌>>=◌, Returns, returns, Returns-bind, Run-cases, >>=-ok,
}
use mathlib.Core.Logic.{inl, inr}

-- `for (k = i; k < i + n; k++) s = body k s`
unfoldable pub for_rounds {ℓ} : {S : Type ℓ} → ℕ → ℕ → (ℕ → S → Run S) → S → Run S
for_rounds zero i body s = ok s
for_rounds (suc n) i body s = body i s >>= λ s'. for_rounds n (i + 1) body s'

-- `for (k = i; k < j; k++) s = body k s`
unfoldable pub for_range {ℓ} : {S : Type ℓ} → ℕ → ℕ → (ℕ → S → Run S) → S → Run S
unfolding for_rounds
for_range i j body s = for_rounds (j - i) i body s

module _ {ℓ κ} {S : Type ℓ} (P : ℕ → S → Type κ) (body : ℕ → S → Run S) (j : ℕ)
    (keep : (k : ℕ) (s : S) → k < j → P k s → Returns (P (k + 1)) (body k s)) where
  for_rounds_inv : (n i : ℕ) (s : S) → i + n ≡ j → P i s → Returns (P j) (for_rounds n i body s)
  unfolding for_rounds
  for_rounds_inv zero i s e p = let e' : i ≡ j = omega arith in rw (← e') (returns p)
  for_rounds_inv (suc n) i s e p =
      Returns-bind (keep i s (omega arith) p) λ s' p'. for_rounds_inv n (i + 1) s' (omega arith) p'

  -- The invariant rule: `P k` holds before the round of `k`, so `P j` holds at the end.
  pub for_range_inv : (i : ℕ) (s : S) → i ≤ j → P i s → Returns (P j) (for_range i j body s)
  unfolding for_range
  for_range_inv i s h p = for_rounds_inv (j - i) i s (omega arith) p

pub for_range_empty {ℓ} :
    {S : Type ℓ} {i j : ℕ} (body : ℕ → S → Run S) (s : S) → j ≤ i → for_range i j body s ≡ ok s
unfolding for_range
for_range_empty {i} {j} body s h = let e : j - i ≡ 0 = omega arith in rw e

pub for_range_step {ℓ} :
    {S : Type ℓ} (i j : ℕ) (body : ℕ → S → Run S) (s : S)
    → i < j
    → for_range i j body s ≡ (body i s >>= λ s'. for_range (i + 1) j body s')
unfolding for_range for_rounds
for_range_step i j body s h = let e : j - i ≡ suc (j - (i + 1)) = omega arith in rw e

for_rounds-last {ℓ} :
    {S : Type ℓ} (n i : ℕ) (body : ℕ → S → Run S) (s : S)
    → for_rounds (suc n) i body s ≡ (for_rounds n i body s >>= λ s'. body (i + n) s')
unfolding for_rounds
for_rounds-last zero i body s = let e : i + 0 ≡ i = omega arith in rw e (>>=-ok (body i s))
for_rounds-last {S} (suc n) i body s =
    let e : i + suc n ≡ i + 1 + n = omega arith in
    let more = λ (s' : S). for_rounds-last n (i + 1) body s' in
    rw e (elim (Run-cases (body i s)) [
      | inl (s', e') ↦ rw e' (more s')
      | inr (inl e') ↦ rw e'
      | inr (inr e') ↦ rw e'
    ])

-- the last round apart
pub for_range-last {ℓ} :
    {S : Type ℓ} (i j : ℕ) (body : ℕ → S → Run S) (s : S)
    → i ≤ j
    → for_range i (j + 1) body s ≡ (for_range i j body s >>= λ s'. body j s')
unfolding for_range
for_range-last i j body s h =
    let e : j + 1 - i ≡ suc (j - i) = omega arith in
    let e' : i + (j - i) ≡ j = omega arith in rw (e, for_rounds-last, e')
