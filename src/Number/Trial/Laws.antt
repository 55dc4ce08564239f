-- ===== src/Number/Trial/Laws.antt =====
-- The flag of the trial divisions: whether a number tried divides.
use core_technologies.Base.{
  ap, arith, refl, suc, sym, zero, ℕ, ℕ_discrete, ◌%◌, ◌+◌, ◌-◌, ◌/◌, ◌<◌, ◌∙◌, ◌≡◌, ◌≢◌, ◌≤◌,
}
use core_technologies.Number.Trial.{
  Printed, count_step, flag_below, flag_half, flag_loop, nothing, ordinary_sieve_method,
  ordinary_sieve_method1, trial_loop,
}
use native.Mathlib.Nat.{mod-eq-sub-mod, mod-eq_of_lt}

-- a first number that divides leaves the flag at 0
flag_loop-divides : (i j k : ℕ) → i % j ≡ 0 → flag_loop i j (suc k) ≡ 0
unfolding flag_loop
flag_loop-divides i j k e = ground arith

-- a first number that does not divide leaves the flag to the others
flag_loop-next : (i j k : ℕ) → i % j ≢ 0 → flag_loop i j (suc k) ≡ flag_loop i (suc j) k
unfolding flag_loop
flag_loop-next i j k h = ground arith

-- if none of the `k` numbers from `j` on divides, the flag stays at 1
flag_loop-none : (i j k : ℕ) → ((d : ℕ) → j ≤ d → d < j + k → i % d ≢ 0) → flag_loop i j k ≡ 1
unfolding flag_loop
flag_loop-none i j zero none = refl
flag_loop-none i j (suc k) none =
    rw (flag_loop-next i j k (none j (omega arith) (omega arith)))
      (flag_loop-none i (suc j) k (λ d p q. none d (omega arith) (omega arith)))

-- numbers that do not divide can be left out behind those that are tried
flag_loop-longer :
    (i j a b : ℕ)
    → ((d : ℕ) → j + a ≤ d → d < j + (a + b) → i % d ≢ 0)
    → flag_loop i j (a + b) ≡ flag_loop i j a
unfolding flag_loop
flag_loop-longer i j zero b none =
    let e : 0 + b ≡ b = omega arith in
    rw e (flag_loop-none i j b (λ d p q. none d (omega arith) (omega arith)))
flag_loop-longer i j (suc a) b none =
    let rest : flag_loop i (suc j) (a + b) ≡ flag_loop i (suc j) a =
      flag_loop-longer i (suc j) a b (λ d p q. none d (omega arith) (omega arith)) in
    let e : suc a + b ≡ suc (a + b) = omega arith in
    rw e (elim (ℕ_discrete (i % j) 0) [
      | yes z ↦ flag_loop-divides i j (a + b) z ∙ sym (flag_loop-divides i j a z)
      | no nz ↦ flag_loop-next i j (a + b) nz ∙ rest ∙ sym (flag_loop-next i j a nz)
    ])

-- a number above the half does not divide
no_divisor : (i d : ℕ) → i / 2 < d → d < i → i % d ≢ 0
no_divisor i d p q e =
    let half : i < d + d = omega arith in
    let less : (i - d) % d ≡ i - d = mod-eq_of_lt (omega arith) in
    let wrapped : i % d ≡ (i - d) % d = mod-eq-sub-mod (omega arith) in omega arith

flag_below-flag_half : (i : ℕ) → 2 ≤ i → flag_below i ≡ flag_half i
unfolding flag_below flag_half
flag_below-flag_half i h =
    let e : (suc (i / 2) - 2) + (i - 2 - (suc (i / 2) - 2)) ≡ i - 2 = omega arith in
    let longer : flag_loop i 2 ((suc (i / 2) - 2) + (i - 2 - (suc (i / 2) - 2)))
        ≡ flag_loop i 2 (suc (i / 2) - 2) =
      flag_loop-longer i 2 (suc (i / 2) - 2) (i - 2 - (suc (i / 2) - 2))
        (λ d p q. no_divisor i d (omega arith) (omega arith)) in
    ap (flag_loop i 2) (sym e) ∙ longer

trial_loop-flags :
    (i k : ℕ) (r : Printed) → 2 ≤ i → trial_loop flag_half 1 i k r ≡ trial_loop flag_below 1 i k r
unfolding trial_loop
trial_loop-flags i zero r h = refl
trial_loop-flags i (suc k) r h =
    rw (flag_below-flag_half i h)
      (trial_loop-flags (i + 1) k (count_step (flag_half i) i r) (omega arith))

-- `Ordinary_sieve_method1` prints and counts what `Ordinary_sieve_method` does, though it tries only
-- divisors up to the half of each number.
pub ordinary_sieve_method1-ordinary_sieve_method :
    (n : ℕ) → ordinary_sieve_method1 n ≡ ordinary_sieve_method n
unfolding ordinary_sieve_method ordinary_sieve_method1
ordinary_sieve_method1-ordinary_sieve_method n =
    rw (trial_loop-flags 2 (n - 2) nothing (omega arith)) refl
