-- ===== src/Number/Trial.antt =====
-- "Ordinary _sieve_method.c": the prime numbers below a bound, by trial division. The bound, which
-- is signed there, is not negative here. What is printed is a list, in order.
pub mod Laws
use core_technologies.Base.{
  List, [], if◌then◌else◌, suc, zero, ℕ, ◌%◌, ◌&&◌, ◌++◌, ◌+◌, ◌-◌, ◌/◌, ◌==◌, ◌∷◌, not,
}

-- what has been counted and printed
pub record Printed : Type 0 where
  pub count : ℕ
  pub numbers : List ℕ

-- the loop on `j`, for the `k` numbers from `j` on: the `flag` it leaves
unfoldable pub flag_loop : (i j k : ℕ) → ℕ
flag_loop i j zero = 1
flag_loop i j (suc k) = let rest = flag_loop i (suc j) k in if i % j == 0 then 0 else rest

-- the numbers up to the last that the loop on `j` from 2 or 3 tries, of each of the three functions
unfoldable pub flag_below : ℕ → ℕ
unfolding flag_loop
flag_below i = flag_loop i 2 (i - 2)

unfoldable pub flag_half : ℕ → ℕ
unfolding flag_loop
flag_half i = flag_loop i 2 (suc (i / 2) - 2)

unfoldable pub flag_odd : ℕ → ℕ
unfolding flag_loop
flag_odd i = flag_loop i 3 (i / 2 - 3)

-- `count++` and the call of `printf` for a number whose flag is left at 1
unfoldable pub count_step : (flag i : ℕ) → Printed → Printed
count_step flag i r =
    if flag == 1 then record { count = suc r.count; numbers = r.numbers ++ (i ∷ []) } else r

-- the loop on `i`, which grows by `stride`, for `k` rounds
unfoldable pub trial_loop : (ℕ → ℕ) → (stride i k : ℕ) → Printed → Printed
unfolding count_step
trial_loop flag stride i zero r = r
trial_loop flag stride i (suc k) r = trial_loop flag stride (i + stride) k (count_step (flag i) i r)

abbrev pub nothing : Printed
nothing = record { count = 0; numbers = [] }

abbrev pub only_two : Printed
only_two = record { count = 1; numbers = 2 ∷ [] }

-- `Ordinary_sieve_method`
unfoldable pub ordinary_sieve_method : ℕ → Printed
unfolding trial_loop flag_below
ordinary_sieve_method n = if n == 2 then only_two else trial_loop flag_below 1 2 (n - 2) nothing

-- `Ordinary_sieve_method1`
unfoldable pub ordinary_sieve_method1 : ℕ → Printed
unfolding trial_loop flag_half
ordinary_sieve_method1 n = if n == 2 then only_two else trial_loop flag_half 1 2 (n - 2) nothing

-- `Ordinary_sieve_method2`, which prints 2 for an even bound only
unfoldable pub ordinary_sieve_method2 : ℕ → Printed
unfolding trial_loop flag_odd
ordinary_sieve_method2 n =
    if n == 2
    then only_two
    else trial_loop flag_odd 2 3 ((n - 2) / 2)
        (if not (n == 2) && (n % 2 == 0) then only_two else nothing)
