-- ===== src/Subsequence/Divided/Empty.antt =====
-- `MaxSubsequenceSum` of Divide_and_conquer.c without a cell.
use core_technologies.Base.{
  Arr, arith, false, out_of_fuel, read-ok, refl, suc, zero, ℕ, ℤ, ◌+◌, ◌-◌, ◌/◌, ◌<◌, ◌==◌, ◌≡◌,
  ◌≤◌,
}
use core_technologies.Subsequence.Divided.{max_sub_sum, max_subsequence_sum}

-- The recursion on no cells from index 1 on calls itself.
max_sub_sum_endless :
    (fuel : ℕ) (a : Arr ℤ) (stop : ℕ) → stop ≤ 1 → max_sub_sum fuel a 1 stop ≡ out_of_fuel
unfolding max_sub_sum
max_sub_sum_endless zero a stop le = refl
max_sub_sum_endless (suc fuel) a stop le =
    let e : (1 + 1 == stop) ≡ false = ground arith in
    let e' : (1 + stop - 1) / 2 + 1 ≡ 1 = omega arith in
    rw (e, e', max_sub_sum_endless fuel a 1 (omega arith)) refl

-- `MaxSubsequenceSum` of Divide_and_conquer.c with an `N` of 0, on an array that has a cell, never
-- ends, however deep it recurs: it takes halves of an empty range, of which one is empty again.
pub max_subsequence_sum_endless :
    (fuel : ℕ) (a : Arr ℤ) → 0 < a.size → max_subsequence_sum fuel a 0 ≡ out_of_fuel
unfolding max_subsequence_sum max_sub_sum
max_subsequence_sum_endless zero a some_there = refl
max_subsequence_sum_endless (suc zero) a some_there = refl
max_subsequence_sum_endless (suc (suc fuel)) a some_there =
    rw (read-ok a 0 some_there, max_sub_sum_endless (suc fuel) a 0 (omega arith)) refl
