-- ===== src/Tests/Number.antt =====
-- Common divisors and multiples of small numbers.
use core_technologies.Base.{Returns, arith, negsuc, ok, pos, refl, ◌*ℤ◌, ◌≡◌}
use core_technologies.Number.Gcd.{lcm}
use core_technologies.Number.Gcd.Laws.{IsLcm, lcm-IsLcm}
use core_technologies.Number.Power.{bin_pow, mul_long}
use core_technologies.Number.Power.Laws.{bin_pow_lem, power}

lcm-IsLcm_test : Returns (IsLcm 10 14) (lcm 15 10 14)
lcm-IsLcm_test = lcm-IsLcm 15 10 14 (omega arith) (omega arith) (omega arith)

bin_pow_lem_example : bin_pow 6 (negsuc 2) (pos 5) ≡ ok (power (negsuc 2) 5)
bin_pow_lem_example = bin_pow_lem 6 (negsuc 2) (pos 5) (omega arith) (omega arith)

power_test : power (negsuc 2) 5 ≡ negsuc 242
unfolding power ◌*ℤ◌
power_test = refl

-- `y % 2` is -1 for an odd `y` below 0
bin_pow_test : bin_pow 4 (pos 2) (negsuc 2) ≡ ok (pos 8)
unfolding bin_pow mul_long ◌*ℤ◌
bin_pow_test = refl
