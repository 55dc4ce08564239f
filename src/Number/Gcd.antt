-- ===== src/Number/Gcd.antt =====
-- Gcd.c. The arguments of `gcd` and `Lcm`, which are signed there, are not negative here.
pub mod Laws
use core_technologies.Base.{
  Run, fault, if◌then◌else◌, leb, ltb, ok, out_of_fuel, suc, zero, ℕ, ◌%◌, ◌*◌, ◌-◌, ◌/◌, ◌==◌,
  ◌>>=◌, ◌>>◌, ◌^◌,
}

-- `Gcd`: the loop on its two variables
unfoldable pub gcd_loop : ℕ → (m n : ℕ) → Run ℕ
gcd_loop zero m n = out_of_fuel
gcd_loop (suc fuel) m n = if ltb 0 n then gcd_loop fuel n (m % n) else ok m

-- `gcd`, which recurs at most `fuel` deep
unfoldable pub gcd : ℕ → (m n : ℕ) → Run ℕ
gcd zero m n = out_of_fuel
gcd (suc fuel) m n = if n == 0 then ok m else gcd fuel n (m % n)

abbrev pub max_long : ℕ
max_long = 2 ^ 63 - 1

-- `Lcm`: a division by zero and a product that is no `long long` are faults
unfoldable pub lcm : ℕ → (m n : ℕ) → Run ℕ
lcm fuel m n = do
  g ← gcd fuel m n
  if g == 0 then fault else if leb (m / g * n) max_long then ok (m / g * n) else fault
