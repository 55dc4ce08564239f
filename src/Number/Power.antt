-- ===== src/Number/Power.antt =====
-- BinPow.c. Products that are no `long long` are a fault.
pub mod Laws
use core_technologies.Base.{
  Bool, Run, eqb_ℤ, fault, if◌then◌else◌, leb_ℤ, negsuc, ok, out_of_fuel, pos, suc, zero, ℕ, ℤ, ◌%◌,
  ◌&&◌, ◌*ℤ◌, ◌+◌, ◌-◌, ◌/◌, ◌==◌, ◌>>=◌, ◌>>◌, ◌^◌,
}

abbrev pub max_long_long : ℕ
max_long_long = 2 ^ 63 - 1

abbrev pub is_long_long : ℤ → Bool
is_long_long v = leb_ℤ v (pos max_long_long) && leb_ℤ (negsuc max_long_long) v

-- a product of two `long long`s
unfoldable pub mul_long : (a b : ℤ) → Run ℤ
mul_long a b = if is_long_long (a *ℤ b) then ok (a *ℤ b) else fault

-- the number that is `m` below 0
abbrev pub negative : ℕ → ℤ
negative zero = pos 0
negative (suc m) = negsuc m

-- `y / 2` and `y % 2`, which round towards 0
abbrev pub half : ℤ → ℤ
half (pos n) = pos (n / 2)
half (negsuc n) = negative (suc n / 2)

abbrev pub rest_of_half : ℤ → ℤ
rest_of_half (pos n) = pos (n % 2)
rest_of_half (negsuc n) = negative (suc n % 2)

-- `BinPow`, which recurs at most `fuel` deep
unfoldable pub bin_pow : ℕ → (x y : ℤ) → Run ℤ
unfolding mul_long
bin_pow zero x y = out_of_fuel
bin_pow (suc fuel) x y = if eqb_ℤ y (pos 0) then ok (pos 1) else (do
  ans ← bin_pow fuel x (half y)
  square ← mul_long ans ans
  if eqb_ℤ (rest_of_half y) (pos 0) then ok square else mul_long square x)
