-- ===== src/Hash.antt =====
-- The hash tables of Data_Structure/Hash.
pub mod Chained
pub mod Open
use core_technologies.Base.{
  Run, arith, false, fault, if◌then◌else◌, neg_part, negsuc, ok, pos, pos_part, refl, suc, zero, ℕ,
  ℤ, ◌%◌, ◌+◌, ◌<◌, ◌==◌, ◌≡◌,
}

-- a result of `%` with the sign of what was divided
abbrev pub signed : ℤ → ℕ → ℤ
signed (pos a) r = pos r
signed (negsuc a) zero = pos 0
signed (negsuc a) (suc m) = negsuc m

abbrev pub abs : ℤ → ℕ
abs a = pos_part a + neg_part a

-- `a % b` of C: a division by zero is a fault
unfoldable pub rem : ℤ → ℤ → Run ℤ
rem a b = if abs b == 0 then fault else ok (signed a (abs a % abs b))

pub rem-pos : (a b : ℕ) → 0 < b → rem (pos a) (pos b) ≡ ok (pos (a % b))
unfolding rem
rem-pos a b h =
    let e : (b + 0 == 0) ≡ false = ground arith in
    let e' : b + 0 ≡ b = omega arith in let e'' : a + 0 ≡ a = omega arith in rw (e, e', e'') refl
