-- ===== src/Subsequence.antt =====
-- The largest sum of consecutive cells: Algorithm/Subsequence/Best.c, in one pass, and
-- Algorithm/Subsequence/Exhaustive.c, which tries all.
pub mod Spec
pub mod Best
pub mod Exhaustive
pub mod Divided
use core_technologies.Base.{
  Arr, Bool, Run, fault, for_range, if◌then◌else◌, leb_ℤ, ltb_ℤ, negsuc, ok, pos, read, ℕ, ℤ, ◌&&◌,
  ◌+ℤ◌, ◌-◌, ◌>>=◌, ◌>>◌, ◌^◌,
}

-- whether a sum is an `int`
abbrev pub is_int : ℤ → Bool
is_int v = leb_ℤ v (pos (2 ^ 31 - 1)) && leb_ℤ (negsuc (2 ^ 31 - 1)) v

-- `a + b`: an overflow is a fault
unfoldable pub add_int : ℤ → ℤ → Run ℤ
add_int a b = if is_int (a +ℤ b) then ok (a +ℤ b) else fault

-- the body of the loop, on `thissum` and `maxsum`
unfoldable pub sum_step : Arr ℤ → ℕ → ℤ × ℤ → Run (ℤ × ℤ)
sum_step a i (thissum, maxsum) = do
  x ← read a i
  thissum ← add_int thissum x
  if ltb_ℤ maxsum thissum
      then ok (thissum, thissum)
      else if ltb_ℤ thissum (pos 0)
      then ok (pos 0, maxsum)
      else ok (thissum, maxsum)

unfoldable pub max_sub_sequence_sum : Arr ℤ → ℕ → Run ℤ
max_sub_sequence_sum a n = do
  (thissum, maxsum) ← for_range 0 n (sum_step a) (pos 0, pos 0)
  ok maxsum

-- the body of the inner loop of Exhaustive.c, on `maxsum` and `thissum`
unfoldable pub try_step : Arr ℤ → ℕ → ℤ × ℤ → Run (ℤ × ℤ)
try_step a j (maxsum, thissum) = do
  x ← read a j
  thissum ← add_int thissum x
  if ltb_ℤ maxsum thissum then ok (thissum, thissum) else ok (maxsum, thissum)

-- the body of its outer loop
unfoldable pub try_from : Arr ℤ → ℕ → ℕ → ℤ → Run ℤ
try_from a n i maxsum = do (maxsum, thissum) ← for_range i n (try_step a) (maxsum, pos 0); ok maxsum

-- `MaxSubsequenceSum` of Exhaustive.c
unfoldable pub max_subsequence_sum : Arr ℤ → ℕ → Run ℤ
max_subsequence_sum a n = for_range 0 n (try_from a n) (pos 0)
