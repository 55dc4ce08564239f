-- ===== src/Subsequence/Divided.antt =====
-- Algorithm/Subsequence/Divide_and_conquer.c. The right end of a range, which is -1 for an empty
-- array, is shifted by one: `stop` is `right + 1`.
pub mod Border
pub mod Halves
pub mod Laws
pub mod Empty
use core_technologies.Base.{
  Arr, Run, for_range, if◌then◌else◌, ltb_ℤ, ok, out_of_fuel, pos, read, suc, zero, ℕ, ℤ, ◌+◌, ◌-◌,
  ◌/◌, ◌==◌, ◌>>=◌, ◌>>◌,
}
use core_technologies.Subsequence.{add_int}
use core_technologies.Subsequence.Spec.{sum}

-- `Max3`
unfoldable pub max3 : ℤ → ℤ → ℤ → ℤ
max3 left right border =
    let max = if ltb_ℤ right left then left else right in if ltb_ℤ border max then max else border

-- the body of the two loops of `MaxSubSum`, on the sum and the largest sum
unfoldable pub border_step : Arr ℤ → ℕ → ℤ × ℤ → Run (ℤ × ℤ)
border_step a i (sum, max) = do
  x ← read a i
  sum ← add_int sum x
  ok (sum, (if ltb_ℤ max sum then sum else max))

-- the loop that goes down from `mid` to `left`
unfoldable pub left_border : Arr ℤ → (left mid : ℕ) → Run (ℤ × ℤ)
left_border a left mid = for_range 0 (mid + 1 - left) (λ k. border_step a (mid - k)) (pos 0, pos 0)

-- the loop that goes up from `mid + 1` to `right`
unfoldable pub right_border : Arr ℤ → (mid stop : ℕ) → Run (ℤ × ℤ)
right_border a mid stop = for_range (mid + 1) stop (border_step a) (pos 0, pos 0)

unfoldable pub max_sub_sum : ℕ → Arr ℤ → (left stop : ℕ) → Run ℤ
max_sub_sum zero a left stop = out_of_fuel
max_sub_sum (suc fuel) a left stop =
    let mid = (left + stop - 1) / 2 in
    if left + 1 == stop
    then (do x ← read a left; ok (if ltb_ℤ (pos 0) x then x else pos 0))
    else (do
      max_left ← max_sub_sum fuel a left (mid + 1)
      max_right ← max_sub_sum fuel a (mid + 1) stop
      (left_sum, max_left_border) ← left_border a left mid
      (right_sum, max_right_border) ← right_border a mid stop
      border ← add_int max_left_border max_right_border
      ok (max3 max_left max_right border))

-- `MaxSubsequenceSum` of Divide_and_conquer.c
unfoldable pub max_subsequence_sum : ℕ → Arr ℤ → ℕ → Run ℤ
max_subsequence_sum fuel a n = max_sub_sum fuel a 0 n
