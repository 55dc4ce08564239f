-- ===== src/Sort/Bubble.antt =====
-- BubbleSort.c: `BubbleSort` and `BubbleSortWithFlag`.
pub mod Laws
pub mod Flag
use core_technologies.Base.{
  Arr, Bool, Run, false, for_range, if◌then◌else◌, ltb_ℤ, not, ok, read, suc, true, zero, ℕ, ℤ, ◌+◌,
  ◌-◌, ◌>>=◌, ◌>>◌,
}
use core_technologies.Sort.Swap.{swap}

-- the body of the inner loop
bubble_step : ℕ → Arr ℤ → Run (Arr ℤ)
bubble_step j arr = do
  x ← read arr j
  y ← read arr (j + 1)
  if ltb_ℤ y x then swap arr j (j + 1) else ok arr

pub bubble_sort : Arr ℤ → ℕ → Run (Arr ℤ)
bubble_sort arr sz = for_range 0 (sz - 1) (λ i arr. for_range 0 (sz - i - 1) bubble_step arr) arr

-- with the flag: `true` once something was swapped
flag_step : ℕ → Arr ℤ × Bool → Run (Arr ℤ × Bool)
flag_step j (arr, flag) = do
  x ← read arr j
  y ← read arr (j + 1)
  if ltb_ℤ y x then (do arr ← swap arr j (j + 1); ok (arr, true)) else ok (arr, flag)

-- `rounds` rounds of the outer loop from `i` on, with its `break`
flag_loop : ℕ → ℕ → ℕ → Arr ℤ → Run (Arr ℤ)
flag_loop sz zero i arr = ok arr
flag_loop sz (suc rounds) i arr = do
  (arr, flag) ← for_range 0 (sz - i - 1) flag_step (arr, false)
  if not flag then ok arr else flag_loop sz rounds (i + 1) arr

pub bubble_sort_with_flag : Arr ℤ → ℕ → Run (Arr ℤ)
unfolding flag_loop
bubble_sort_with_flag arr sz = flag_loop sz (sz - 1) 0 arr
