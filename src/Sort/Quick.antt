-- ===== src/Sort/Quick.antt =====
-- QuickSort.c. The range is half open, `stop` being `right + 1` of the program, and `next` is
-- `i + 1`: so -1, which `right` and `i` can be, is 0.
pub mod Partition
pub mod Laws
use core_technologies.Base.{
  Arr, Run, for_range, if◌then◌else◌, leb, leb_ℤ, ok, out_of_fuel, read, suc, zero, ℕ, ℤ, ◌+◌, ◌-◌,
  ◌>>=◌, ◌>>◌,
}
use core_technologies.Sort.Swap.{swap}

-- the body of the loop of `Partition`
partition_step : ℤ → ℕ → Arr ℤ × ℕ → Run (Arr ℤ × ℕ)
partition_step pivot j (arr, next) = do
  x ← read arr j
  if leb_ℤ x pivot then (do arr ← swap arr next j; ok (arr, next + 1)) else ok (arr, next)

pub partition : Arr ℤ → (left right : ℕ) → Run (Arr ℤ × ℕ)
partition arr left right = do
  pivot ← read arr right
  (arr, next) ← for_range left right (partition_step pivot) (arr, left)
  arr ← swap arr next right
  ok (arr, next)

-- The recursion goes `fuel` deep at most.
pub quick_sort : ℕ → Arr ℤ → (left stop : ℕ) → Run (Arr ℤ)
quick_sort zero arr left stop = out_of_fuel
quick_sort (suc fuel) arr left stop = if leb stop (left + 1) then ok arr else do
  (arr, pivot) ← partition arr left (stop - 1)
  arr ← quick_sort fuel arr left pivot
  quick_sort fuel arr (pivot + 1) stop
