-- ===== src/Sort/Insertion.antt =====
-- InsertionSort.c. The variable `k` below is `j + 1` of the program, whose `j` goes down to -1.
pub mod Laws
use core_technologies.Base.{
  Arr, Run, for_range, if◌then◌else◌, ltb_ℤ, ok, read, suc, write, zero, ℕ, ℤ, ◌+◌, ◌>>=◌, ◌>>◌,
}

-- the `while` loop: cells move up until the place of `base` is found, which is the result's index
unfoldable pub shift_up : ℕ → ℤ → Arr ℤ → Run (Arr ℤ × ℕ)
shift_up zero base arr = ok (arr, 0)
shift_up (suc j) base arr = do
  x ← read arr j
  if ltb_ℤ base x then (do arr ← write arr (j + 1) x; shift_up j base arr) else ok (arr, suc j)

-- the body of the `for` loop
unfoldable pub insert_round : ℕ → Arr ℤ → Run (Arr ℤ)
insert_round i arr = do base ← read arr i; (arr, k) ← shift_up i base arr; write arr k base

unfoldable pub insertion_sort : Arr ℤ → ℕ → Run (Arr ℤ)
insertion_sort arr sz = for_range 1 sz insert_round arr
