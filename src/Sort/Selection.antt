-- ===== src/Sort/Selection.antt =====
-- SelectionSort.c.
pub mod Laws
use core_technologies.Base.{
  Arr, Run, for_range, if◌then◌else◌, ltb_ℤ, ok, read, ℕ, ℤ, ◌+◌, ◌>>=◌, ◌>>◌,
}
use core_technologies.Sort.Swap.{swap}

-- the inner loop, over the index of a smallest value so far
min_step : Arr ℤ → ℕ → ℕ → Run ℕ
min_step arr j minindex = do
  x ← read arr j
  y ← read arr minindex
  if ltb_ℤ x y then ok j else ok minindex

select_round : ℕ → ℕ → Arr ℤ → Run (Arr ℤ)
select_round sz i arr = do minindex ← for_range (i + 1) sz (min_step arr) i; swap arr i minindex

pub selection_sort : Arr ℤ → ℕ → Run (Arr ℤ)
selection_sort arr sz = for_range 0 sz (select_round sz) arr
