-- ===== src/Sort/Shell.antt =====
-- ShellSort.c.
pub mod Laws
pub mod Passes
use core_technologies.Base.{
  Arr, Run, if◌then◌else◌, leb, ltb, ltb_ℤ, ok, out_of_fuel, read, suc, write, zero, ℕ, ℤ, ◌+◌, ◌-◌,
  ◌/◌, ◌>>=◌, ◌>>◌,
}

-- the innermost loop: `arr[j] = arr[j - gap]` while that is greater, then `arr[j] = temp`
shell_shift : ℕ → (gap : ℕ) → ℤ → (j : ℕ) → Arr ℤ → Run (Arr ℤ)
shell_shift zero gap temp j arr = out_of_fuel
shell_shift (suc fuel) gap temp j arr =
    if leb gap j
    then (do
      x ← read arr (j - gap)
      if ltb_ℤ temp x
          then (do arr ← write arr j x; shell_shift fuel gap temp (j - gap) arr)
          else write arr j temp)
    else write arr j temp

-- `for (int i = gap; i < sz; i += gap)`, from `i` on
pub shell_pass : ℕ → (gap sz i : ℕ) → Arr ℤ → Run (Arr ℤ)
shell_pass zero gap sz i arr = out_of_fuel
shell_pass (suc fuel) gap sz i arr =
    if ltb i sz
    then (do
      temp ← read arr i
      arr ← shell_shift (i + 1) gap temp i arr
      shell_pass fuel gap sz (i + gap) arr)
    else ok arr

-- `for (int gap = sz >> 1; gap > 0; gap >>= 1)`, from `gap` on
shell_gaps : ℕ → (gap sz : ℕ) → Arr ℤ → Run (Arr ℤ)
shell_gaps zero gap sz arr = out_of_fuel
shell_gaps (suc fuel) gap sz arr =
    if ltb 0 gap
    then (do arr ← shell_pass (sz + 1) gap sz gap arr; shell_gaps fuel (gap / 2) sz arr)
    else ok arr

pub shell_sort : Arr ℤ → ℕ → Run (Arr ℤ)
shell_sort arr sz = shell_gaps (sz + 1) (sz / 2) sz arr
