-- ===== src/Search.antt =====
-- Algorithm/Search/BinarySearch.c. The range is half open, `stop` being `right + 1` of the
-- program, so that -1, which `right` can be, is 0.
pub mod Ascending
pub mod Laws
pub mod Missed
use core_technologies.Base.{
  Arr, Run, if◌then◌else◌, ltb, ltb_ℤ, negsuc, ok, out_of_fuel, pos, read, suc, zero, ℕ, ℤ, ◌+◌,
  ◌-◌, ◌/◌, ◌>>=◌, ◌>>◌,
}

-- `while (left < right)`
unfoldable pub search_loop : ℕ → Arr ℤ → ℤ → (left stop : ℕ) → Run ℤ
search_loop zero arr goal left stop = out_of_fuel
search_loop (suc fuel) arr goal left stop =
    if ltb (left + 1) stop
    then (do
      let mid = left + (stop - 1 - left) / 2
      x ← read arr mid
      if ltb_ℤ x goal
          then search_loop fuel arr goal (mid + 1) stop
          else if ltb_ℤ goal x
          then search_loop fuel arr goal left mid
          else ok (pos mid))
    else ok (negsuc 0)

-- one round for each cell is enough
unfoldable pub binary_search : Arr ℤ → ℤ → ℕ → Run ℤ
unfolding search_loop
binary_search arr goal len = search_loop (len + 1) arr goal 0 len
