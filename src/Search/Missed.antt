-- ===== src/Search/Missed.antt =====
-- The loop of `BinarySearch` ends when one cell is left, and does not look at it.
use core_technologies.Base.{
  Arr, Bool-cases, arith, inl, inr, ltb, ltb_ℤ, negsuc, ok, read-ok, refl, suc, true, zero, ℕ, ℤ,
  ◌+◌, ◌-◌, ◌/◌, ◌<ℤ◌, ◌<◌, ◌≡◌, ◌≤◌,
}
use core_technologies.Search.{binary_search, search_loop}

-- the cells below `len` ascend
abbrev pub Ascends : Arr ℤ → ℕ → Type 0
Ascends a len = (k l : ℕ) → k < l → l < len → a.at k <ℤ a.at l

search_loop-last :
    (fuel : ℕ) (a : Arr ℤ) (left stop : ℕ)
    → stop ≤ a.size
    → Ascends a stop
    → left < stop
    → stop - left < fuel
    → search_loop fuel a (a.at (stop - 1)) left stop ≡ ok (negsuc 0)
unfolding search_loop
search_loop-last zero a left stop fits asc some_there f = absurd (omega arith)
search_loop-last (suc fuel) a left stop fits asc some_there f =
    elim (Bool-cases (ltb (left + 1) stop)) [
      | inl more ↦
          let long : left + 1 < stop = ground arith in
          let mid = left + (stop - 1 - left) / 2 in
          let low : mid < stop - 1 = omega arith in
          let lt : ltb_ℤ (a.at mid) (a.at (stop - 1)) ≡ true =
            ground (arith, asc mid (stop - 1) low (omega arith)) in
          rw (more, read-ok a mid (omega arith), lt)
            (search_loop-last fuel a (mid + 1) stop fits asc (omega arith) (omega arith))
      | inr less ↦ rw less refl
    ]

-- `BinarySearch` in an array whose first `len` cells ascend strictly, `len` at least 1, gives -1
-- for the value of the last of these cells, though the value is there.
pub binary_search-last :
    (a : Arr ℤ) (len : ℕ)
    → 0 < len
    → len ≤ a.size
    → Ascends a len
    → binary_search a (a.at (len - 1)) len ≡ ok (negsuc 0)
unfolding binary_search
binary_search-last a len some_there fits asc =
    search_loop-last (len + 1) a 0 len fits asc some_there (omega arith)
