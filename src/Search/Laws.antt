-- ===== src/Search/Laws.antt =====
-- What `BinarySearch` gives.
use core_technologies.Base.{
  Arr, Bool-cases, Returns, Returns-mono, arith, eq_of_parts, inl, inr, ltb, ltb_ℤ, negsuc, pos,
  read-ok, refl, returns, suc, zero, ℕ, ℤ, ◌+◌, ◌-◌, ◌/◌, ◌<◌, ◌≡◌, ◌≤◌, ◌⊎◌,
}
use core_technologies.Search.{binary_search, search_loop}

-- what is found from `left` up to `stop`: an index of the range with the value, or -1
abbrev pub Finds : Arr ℤ → ℤ → (left stop : ℕ) → ℤ → Type 0
Finds a goal left stop r =
    (r ≡ negsuc 0) ⊎ ((m : ℕ) × (r ≡ pos m) × (left ≤ m) × (m < stop) × (a.at m ≡ goal))

Finds-widen :
    (a : Arr ℤ) (goal r : ℤ) {left stop left' stop' : ℕ}
    → left' ≤ left
    → stop ≤ stop'
    → Finds a goal left stop r
    → Finds a goal left' stop' r
Finds-widen a goal r l s (inl missing) = inl missing
Finds-widen a goal r l s (inr (m, e, lo, hi, found)) = inr (m, e, omega arith, omega arith, found)

search_loop-Finds :
    (fuel : ℕ) (a : Arr ℤ) (goal : ℤ) (left stop : ℕ)
    → stop ≤ a.size
    → stop - left < fuel
    → Returns (Finds a goal left stop) (search_loop fuel a goal left stop)
unfolding search_loop
search_loop-Finds zero a goal left stop fits f = absurd (omega arith)
search_loop-Finds (suc fuel) a goal left stop fits f = elim (Bool-cases (ltb (left + 1) stop)) [
  | inl more ↦
      let long : left + 1 < stop = ground arith in
      let mid = left + (stop - 1 - left) / 2 in
      let low : mid < stop = omega arith in
      rw (more, read-ok a mid (omega arith))
        (elim (Bool-cases (ltb_ℤ (a.at mid) goal)) [
          | inl lt ↦ rw lt (
              Returns-mono (search_loop-Finds fuel a goal (mid + 1) stop fits (omega arith))
                λ r found. Finds-widen a goal r (omega arith) (omega arith) found)
          | inr ge ↦ elim (Bool-cases (ltb_ℤ goal (a.at mid))) [
            | inl gt ↦
                rw (ge, gt)
                  (Returns-mono (search_loop-Finds fuel a goal left mid (omega arith) (omega arith))
                    λ r found. Finds-widen a goal r (omega arith) (omega arith) found)
            | inr le ↦
                rw (ge, le)
                  (returns (inr (mid, refl, omega arith, low, eq_of_parts _ _ (ground arith))))
          ]
        ])
  | inr less ↦ rw less (returns (inl refl))
]

-- `BinarySearch(arr, goal, len)` on an array of at least `len` cells, sorted or not, ends, reads
-- no cell from the `len`th on, and gives -1 or the index of a cell that holds the value.
pub binary_search-Finds :
    (a : Arr ℤ) (goal : ℤ) (len : ℕ)
    → len ≤ a.size
    → Returns (Finds a goal 0 len) (binary_search a goal len)
unfolding binary_search
binary_search-Finds a goal len fits = search_loop-Finds (len + 1) a goal 0 len fits (omega arith)
