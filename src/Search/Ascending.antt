-- ===== src/Search/Ascending.antt =====
-- `BinarySearch` in an array that ascends.
use core_technologies.Base.{
  Arr, Bool-cases, Returns, Returns-mono, arith, eq_of_parts, inl, inr, ltb, ltb_ℤ, negsuc, pos,
  read-ok, refl, returns, suc, true, zero, ℕ, ℤ, ◌+◌, ◌-◌, ◌/◌, ◌<◌, ◌==◌, ◌≡◌, ◌≢◌, ◌≤ℤ◌, ◌≤◌, ◌⊎◌,
}
use core_technologies.Search.{binary_search, search_loop}

-- the cells below `len` do not descend
abbrev pub IsAscending : Arr ℤ → ℕ → Type 0
IsAscending a len = (k l : ℕ) → k < l → l < len → a.at k ≤ℤ a.at l

-- what is found from `left` up to `stop`: an index of the range with the value, or -1, and then at
-- most one cell of the range may hold the value
abbrev pub FindsBut : Arr ℤ → ℤ → (left stop : ℕ) → ℤ → Type 0
FindsBut a goal left stop r =
    ((r ≡ negsuc 0) × ((c : ℕ) × ((k : ℕ) → left ≤ k → k < stop → k ≢ c → a.at k ≢ goal)))
    ⊎ ((m : ℕ) × (r ≡ pos m) × (left ≤ m) × (m < stop) × (a.at m ≡ goal))

-- The value is not left of `left'`, and not from `stop'` on.
FindsBut-widen :
    (a : Arr ℤ) (goal r : ℤ) {left stop left' stop' : ℕ}
    → left ≤ left'
    → stop' ≤ stop
    → ((k : ℕ) → left ≤ k → k < left' → a.at k ≢ goal)
    → ((k : ℕ) → stop' ≤ k → k < stop → a.at k ≢ goal)
    → FindsBut a goal left' stop' r
    → FindsBut a goal left stop r
FindsBut-widen a goal r {left} {stop} {left'} {stop'} l s low high (inl (missing, (c, but))) = inl (
  missing,
  (
    c,
    λ k p q ne. elim (Bool-cases (ltb k left')) [
      | inl below ↦ low k p (ground arith)
      | inr inner ↦ elim (Bool-cases (ltb k stop')) [
        | inl within ↦ but k (ground arith) (ground arith) ne
        | inr behind ↦ high k (ground arith) q
      ]
    ],
  ),
)
FindsBut-widen a goal r l s low high (inr (m, e, lo, hi, found)) =
    inr (m, e, omega arith, omega arith, found)

IsAscending-le : (a : Arr ℤ) (len k m : ℕ) → IsAscending a len → k ≤ m → m < len → a.at k ≤ℤ a.at m
IsAscending-le a len k m asc le inside = elim (Bool-cases (k == m)) [
  | inl same ↦ let e : k ≡ m = ground arith in rw e (omega arith)
  | inr other ↦ asc k m (ground arith) inside
]

-- a value above those up to cell `m`, and one below those from cell `m` on
above_cells :
    (a : Arr ℤ) (goal : ℤ) (len k m : ℕ)
    → IsAscending a len
    → k ≤ m
    → m < len
    → ltb_ℤ (a.at m) goal ≡ true
    → a.at k ≢ goal
above_cells a goal len k m asc le inside lt e =
    let up = IsAscending-le a len k m asc le inside in
    let up' : goal ≤ℤ a.at m = rw e at up in ground arith

below_cells :
    (a : Arr ℤ) (goal : ℤ) (len k m : ℕ)
    → IsAscending a len
    → m ≤ k
    → k < len
    → ltb_ℤ goal (a.at m) ≡ true
    → a.at k ≢ goal
below_cells a goal len k m asc le inside gt e =
    let up = IsAscending-le a len m k asc le inside in
    let up' : a.at m ≤ℤ goal = rw e at up in ground arith

search_loop-FindsBut :
    (fuel : ℕ) (a : Arr ℤ) (goal : ℤ) (left stop : ℕ)
    → stop ≤ a.size
    → IsAscending a stop
    → stop - left < fuel
    → Returns (FindsBut a goal left stop) (search_loop fuel a goal left stop)
unfolding search_loop
search_loop-FindsBut zero a goal left stop fits asc f = absurd (omega arith)
search_loop-FindsBut (suc fuel) a goal left stop fits asc f =
    elim (Bool-cases (ltb (left + 1) stop)) [
      | inl more ↦
          let long : left + 1 < stop = ground arith in
          let mid = left + (stop - 1 - left) / 2 in
          let low : mid < stop = omega arith in
          rw (more, read-ok a mid (omega arith))
            (elim (Bool-cases (ltb_ℤ (a.at mid) goal)) [
              | inl lt ↦ rw lt (
                  Returns-mono
                    (search_loop-FindsBut fuel a goal (mid + 1) stop fits asc (omega arith))
                    λ r found.
                      FindsBut-widen a goal r (omega arith) (omega arith)
                        (λ k p q. above_cells a goal stop k mid asc (omega arith) low lt)
                        (λ k p q. absurd (omega arith)) found)
              | inr ge ↦ elim (Bool-cases (ltb_ℤ goal (a.at mid))) [
                | inl gt ↦
                    rw (ge, gt)
                      (Returns-mono
                        (search_loop-FindsBut fuel a goal left mid (omega arith)
                          (λ k l p q. asc k l p (omega arith)) (omega arith))
                        λ r found.
                          FindsBut-widen a goal r (omega arith) (omega arith)
                            (λ k p q. absurd (omega arith))
                            (λ k p q. below_cells a goal stop k mid asc p q gt) found)
                | inr le ↦
                    rw (ge, le)
                      (returns (inr (mid, refl, omega arith, low, eq_of_parts _ _ (ground arith))))
              ]
            ])
      | inr less ↦ rw less (returns (inl (refl, (left, λ k p q ne. absurd (ne (ground arith))))))
    ]

-- `BinarySearch(arr, goal, len)` on an array whose first `len` cells ascend, equal values allowed,
-- ends, accesses no cell from the `len`th on, and gives the index of a cell that holds the value, or
-- -1, and then none of these cells but at most one holds the value.
pub binary_search-FindsBut :
    (a : Arr ℤ) (goal : ℤ) (len : ℕ)
    → len ≤ a.size
    → IsAscending a len
    → Returns (FindsBut a goal 0 len) (binary_search a goal len)
unfolding binary_search
binary_search-FindsBut a goal len fits asc =
    search_loop-FindsBut (len + 1) a goal 0 len fits asc (omega arith)
