-- ===== src/Sort/Bubble/Flag.antt =====
-- `BubbleSortWithFlag` sorts: a round without a swap finds the array sorted.
use core_technologies.Base.{
  Arr, Bool, Bool-cases, Returns, Returns-bind, Returns-of_eq, arith, dec_lt, false, for_range,
  for_range_inv, inl, inr, ltb_ℤ, ok, read-ok, refl, returns, suc, true, zero, ℕ, ℤ, ◌+◌, ◌-◌, ◌<◌,
  ◌||◌, ◌≡◌, ◌≤◌,
}
use core_technologies.Sort.Bubble.{bubble_sort_with_flag, flag_loop, flag_step}
use core_technologies.Sort.Bubble.Laws.{
  IsBubbling, IsBubbling-bubbled, IsPassed, IsPassed-IsBubbling, IsPassed-IsSorted, IsPassed-next,
  IsPassed-start, bubbled,
}
use core_technologies.Sort.Spec.{IsSorted, Rearranges}
use core_technologies.Sort.Swap.{swap-ok}

-- the state of the inner loop: while the flag is down the first cells ascend
record IsFlagged (sz m : ℕ) (a₀ : Arr ℤ) (j : ℕ) (s : Arr ℤ × Bool) : Type 0 where
  inner : IsBubbling sz m a₀ j s.0
  ascends : s.1 ≡ false → IsSorted 0 (j + 1) s.0

flag_step-ok :
    (j : ℕ) (a : Arr ℤ) (flag : Bool)
    → suc j < a.size
    → flag_step j (a, flag) ≡ ok (bubbled a j, flag || ltb_ℤ (a.at (j + 1)) (a.at j))
unfolding flag_step bubbled
flag_step-ok j a flag h =
    rw (read-ok a j (omega arith), read-ok a (j + 1) (omega arith))
      (ground (arith, swap-ok a j (j + 1) (omega arith) (omega arith)))

-- a flag that stays down: nothing was swapped
not_swapped :
    (a : Arr ℤ) (j : ℕ) (flag : Bool)
    → (flag || ltb_ℤ (a.at (j + 1)) (a.at j)) ≡ false
    → (flag ≡ false) × (bubbled a j ≡ a)
unfolding bubbled
not_swapped a j false h = (refl, rw h)
not_swapped a j true h = cc

module _ {sz m : ℕ} {a₀ : Arr ℤ} (fits : sz ≤ a₀.size) (low : m ≤ sz) where
  flag_step-IsFlagged :
      (j : ℕ) (s : Arr ℤ × Bool)
      → j < m - 1
      → IsFlagged sz m a₀ j s
      → Returns (IsFlagged sz m a₀ (j + 1)) (flag_step j s)
  flag_step-IsFlagged j (a, flag) lt p =
      let next = IsBubbling-bubbled fits low j (omega arith) p.inner in
      Returns-of_eq (flag_step-ok j a flag (omega (arith, p.inner.same.same_size))) (record {
        inner = next;
        ascends = λ down k l q r t. elim (dec_lt l (j + 1)) [
          | yes h ↦ let (up, still) = not_swapped a j flag down in rw still (p.ascends up k l q r h)
          | no h ↦ let e : l ≡ j + 1 = omega arith in rw e (next.top k (omega arith))
        ];
      })

  inner_loop :
      {a : Arr ℤ}
      → IsBubbling sz m a₀ 0 a
      → Returns (IsFlagged sz m a₀ (m - 1)) (for_range 0 (m - 1) flag_step (a, false))
  inner_loop {a} inv =
      for_range_inv (IsFlagged sz m a₀) flag_step (m - 1) flag_step-IsFlagged 0 (a, false)
        (omega arith) (record { inner = inv; ascends = λ _ k l p q r. absurd (omega arith) })

-- the array is sorted where it ascends below the cells that are in place
IsSorted-of_flag :
    {sz m : ℕ} {a₀ b : Arr ℤ} {n : ℕ}
    → m ≤ n + 1
    → IsBubbling sz m a₀ n b
    → IsSorted 0 (n + 1) b
    → IsSorted 0 sz b
IsSorted-of_flag {m} h inv low k l p q r = elim (dec_lt l m) [
  | yes lt ↦ low k l p q (omega arith)
  | no ge ↦ inv.tail k l q (omega arith) r
]

-- What a run of the outer loop has to leave behind.
abbrev Sorts : ℕ → Arr ℤ → Arr ℤ → Type 0
Sorts sz a b = Rearranges 0 sz a b × IsSorted 0 sz b

flag_loop-Sorts :
    (sz rounds i : ℕ) {a₀ a : Arr ℤ}
    → sz ≤ a₀.size
    → i + rounds ≡ sz - 1
    → IsPassed sz a₀ i a
    → Returns (Sorts sz a₀) (flag_loop sz rounds i a)
unfolding flag_loop
flag_loop-Sorts sz zero i fits e p = returns (p.same, IsPassed-IsSorted (omega arith) p)
flag_loop-Sorts sz (suc rounds) i {a₀} fits e p =
    Returns-bind (inner_loop fits (omega arith) (IsPassed-IsBubbling sz i p)) λ s f.
      elim (Bool-cases s.1) [
        | inl up ↦
            rw up
              (flag_loop-Sorts sz rounds (i + 1) fits (omega arith) (IsPassed-next sz i f.inner))
        | inr down ↦
            rw down
              (returns (f.inner.same, IsSorted-of_flag (omega arith) f.inner (f.ascends down)))
      ]

-- `BubbleSortWithFlag(arr, sz)` on an array of at least `sz` cells reads and writes no other
-- cell, and leaves the first `sz` cells in ascending order, with the values they had.
pub bubble_sort_with_flag-IsSorted :
    (a : Arr ℤ) (sz : ℕ)
    → sz ≤ a.size
    → Returns (λ b. Rearranges 0 sz a b × IsSorted 0 sz b) (bubble_sort_with_flag a sz)
unfolding bubble_sort_with_flag
bubble_sort_with_flag-IsSorted a sz fits =
    flag_loop-Sorts sz (sz - 1) 0 fits (omega arith) (IsPassed-start sz a)
