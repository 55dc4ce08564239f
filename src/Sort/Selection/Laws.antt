-- ===== src/Sort/Selection/Laws.antt =====
-- `SelectionSort` sorts.
use core_technologies.Base.{
  Arr, Bool-cases, Returns, Returns-bind, Returns-mono, Returns-of_eq, arith, for_range_inv, inl,
  inr, ltb_ℤ, read-ok, returns, ℕ, ℤ, ◌+◌, ◌<◌, ◌≡◌, ◌≤ℤ◌, ◌≤◌,
}
use core_technologies.Sort.Selection.{min_step, select_round, selection_sort}
use core_technologies.Sort.Spec.{IsSorted, Rearranges, Rearranges-refl, Rearranges-trans}
use core_technologies.Sort.Swap.{Rearranges-swapped, swap-ok}

-- `m` is the index of a smallest value among the cells `i`, ..., `j - 1`
record IsLeast (a : Arr ℤ) (i j m : ℕ) : Type 0 where
  above : i ≤ m
  below : m < j
  least : (k : ℕ) → i ≤ k → k < j → a.at m ≤ℤ a.at k

-- the first `i` cells are in place
record IsSelected (sz : ℕ) (a₀ : Arr ℤ) (i : ℕ) (a : Arr ℤ) : Type 0 where
  same : Rearranges 0 sz a₀ a
  placed : (k l : ℕ) → k < i → k < l → l < sz → a.at k ≤ℤ a.at l

min_step-IsLeast :
    (a : Arr ℤ) (i sz j m : ℕ)
    → sz ≤ a.size
    → j < sz
    → IsLeast a i j m
    → Returns (IsLeast a i (j + 1)) (min_step a j m)
unfolding min_step
min_step-IsLeast a i sz j m fits h p =
    let below = p.below in
    rw (read-ok a j (omega arith), read-ok a m (omega arith))
      (elim (Bool-cases (ltb_ℤ (a.at j) (a.at m))) [
        | inl e ↦ rw e (
            returns (record {
              above = omega (arith, p.above);
              below = omega arith;
              least = λ k q r. ground (arith, p.least k, e);
            }))
        | inr e ↦ rw e (
            returns (record {
              above = p.above;
              below = omega arith;
              least = λ k q r. ground (arith, p.least k, e);
            }))
      ])

select_round-IsSelected :
    (sz i : ℕ) {a₀ a : Arr ℤ}
    → sz ≤ a₀.size
    → i < sz
    → IsSelected sz a₀ i a
    → Returns (IsSelected sz a₀ (i + 1)) (select_round sz i a)
unfolding select_round
select_round-IsSelected sz i {a} fits h p =
    let size = p.same.same_size in
    Returns-bind
      (for_range_inv (λ j m. IsLeast a i j m) (min_step a) sz
        (λ j m lt. min_step-IsLeast a i sz j m (omega arith) lt) (i + 1) i (omega arith)
        (record {
          above = omega arith;
          below = omega arith;
          least = λ k q r. let e : k ≡ i = omega arith in rw e (omega arith);
        }))
      λ m q. Returns-of_eq (swap-ok a i m (omega arith) (omega (arith, q.below))) (record {
        same =
            Rearranges-trans p.same
              (Rearranges-swapped a i m 0 sz (omega arith) h (omega arith) q.below (omega arith));
        placed = λ k l r s t. ground (
          arith,
          p.placed k l,
          p.placed k i,
          p.placed k m,
          q.least l,
          q.above,
          q.below,
          q.least i,
        );
      })

-- `SelectionSort(arr, sz)` on an array of at least `sz` cells reads and writes no other cell, and
-- leaves the first `sz` cells in ascending order, with the values they had.
pub selection_sort-IsSorted :
    (a : Arr ℤ) (sz : ℕ)
    → sz ≤ a.size
    → Returns (λ b. Rearranges 0 sz a b × IsSorted 0 sz b) (selection_sort a sz)
unfolding selection_sort
selection_sort-IsSorted a sz fits =
    Returns-mono
      (for_range_inv (IsSelected sz a) (select_round sz) sz
        (λ i s lt p. select_round-IsSelected sz i fits lt p) 0 a (omega arith)
        (record { same = Rearranges-refl a; placed = λ k l p q r. absurd (omega arith) }))
      λ b p. (p.same, λ k l _ q r. p.placed k l (omega arith) q r)
