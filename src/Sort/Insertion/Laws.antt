-- ===== src/Sort/Insertion/Laws.antt =====
-- `InsertionSort` sorts.
use core_technologies.Base.{
  Arr, Bool-cases, Returns, Returns-bind, Returns-mono, Returns-of_eq, ap, arith, dec_le,
  for_range_empty, for_range_inv, inl, inr, ltb_ℤ, put, read-ok, returns, suc, write-ok, zero, ℕ, ℤ,
  ◌+◌, ◌<ℤ◌, ◌<◌, ◌≡◌, ◌≢◌, ◌≤ℤ◌, ◌≤◌,
}
use core_technologies.Sort.Insertion.{insert_round, insertion_sort, shift_up}
use core_technologies.Sort.Spec.{IsSorted, Rearranges, Rearranges-refl, Rearranges-trans}
use core_technologies.Sort.Swap.{Rearranges-swapped, swapped}
use mathlib.Core.Path.{fun_ext}

-- moving the hole down by one is a swap in the array whose hole is filled
pub hole_moves :
    (a : Arr ℤ) (j : ℕ) (base : ℤ)
    → put (put a (j + 1) (a.at j)) j base ≡ swapped (put a (j + 1) base) j (j + 1)
hole_moves a j base =
    let same : (k : ℕ)
        → (put (put a (j + 1) (a.at j)) j base).at k
          ≡ (swapped (put a (j + 1) base) j (j + 1)).at k =
      λ k. ground arith in
    ap (λ f. record { size = a.size; at = f }) (fun_ext same)

-- Filling cell `i` with its own value changes nothing.
pub fill_same : (a : Arr ℤ) (i : ℕ) → put a i (a.at i) ≡ a
fill_same a i =
    let same : (k : ℕ) → (put a i (a.at i)).at k ≡ a.at k = λ k. ground arith in
    ap (λ f. record { size = a.size; at = f }) (fun_ext same)

-- the state of the `while` loop, with `k` the hole: filling it rearranges the array, the other
-- cells up to `i` ascend, and those above the hole are above `base`
record IsShifting (sz i : ℕ) (base : ℤ) (a₀ : Arr ℤ) (k : ℕ) (a : Arr ℤ) : Type 0 where
  same : Rearranges 0 sz a₀ (put a k base)
  apart : (p q : ℕ) → p < q → q ≤ i → p ≢ k → q ≢ k → a.at p ≤ℤ a.at q
  above : (q : ℕ) → k < q → q ≤ i → base ≤ℤ a.at q

-- how the loop ends
record IsPlaced (sz i : ℕ) (base : ℤ) (a₀ : Arr ℤ) (s : Arr ℤ × ℕ) : Type 0 where
  shifting : IsShifting sz i base a₀ s.1 s.0
  within : s.1 ≤ i
  under : (p : ℕ) → p < s.1 → s.0.at p ≤ℤ base

module _ {sz i : ℕ} {base : ℤ} {a₀ : Arr ℤ} (fits : sz ≤ a₀.size) (h : i < sz) where
  IsShifting-next :
      (j : ℕ) (a : Arr ℤ)
      → suc j ≤ i
      → base <ℤ a.at j
      → IsShifting sz i base a₀ (suc j) a
      → IsShifting sz i base a₀ j (put a (j + 1) (a.at j))
  IsShifting-next j a le lt p = record {
    same =
        let e : suc j ≡ j + 1 = omega arith in
        let was = rw e at p.same in
        rw (hole_moves a j base) (
          Rearranges-trans was (
            Rearranges-swapped (put a (j + 1) base) j (j + 1) 0 sz (omega arith) (omega arith)
              (omega arith) (omega arith) (omega (arith, was.same_size))));
    apart = λ q r s t u v. ground (arith, p.apart q r s t, p.apart q j, p.apart j r);
    above = λ q s t. ground (arith, p.above q);
  }

  shift_up-IsPlaced :
      (k : ℕ) (a : Arr ℤ)
      → k ≤ i
      → IsShifting sz i base a₀ k a
      → Returns (IsPlaced sz i base a₀) (shift_up k base a)
  unfolding shift_up
  shift_up-IsPlaced zero a le p =
      returns (record { shifting = p; within = omega arith; under = λ q r. absurd (omega arith) })
  shift_up-IsPlaced (suc j) a le p =
      let size = p.same.same_size in
      rw (read-ok a j (omega arith)) (elim (Bool-cases (ltb_ℤ base (a.at j))) [
        | inl e ↦
            rw (e, write-ok a (j + 1) (a.at j) (omega arith))
              (shift_up-IsPlaced j (put a (j + 1) (a.at j)) (omega arith)
                (IsShifting-next j a le (ground arith) p))
        | inr e ↦ rw e (
            returns
              (record { shifting = p; within = le; under = λ q r. ground (arith, p.apart q j, e) }))
      ])

-- the first `i` cells ascend
record IsInserted (sz : ℕ) (a₀ : Arr ℤ) (i : ℕ) (a : Arr ℤ) : Type 0 where
  same : Rearranges 0 sz a₀ a
  sorted : IsSorted 0 i a

insert_round-IsInserted :
    (sz i : ℕ) {a₀ a : Arr ℤ}
    → sz ≤ a₀.size
    → i < sz
    → IsInserted sz a₀ i a
    → Returns (IsInserted sz a₀ (i + 1)) (insert_round i a)
unfolding insert_round
insert_round-IsInserted sz i {a₀} {a} fits h p =
    let size = p.same.same_size in
    rw (read-ok a i (omega arith)) (
      Returns-bind
        (shift_up-IsPlaced fits h i a (omega arith) (record {
          same = rw (fill_same a i) p.same;
          apart = λ q r s t u v. p.sorted q r (omega arith) s (omega arith);
          above = λ q s t. absurd (omega arith);
        }))
        λ (b, k) q.
          let size' = q.shifting.same.same_size in
          Returns-of_eq (write-ok b k (a.at i) (omega (arith, q.within))) (record {
            same = q.shifting.same;
            sorted =
                λ m n _ r s. ground (arith, q.shifting.apart m n r, q.under m, q.shifting.above n);
          }))

-- `InsertionSort(arr, sz)` on an array of at least `sz` cells reads and writes no other cell, and
-- leaves the first `sz` cells in ascending order, with the values they had.
pub insertion_sort-IsSorted :
    (a : Arr ℤ) (sz : ℕ)
    → sz ≤ a.size
    → Returns (λ b. Rearranges 0 sz a b × IsSorted 0 sz b) (insertion_sort a sz)
unfolding insertion_sort
insertion_sort-IsSorted a sz fits = elim (dec_le 1 sz) [
  | yes h ↦
      Returns-mono
        (for_range_inv (IsInserted sz a) insert_round sz
          (λ i s lt p. insert_round-IsInserted sz i fits lt p) 1 a h
          (record { same = Rearranges-refl a; sorted = λ k l p q r. absurd (omega arith) }))
        λ b p. (p.same, p.sorted)
  | no h ↦
      Returns-of_eq (for_range_empty insert_round a (omega arith))
        (Rearranges-refl a, λ k l p q r. absurd (omega arith))
]
