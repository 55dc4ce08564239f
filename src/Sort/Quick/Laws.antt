-- ===== src/Sort/Quick/Laws.antt =====
-- `QuickSort` sorts its range.
use core_technologies.Base.{
  Arr, Bool-cases, Returns, Returns-bind, Returns-mono, arith, dec_lt, inl, inr, leb, leb→le,
  returns, suc, zero, ℕ, ℤ, ◌+◌, ◌-◌, ◌<ℤ◌, ◌<◌, ◌∙◌, ◌≡◌, ◌≤ℤ◌, ◌≤◌,
}
use core_technologies.Sort.Quick.{quick_sort}
use core_technologies.Sort.Quick.Partition.{IsPartitioned, partition-IsPartitioned}
use core_technologies.Sort.Spec.{
  IsSorted, Rearranges, Rearranges-refl, Rearranges-trans, Rearranges-widen,
}

-- sorting the two sides of a split range sorts the range
module _ {left right stop p : ℕ} {a b c d : Arr ℤ} (end : stop ≡ right + 1)
    (split : IsPartitioned left right a (b, p)) (low : Rearranges left p b c)
    (low_sorted : IsSorted left p c) (high : Rearranges (p + 1) stop c d)
    (high_sorted : IsSorted (p + 1) stop d) where
  pivot_stays : d.at p ≡ b.at p
  pivot_stays = high.outside p (inl (omega arith)) ∙ low.outside p (inr (omega arith))

  low_small : (k : ℕ) → left ≤ k → k < p → d.at k ≤ℤ b.at p
  low_small k q r =
      let (m, q', r', e) = low.source k q r in
      let moved = high.outside k (inl (omega arith)) ∙ e in rw moved (split.small m q' r')

  high_large : (k : ℕ) → p < k → k ≤ right → b.at p <ℤ d.at k
  high_large k q r =
      let (m, q', r', e) = high.source k (omega arith) (omega arith) in
      let moved = e ∙ low.outside m (inr (omega arith)) in
      rw moved (split.large m (omega arith) (omega arith))

  IsSorted-of_parts : IsSorted left stop d
  IsSorted-of_parts k l q r s = elim (dec_lt l p) [
    | yes lp ↦
        let ek = high.outside k (inl (omega arith)) in
        let el = high.outside l (inl (omega arith)) in rw (ek, el) (low_sorted k l q r lp)
    | no lp ↦ elim (dec_lt p k) [
      | yes pk ↦ high_sorted k l (omega arith) r s
      | no pk ↦ ground (arith, high_large l, low_small k q, pivot_stays)
    ]
  ]

  Rearranges-of_parts : Rearranges left stop a d
  Rearranges-of_parts =
      let from = split.from in
      let upto = split.upto in
      Rearranges-trans (Rearranges-widen (omega arith) (omega arith) split.same) (
        Rearranges-trans (Rearranges-widen (omega arith) (omega arith) low)
          (Rearranges-widen (omega arith) (omega arith) high))

-- `QuickSort(arr, left, right)` on a range within the array needs a recursion no deeper than the
-- range is long, accesses no cell outside of the array, and leaves the range in ascending order, with
-- the values it had, and every other cell as it was.
pub quick_sort-IsSorted :
    (fuel : ℕ) (a : Arr ℤ) (left stop : ℕ)
    → stop ≤ a.size
    → stop - left < fuel
    → Returns (λ b. Rearranges left stop a b × IsSorted left stop b) (quick_sort fuel a left stop)
unfolding quick_sort
quick_sort-IsSorted zero a left stop fits h = absurd (omega arith)
quick_sort-IsSorted (suc fuel) a left stop fits h = elim (Bool-cases (leb stop (left + 1))) [
  | inl e ↦ rw e (returns (Rearranges-refl a, λ k l p q r. absurd (omega (arith, leb→le _ _ e))))
  | inr e ↦
      let long : left + 1 < stop = ground arith in
      let end : stop ≡ (stop - 1) + 1 = omega arith in
      rw e (
        Returns-bind (partition-IsPartitioned a left (stop - 1) (omega arith) (omega arith))
          λ (b, p) split.
            let size = split.same.same_size in
            let from = split.from in
            let upto = split.upto in
            Returns-bind (quick_sort-IsSorted fuel b left p (omega arith) (omega arith))
              λ c (low, low_sorted).
                let size' = low.same_size in
                Returns-mono (quick_sort-IsSorted fuel c (p + 1) stop (omega arith) (omega arith))
                  λ d (high, high_sorted). (
                    Rearranges-of_parts end split low low_sorted high high_sorted,
                    IsSorted-of_parts end split low low_sorted high high_sorted,
                  ))
]
