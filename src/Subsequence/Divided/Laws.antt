-- ===== src/Subsequence/Divided/Laws.antt =====
-- The largest sum of a range, and the three programs compared.
use core_technologies.Base.{
  Arr, Bool-cases, Returns, Returns-bind, Returns-mono, Returns-value, ap, arith, inl, inr, ok, one,
  read-ok, returns, suc, sym, true, zero, ℕ, ℤ, ◌+ℤ◌, ◌+◌, ◌-◌, ◌/◌, ◌<◌, ◌==◌, ◌∙◌, ◌≡◌, ◌≤◌,
}
use core_technologies.Subsequence.{add_int, is_int, max_sub_sequence_sum}
use core_technologies.Subsequence.Best.{max_sub_sequence_sum-IsMaxSum}
use core_technologies.Subsequence.Divided.{max_sub_sum, max_subsequence_sum}
use core_technologies.Subsequence.Divided.Border.{left_border-IsBorder, right_border-IsBorder}
use core_technologies.Subsequence.Divided.Halves.{IsMaxIn, combine, joined_sum, single}
use core_technologies.Subsequence.Spec.{IsMaxSum, IsMaxSum-unique, SumsFit, prefix, sum}

module _ (a : Arr ℤ) (n : ℕ) (fits : n ≤ a.size) (ints : SumsFit a n) where
  -- `MaxSubSum` on a range with a cell
  max_sub_sum-IsMaxIn :
      (fuel left stop : ℕ)
      → left < stop
      → stop ≤ n
      → stop ≤ fuel + left
      → Returns (IsMaxIn a left stop) (max_sub_sum fuel a left stop)
  unfolding max_sub_sum add_int
  max_sub_sum-IsMaxIn zero left stop lt le f = absurd (omega arith)
  max_sub_sum-IsMaxIn (suc fuel) left stop lt le f =
      let mid = (left + stop - 1) / 2 in
      elim (Bool-cases (left + 1 == stop)) [
        | inl one ↦
            let e : stop ≡ suc left = ground arith in
            rw (one, e, read-ok a left (omega arith))
              (returns (single a n fits ints left (omega arith)))
        | inr more ↦
            let low : left ≤ mid = ground arith in
            let high : mid + 1 < stop = ground arith in
            rw more (
              Returns-bind
                (max_sub_sum-IsMaxIn fuel left (mid + 1) (omega arith) (omega arith) (omega arith))
                λ r w.
                  Returns-bind (max_sub_sum-IsMaxIn fuel (mid + 1) stop high le (omega arith))
                    λ r' w'.
                      Returns-bind (left_border-IsBorder a n fits ints left mid low (omega arith))
                        λ s b.
                          Returns-bind
                            (right_border-IsBorder a n fits ints mid stop (omega arith) le)
                            λ s' b'.
                              let over : s.1 +ℤ s'.1 ≡ sum a (mid + 1 - b.place) b'.place =
                                rw (b.value, b'.value)
                                  (joined_sum (prefix a (mid + 1)) (prefix a (mid + 1 - b.place))
                                    (prefix a b'.place)) in
                              let int : is_int (s.1 +ℤ s'.1) ≡ true = rw over (
                                ints (mid + 1 - b.place) b'.place (omega (arith, b'.low))
                                  (omega (arith, b'.high))) in
                              rw int (
                                returns (
                                  combine a n fits ints left (mid + 1) stop r r' s s' (omega arith)
                                    (omega arith) w w' b b')))
      ]

  -- On an array of at least `N` cells, where `N` is positive and all sums of consecutive cells
  -- below the `N`th are `int`s: `MaxSubsequenceSum` of Divide_and_conquer.c, which recurs at most
  -- `N` deep, does not overflow and gives the largest of these sums, which is what
  -- `MaxSubSequenceSum` of Best.c gives.
  pub divided-max_sub_sequence_sum :
      (fuel : ℕ)
      → 0 < n
      → n ≤ fuel
      → (max_subsequence_sum fuel a n ≡ max_sub_sequence_sum a n)
        × Returns (IsMaxSum a n) (max_subsequence_sum fuel a n)
  unfolding max_subsequence_sum
  divided-max_sub_sequence_sum fuel some_there f =
      let all =
        Returns-mono (max_sub_sum-IsMaxIn fuel 0 n some_there (omega arith) (omega arith)) λ r w.
          record {
            from = w.from;
            to = w.to;
            order = w.order;
            within = w.within;
            value = w.value;
            best = λ i j p q. w.best i j (omega arith) p q;
          } in
      let (r, run, most) = Returns-value all in
      let (r', run', most') = Returns-value (max_sub_sequence_sum-IsMaxSum a n fits ints) in
      (run ∙ ap (λ v. ok v) (IsMaxSum-unique most most') ∙ sym run', all)
