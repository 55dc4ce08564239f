-- ===== src/Tests/Subsequence.antt =====
-- The largest sum in an array of two cells.
mod Divided
use core_technologies.Base.{
  Arr, Returns, [], arith, negsuc, pos, refl, suc, zero, ℤ, ◌+ℤ◌, ◌-ℤ◌, ◌∷◌, ◌≡◌,
}
use core_technologies.Subsequence.{max_sub_sequence_sum, max_subsequence_sum}
use core_technologies.Subsequence.Best.{max_sub_sequence_sum-IsMaxSum}
use core_technologies.Subsequence.Exhaustive.{max_subsequence_sum-max_sub_sequence_sum}
use core_technologies.Subsequence.Spec.{IsMaxSum, SumsFit, prefix}
use core_technologies.Tests.{nth}

abbrev pub two : Arr ℤ
two = record { size = 2; at = nth (pos 4 ∷ negsuc 2 ∷ []) }

pub two-SumsFit : SumsFit two 2
unfolding prefix ◌+ℤ◌ ◌-ℤ◌
two-SumsFit zero zero p q = refl
two-SumsFit zero (suc zero) p q = refl
two-SumsFit zero (suc (suc zero)) p q = refl
two-SumsFit zero (suc (suc (suc j))) p q = absurd (omega arith)
two-SumsFit (suc zero) zero p q = refl
two-SumsFit (suc zero) (suc zero) p q = refl
two-SumsFit (suc zero) (suc (suc zero)) p q = refl
two-SumsFit (suc zero) (suc (suc (suc j))) p q = absurd (omega arith)
two-SumsFit (suc (suc zero)) zero p q = refl
two-SumsFit (suc (suc zero)) (suc zero) p q = refl
two-SumsFit (suc (suc zero)) (suc (suc zero)) p q = refl
two-SumsFit (suc (suc zero)) (suc (suc (suc j))) p q = absurd (omega arith)
two-SumsFit (suc (suc (suc i))) j p q = absurd (omega arith)

max_sub_sequence_sum-IsMaxSum_example : Returns (IsMaxSum two 2) (max_sub_sequence_sum two 2)
max_sub_sequence_sum-IsMaxSum_example =
    max_sub_sequence_sum-IsMaxSum two 2 (omega arith) two-SumsFit

max_subsequence_sum-max_sub_sequence_sum_example :
    (max_subsequence_sum two 2 ≡ max_sub_sequence_sum two 2)
    × Returns (IsMaxSum two 2) (max_subsequence_sum two 2)
max_subsequence_sum-max_sub_sequence_sum_example =
    max_subsequence_sum-max_sub_sequence_sum two 2 (omega arith) two-SumsFit
