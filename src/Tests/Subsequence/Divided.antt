-- ===== src/Tests/Subsequence/Divided.antt =====
-- Divide_and_conquer.c on the array of two cells.
use core_technologies.Base.{Returns, arith, ◌≡◌}
use core_technologies.Subsequence.{max_sub_sequence_sum}
use core_technologies.Subsequence.Divided.{max_subsequence_sum}
use core_technologies.Subsequence.Divided.Laws.{divided-max_sub_sequence_sum}
use core_technologies.Subsequence.Spec.{IsMaxSum}
use core_technologies.Tests.Subsequence.{two, two-SumsFit}

divided-max_sub_sequence_sum_example :
    (max_subsequence_sum 2 two 2 ≡ max_sub_sequence_sum two 2)
    × Returns (IsMaxSum two 2) (max_subsequence_sum 2 two 2)
divided-max_sub_sequence_sum_example =
    divided-max_sub_sequence_sum two 2 (omega arith) two-SumsFit 2 (omega arith) (omega arith)
