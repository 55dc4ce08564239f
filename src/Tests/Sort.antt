-- ===== src/Tests/Sort.antt =====
-- The sorts on four numbers.
use core_technologies.Base.{Arr, Returns, [], arith, negsuc, pos, ℤ, ◌∷◌}
use core_technologies.Sort.Bubble.{bubble_sort, bubble_sort_with_flag}
use core_technologies.Sort.Bubble.Flag.{bubble_sort_with_flag-IsSorted}
use core_technologies.Sort.Bubble.Laws.{bubble_sort-IsSorted}
use core_technologies.Sort.Insertion.{insertion_sort}
use core_technologies.Sort.Insertion.Laws.{insertion_sort-IsSorted}
use core_technologies.Sort.Quick.{quick_sort}
use core_technologies.Sort.Quick.Laws.{quick_sort-IsSorted}
use core_technologies.Sort.Selection.{selection_sort}
use core_technologies.Sort.Selection.Laws.{selection_sort-IsSorted}
use core_technologies.Sort.Shell.{shell_sort}
use core_technologies.Sort.Shell.Laws.{shell_sort-IsSorted}
use core_technologies.Sort.Spec.{IsSorted, Rearranges}
use core_technologies.Tests.{nth}

abbrev sample : Arr ℤ
sample = record { size = 4; at = nth (pos 3 ∷ negsuc 0 ∷ pos 7 ∷ pos 3 ∷ []) }

quick_sort-IsSorted_example :
    Returns (λ b. Rearranges 0 4 sample b × IsSorted 0 4 b) (quick_sort 5 sample 0 4)
quick_sort-IsSorted_example = quick_sort-IsSorted 5 sample 0 4 (omega arith) (omega arith)

shell_sort-IsSorted_example :
    Returns (λ b. Rearranges 0 4 sample b × IsSorted 0 4 b) (shell_sort sample 4)
shell_sort-IsSorted_example = shell_sort-IsSorted sample 4 (omega arith)

insertion_sort-IsSorted_example :
    Returns (λ b. Rearranges 0 4 sample b × IsSorted 0 4 b) (insertion_sort sample 4)
insertion_sort-IsSorted_example = insertion_sort-IsSorted sample 4 (omega arith)

selection_sort-IsSorted_example :
    Returns (λ b. Rearranges 0 4 sample b × IsSorted 0 4 b) (selection_sort sample 4)
selection_sort-IsSorted_example = selection_sort-IsSorted sample 4 (omega arith)

bubble_sort-IsSorted_example :
    Returns (λ b. Rearranges 0 4 sample b × IsSorted 0 4 b) (bubble_sort sample 4)
bubble_sort-IsSorted_example = bubble_sort-IsSorted sample 4 (omega arith)

bubble_sort_with_flag-IsSorted_example :
    Returns (λ b. Rearranges 0 4 sample b × IsSorted 0 4 b) (bubble_sort_with_flag sample 4)
bubble_sort_with_flag-IsSorted_example = bubble_sort_with_flag-IsSorted sample 4 (omega arith)
