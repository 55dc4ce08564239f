-- ===== src/Tests/Search.antt =====
-- Binary search among four numbers.
use core_technologies.Base.{Arr, Returns, arith, negsuc, ok, pos, ℤ, ◌+◌, ◌≡◌}
use core_technologies.Search.{binary_search}
use core_technologies.Search.Ascending.{FindsBut, IsAscending, binary_search-FindsBut}
use core_technologies.Search.Laws.{Finds, binary_search-Finds}
use core_technologies.Search.Missed.{Ascends, binary_search-last}

abbrev ascending : Arr ℤ
ascending = record { size = 4; at = λ k. pos (k + k) }

ascending-Ascends : Ascends ascending 4
ascending-Ascends = λ k l p q. omega arith

binary_search-Finds_test : Returns (Finds ascending (pos 4) 0 4) (binary_search ascending (pos 4) 4)
binary_search-Finds_test = binary_search-Finds ascending (pos 4) 4 (omega arith)

ascending-IsAscending : IsAscending ascending 4
ascending-IsAscending = λ k l p q. omega arith

binary_search-FindsBut_example :
    Returns (FindsBut ascending (pos 4) 0 4) (binary_search ascending (pos 4) 4)
binary_search-FindsBut_example =
    binary_search-FindsBut ascending (pos 4) 4 (omega arith) ascending-IsAscending

binary_search-last_test : binary_search ascending (ascending.at 3) 4 ≡ ok (negsuc 0)
binary_search-last_test =
    binary_search-last ascending 4 (omega arith) (omega arith) ascending-Ascends
