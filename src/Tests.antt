-- ===== src/Tests.antt =====
-- The main theorems at concrete inputs.
mod Sort
mod Tree
mod Linked
mod Search
mod Subsequence
mod Number
mod DynamicArray
mod Graph
mod Exercises
mod Functions
mod Hash
mod Text
mod Pid
mod PriorityQueue
mod Rearrange
mod Trial
mod Sieve
use core_technologies.Base.{List, [], pos, suc, zero, ℕ, ℤ, ◌∷◌}

-- the `k`th of some numbers, 0 behind their end
abbrev pub nth : List ℤ → ℕ → ℤ
nth [] k = pos 0
nth (x ∷ xs) zero = x
nth (x ∷ xs) (suc k) = nth xs k
