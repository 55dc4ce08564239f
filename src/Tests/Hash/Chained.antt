-- ===== src/Tests/Hash/Chained.antt =====
-- SeparateChaining.c with two buckets behind headers at the addresses 1 and 2, and the key 4.
use core_technologies.Base.{
  Returns, [], arith, false, if◌then◌else◌, negsuc, none, pos, refl, some, suc, true, update, zero,
  ℕ, ℤ, ◌+◌, ◌<◌, ◌==◌, ◌∷◌, ◌≡◌, ◌≢◌, ◌⊎◌,
}
use core_technologies.Hash.Chained.{HashTable, delete, insert}
use core_technologies.Hash.Chained.Buckets.{IsTable, whole}
use core_technologies.Hash.Chained.Laws.{delete-IsTable, insert-IsTable, inserted}
use core_technologies.Linked.Chain.{Cells, IsList, has}
use core_technologies.Linked.Single.Find.{place}
use core_technologies.Linked.Single.Unlink.{without}
use core_technologies.Linked.Store.{Heap, Ptr, node}

abbrev heap : Heap
heap p =
    if p == 1
    then some (node (pos 0) 3)
    else if p == 2
    then some (node (pos 0) 0)
    else if p == 3
    then some (node (pos 4) 0)
    else none

abbrev table : HashTable
table = record { tablesize = 2; arr = record { size = 2; at = λ i. i + 1 } }

abbrev header : ℕ → ℤ
header i = pos 0

abbrev buckets : ℕ → Cells
buckets zero = (3, pos 4) ∷ []
buckets (suc i) = []

lists : (i : ℕ) → i < 2 → IsList heap (table.arr.at i) (header i) (buckets i)
lists zero lt = (refl, omega arith, refl, 3, refl, (refl, omega arith, refl, 0, refl, refl))
lists (suc zero) lt = (refl, omega arith, refl, 0, refl, refl)
lists (suc (suc i)) lt = absurd (omega arith)

apart :
    (i j : ℕ) (a : Ptr)
    → i < 2
    → j < 2
    → i ≢ j
    → has a (whole table header buckets i) ≡ true
    → has a (whole table header buckets j) ≡ false
apart zero zero a p q differ inside = absurd (differ refl)
apart zero (suc zero) a p q differ inside = ground arith
apart (suc zero) zero a p q differ inside = ground arith
apart (suc zero) (suc zero) a p q differ inside = absurd (differ refl)
apart (suc (suc i)) j a p q differ inside = absurd (omega arith)
apart zero (suc (suc j)) a p q differ inside = absurd (omega arith)
apart (suc zero) (suc (suc j)) a p q differ inside = absurd (omega arith)

table-IsTable : IsTable heap table header buckets
table-IsTable = record { size = refl; positive = omega arith; lists = lists; apart = apart }

insert-IsTable_example :
    Returns
      (λ (_, h'). IsTable h' table header (update buckets 0 (inserted 9 (pos 6) (buckets 0))))
      (insert 2 (pos 6) table 9 heap)
insert-IsTable_example =
    insert-IsTable 2 heap table header buckets 6 table-IsTable (omega arith) 9 (omega arith) refl

delete-IsTable_example :
    Returns
      (λ ((e, t'), h').
        IsTable h' t' header (update buckets 0 (without (pos 4) (buckets 0)))
        × (t' ≡ table)
        × (((place (buckets 0) (pos 4) ≡ 0) × (e ≡ negsuc 0) × (h' ≡ heap))
            ⊎ ((h' (place (buckets 0) (pos 4)) ≡ none) × (e ≡ pos 4))))
      (delete 2 table (pos 4) heap)
delete-IsTable_example = delete-IsTable 2 heap table header buckets 4 table-IsTable (omega arith)
