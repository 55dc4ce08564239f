-- ===== src/Tests/Linked.antt =====
-- The single list, and the linked stack and queue, with the elements 3 and 5 behind a header at address 1.
mod Double
mod Ends
use core_technologies.Base.{
  Returns, [], arith, if◌then◌else◌, none, pos, refl, some, ◌++◌, ◌==◌, ◌∷◌, ◌≡◌, ◌⊎◌,
}
use core_technologies.Linked.Chain.{Cells, IsList, SameOutside}
use core_technologies.Linked.Merged.{Ascends, merged}
use core_technologies.Linked.Single.{delete, insert_order, merge_sll}
use core_technologies.Linked.Single.Delete.{delete-IsList}
use core_technologies.Linked.Single.Find.{place}
use core_technologies.Linked.Single.Merge.{merge_sll-IsList}
use core_technologies.Linked.Single.Order.{insert_cell, insert_order-IsList}
use core_technologies.Linked.Single.Unlink.{without}
use core_technologies.Linked.Store.{Heap, node}

abbrev pub heap : Heap
heap p =
    if p == 1
    then some (node (pos 0) 2)
    else if p == 2
    then some (node (pos 3) 3)
    else if p == 3
    then some (node (pos 5) 0)
    else none

abbrev pub nodes : Cells
nodes = (2, pos 3) ∷ (3, pos 5) ∷ []

pub heap-IsList : IsList heap 1 (pos 0) nodes
heap-IsList = (
  refl,
  omega arith,
  refl,
  2,
  refl,
  (refl, omega arith, refl, 3, refl, (refl, omega arith, refl, 0, refl, refl)),
)

insert_order-IsList_test :
    Returns
      (λ (_, h').
        IsList h' 1 (pos 0) (insert_cell (9, pos 4) nodes)
        × SameOutside ((9, pos 4) ∷ (1, pos 0) ∷ nodes) heap h')
      (insert_order 3 1 (pos 4) 9 8 heap)
insert_order-IsList_test =
    insert_order-IsList 3 heap 1 (pos 0) nodes 9 (pos 4) 8 (omega arith) heap-IsList (omega arith)
      refl

delete-IsList_example :
    Returns
      (λ (_, h').
        IsList h' 1 (pos 0) (without (pos 3) nodes)
        × ((place nodes (pos 3) ≡ 0) ⊎ (h' (place nodes (pos 3)) ≡ none))
        × SameOutside ((1, pos 0) ∷ nodes) heap h')
      (delete 3 1 (pos 3) heap)
delete-IsList_example = delete-IsList 3 heap 1 (pos 0) nodes (pos 3) (omega arith) heap-IsList

-- the list, and another one behind a header at address 4
abbrev two_lists : Heap
two_lists p =
    if p == 4 then some (node (pos 0) 5) else if p == 5 then some (node (pos 4) 0) else heap p

abbrev others : Cells
others = (5, pos 4) ∷ []

left-IsList : IsList two_lists 1 (pos 0) nodes
left-IsList = (
  refl,
  omega arith,
  refl,
  2,
  refl,
  (refl, omega arith, refl, 3, refl, (refl, omega arith, refl, 0, refl, refl)),
)

right-IsList : IsList two_lists 4 (pos 0) others
right-IsList = (refl, omega arith, refl, 5, refl, (refl, omega arith, refl, 0, refl, refl))

merge_sll-IsList_example :
    Returns
      (λ (p, h').
        (p ≡ 9)
        × IsList h' 9 (pos 6) (merged 3 nodes others)
        × Ascends (merged 3 nodes others)
        × SameOutside ((9, pos 6) ∷ nodes ++ others) two_lists h')
      (merge_sll 4 1 4 9 (node (pos 6) 7) two_lists)
merge_sll-IsList_example =
    merge_sll-IsList 4 two_lists 1 4 (pos 0) (pos 0) nodes others 9 (pos 6) 7 (omega arith)
      left-IsList right-IsList (refl, (refl, tt)) ((omega arith, tt), (tt, tt)) (tt, tt)
      (omega arith) refl
