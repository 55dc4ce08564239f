-- ===== src/Tests/Linked/Double.antt =====
-- The double list: what `main` prints, and lists with the elements 3, 5 and 7 behind a header at
-- address 1.
use core_technologies.Base.{
  List, Returns, Run, [], arith, false, fault, if◌then◌else◌, none, ok, out_of_fuel, pos, refl,
  some, ℕ, ℤ, ◌++◌, ◌==◌, ◌∷◌, ◌≡◌, ◌≢◌, ◌↔◌,
}
use core_technologies.Linked.Chain.{Cells, has}
use core_technologies.Linked.Double.{
  Cmd, Heap, create_header, delete, dll, find_loop, insert_front, insert_order, insert_tail,
  link_last, link_order, print_list, print_loop, set_next, set_previous,
}
use core_technologies.Linked.Double.Chain.{Chain-any, IsDouble, IsList, any}
use core_technologies.Linked.Double.Delete.{delete-IsDouble, delete-fault}
use core_technologies.Linked.Double.Ends.{insert_front-IsList, insert_tail-IsDouble}
use core_technologies.Linked.Double.Order.{insert_order-behind}
use core_technologies.Linked.Memory.{alloc, free, load, set_cell, ◌>>◌}

-- a run on a memory without a node
abbrev result : Cmd (List ℤ) → Run (List ℤ)
result m = elim (m (λ a. none)) [ ok (xs, h) ↦ ok xs | fault ↦ fault | out_of_fuel ↦ out_of_fuel ]

-- `main`, up to the first `PrintList`
abbrev printed : Run (List ℤ)
printed = result (do
  create_header 1 (pos 0)
  insert_front 1 (pos 10) 2
  insert_front 1 (pos 9) 3
  insert_order 9 1 (pos 12) 4 (dll (pos 0) 0 0)
  insert_order 9 1 (pos 12) 5 (dll (pos 0) 0 0)
  print_list 9 1)

printed_first : printed ≡ ok (pos 9 ∷ pos 10 ∷ pos 12 ∷ pos 12 ∷ [])
unfolding create_header insert_front insert_order link_order print_list print_loop set_next
    set_previous alloc load set_cell
printed_first = refl

-- two elements are put in front and the second one of them is deleted: the first one is lost too
lost :
    result (do
      create_header 1 (pos 0)
      insert_tail 9 1 (pos 7) 2 0
      insert_front 1 (pos 5) 3
      insert_front 1 (pos 3) 4
      delete 9 1 (pos 5)
      print_list 9 1)
    ≡ ok (pos 7 ∷ [])
unfolding create_header insert_front insert_tail link_last delete find_loop print_list print_loop
    set_next set_previous alloc free load set_cell
lost = refl

abbrev heap : Heap
heap p =
    if p == 1
    then some (dll (pos 0) 0 2)
    else if p == 2
    then some (dll (pos 3) 1 3)
    else if p == 3
    then some (dll (pos 5) 2 4)
    else if p == 4
    then some (dll (pos 7) 3 0)
    else none

abbrev nodes : Cells
nodes = (2, pos 3) ∷ (3, pos 5) ∷ (4, pos 7) ∷ []

heap-IsDouble : IsDouble heap 1 (pos 0) nodes
heap-IsDouble = (
  refl,
  omega arith,
  refl,
  0,
  2,
  refl,
  refl,
  (
    refl,
    omega arith,
    refl,
    1,
    3,
    refl,
    refl,
    (refl, omega arith, refl, 2, 4, refl, refl, (refl, omega arith, refl, 3, 0, refl, refl, refl)),
  ),
)

insert_tail-IsDouble_example :
    Returns
      (λ (_, h').
        IsDouble h' 1 (pos 0) (nodes ++ ((9, pos 8) ∷ []))
        × ((a : ℕ) → has a ((9, pos 8) ∷ (1, pos 0) ∷ nodes) ≡ false → h' a ≡ heap a))
      (insert_tail 4 1 (pos 8) 9 6 heap)
insert_tail-IsDouble_example =
    insert_tail-IsDouble 4 heap 1 (pos 0) nodes 9 (pos 8) 6 (omega arith) heap-IsDouble
      (omega arith) refl

insert_front-IsList_test :
    Returns
      (λ (_, h').
        IsList any h' 1 (pos 0) ((9, pos 8) ∷ nodes)
        × (IsDouble h' 1 (pos 0) ((9, pos 8) ∷ nodes) ↔ (nodes ≡ []))
        × ((a : ℕ) → a ≢ 1 → a ≢ 9 → h' a ≡ heap a))
      (insert_front 1 (pos 8) 9 heap)
insert_front-IsList_test =
    insert_front-IsList heap 1 (pos 0) nodes 9 (pos 8) heap-IsDouble (omega arith) refl

delete-IsDouble_example :
    Returns
      (λ (_, h').
        IsDouble h' 1 (pos 0) ((2, pos 3) ∷ (4, pos 7) ∷ [])
        × (h' 3 ≡ none)
        × ((c : ℕ) → has c ((1, pos 0) ∷ nodes) ≡ false → h' c ≡ heap c))
      (delete 2 1 (pos 5) heap)
delete-IsDouble_example =
    delete-IsDouble 2 heap 1 (pos 0) ((2, pos 3) ∷ []) 3 (pos 5) 4 (pos 7) [] (omega arith)
      (refl, tt) heap-IsDouble

delete-fault_example : delete 3 1 (pos 7) heap ≡ fault
delete-fault_example =
    delete-fault 3 heap 1 (pos 0) ((2, pos 3) ∷ (3, pos 5) ∷ []) (pos 7) (some 4) (omega arith)
      (refl, (refl, tt)) heap-IsDouble

insert_order-behind_test :
    Returns
      (λ (_, h'). IsList any h' 1 (pos 0) ((2, pos 3) ∷ (3, pos 5) ∷ (9, pos 4) ∷ (4, pos 7) ∷ []))
      (insert_order 4 1 (pos 4) 9 (dll (pos 0) 0 0) heap)
insert_order-behind_test =
    insert_order-behind 4 heap 1 (pos 0) (2, pos 3) [] (3, pos 5) ((4, pos 7) ∷ []) 9 (pos 4)
      (dll (pos 0) 0 0) (omega arith, tt) (omega arith) (omega arith)
      (Chain-any heap 0 0 1 ((1, pos 0) ∷ nodes) heap-IsDouble) (omega arith) refl
