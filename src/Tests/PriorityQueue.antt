-- ===== src/Tests/PriorityQueue.antt =====
-- Heap.c on an array of ten cells with six elements.
use core_technologies.Base.{
  List, Returns, [], arith, cells, count, fault, negsuc, ok, one, out_of_fuel, pos, read, refl, suc,
  write, zero, ℕ, ℤ, ◌+◌, ◌>>=◌, ◌∷◌, ◌≡◌, ◌≤◌, ◌≤ℤ◌,
}
use core_technologies.PriorityQueue.{
  Heap, delete_loop, delete_min, initialize, insert, put_last, smaller_child,
}
use core_technologies.PriorityQueue.Contents.{IsTaken}
use core_technologies.PriorityQueue.Delete.{delete_min-IsHeap}
use core_technologies.PriorityQueue.Faults.{initialize-insert, insert_below}
use core_technologies.PriorityQueue.Insert.{IsHeap, IsOrdered, insert-IsHeap}
use core_technologies.Tests.{nth}

abbrev contents : List ℤ
contents = negsuc 0 ∷ pos 1 ∷ pos 2 ∷ pos 3 ∷ pos 10 ∷ pos 11 ∷ pos 4 ∷ []

abbrev heap : ℕ → Heap
heap n = record { capacity = 9; size = pos n; arr = record { size = 10; at = nth contents } }

heap-IsOrdered : IsOrdered (nth contents) 6
heap-IsOrdered zero p q = absurd (omega arith)
heap-IsOrdered (suc zero) p q = omega arith
heap-IsOrdered (suc (suc zero)) p q = omega arith
heap-IsOrdered (suc (suc (suc zero))) p q = omega arith
heap-IsOrdered (suc (suc (suc (suc zero)))) p q = omega arith
heap-IsOrdered (suc (suc (suc (suc (suc zero))))) p q = omega arith
heap-IsOrdered (suc (suc (suc (suc (suc (suc zero)))))) p q = omega arith
heap-IsOrdered (suc (suc (suc (suc (suc (suc (suc k))))))) p q = absurd (omega arith)

heap-IsHeap : IsHeap (heap 6) 6
heap-IsHeap = record { size = refl; ordered = heap-IsOrdered }

insert-IsHeap_example :
    Returns
      (λ h'.
        IsHeap h' 7
        × (h'.arr.at 0 ≡ negsuc 0)
        × ((v : ℤ) → count v h'.arr.at 8 ≡ one v (pos 0) + count v (heap 6).arr.at 7))
      (insert 8 (heap 6) (pos 0))
insert-IsHeap_example =
    insert-IsHeap 8 (heap 6) 6 (pos 0) (omega arith) (omega arith) (omega arith) heap-IsHeap

insert_below_example : insert 20 (heap 6) (negsuc 4) ≡ out_of_fuel
insert_below_example = insert_below 20 (heap 6) 6 (negsuc 4) (omega arith) (omega arith) heap-IsHeap

delete_min-IsHeap_example :
    Returns
      (λ (min, h').
        (min ≡ pos 1)
        × ((k : ℕ) → 1 ≤ k → k ≤ 6 → min ≤ℤ (heap 6).arr.at k)
        × IsHeap h' 5
        × (h'.arr.size ≡ 10)
        × IsTaken (heap 6).arr.at 5 h'.arr.at)
      (delete_min 5 (heap 6))
delete_min-IsHeap_example =
    delete_min-IsHeap 5 (heap 6) 5 (omega arith) (omega arith) (omega arith) heap-IsHeap

-- the cell behind the only one that there is
first_insert : (initialize 15 (nth []) >>= λ h. insert 2 h (pos 8)) ≡ fault
first_insert = initialize-insert 2 15 (nth []) (pos 8) (omega arith) (omega arith)

-- `DeleteMin` writes the last element over a child of its place instead of into its place: the 10 is
-- lost, and the 2 stands twice.
lost_element :
    (delete_min 5 (heap 6) >>= λ (min, h). ok (cells h.arr.at 1 5))
    ≡ ok (pos 2 ∷ pos 2 ∷ pos 3 ∷ pos 4 ∷ pos 11 ∷ [])
unfolding delete_min delete_loop smaller_child put_last read write cells
lost_element = refl
