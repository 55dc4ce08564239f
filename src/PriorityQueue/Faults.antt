-- ===== src/PriorityQueue/Faults.antt =====
-- Heaps that `Initialize` makes, and heaps of one and of two elements.
use core_technologies.Base.{
  Arr, Bool-cases, arith, false, fault, inl, inr, ltb_ℤ, negsuc, out_of_fuel, pos, put, read,
  read-ok, refl, suc, true, write, write-ok, zero, ℕ, ℤ, ◌/◌, ◌<ℤ◌, ◌<◌, ◌==◌, ◌>>=◌, ◌≡◌, ◌≤ℤ◌,
  ◌≤◌,
}
use core_technologies.PriorityQueue.{
  Heap, delete_loop, delete_min, initialize, insert, insert_from, insert_loop, put_last,
}
use core_technologies.PriorityQueue.Insert.{IsHeap, IsOrdered}

-- `Initialize` allocates one cell only, so the first `Insert` after it writes behind the end of the
-- array, whatever the capacity; the element is not below -1.
pub initialize-insert :
    (fuel max_capacity : ℕ) (fresh : ℕ → ℤ) (x : ℤ)
    → 1 < fuel
    → negsuc 0 ≤ℤ x
    → (initialize max_capacity fresh >>= λ h. insert fuel h x) ≡ fault
unfolding initialize insert insert_from
initialize-insert zero max_capacity fresh x f low = absurd (omega arith)
initialize-insert (suc fuel) max_capacity fresh x f low =
    let stop : ltb_ℤ x (negsuc 0) ≡ false = ground arith in
    unfold insert_loop in unfold write in unfold read in rw stop refl

-- `DeleteMin` of a heap with one element does not enter its loop, and writes to a place that it has
-- not set.
pub delete_min_one :
    (fuel : ℕ) (h : Heap) → h.size ≡ pos 1 → 1 < h.arr.size → delete_min (suc fuel) h ≡ fault
unfolding delete_min delete_loop put_last
delete_min_one fuel h e room = rw (e, read-ok h.arr 1 room) refl

-- The same for a heap with two elements, the size of which is already one less there.
pub delete_min_two :
    (fuel : ℕ) (h : Heap) → h.size ≡ pos 2 → 2 < h.arr.size → delete_min (suc fuel) h ≡ fault
unfolding delete_min delete_loop put_last
delete_min_two fuel h e room = rw (e, read-ok h.arr 1 (omega arith), read-ok h.arr 2 room) refl

-- cell 0 is below all elements of a heap
bottom-le : (f : ℕ → ℤ) (n b k : ℕ) → IsOrdered f n → k ≤ b → k ≤ n → f 0 ≤ℤ f k
bottom-le f n zero k w p q = let e : k ≡ 0 = omega arith in rw e (omega arith)
bottom-le f n (suc b) k w p q = elim (Bool-cases (k == 0)) [
  | inl e ↦ let first : k ≡ 0 = ground arith in rw first (omega arith)
  | inr e ↦
      let some_there : 1 ≤ k = ground arith in
      let up = bottom-le f n b (k / 2) w (omega arith) (omega arith) in
      let step = w k some_there q in omega arith
]

insert_loop_endless :
    (fuel : ℕ) (a : Arr ℤ) (m i : ℕ) (x : ℤ)
    → suc m < a.size
    → i ≤ suc m
    → ((k : ℕ) → k ≤ m → x <ℤ a.at k)
    → insert_loop fuel a i x ≡ out_of_fuel
unfolding insert_loop
insert_loop_endless zero a m i x room le all = refl
insert_loop_endless (suc fuel) a m i x room le all =
    let less = all (i / 2) (omega arith) in
    let e : ltb_ℤ x (a.at (i / 2)) ≡ true = ground arith in
    rw (read-ok a (i / 2) (omega arith), e, write-ok a i (a.at (i / 2)) (omega arith))
      (insert_loop_endless fuel (put a i (a.at (i / 2))) m (i / 2) x room (omega arith) λ k p.
        elim (Bool-cases (i == k)) [ inl here ↦ rw here less | inr other ↦ rw other (all k p) ])

-- `Insert` of an element that is below cell 0 into a heap with a free cell does not end, however
-- many rounds its loop has.
pub insert_below :
    (fuel : ℕ) (h : Heap) (n : ℕ) (x : ℤ)
    → suc n < h.arr.size
    → x <ℤ h.arr.at 0
    → IsHeap h n
    → insert fuel h x ≡ out_of_fuel
unfolding insert insert_from
insert_below fuel h n x room low w =
    rw
      (
        w.size,
        insert_loop_endless fuel h.arr n (suc n) x room (omega arith)
            λ k p. let above = bottom-le h.arr.at n k k w.ordered (omega arith) p in omega arith,
      )
      refl
