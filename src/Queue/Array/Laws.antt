-- ===== src/Queue/Array/Laws.antt =====
-- The array queue against the list of its elements, the oldest first.
use core_technologies.Base.{
  List, Returns, Returns-bind, Returns-value, [], ap, arith, cells, cells-update, cells_shift,
  fault, for_range, for_range-last, for_range_empty, pos, read-ok, refl, returns, shift-IsShifted,
  shift_step, shift_step_end, suc, sym, write-fault, write-ok, ℕ, ℤ, ◌++◌, ◌+◌, ◌-◌, ◌<◌, ◌>>=◌,
  ◌∙◌, ◌∷◌, ◌≡◌, ◌≤◌,
}
use core_technologies.Queue.Array.{ArrayQueue, dequeue, enqueue}

-- the queue holds `n` elements
pub record Holds (n : ℕ) (q : ArrayQueue) : Type 0 where
  pub fits : q.arr.size ≡ q.capacity
  pub used : n ≤ q.capacity
  pub length : q.length ≡ pos n

abbrev pub view : ArrayQueue → ℕ → List ℤ
view q n = cells q.arr.at 0 n

-- `Enquene` into a queue that is not full puts the element at the end.
pub enqueue-view :
    (q : ArrayQueue) (n : ℕ) (x : ℤ)
    → Holds n q
    → n < q.capacity
    → Returns (λ q'. Holds (n + 1) q' × (view q' (n + 1) ≡ view q n ++ (x ∷ []))) (enqueue q x)
unfolding enqueue
enqueue-view q n x v room =
    let e : suc n ≡ n + 1 = omega arith in
    rw (v.length, write-ok q.arr n x (omega (arith, v.fits)))
      (returns (
        record { fits = v.fits; used = omega arith; length = ap pos e },
        cells-update q.arr.at 0 n n x (omega arith),
      ))

-- `Enquene` into a full queue writes past the end of the array.
pub enqueue_full : (q : ArrayQueue) (x : ℤ) → Holds q.capacity q → enqueue q x ≡ fault
unfolding enqueue
enqueue_full q x v = rw (v.length, write-fault q.arr q.capacity x (omega (arith, v.fits)))

-- `Dequene` of a queue with an element, and a free cell behind the last, takes the oldest one.
pub dequeue-view :
    (q : ArrayQueue) (n : ℕ)
    → Holds (suc n) q
    → suc n < q.capacity
    → Returns (λ (x, q'). Holds n q' × (view q (suc n) ≡ x ∷ view q' n)) (dequeue q)
unfolding dequeue cells
dequeue-view q n v room =
    let fits = v.fits in
    rw (v.length, read-ok q.arr 0 (omega arith))
      (Returns-bind (shift-IsShifted q.arr 0 (suc n) (omega arith) (omega arith)) λ a s. returns (
        record { fits = s.same_size ∙ v.fits; used = omega arith; length = refl },
        ap (◌∷◌ (q.arr.at 0))
            (sym (cells_shift a.at q.arr.at 0 n (λ k p r. s.moved k p (omega arith)))),
      ))

-- `Dequene` of a full queue reads the cell behind the end of the array.
pub dequeue_full : (q : ArrayQueue) → 0 < q.capacity → Holds q.capacity q → dequeue q ≡ fault
unfolding dequeue
dequeue_full q some_there v =
    let fits = v.fits in
    let e : q.capacity ≡ (q.capacity - 1) + 1 = omega arith in
    let (a, run, s) =
      Returns-value (shift-IsShifted q.arr 0 (q.capacity - 1) (omega arith) (omega arith)) in
    let size = s.same_size in
    let rounds : for_range 0 q.capacity shift_step q.arr ≡ fault = rw e (
      for_range-last 0 (q.capacity - 1) shift_step q.arr (omega arith)
      ∙ rw run (shift_step_end (q.capacity - 1) a (omega arith))) in
    rw (v.length, read-ok q.arr 0 (omega arith), rounds)

-- `Dequene` of an empty queue makes its length -1, so that the next `Enquene` writes in front of
-- the array.
pub dequeue_empty :
    (q : ArrayQueue) (x : ℤ)
    → 0 < q.capacity
    → Holds 0 q
    → (dequeue q >>= λ (_, q'). enqueue q' x) ≡ fault
unfolding dequeue enqueue
dequeue_empty q x some_there v =
    let fits = v.fits in
    rw (
      v.length,
      read-ok q.arr 0 (omega arith),
      for_range_empty {i = 0} {j = 0} shift_step q.arr (omega arith),
    )
