-- ===== src/Queue/Bounded/Laws.antt =====
-- The bounded queue against the list of its elements, the oldest first.
use core_technologies.Base.{
  List, Returns, [], ap, arith, cells, cells-update, eqb_ℤ, false, fault, negsuc, ok, pos, read-ok,
  refl, returns, suc, true, update, write-fault, write-ok, zero, ℕ, ℤ, ◌++◌, ◌+◌, ◌<◌, ◌==◌, ◌∷◌,
  ◌≡◌, ◌≤◌,
}
use core_technologies.Queue.Bounded.{Queue, dequeue, enqueue, is_empty, max_nodes}

-- the queue holds `n` elements, the first one in cell `f`
abbrev pub Ends : ℕ → ℕ → Queue → Type 0
Ends f zero q = (q.front ≡ negsuc 0) × (q.rear ≡ negsuc 0)
Ends f (suc n) q = (q.front ≡ pos f) × (q.rear ≡ pos (f + n)) × (f + n < max_nodes)

pub record Holds (f n : ℕ) (q : Queue) : Type 0 where
  pub fits : q.cells.size ≡ max_nodes
  pub ends : Ends f n q

abbrev pub elements : Queue → ℕ → ℕ → List ℤ
elements q f n = cells q.cells.at f n

-- `IsEmpty` tells just the queue with no element.
pub is_empty_iff : (q : Queue) (f n : ℕ) → Holds f n q → is_empty q ≡ (n == 0)
unfolding is_empty
is_empty_iff q f zero v = rw (v.ends.0, v.ends.1)
is_empty_iff q f (suc n) v = rw (v.ends.0, v.ends.1) (ground arith)

-- `Enquene` into a queue whose last element is not in the last cell puts the element at the end,
-- one cell further at most; an empty queue starts in cell 0.
pub enqueue-elements :
    (q : Queue) (f n : ℕ) (x : ℤ)
    → Holds f n q
    → f + n < max_nodes
    → Returns
        (λ q'.
          (f' : ℕ) × Holds f' (n + 1) q'
          × (elements q' f' (n + 1) ≡ elements q f n ++ (x ∷ []))
          × (f' + (n + 1) ≤ f + n + 1))
        (enqueue q x)
unfolding enqueue
enqueue-elements q f zero x v h =
    let alone : cells (update q.cells.at 0 x) 0 1 ≡ cells q.cells.at f 0 ++ (x ∷ []) =
      unfold cells in refl in
    rw (v.ends.0, v.ends.1, write-ok q.cells 0 x (omega (arith, v.fits)))
      (returns (0, record { fits = v.fits; ends = (refl, refl, omega arith) }, alone, omega arith))
enqueue-elements q f (suc n) x v h =
    let e : eqb_ℤ (pos (f + n)) (pos max_nodes) ≡ false = ground arith in
    let e' : eqb_ℤ (pos f) (negsuc 0) ≡ false = ground arith in
    let next : suc (f + n) ≡ f + suc n = omega arith in
    let more : suc n + 1 ≡ suc (suc n) = omega arith in
    let last = cells-update q.cells.at f (suc n) (suc (f + n)) x (omega arith) in
    rw (v.ends.0, v.ends.1, e, e', write-ok q.cells (suc (f + n)) x (omega (arith, v.fits)))
      (returns (
        f,
        rw more (record { fits = v.fits; ends = (refl, ap pos next, omega arith) }),
        last,
        omega arith,
      ))

-- `Enquene` into a queue whose last element is in the last cell writes past the end of the array,
-- though a full queue was to be reported.
pub enqueue_end :
    (q : Queue) (f n : ℕ) (x : ℤ) → Holds f (suc n) q → f + suc n ≡ max_nodes → enqueue q x ≡ fault
unfolding enqueue
enqueue_end q f n x v h =
    let e : eqb_ℤ (pos (f + n)) (pos max_nodes) ≡ false = ground arith in
    rw (v.ends.0, v.ends.1, e, write-fault q.cells (suc (f + n)) x (omega (arith, v.fits)))

-- `Dequene` of a queue with an element takes the oldest one; the last one does not move up.
pub dequeue-elements :
    (q : Queue) (f n : ℕ)
    → Holds f (suc n) q
    → Returns
        (λ (x, q').
          (f' : ℕ) × Holds f' n q'
          × (elements q f (suc n) ≡ x ∷ elements q' f' n)
          × (f' + n ≤ f + suc n))
        (dequeue q)
unfolding dequeue cells
dequeue-elements q f zero v =
    let e : eqb_ℤ (pos f) (negsuc 0) ≡ false = ground arith in
    let same : eqb_ℤ (pos f) (pos (f + 0)) ≡ true = ground arith in
    rw (v.ends.0, v.ends.1, e, read-ok q.cells f (omega (arith, v.fits, v.ends.2)), same)
      (returns (f, record { fits = v.fits; ends = (refl, refl) }, refl, omega arith))
dequeue-elements q f (suc n) v =
    let e : eqb_ℤ (pos f) (negsuc 0) ≡ false = ground arith in
    let differ : eqb_ℤ (pos f) (pos (f + suc n)) ≡ false = ground arith in
    let next : f + suc n ≡ suc f + n = omega arith in
    rw (v.ends.0, v.ends.1, e, read-ok q.cells f (omega (arith, v.fits, v.ends.2)), differ)
      (returns (
        suc f,
        record { fits = v.fits; ends = (refl, ap pos next, omega (arith, v.ends.2)) },
        refl,
        omega arith,
      ))

-- `Dequene` of an empty queue gives -1 and changes nothing.
pub dequeue_empty : (q : Queue) (f : ℕ) → Holds f 0 q → dequeue q ≡ ok (negsuc 0, q)
unfolding dequeue
dequeue_empty q f v = rw (v.ends.0, v.ends.1)
