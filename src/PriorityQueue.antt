-- ===== src/PriorityQueue.antt =====
-- Data_Structure/Priority_Queue/Heap.c. Cell 0 of the array is meant to be below all elements.
pub mod Insert
pub mod Contents
pub mod Delete
pub mod Faults
use core_technologies.Base.{
  Arr, Option, Run, decr, eqb_ℤ, fault, if◌then◌else◌, incr, leb_ℤ, ltb_ℤ, negsuc, none, ok,
  out_of_fuel, pos, read, read_at, some, suc, write, zero, ℕ, ℤ, ◌*◌, ◌+◌, ◌/◌, ◌>>=◌, ◌>>◌,
}

pub record Heap : Type 0 where
  pub capacity : ℕ
  pub size : ℤ
  pub arr : Arr ℤ

-- `Initialize`, with what `malloc` leaves in the one cell
unfoldable pub initialize : ℕ → (ℕ → ℤ) → Run Heap
initialize max_capacity fresh = do
  arr ← write (record { size = 1; at = fresh }) 0 (negsuc 0)
  ok (record { capacity = max_capacity; size = pos 0; arr = arr })

-- the loop of `Insert`, and the write that follows it
unfoldable pub insert_loop : ℕ → Arr ℤ → (i : ℕ) → ℤ → Run (Arr ℤ)
insert_loop zero arr i element = out_of_fuel
insert_loop (suc fuel) arr i element = do
  parent ← read arr (i / 2)
  if ltb_ℤ element parent
      then (do arr ← write arr i parent; insert_loop fuel arr (i / 2) element)
      else write arr i element

-- the same from an index that may be negative, where the first access is out of bounds
unfoldable pub insert_from : ℕ → Arr ℤ → ℤ → ℤ → Run (Arr ℤ)
insert_from fuel arr (pos i) element = insert_loop fuel arr i element
insert_from fuel arr (negsuc i) element = fault

unfoldable pub insert : ℕ → Heap → ℤ → Run Heap
insert fuel h element = do
  arr ← insert_from fuel h.arr (incr h.size) element
  ok (record h { size = incr h.size; arr = arr })

-- the smaller child of a node: the second one is not read if the first one is the last element
unfoldable pub smaller_child : Arr ℤ → ℤ → ℕ → Run ℕ
smaller_child arr size child = if eqb_ℤ (pos child) size then ok child else (do
  right ← read arr (child + 1)
  left ← read arr child
  ok (if ltb_ℤ right left then child + 1 else child))

-- the write behind the loop of `DeleteMin`: a `child` that was not set is undefined behaviour
unfoldable pub put_last : Arr ℤ → ℤ → Option ℕ → Run (Arr ℤ)
put_last arr last none = fault
put_last arr last (some child) = write arr child last

-- the loop of `DeleteMin` and the write
unfoldable pub delete_loop : ℕ → Arr ℤ → (size last : ℤ) → (i : ℕ) → Option ℕ → Run (Arr ℤ)
delete_loop zero arr size last i child = out_of_fuel
delete_loop (suc fuel) arr size last i child =
    if leb_ℤ (pos (i * 2)) size
    then (do
      child ← smaller_child arr size (i * 2)
      x ← read arr child
      if ltb_ℤ x last
          then (do arr ← write arr i x; delete_loop fuel arr size last child (some child))
          else put_last arr last (some child))
    else put_last arr last child

unfoldable pub delete_min : ℕ → Heap → Run (ℤ × Heap)
delete_min fuel h = do
  min ← read h.arr 1
  last ← read_at h.arr h.size
  arr ← delete_loop fuel h.arr (decr h.size) last 1 none
  ok (min, record h { size = decr h.size; arr = arr })
