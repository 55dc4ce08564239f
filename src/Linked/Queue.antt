-- ===== src/Linked/Queue.antt =====
-- LinkedListQuene.c: a queue as a list behind a header, with the oldest element at the front. The
-- loops run on `fuel` rounds.
pub mod Laws
use core_technologies.Base.{ℕ, ℤ}
use core_technologies.Linked.Store.{Cmd, Ptr, alloc, free, load, node, pure, set_next, ◌>>=◌, ◌>>◌}
use core_technologies.Linked.Walk.{last}

-- `CreateLLQ`, with what `malloc` leaves in the element
unfoldable pub create_llq : (fresh : Ptr) → ℤ → Cmd Ptr
create_llq fresh rest = do alloc fresh (node rest 0); pure fresh

-- `push`, which writes the last link once the new node is complete
unfoldable pub push : ℕ → (quene : Ptr) → ℤ → (fresh : Ptr) → Cmd (Unit {0})
push fuel quene element fresh = do
  p ← last fuel quene
  alloc fresh (node element 0)
  set_next p fresh

unfoldable pub pop : (quene : Ptr) → Cmd ℤ
pop quene = do
  q ← load quene
  first ← load q.next
  set_next quene first.next
  free q.next
  pure first.element
