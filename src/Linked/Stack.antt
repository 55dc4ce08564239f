-- ===== src/Linked/Stack.antt =====
-- LinkedListStack.c: a stack as a list behind a header, with the newest element at the end. The
-- loops run on `fuel` rounds.
pub mod Laws
use core_technologies.Base.{ℕ, ℤ}
use core_technologies.Linked.Store.{Cmd, Ptr, alloc, free, load, node, pure, set_next, ◌>>=◌, ◌>>◌}
use core_technologies.Linked.Walk.{last, pre_of}

-- `CreateLLS`, with what `malloc` leaves in the element
unfoldable pub create_lls : (fresh : Ptr) → ℤ → Cmd Ptr
create_lls fresh rest = do alloc fresh (node rest 0); pure fresh

-- `rest` is what `malloc` leaves in the link of the new node
unfoldable pub push : ℕ → (header : Ptr) → ℤ → (fresh rest : Ptr) → Cmd (Unit {0})
push fuel header element fresh rest = do
  p ← last fuel header
  alloc fresh (node element rest)
  set_next p fresh
  set_next fresh 0

unfoldable pub pop : ℕ → (header : Ptr) → Cmd ℤ
pop fuel header = do
  n ← load header
  p ← last fuel n.next
  pre ← pre_of fuel header p
  m ← load p
  set_next pre m.next
  m ← load p
  free p
  pure m.element
