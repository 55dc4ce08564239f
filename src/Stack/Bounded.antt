-- ===== src/Stack/Bounded.antt =====
-- ArrayStack2.c: a stack in an array of `Max` cells, with the index of its top, -1 if it is empty.
pub mod Laws
use core_technologies.Base.{
  Arr, Bool, Run, cells, decr, eqb_ℤ, if◌then◌else◌, incr, negsuc, ok, pos, read_at, write_at, ℕ, ℤ,
  ◌-◌, ◌>>=◌, ◌>>◌,
}

abbrev pub max_size : ℕ
max_size = 100

pub record Stack : Type 0 where
  pub cells : Arr ℤ
  pub top : ℤ

pub init_stack : Stack → Stack
init_stack stack = record stack { top = negsuc 0 }

pub is_stack_empty : Stack → Bool
is_stack_empty stack = eqb_ℤ stack.top (negsuc 0)

-- `Push`; the message for a full stack is left out
pub push : Stack → ℤ → Run Stack
push stack element = if eqb_ℤ stack.top (pos (max_size - 1)) then ok stack else (do
  let top = incr stack.top
  cells ← write_at stack.cells top element
  ok (record { cells = cells; top = top }))

pub pop : Stack → Run (ℤ × Stack)
pop stack = if eqb_ℤ stack.top (negsuc 0) then ok (negsuc 0, stack) else (do
  element ← read_at stack.cells stack.top
  ok (element, record stack { top = decr stack.top }))
