-- ===== src/Stack/Array.antt =====
-- ArrayStack.c: a stack on an array of ten cells, whose capacity `push` does not check.
pub mod Laws
use core_technologies.Base.{
  Arr, List, Run, [], if◌then◌else◌, negsuc, ok, read, suc, write, zero, ℕ, ℤ, ◌+◌, ◌-◌, ◌==◌,
  ◌>>=◌, ◌>>◌, ◌∷◌,
}

pub record ArrayStack : Type 0 where
  pub arr : Arr ℤ
  pub length : ℕ
  pub capacity : ℕ

-- `CreateAS`, with what `malloc` leaves in the cells
unfoldable pub create_as : (ℕ → ℤ) → ArrayStack
create_as fresh = record { arr = record { size = 10; at = fresh }; length = 0; capacity = 10 }

pub push : ArrayStack → ℤ → Run ArrayStack
push s element = do
  arr ← write s.arr s.length element
  ok (record s { arr = arr; length = s.length + 1 })

pub pop : ArrayStack → Run (ℤ × ArrayStack)
pop s =
    if s.length == 0
    then ok (negsuc 0, s)
    else (do element ← read s.arr (s.length - 1); ok (element, record s { length = s.length - 1 }))

-- `ShowStark`, as the list of what it prints
unfoldable pub show_loop : Arr ℤ → ℕ → ℕ → Run (List ℤ)
show_loop arr i zero = ok []
show_loop arr i (suc n) = do x ← read arr i; xs ← show_loop arr (suc i) n; ok (x ∷ xs)

unfoldable pub show_stark : ArrayStack → Run (List ℤ)
unfolding show_loop
show_stark s = show_loop s.arr 0 s.length
