-- ===== src/Queue/Array.antt =====
-- ArrayQuene.c: a queue on an array of ten cells, whose capacity `Enquene` does not check.
pub mod Laws
use core_technologies.Base.{
  Arr, List, Run, [], decr, for_range, incr, ok, pos, pos_part, read, shift_step, suc, write_at,
  zero, ℕ, ℤ, ◌>>=◌, ◌>>◌, ◌∷◌,
}

pub record ArrayQueue : Type 0 where
  pub arr : Arr ℤ
  pub length : ℤ
  pub capacity : ℕ

-- `CreateAQ`, with what `malloc` leaves in the cells
unfoldable pub create_aq : (ℕ → ℤ) → ArrayQueue
create_aq fresh = record { arr = record { size = 10; at = fresh }; length = pos 0; capacity = 10 }

-- `Enquene`
pub enqueue : ArrayQueue → ℤ → Run ArrayQueue
enqueue aq element = do
  arr ← write_at aq.arr aq.length element
  ok (record aq { arr = arr; length = incr aq.length })

-- `Dequene`; the loop does nothing if `length` is negative
pub dequeue : ArrayQueue → Run (ℤ × ArrayQueue)
dequeue aq = do
  val ← read aq.arr 0
  arr ← for_range 0 (pos_part aq.length) shift_step aq.arr
  ok (val, record aq { arr = arr; length = decr aq.length })

-- `ShowAQ`, as the list of what it prints
unfoldable pub show_loop : Arr ℤ → ℕ → ℕ → Run (List ℤ)
show_loop arr i zero = ok []
show_loop arr i (suc n) = do x ← read arr i; xs ← show_loop arr (suc i) n; ok (x ∷ xs)

unfoldable pub show_aq : ArrayQueue → Run (List ℤ)
unfolding show_loop
show_aq aq = show_loop aq.arr 0 (pos_part aq.length)
