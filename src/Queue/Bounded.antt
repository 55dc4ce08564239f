-- ===== src/Queue/Bounded.antt =====
-- ArrayQuene2.c: a queue in an array of `MaxNodes` cells, between the indices `front` and `rear`,
-- which are -1 while it is empty.
pub mod Laws
use core_technologies.Base.{
  Arr, Bool, Run, cells, eqb_ℤ, if◌then◌else◌, incr, negsuc, ok, pos, read_at, write_at, ℕ, ℤ, ◌&&◌,
  ◌>>=◌, ◌>>◌,
}

abbrev pub max_nodes : ℕ
max_nodes = 100

pub record Queue : Type 0 where
  pub cells : Arr ℤ
  pub front : ℤ
  pub rear : ℤ

-- `InitQuene`
unfoldable pub init_queue : Queue → Queue
init_queue queue = record queue { front = negsuc 0; rear = negsuc 0 }

unfoldable pub is_empty : Queue → Bool
is_empty queue = eqb_ℤ queue.front (negsuc 0) && eqb_ℤ queue.rear (negsuc 0)

-- `Enquene`; the message for a full queue is left out
unfoldable pub enqueue : Queue → ℤ → Run Queue
unfolding is_empty
enqueue queue element = if eqb_ℤ queue.rear (pos max_nodes) then ok queue else (do
  let front = if is_empty queue then pos 0 else queue.front
  let rear = incr queue.rear
  cells ← write_at queue.cells rear element
  ok (record { cells = cells; front = front; rear = rear }))

-- `Dequene`
unfoldable pub dequeue : Queue → Run (ℤ × Queue)
unfolding is_empty
dequeue queue = if is_empty queue then ok (negsuc 0, queue) else (do
  val ← read_at queue.cells queue.front
  ok (
    val,
    (if eqb_ℤ queue.front queue.rear
        then record queue { front = negsuc 0; rear = negsuc 0 }
        else record queue { front = incr queue.front }),
  ))
