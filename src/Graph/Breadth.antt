-- ===== src/Graph/Breadth.antt =====
-- BreadthFirstSearch.c, on the queue of Queue/Bounded, which the file repeats. The rows of the
-- adjacency matrix have `MaxNodes` cells.
pub mod Step
pub mod Loop
pub mod Laws
use core_technologies.Base.{
  Arr, Bool, List, Run, [], eqb_ℤ, false, for_range, if◌then◌else◌, incr, ok, out_of_fuel, pos,
  pos_part, read, read_at, suc, true, write, write_at, zero, ℕ, ℤ, ◌>>=◌, ◌>>◌, ◌∷◌,
}
use core_technologies.Queue.Bounded.{Queue, dequeue, enqueue, init_queue, is_empty, max_nodes}

-- what `bfs` works on
pub record Search : Type 0 where
  pub visited : Arr Bool
  pub queue : Queue

-- the body of the inner loop of `bfs`
unfoldable pub visit_step : Arr (Arr ℤ) → ℤ → ℕ → Search → Run Search
visit_step graph current i s = do
  row ← read_at graph current
  edge ← read row i
  if eqb_ℤ edge (pos 1)
      then (do
        seen ← read s.visited i
        if seen then ok s else (do
          visited ← write s.visited i true
          queue ← enqueue s.queue (pos i)
          ok (record { visited = visited; queue = queue })))
      else ok s

-- the outer loop of `bfs`, with the nodes that it prints
unfoldable pub bfs_loop : ℕ → Arr (Arr ℤ) → ℤ → Search → Run (List ℤ)
bfs_loop zero graph num_node s = out_of_fuel
bfs_loop (suc fuel) graph num_node s = if is_empty s.queue then ok [] else (do
  (current, queue) ← dequeue s.queue
  s ← for_range 0 (pos_part (incr num_node)) (visit_step graph current) (record s { queue = queue })
  printed ← bfs_loop fuel graph num_node s
  ok (current ∷ printed))

-- `bfs`; `fresh` is the queue that is not initialised yet
unfoldable pub bfs : ℕ → Arr (Arr ℤ) → (num_node start_node : ℤ) → (fresh : Queue) → Run (List ℤ)
bfs fuel graph num_node start_node fresh = do
  visited ← write_at (record { size = max_nodes; at = λ k. false }) start_node true
  queue ← enqueue (init_queue fresh) start_node
  bfs_loop fuel graph num_node (record { visited = visited; queue = queue })
