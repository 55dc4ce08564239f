-- ===== src/Tests/Graph.antt =====
-- BreadthFirstSearch.c on three nodes, of which the last one has no edge.
use core_technologies.Base.{
  Arr, List, Returns, [], arith, for_range, if◌then◌else◌, ok, pos, read, refl, write, ℕ, ℤ, ◌<◌,
  ◌==◌, ◌∷◌, ◌≡◌,
}
use core_technologies.Graph.Breadth.{bfs, bfs_loop, visit_step}
use core_technologies.Graph.Breadth.Laws.{bfs-Reach}
use core_technologies.Graph.Breadth.Loop.{IsMatrix}
use core_technologies.Graph.Breadth.Step.{Reach, naturals, occurrences}
use core_technologies.Queue.Bounded.{Queue, dequeue, enqueue, init_queue}
use core_technologies.Tests.{nth}

abbrev row : List ℤ → Arr ℤ
row xs = record { size = 100; at = nth xs }

abbrev graph : Arr (Arr ℤ)
graph = record {
  size = 3;
  at =
      λ a. if a == 0 then row (pos 0 ∷ pos 1 ∷ []) else if a == 1 then row (pos 1 ∷ []) else row [];
}

abbrev fresh : Queue
fresh = record { cells = record { size = 100; at = λ k. pos 9 }; front = pos 7; rear = pos 8 }

row_size : (a : ℕ) → (graph.at a).size ≡ 100
row_size a = ground arith

graph-IsMatrix : IsMatrix graph 2
graph-IsMatrix = record { rows = omega arith; cells = λ a le. row_size a }

bfs-Reach_example :
    Returns
      (λ xs.
        (printed : List ℕ) × (xs ≡ naturals printed)
        × ((v : ℕ) → Reach graph 2 0 v → occurrences v printed ≡ 1)
        × ((v : ℕ) → 0 < occurrences v printed → Reach graph 2 0 v))
      (bfs 4 graph (pos 2) (pos 0) fresh)
bfs-Reach_example =
    bfs-Reach graph 2 0 (omega arith) graph-IsMatrix 4 fresh (omega arith) refl (omega arith)

two_nodes : bfs 4 graph (pos 2) (pos 0) fresh ≡ ok (pos 0 ∷ pos 1 ∷ [])
unfolding bfs write enqueue init_queue bfs_loop dequeue read for_range visit_step
two_nodes = refl
