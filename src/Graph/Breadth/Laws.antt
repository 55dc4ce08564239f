-- ===== src/Graph/Breadth/Laws.antt =====
-- `bfs` prints just the nodes that can be reached, each one once.
use core_technologies.Base.{
  Arr, Bool, Bool-cases, List, Returns, Returns-bind, Returns-mono, [], arith, cells, false, inl,
  inr, negsuc, pos, put, refl, suc, true, write-ok, zero, ℕ, ℤ, ◌<◌, ◌==◌, ◌∷◌, ◌≡◌, ◌≤◌,
}
use core_technologies.Graph.Breadth.{bfs}
use core_technologies.Graph.Breadth.Loop.{IsMatrix, bfs_loop-Prints}
use core_technologies.Graph.Breadth.Step.{
  Reach, Searching, edge, here, marked, marked-update, naturals, occurrences, over,
}
use core_technologies.Queue.Bounded.{Queue, enqueue, init_queue, max_nodes}
use core_technologies.Queue.Bounded.Laws.{enqueue-elements}

-- the marks with one node
abbrev update_at : ℕ → Arr Bool
update_at start = put (record { size = max_nodes; at = λ k. false }) start true

marked_none : (n : ℕ) → marked (λ k. false) n ≡ 0
unfolding marked
marked_none zero = refl
marked_none (suc n) = omega (arith, marked_none n)

module _ (graph : Arr (Arr ℤ)) (last start : ℕ) (small : last < max_nodes)
    (matrix : IsMatrix graph last) where
  -- the state that `bfs` starts from
  begin :
      (fresh : Queue)
      → fresh.cells.size ≡ max_nodes
      → start ≤ last
      → Returns
          (λ q. Searching graph last start [] 0 (record { visited = update_at start; queue = q }))
          (enqueue (init_queue fresh) (pos start))
  unfolding init_queue cells
  begin fresh fits le =
      let new = marked-update (λ k. false) start (suc last) (omega arith) refl in
      Returns-mono
        (enqueue-elements (record fresh { front = negsuc 0; rear = negsuc 0 }) 0 0 (pos start)
          (record { fits = fits; ends = (refl, refl) }) (omega arith))
        λ q (f, holds, view, step). (
          start ∷ [],
          f,
          1,
          record {
            fits = refl;
            holds = holds;
            view = view;
            total = omega (arith, new, marked_none (suc last));
            room = step;
            once = λ v. elim (Bool-cases (start == v)) [ inl e ↦ rw e refl | inr e ↦ rw e refl ];
            bounded = λ v seen. ground arith;
            reached = λ v seen. elim (Bool-cases (start == v)) [
              | inl e ↦
                  let same : start ≡ v = ground arith in
                  let first : Reach graph last start start = here in rw (← same) first
              | inr e ↦ let no = rw e at seen in cc
            ];
            started = ground arith;
          },
        )

  -- what is found is what can be reached
  Reach-visited :
      (visited : ℕ → Bool)
      → (visited start ≡ true)
      → ((a b : ℕ) → visited a ≡ true → b ≤ last → edge graph a b ≡ true → visited b ≡ true)
      → (v : ℕ) → Reach graph last start v
      → visited v ≡ true
  Reach-visited visited begun whole _ here = begun
  Reach-visited visited begun whole _ (over a b reach le joined) =
      whole a b (Reach-visited visited begun whole a reach) le joined

  -- `bfs` on a matrix with rows of `MaxNodes` cells for the nodes 0 to `last`, where `last` is below
  -- `MaxNodes` and the start is up to `last`: it ends without a fault, within `last + 2` rounds of
  -- its outer loop, and prints the nodes that an edge leads to from the start or from another such
  -- node, and the start, each one once, and no other.
  pub bfs-Reach :
      (fuel : ℕ) (fresh : Queue)
      → suc last < fuel
      → fresh.cells.size ≡ max_nodes
      → start ≤ last
      → Returns
          (λ xs.
            (printed : List ℕ) × (xs ≡ naturals printed)
            × ((v : ℕ) → Reach graph last start v → occurrences v printed ≡ 1)
            × ((v : ℕ) → 0 < occurrences v printed → Reach graph last start v))
          (bfs fuel graph (pos last) (pos start) fresh)
  unfolding bfs
  bfs-Reach fuel fresh f fits le =
      rw (write-ok (record { size = max_nodes; at = λ k. false }) start true (omega arith)) (
        Returns-bind (begin fresh fits le) λ q w.
          Returns-mono
            (bfs_loop-Prints graph last start small matrix fuel [] 0
              (record { visited = update_at start; queue = q }) (omega arith) w
              (λ a among. absurd (omega arith)))
            λ xs (printed, shown, (visited, once, begun, right, whole)). (
              printed,
              shown,
              λ v reach.
                  let seen = Reach-visited visited begun whole v reach in
                  let counted = once v in let counted' = rw seen at counted in omega arith,
              λ v among. elim (Bool-cases (visited v)) [
                | inl seen ↦ right v seen
                | inr new ↦
                    let counted = once v in let counted' = rw new at counted in absurd (omega arith)
              ],
            ))
