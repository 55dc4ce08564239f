-- ===== src/Graph/Breadth/Loop.antt =====
-- The outer loop of `bfs` of BreadthFirstSearch.c.
use core_technologies.Base.{
  Arr, Bool, Bool-cases, List, Returns, Returns-bind, Returns-mono, [], ap, arith, cells, false,
  inl, inr, pos, refl, returns, suc, true, zero, ℕ, ℤ, ◌+◌, ◌<◌, ◌==◌, ◌∷◌, ◌≡◌, ◌≤◌,
}
use core_technologies.Graph.Breadth.{Search, bfs_loop}
use core_technologies.Graph.Breadth.Step.{
  IsSearch, Keeps, Looked, Reach, Searching, bit, edge, marked-le, naturals, occurrences,
  visit-Searching,
}
use core_technologies.Queue.Bounded.{dequeue, max_nodes}
use core_technologies.Queue.Bounded.Laws.{dequeue-elements, is_empty_iff}

-- rows of `MaxNodes` cells for the nodes up to `last`
pub record IsMatrix (graph : Arr (Arr ℤ)) (last : ℕ) : Type 0 where
  pub rows : last < graph.size
  pub cells : (a : ℕ) → a ≤ last → (graph.at a).size ≡ max_nodes

-- the neighbours of the nodes that were taken from the queue are visited
abbrev pub Closed : Arr (Arr ℤ) → ℕ → List ℕ → Search → Type 0
Closed graph last out s = (a : ℕ) → 0 < occurrences a out → Looked graph a (suc last) s

module _ (graph : Arr (Arr ℤ)) (last start : ℕ) (small : last < max_nodes)
    (matrix : IsMatrix graph last) where
  -- what holds once the queue is empty
  abbrev pub IsFound : List ℕ → List ℕ → Type 0
  IsFound out printed =
      (visited : ℕ → Bool) × ((v : ℕ) → occurrences v out + occurrences v printed ≡ bit (visited v))
      × (visited start ≡ true)
      × ((v : ℕ) → visited v ≡ true → Reach graph last start v)
      × ((a b : ℕ) → visited a ≡ true → b ≤ last → edge graph a b ≡ true → visited b ≡ true)

  abbrev pub Prints : List ℕ → List ℤ → Type 0
  Prints out xs = (printed : List ℕ) × (xs ≡ naturals printed) × IsFound out printed

  pending_seen :
      (out : List ℕ) (taken c : ℕ) (pending : List ℕ) (f n : ℕ) (s : Search)
      → IsSearch graph last start out taken (c ∷ pending) f n s
      → s.visited.at c ≡ true
  pending_seen out taken c pending f n s w = elim (Bool-cases (s.visited.at c)) [
    | inl seen ↦ seen
    | inr new ↦
        let same : (c == c) ≡ true = ground arith in
        let counted = w.once c in let none = rw (new, same) at counted in absurd (omega arith)
  ]

  -- the node that `Dequene` takes
  take :
      (out : List ℕ) (taken : ℕ) (pending : List ℕ) (f n : ℕ) (s : Search)
      → IsSearch graph last start out taken pending f (suc n) s
      → Returns
          (λ (x, q).
            (c : ℕ) × (x ≡ pos c)
            × (c ≤ last)
            × Reach graph last start c
            × Searching graph last start (c ∷ out) (taken + 1) (record s { queue = q }))
          (dequeue s.queue)
  unfolding cells
  take out taken [] f n s w = let none = w.view in cc
  take out taken (c ∷ pending) f n s w =
      let seen = pending_seen out taken c pending f (suc n) s w in
      Returns-mono (dequeue-elements s.queue f n w.holds) λ (x, q) (f', holds, view, step).
        let both = w.view in
        (
          c,
          cc,
          w.bounded c seen,
          w.reached c seen,
          (
            pending,
            f',
            n,
            record {
              fits = w.fits;
              holds = holds;
              view = cc;
              total = omega (arith, w.total);
              room = omega (arith, w.room, step);
              once = λ v. omega (arith, w.once v);
              bounded = w.bounded;
              reached = w.reached;
              started = w.started;
            },
          ),
        )

  -- an empty queue ends the search
  found :
      (out : List ℕ) (taken : ℕ) (pending : List ℕ) (f : ℕ) (s : Search)
      → IsSearch graph last start out taken pending f 0 s
      → Closed graph last out s
      → IsFound out []
  unfolding cells
  found out taken [] f s w closed = (
    s.visited.at,
    w.once,
    w.started,
    w.reached,
    λ a b seen le joined.
        let counted = w.once a in
        let some_there = rw seen at counted in closed a (omega arith) b (omega arith) joined,
  )
  found out taken (c ∷ pending) f s w closed = let none = w.view in cc

  Closed-next :
      (c : ℕ) (out : List ℕ) (s s' : Search)
      → Closed graph last out s
      → Keeps s s'
      → Looked graph c (suc last) s'
      → Closed graph last (c ∷ out) s'
  Closed-next c out s s' closed keeps looked a among b lt joined = elim (Bool-cases (c == a)) [
    | inl e ↦ let same : c ≡ a = ground arith in rw same at looked b lt joined
    | inr e ↦ let among' = rw e at among in keeps b (closed a (omega arith) b lt joined)
  ]

  -- The search from a state on ends, and prints the nodes that are missing.
  pub bfs_loop-Prints :
      (fuel : ℕ) (out : List ℕ) (taken : ℕ) (s : Search)
      → suc last < fuel + taken
      → Searching graph last start out taken s
      → Closed graph last out s
      → Returns (Prints out) (bfs_loop fuel graph (pos last) s)
  unfolding bfs_loop
  bfs_loop-Prints zero out taken s f (pending, i, n, w) closed =
      absurd (omega (arith, w.total, marked-le s.visited.at (suc last)))
  bfs_loop-Prints (suc fuel) out taken s f (pending, i, zero, w) closed =
      rw (is_empty_iff s.queue i zero w.holds)
        (returns ([], refl, found out taken pending i s w closed))
  bfs_loop-Prints (suc fuel) out taken s f (pending, i, suc n, w) closed =
      let more : (suc n == 0) ≡ false = ground arith in
      rw (is_empty_iff s.queue i (suc n) w.holds, more)
        (Returns-bind (take out taken pending i n s w) λ (x, q) (c, e, le, reach, w'). rw e (
          Returns-bind
            (visit-Searching graph last start small (c ∷ out) (taken + 1) c (record s { queue = q })
              (omega (arith, matrix.rows)) (matrix.cells c le) reach w')
            λ s' (w'', keeps, looked).
              Returns-bind
                (bfs_loop-Prints fuel (c ∷ out) (taken + 1) s' (omega arith) w''
                  (Closed-next c out (record s { queue = q }) s' closed keeps looked))
                λ xs (printed, shown, (visited, once, begun, right, whole)). returns (
                  c ∷ printed,
                  ap (◌∷◌ (pos c)) shown,
                  (visited, λ v. omega (arith, once v), begun, right, whole),
                )))
