-- ===== src/Graph/Breadth/Step.antt =====
-- The state of the search, and the inner loop of `bfs`.
use core_technologies.Base.{
  Arr, Bool, Bool-cases, List, Returns, Returns-bind, Returns-mono, [], ap, arith, cells, eqb_ℤ,
  false, for_range, for_range_inv, if◌then◌else◌, inl, inr, pos, put, read-ok, refl, returns, suc,
  sym, true, update, write-ok, zero, ℕ, ℤ, ◌++◌, ◌+◌, ◌<◌, ◌==◌, ◌∙◌, ◌∷◌, ◌≡◌, ◌≤◌,
}
use core_technologies.Graph.Breadth.{Search, visit_step}
use core_technologies.Queue.Bounded.{enqueue, max_nodes}
use core_technologies.Queue.Bounded.Laws.{Holds, elements, enqueue-elements}

abbrev pub naturals : List ℕ → List ℤ
naturals [] = []
naturals (x ∷ xs) = pos x ∷ naturals xs

-- how often a node stands in a list
abbrev pub occurrences : ℕ → List ℕ → ℕ
occurrences v [] = 0
occurrences v (x ∷ xs) = (if x == v then 1 else 0) + occurrences v xs

abbrev pub bit : Bool → ℕ
bit b = if b then 1 else 0

-- the nodes below `n` that are marked
unfoldable pub marked : (ℕ → Bool) → ℕ → ℕ
marked f zero = 0
marked f (suc n) = bit (f n) + marked f n

pub marked-le : (f : ℕ → Bool) (n : ℕ) → marked f n ≤ n
unfolding marked
marked-le f zero = omega arith
marked-le f (suc n) = elim (Bool-cases (f n)) [
  | inl e ↦ rw e (omega (arith, marked-le f n))
  | inr e ↦ rw e (omega (arith, marked-le f n))
]

marked-update_out : (f : ℕ → Bool) (i n : ℕ) → n ≤ i → marked (update f i true) n ≡ marked f n
unfolding marked
marked-update_out f i zero le = refl
marked-update_out f i (suc n) le =
    let e : (i == n) ≡ false = ground arith in rw (e, marked-update_out f i n (omega arith)) refl

pub marked-update :
    (f : ℕ → Bool) (i n : ℕ) → i < n → f i ≡ false → marked (update f i true) n ≡ suc (marked f n)
unfolding marked
marked-update f i zero lt new = absurd (omega arith)
marked-update f i (suc n) lt new = elim (Bool-cases (i == n)) [
  | inl e ↦
      let same : i ≡ n = ground arith in
      let new' : f n ≡ false = rw same at new in
      rw (e, marked-update_out f i n (omega arith), new') (omega arith)
  | inr e ↦ rw (e, marked-update f i n (ground arith) new) (omega arith)
]

occurrences-snoc :
    (v x : ℕ) (xs : List ℕ)
    → occurrences v (xs ++ (x ∷ [])) ≡ occurrences v xs + (if x == v then 1 else 0)
occurrences-snoc v x [] = omega arith
occurrences-snoc v x (y ∷ ys) = omega (arith, occurrences-snoc v x ys)

naturals-snoc : (xs : List ℕ) (x : ℕ) → naturals (xs ++ (x ∷ [])) ≡ naturals xs ++ (pos x ∷ [])
naturals-snoc [] x = refl
naturals-snoc (y ∷ ys) x = ap (◌∷◌ (pos y)) (naturals-snoc ys x)

-- the matrix has an edge between the nodes
abbrev pub edge : Arr (Arr ℤ) → ℕ → ℕ → Bool
edge graph a b = eqb_ℤ ((graph.at a).at b) (pos 1)

-- what can be reached from `start` over nodes up to `last`
pub data Reach (graph : Arr (Arr ℤ)) (last start : ℕ) : ℕ → Type 0 where
  here : Reach graph last start start
  over :
      (a b : ℕ)
      → Reach graph last start a
      → b ≤ last
      → edge graph a b ≡ true
      → Reach graph last start b

-- all neighbours of a node below `i` are visited
abbrev pub Looked : Arr (Arr ℤ) → (c i : ℕ) → Search → Type 0
Looked graph c i s = (b : ℕ) → b < i → edge graph c b ≡ true → s.visited.at b ≡ true

-- no mark has gone
abbrev pub Keeps : Search → Search → Type 0
Keeps s s' = (b : ℕ) → s.visited.at b ≡ true → s'.visited.at b ≡ true

-- The state of a search that has taken the nodes `out` from the queue, which holds `pending`
-- between `f` and `f + n`: each node that is visited stands in just one of the two.
pub record IsSearch (graph : Arr (Arr ℤ)) (last start : ℕ) (out : List ℕ) (taken : ℕ)
    (pending : List ℕ) (f n : ℕ) (s : Search) : Type 0 where
  pub fits : s.visited.size ≡ max_nodes
  pub holds : Holds f n s.queue
  pub view : elements s.queue f n ≡ naturals pending
  pub total : taken + n ≡ marked s.visited.at (suc last)
  pub room : f + n ≤ taken + n
  pub once : (v : ℕ) → occurrences v out + occurrences v pending ≡ bit (s.visited.at v)
  pub bounded : (v : ℕ) → s.visited.at v ≡ true → v ≤ last
  pub reached : (v : ℕ) → s.visited.at v ≡ true → Reach graph last start v
  pub started : s.visited.at start ≡ true

-- the state in some queue
abbrev pub Searching : Arr (Arr ℤ) → (last start : ℕ) → List ℕ → ℕ → Search → Type 0
Searching graph last start out taken s =
    (pending : List ℕ) × (f : ℕ) × (n : ℕ) × IsSearch graph last start out taken pending f n s

module _ (graph : Arr (Arr ℤ)) (last start : ℕ) (small : last < max_nodes) where
  -- a new node goes to the end of the queue
  add :
      (out : List ℕ) (taken : ℕ) (s : Search) (i : ℕ)
      → i ≤ last
      → s.visited.at i ≡ false
      → Reach graph last start i
      → Searching graph last start out taken s
      → Returns
          (λ q.
            Searching graph last start out taken
              (record { visited = put s.visited i true; queue = q }))
          (enqueue s.queue (pos i))
  add out taken s i le new reach (pending, f, n, w) =
      let more = marked-update s.visited.at i (suc last) (omega arith) new in
      let most = marked-le (update s.visited.at i true) (suc last) in
      Returns-mono
        (enqueue-elements s.queue f n (pos i) w.holds
          (omega (arith, w.room, w.total, more, most, small)))
        λ q (f', holds, view, step). (
          pending ++ (i ∷ []),
          f',
          n + 1,
          record {
            fits = w.fits;
            holds = holds;
            view = view ∙ ap (λ xs. xs ++ (pos i ∷ [])) w.view ∙ sym (naturals-snoc pending i);
            total = omega (arith, w.total, more);
            room = omega (arith, step, w.room);
            once = λ v. elim (Bool-cases (i == v)) [
              | inl e ↦
                  let same : i ≡ v = ground arith in
                  let none : occurrences v out + occurrences v pending ≡ 0 =
                    w.once v ∙ ap bit (rw same at new) in
                  rw (occurrences-snoc v i pending, e) (omega (arith, none))
              | inr e ↦ rw (occurrences-snoc v i pending, e) (omega (arith, w.once v))
            ];
            bounded = λ v marked. ground (arith, w.bounded v);
            reached = λ v marked. elim (Bool-cases (i == v)) [
              | inl e ↦ let same : i ≡ v = ground arith in rw same at reach
              | inr e ↦ w.reached v (rw e at marked)
            ];
            started = ground (arith, w.started);
          },
        )

  -- The body of the inner loop marks node `i` if there is an edge to it, and unmarks none.
  visit_step-Searching :
      (out : List ℕ) (taken c i : ℕ) (s : Search)
      → c < graph.size
      → (graph.at c).size ≡ max_nodes
      → i ≤ last
      → Reach graph last start c
      → Searching graph last start out taken s
      → Returns
          (λ s'.
            Searching graph last start out taken s'
            × Keeps s s'
            × (edge graph c i ≡ true → s'.visited.at i ≡ true))
          (visit_step graph (pos c) i s)
  unfolding visit_step
  visit_step-Searching out taken c i s row cells le reach w =
      let fits = w.3.fits in
      rw (read-ok graph c row, read-ok (graph.at c) i (omega arith))
        (elim (Bool-cases (edge graph c i)) [
          | inl e ↦
              rw (e, read-ok s.visited i (omega arith))
                (elim (Bool-cases (s.visited.at i)) [
                  | inl seen ↦ rw seen (returns (w, λ b h. h, λ h. seen))
                  | inr new ↦
                      rw (new, write-ok s.visited i true (omega arith))
                        (Returns-bind (add out taken s i le new (over c i reach le e) w)
                          λ q w'. returns (w', λ b h. ground arith, λ h. ground arith))
                ])
          | inr e ↦ rw e (returns (w, λ b h. h, λ h. absurd (cc)))
        ])

  -- The inner loop marks all neighbours.
  pub visit-Searching :
      (out : List ℕ) (taken c : ℕ) (s : Search)
      → c < graph.size
      → (graph.at c).size ≡ max_nodes
      → Reach graph last start c
      → Searching graph last start out taken s
      → Returns
          (λ s'.
            Searching graph last start out taken s' × Keeps s s' × Looked graph c (suc last) s')
          (for_range 0 (suc last) (visit_step graph (pos c)) s)
  visit-Searching out taken c s row cells reach w =
      for_range_inv
        (λ i s'. Searching graph last start out taken s' × Keeps s s' × Looked graph c i s')
        (visit_step graph (pos c)) (suc last)
        (λ i s' lt (w', keeps, looked).
          Returns-mono (visit_step-Searching out taken c i s' row cells (omega arith) reach w')
            λ s'' (w'', keeps', new). (
              w'',
              λ b h. keeps' b (keeps b h),
              λ b lt' h. elim (Bool-cases (i == b)) [
                | inl e ↦ let same : i ≡ b = ground arith in rw same at new h
                | inr e ↦ keeps' b (looked b (ground arith) h)
              ],
            ))
        0 s (omega arith) (w, λ b h. h, λ b lt. absurd (omega arith))
