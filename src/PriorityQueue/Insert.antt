-- ===== src/PriorityQueue/Insert.antt =====
-- `Insert` keeps the heap order.
use core_technologies.Base.{
  Arr, Bool-cases, Returns, Returns-bind, Returns-mono, ap, arith, count, count-update, false, inl,
  inr, ltb_ℤ, one, pos, put, read-ok, refl, returns, suc, update, write-ok, zero, ℕ, ℤ, ◌+◌, ◌/◌,
  ◌<ℤ◌, ◌<◌, ◌==◌, ◌∙◌, ◌≡◌, ◌≢◌, ◌≤ℤ◌, ◌≤◌,
}
use core_technologies.PriorityQueue.{Heap, insert, insert_from, insert_loop}

-- each of the cells 1 to `n` is not below its parent, cell 0 among the parents
abbrev pub IsOrdered : (ℕ → ℤ) → ℕ → Type 0
IsOrdered f n = (k : ℕ) → 1 ≤ k → k ≤ n → f (k / 2) ≤ℤ f k

pub record IsHeap (h : Heap) (n : ℕ) : Type 0 where
  pub size : h.size ≡ pos n
  pub ordered : IsOrdered h.arr.at n

-- the order around cell `i`, where `x` is on its way up
record IsHole (f : ℕ → ℤ) (n i : ℕ) (x : ℤ) : Type 0 where
  low : 1 ≤ i
  high : i ≤ n
  bottom : f 0 ≤ℤ x
  others : (k : ℕ) → 1 ≤ k → k ≤ n → k ≢ i → k / 2 ≢ i → f (k / 2) ≤ℤ f k
  under : (k : ℕ) → 1 ≤ k → k ≤ n → k / 2 ≡ i → (x ≤ℤ f k) × (f (i / 2) ≤ℤ f k)

-- the element finds its place
filled :
    (f : ℕ → ℤ) (n i : ℕ) (x : ℤ) → IsHole f n i x → f (i / 2) ≤ℤ x → IsOrdered (update f i x) n
filled f n i x w stop k p q = elim (Bool-cases (i == k)) [
  | inl e ↦
      let same : i ≡ k = ground arith in
      let up : (i == k / 2) ≡ false = ground arith in
      let e' : k / 2 ≡ i / 2 = omega arith in rw (e, up, e') stop
  | inr e ↦ elim (Bool-cases (i == k / 2)) [
    | inl e' ↦ let (above, _) = w.under k p q (ground arith) in rw (e, e') above
    | inr e' ↦ let old = w.others k p q (ground arith) (ground arith) in rw (e, e') old
  ]
]

-- the element goes up to a parent that is larger
IsHole-up :
    (f : ℕ → ℤ) (n i : ℕ) (x : ℤ)
    → IsHole f n i x
    → x <ℤ f (i / 2)
    → IsHole (update f i (f (i / 2))) n (i / 2) x
IsHole-up f n i x w less =
    let j = i / 2 in
    let low = w.low in
    let high = w.high in
    let bottom = w.bottom in
    let inner : j ≢ 0 = λ e. let first = rw e at less in omega arith in
    let below : f (j / 2) ≤ℤ f j =
      w.others j (omega arith) (omega arith) (omega arith) (omega arith) in
    let up : (i == j) ≡ false = ground arith in
    let up' : (i == j / 2) ≡ false = ground arith in
    record {
      low = omega arith;
      high = omega arith;
      bottom = let e : (i == 0) ≡ false = ground arith in rw e bottom;
      others = λ k p q k≢j up≢j.
          let differ : k ≢ i = λ e. up≢j (ap (λ m. m / 2) e) in
          let e : (i == k) ≡ false = ground arith in
          elim (Bool-cases (i == k / 2)) [
            | inl e' ↦ let (_, above) = w.under k p q (ground arith) in rw (e, e') above
            | inr e' ↦ let old = w.others k p q (ground arith) (ground arith) in rw (e, e') old
          ];
      under = λ k p q e. rw up' (elim (Bool-cases (i == k)) [
        | inl e' ↦ rw e' (omega arith, below)
        | inr e' ↦
            let old = w.others k p q (ground arith) (omega arith) in
            let old' : f j ≤ℤ f k = rw e at old in rw e' (omega arith, omega arith)
      ]);
    }

-- The loop puts the element on the way from `i` to cell 1, and moves what is on the way down.
insert_loop-IsOrdered :
    (fuel : ℕ) (a : Arr ℤ) (n i : ℕ) (x : ℤ)
    → i < fuel
    → n < a.size
    → IsHole a.at n i x
    → Returns
        (λ b.
          IsOrdered b.at n
          × (b.size ≡ a.size)
          × (b.at 0 ≡ a.at 0)
          × ((v : ℤ) → count v b.at (suc n) + one v (a.at i) ≡ count v a.at (suc n) + one v x))
        (insert_loop fuel a i x)
unfolding insert_loop
insert_loop-IsOrdered zero a n i x f room w = absurd (omega arith)
insert_loop-IsOrdered (suc fuel) a n i x f room w =
    let low = w.low in
    let high = w.high in
    rw (read-ok a (i / 2) (omega arith)) (elim (Bool-cases (ltb_ℤ x (a.at (i / 2)))) [
      | inl less ↦
          rw (less, write-ok a i (a.at (i / 2)) (omega arith))
            (Returns-mono
              (insert_loop-IsOrdered fuel (put a i (a.at (i / 2))) n (i / 2) x (omega arith) room
                (IsHole-up a.at n i x w (ground arith)))
              λ b (ordered, size, first, counts). (
                ordered,
                size,
                (let e : (i == 0) ≡ false = ground arith in first ∙ rw e refl),
                λ v.
                    let up : (i == i / 2) ≡ false = ground arith in
                    let now = counts v in
                    let now' = rw up at now in
                    omega (arith, now', count-update v a.at i (a.at (i / 2)) (suc n) (omega arith)),
              ))
      | inr stop ↦
          rw (stop, write-ok a i x (omega arith))
            (returns (
              filled a.at n i x w (ground arith),
              refl,
              (let e : (i == 0) ≡ false = ground arith in rw e refl),
              λ v. count-update v a.at i x (suc n) (omega arith),
            ))
    ])

-- an element behind the last one
IsHole-new : (f : ℕ → ℤ) (n : ℕ) (x : ℤ) → IsOrdered f n → f 0 ≤ℤ x → IsHole f (suc n) (suc n) x
IsHole-new f n x ordered bottom = record {
  low = omega arith;
  high = omega arith;
  bottom = bottom;
  others = λ k p q differ up. ordered k p (omega arith);
  under = λ k p q e. absurd (omega arith);
}

-- `Insert` into a heap with a free cell behind its `n` elements, where cell 0 is not above the
-- element: the result is a heap of one element more, which holds the old elements and the new one,
-- each as often as it should. A loop of `n + 2` rounds is enough.
pub insert-IsHeap :
    (fuel : ℕ) (h : Heap) (n : ℕ) (x : ℤ)
    → suc n < fuel
    → suc n < h.arr.size
    → h.arr.at 0 ≤ℤ x
    → IsHeap h n
    → Returns
        (λ h'.
          IsHeap h' (suc n)
          × (h'.arr.at 0 ≡ h.arr.at 0)
          × ((v : ℤ) → count v h'.arr.at (suc (suc n)) ≡ one v x + count v h.arr.at (suc n)))
        (insert fuel h x)
unfolding insert insert_from
insert-IsHeap fuel h n x f room bottom w = rw w.size (
    Returns-bind
      (insert_loop-IsOrdered fuel h.arr (suc n) (suc n) x f room
        (IsHole-new h.arr.at n x w.ordered bottom))
      λ b (ordered, size, first, counts). returns (
        record { size = refl; ordered = ordered },
        first,
        λ v.
            let all : count v h.arr.at (suc (suc n))
                ≡ one v (h.arr.at (suc n)) + count v h.arr.at (suc n) =
              unfold count in refl in
            omega (arith, counts v, all),
      ))
