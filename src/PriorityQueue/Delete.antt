-- ===== src/PriorityQueue/Delete.antt =====
-- `DeleteMin` of heaps with three elements and more.
use core_technologies.Base.{
  Arr, Bool-cases, Option, Returns, Returns-bind, Returns-mono, arith, eqb_ℤ, false, inl, inr,
  leb_ℤ, ltb_ℤ, none, pos, put, read-ok, refl, returns, some, suc, update, write-ok, zero, ℕ, ℤ,
  ◌*◌, ◌+◌, ◌/◌, ◌<ℤ◌, ◌<◌, ◌==◌, ◌≡◌, ◌≤ℤ◌, ◌≤◌, ◌⊎◌,
}
use core_technologies.PriorityQueue.{Heap, delete_loop, delete_min, put_last, smaller_child}
use core_technologies.PriorityQueue.Contents.{
  IsTaken, IsTaken-of_Sinks, Sinks, Sinks-end, Sinks-stop, Sinks-up,
}
use core_technologies.PriorityQueue.Insert.{IsHeap, IsOrdered}

-- `c` is a child of `i`, and no child of `i` is below it
IsSmaller : (f : ℕ → ℤ) (m i c : ℕ) → Type 0
IsSmaller f m i c = (c / 2 ≡ i) × (c ≤ m) × ((k : ℕ) → k / 2 ≡ i → k ≤ m → f c ≤ℤ f k)

below_children :
    (f : ℕ → ℤ) (i c : ℕ)
    → f c ≤ℤ f (i * 2)
    → f c ≤ℤ f (i * 2 + 1)
    → (k : ℕ) → k / 2 ≡ i
    → f c ≤ℤ f k
below_children f i c left right k e = elim (Bool-cases (k == i * 2)) [
  | inl first ↦ let here : k ≡ i * 2 = ground arith in rw here left
  | inr other ↦ let here : k ≡ i * 2 + 1 = ground arith in rw here right
]

smaller_child-IsSmaller :
    (a : Arr ℤ) (m i : ℕ)
    → m < a.size
    → i * 2 ≤ m
    → Returns (IsSmaller a.at m i) (smaller_child a (pos m) (i * 2))
unfolding smaller_child IsSmaller
smaller_child-IsSmaller a m i room le = elim (Bool-cases (eqb_ℤ (pos (i * 2)) (pos m))) [
  | inl last ↦ rw last (
      returns
        (omega arith, le, λ k e p. let only : k ≡ i * 2 = ground arith in rw only (omega arith)))
  | inr more ↦
      rw (more, read-ok a (i * 2 + 1) (ground arith), read-ok a (i * 2) (omega arith))
        (elim (Bool-cases (ltb_ℤ (a.at (i * 2 + 1)) (a.at (i * 2)))) [
          | inl less ↦ rw less (
              returns (
                omega arith,
                ground arith,
                λ k e p. below_children a.at i (i * 2 + 1) (ground arith) (omega arith) k e,
              ))
          | inr not_less ↦ rw not_less (
              returns (
                omega arith,
                le,
                λ k e p. below_children a.at i (i * 2) (omega arith) (ground arith) k e,
              ))
        ])
]

-- The order stands once a cell gets a value between its parent and its children.
update-IsOrdered :
    (f : ℕ → ℤ) (m c : ℕ) (x : ℤ)
    → IsOrdered f m
    → f (c / 2) ≤ℤ x
    → 1 ≤ c
    → ((k : ℕ) → k / 2 ≡ c → k ≤ m → x ≤ℤ f k)
    → IsOrdered (update f c x) m
update-IsOrdered f m c x w above low under k p q = elim (Bool-cases (c == k)) [
  | inl e ↦
      let same : c ≡ k = ground arith in
      let up : (c == k / 2) ≡ false = ground arith in
      let e' : k / 2 ≡ c / 2 = omega arith in rw (e, up, e') above
  | inr e ↦ elim (Bool-cases (c == k / 2)) [
    | inl e' ↦ let below = under k (ground arith) q in rw (e, e') below
    | inr e' ↦ let old = w k p q in rw (e, e') old
  ]
]

-- before a round of the loop, in a heap of `m` elements
record IsSinking (a : Arr ℤ) (m i : ℕ) (last : ℤ) : Type 0 where
  low : 1 ≤ i
  high : i ≤ m
  room : m < a.size
  ordered : IsOrdered a.at m
  above : a.at i ≤ℤ last

put-IsSinking :
    (a : Arr ℤ) (m i c : ℕ) (last : ℤ)
    → IsSinking a m i last
    → IsSmaller a.at m i c
    → a.at c <ℤ last
    → IsSinking (put a i (a.at c)) m c last
unfolding IsSmaller
put-IsSinking a m i c last w (parent, high, least) less =
    let low = w.low in
    let other : (i == c) ≡ false = ground arith in
    let parents = w.ordered i w.low w.high in
    let child = w.ordered c (omega arith) high in
    let child' : a.at i ≤ℤ a.at c = rw parent at child in
    record {
      low = omega arith;
      high = high;
      room = w.room;
      ordered = update-IsOrdered a.at m i (a.at c) w.ordered (omega arith) w.low least;
      above = rw other (omega arith);
    }

-- an ordered array of the old size, where `last` has sunk from cell `i` on
Places : (a : Arr ℤ) (m i : ℕ) (last : ℤ) → Arr ℤ → Type 0
Places a m i last b = IsOrdered b.at m × (b.size ≡ a.size) × Sinks a.at m i last b.at

-- the write behind the loop, in a child that is not below `last`, or in a cell without children
write-Places :
    (a : Arr ℤ) (m c : ℕ) (last : ℤ)
    → IsOrdered a.at m
    → m < a.size
    → 1 ≤ c
    → c ≤ m
    → a.at (c / 2) ≤ℤ last
    → ((k : ℕ) → k / 2 ≡ c → k ≤ m → last ≤ℤ a.at k)
    → (i : ℕ) → Sinks a.at m i last (update a.at c last)
    → Returns (Places a m i last) (put_last a last (some c))
unfolding put_last Places
write-Places a m c last w room low high above under i sinks =
    rw (write-ok a c last (omega arith))
      (returns (update-IsOrdered a.at m c last w above low under, refl, sinks))

stop-Places :
    (a : Arr ℤ) (m i c : ℕ) (last : ℤ)
    → IsSinking a m i last
    → IsSmaller a.at m i c
    → last ≤ℤ a.at c
    → Returns (Places a m i last) (put_last a last (some c))
unfolding IsSmaller
stop-Places a m i c last w (parent, high, least) le =
    let low = w.low in
    let above = w.above in
    write-Places a m c last w.ordered w.room (omega arith) high (rw parent above)
      (λ k e p.
        let child = w.ordered k (omega arith) p in
        let child' : a.at c ≤ℤ a.at k = rw e at child in omega arith)
      i (Sinks-stop a.at m i c last parent high le)

delete_loop-Places :
    (fuel : ℕ) (a : Arr ℤ) (m i : ℕ) (last : ℤ) (child : Option ℕ)
    → m < i + fuel
    → (i * 2 ≤ m) ⊎ (child ≡ some i)
    → IsSinking a m i last
    → Returns (Places a m i last) (delete_loop fuel a (pos m) last i child)
unfolding delete_loop IsSmaller Places
delete_loop-Places zero a m i last child f set w = absurd (omega (arith, w.high))
delete_loop-Places (suc fuel) a m i last child f set w =
    let low = w.low in
    let room = w.room in
    elim (Bool-cases (leb_ℤ (pos (i * 2)) (pos m))) [
      | inl inner ↦ rw inner (
          Returns-bind (smaller_child-IsSmaller a m i room (ground arith))
            λ c (parent, high, least).
              rw (read-ok a c (omega arith)) (elim (Bool-cases (ltb_ℤ (a.at c) last)) [
                | inl less ↦
                    rw (less, write-ok a i (a.at c) (omega (arith, w.high)))
                      (Returns-mono
                        (delete_loop-Places fuel (put a i (a.at c)) m c last (some c) (omega arith)
                          (inr refl)
                          (put-IsSinking a m i c last w (parent, high, least) (ground arith)))
                        λ b (ordered, size, sinks).
                          (ordered, size, Sinks-up a.at m i c last b.at w.high (omega arith) sinks))
                | inr stop ↦
                    rw stop (stop-Places a m i c last w (parent, high, least) (ground arith))
              ]))
      | inr outer ↦ rw outer (elim set [
        | inl inner ↦ absurd (ground arith)
        | inr here ↦ rw here (
            write-Places a m i last w.ordered room low w.high
              (let up = w.ordered i low w.high in let above = w.above in omega arith)
              (λ k e p. absurd (ground arith)) i (Sinks-end a.at m i last w.high))
      ])
    ]

-- cell 1 is not above the other elements
least-IsOrdered : (f : ℕ → ℤ) (n b k : ℕ) → IsOrdered f n → k ≤ b → 1 ≤ k → k ≤ n → f 1 ≤ℤ f k
least-IsOrdered f n zero k w p low q = absurd (omega arith)
least-IsOrdered f n (suc b) k w p low q = elim (Bool-cases (k == 1)) [
  | inl e ↦ let first : k ≡ 1 = ground arith in rw first (omega arith)
  | inr e ↦
      let step = w k low q in
      let up = least-IsOrdered f n b (k / 2) w (omega arith) (ground arith) (omega arith) in
      omega arith
]

-- `DeleteMin` of a heap of three elements and more, which are in its array, gives an element that no
-- element is below, and leaves an array of the same size that is ordered as a heap of one element
-- less. This has the elements that there were without the one given; or the element that was last is
-- not above that of a cell `c` behind the first, and the heap has lost the element of `c`, for which
-- that of its parent is there once more. As many rounds as there are elements are enough.
pub delete_min-IsHeap :
    (fuel : ℕ) (h : Heap) (m : ℕ)
    → m ≤ fuel
    → 2 ≤ m
    → suc m < h.arr.size
    → IsHeap h (suc m)
    → Returns
        (λ (min, h').
          (min ≡ h.arr.at 1)
          × ((k : ℕ) → 1 ≤ k → k ≤ suc m → min ≤ℤ h.arr.at k)
          × IsHeap h' m
          × (h'.arr.size ≡ h.arr.size)
          × IsTaken h.arr.at m h'.arr.at)
        (delete_min fuel h)
unfolding delete_min Places
delete_min-IsHeap fuel h m f some_ room w =
    let least = λ (k : ℕ). least-IsOrdered h.arr.at (suc m) k k w.ordered (omega arith) in
    let start : IsSinking h.arr m 1 (h.arr.at (suc m)) = record {
      low = omega arith;
      high = omega arith;
      room = omega arith;
      ordered = λ k p q. w.ordered k p (omega arith);
      above = least (suc m) (omega arith) (omega arith);
    } in
    rw (w.size, read-ok h.arr 1 (omega arith), read-ok h.arr (suc m) room)
      (Returns-bind
        (delete_loop-Places fuel h.arr m 1 (h.arr.at (suc m)) none (omega arith) (inl some_) start)
        λ arr (ordered, size, sinks). returns (
          refl,
          least,
          record { size = refl; ordered = ordered },
          size,
          IsTaken-of_Sinks h.arr.at m arr.at sinks,
        ))
