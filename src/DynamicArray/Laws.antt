-- ===== src/DynamicArray/Laws.antt =====
-- The insertions against the list of the elements.
use core_technologies.Base.{
  Bool-cases, List, Returns, Returns-bind, [], ap, arith, cells, cells-split, cells-update,
  cells_eq, cells_shift, false, incr, inl, inr, leb_ℤ, ltb, ok, pos, pos_part, raise,
  raise-IsRaised, refl, returns, suc, sym, true, update, write, write-ok, ℕ, ℤ, ◌++◌, ◌+◌, ◌-ℤ◌,
  ◌-◌, ◌<◌, ◌==◌, ◌>>=◌, ◌∙◌, ◌∷◌, ◌≡◌, ◌≤◌,
}
use core_technologies.DynamicArray.{
  Da, grow, insert_center, insert_front, insert_tail, make_room, realloc,
}

-- the array holds `n` elements
pub record Holds (n : ℕ) (arr : Da) : Type 0 where
  pub fits : arr.da.size ≡ arr.capacity
  pub used : n ≤ arr.capacity
  pub length : arr.length ≡ pos n
  pub positive : 0 < arr.capacity

abbrev pub view : Da → ℕ → List ℤ
view arr n = cells arr.da.at 0 n

-- room for one more element, and the same elements
record IsRoom (n : ℕ) (arr big : Da) : Type 0 where
  holds : Holds n big
  room : n < big.capacity
  same : (k : ℕ) → k < n → big.da.at k ≡ arr.da.at k

grow-IsRoom : (arr : Da) (n : ℕ) (rest : ℕ → ℤ) → Holds n arr → IsRoom n arr (grow arr rest)
unfolding grow realloc
grow-IsRoom arr n rest v = record {
  holds = record {
    fits = refl;
    used = omega (arith, v.used);
    length = v.length;
    positive = omega (arith, v.positive);
  };
  room = omega (arith, v.used, v.positive);
  same = λ k p. let b : ltb k arr.da.size ≡ true = ground (arith, v.used, v.fits) in rw b refl;
}

make_room-IsRoom :
    (arr : Da) (n : ℕ) (rest : ℕ → ℤ) → Holds n arr → IsRoom n arr (make_room arr rest)
unfolding make_room
make_room-IsRoom arr n rest v = elim (Bool-cases (leb_ℤ (pos arr.capacity) arr.length)) [
  | inl full ↦ rw full (grow-IsRoom arr n rest v)
  | inr free ↦
      let room : n < arr.capacity = ground (arith, v.length) in
      rw free (record { holds = v; room = room; same = λ k p. refl })
]

rounds : (n k : ℕ) → k ≤ n → pos_part (pos n -ℤ pos k) ≡ n - k
unfolding ◌-ℤ◌
rounds n k le = ground arith

inserted_cells :
    (f g : ℕ → ℤ) (x : ℤ) (k m : ℕ)
    → ((j : ℕ) → j < k → g j ≡ f j)
    → ((j : ℕ) → k ≤ j → j < k + m → g (suc j) ≡ f j)
    → cells (update g k x) 0 (k + m + 1) ≡ cells f 0 k ++ (x ∷ cells f k m)
inserted_cells f g x k m front moved =
    let e : k + m + 1 ≡ k + suc m = omega arith in
    let self : update g k x k ≡ x = ground arith in
    let before : cells (update g k x) 0 k ≡ cells f 0 k =
      cells_eq (update g k x) f 0 k
        (λ j p q. let b : (k == j) ≡ false = ground arith in rw b (front j (omega arith))) in
    let after : cells f k m ≡ cells (update g k x) (suc k) m =
      cells_shift f (update g k x) k m
        (λ j p q. let b : (k == suc j) ≡ false = ground arith in rw b (sym (moved j p q))) in
    let e' : 0 + k ≡ k = omega arith in
    rw (e, cells-split (update g k x) 0 k (suc m), e', before, after)
      (ap (λ xs. cells f 0 k ++ xs)
        (unfold cells in ap (λ y. y ∷ cells (update g k x) (suc k) m) self))

module _ (arr : Da) (n : ℕ) (rest : ℕ → ℤ) (x : ℤ) (v : Holds n arr) where
  -- `InsertTailDA` puts the new element behind the others; a full array grows first, and keeps its
  -- elements.
  pub insert_tail-view :
      Returns
        (λ d. Holds (n + 1) d × (view d (n + 1) ≡ view arr n ++ (x ∷ [])))
        (insert_tail arr x rest)
  unfolding insert_tail
  insert_tail-view =
      let big = make_room arr rest in
      let r = make_room-IsRoom arr n rest v in
      let w = r.holds in
      let e : suc n ≡ n + 1 = omega arith in
      rw (w.length, write-ok big.da n x (omega (arith, w.fits, r.room)))
        (returns (
          record {
            fits = w.fits;
            used = omega (arith, r.room);
            length = ap pos e;
            positive = w.positive;
          },
          cells-update big.da.at 0 n n x (omega arith)
              ∙ ap (λ xs. xs ++ (x ∷ []))
                  (cells_eq big.da.at arr.da.at 0 n (λ k p q. r.same k (omega arith))),
        ))

  -- what the two others do
  insert_at :
      (k m : ℕ)
      → k + m ≡ n
      → Returns
          (λ d.
            Holds (n + 1) d × (view d (n + 1) ≡ cells arr.da.at 0 k ++ (x ∷ cells arr.da.at k m)))
          (raise m (pos n) (make_room arr rest).da >>= λ da. write da k x >>= λ da.
            ok (record (make_room arr rest) { da = da; length = incr (pos n) }))
  insert_at k m whole =
      let big = make_room arr rest in
      let r = make_room-IsRoom arr n rest v in
      let w = r.holds in
      let one_more : suc (k + m) ≡ k + m + 1 = omega arith in
      rw (← whole) (
        Returns-bind (raise-IsRaised k m big.da (omega (arith, w.fits, r.room))) λ a s.
          rw (write-ok a k x (omega (arith, s.same_size, w.fits, r.room))) (
            returns (
              record {
                fits = s.same_size ∙ w.fits;
                used = omega (arith, r.room);
                length = ap pos one_more;
                positive = w.positive;
              },
              inserted_cells arr.da.at a.at x k m
                  (λ j p. s.front j (omega arith) ∙ r.same j (omega arith))
                  (λ j p q. s.moved j p q ∙ r.same j (omega arith)),
            )))

  -- `InsertFrontDA` puts the new element in front of the others.
  pub insert_front-view :
      Returns (λ d. Holds (n + 1) d × (view d (n + 1) ≡ x ∷ view arr n)) (insert_front arr x rest)
  unfolding insert_front cells
  insert_front-view =
      let w = (make_room-IsRoom arr n rest v).holds in rw w.length (insert_at 0 n (omega arith))

  -- `InsertCenterDA` at an index up to the length puts the new element there, between the elements
  -- that were in front of the index and those that were not; a full array grows first.
  pub insert_center-view :
      (k : ℕ)
      → k ≤ n
      → Returns
          (λ d.
            Holds (n + 1) d
            × (view d (n + 1) ≡ cells arr.da.at 0 k ++ (x ∷ cells arr.da.at k (n - k))))
          (insert_center arr (pos k) x rest)
  unfolding insert_center
  insert_center-view k le =
      let w = (make_room-IsRoom arr n rest v).holds in
      let e : pos_part (pos n -ℤ pos k) ≡ n - k = rounds n k le in
      rw (w.length, e) (insert_at k (n - k) (omega arith))
