-- ===== src/DynamicArray/Delete.antt =====
-- The deletions against the list of the elements. They read the cell behind the last element, so
use core_technologies.Base.{
  Bool, Bool-cases, List, Returns, Returns-bind, Returns-mono, Returns-value, [], ap, arith, cells,
  cells-last, cells_eq, cells_shift, decr, eqb_ℤ, false, fault, for_range, for_range-last,
  if◌then◌else◌, inl, inr, ltb_ℤ, ok, pos, pos_part, read-ok, refl, returns, shift-IsShifted,
  shift_step, shift_step_end, suc, sym, true, zero, ℕ, ℤ, ◌++◌, ◌+◌, ◌-◌, ◌<◌, ◌>>=◌, ◌∙◌, ◌∷◌, ◌≡◌,
  ◌≤◌,
}
use core_technologies.DynamicArray.{Da, delete_center, delete_front, delete_loop, delete_step}
use core_technologies.DynamicArray.Laws.{Holds, view}
use mathlib.Core.List.{append_assoc, append-nil}
-- the array must not be full.
use mathlib.Core.List.{append_assoc, append-nil}

-- `DeleteFrontDA` takes the first element away.
pub delete_front-view :
    (arr : Da) (n : ℕ)
    → Holds (suc n) arr
    → suc n < arr.capacity
    → Returns (λ d. Holds n d × (view arr (suc n) ≡ arr.da.at 0 ∷ view d n)) (delete_front arr)
unfolding delete_front cells
delete_front-view arr n v room =
    let fits = v.fits in
    rw v.length (
      Returns-bind (shift-IsShifted arr.da 0 (suc n) (omega arith) (omega arith)) λ a s. returns (
        record {
          fits = s.same_size ∙ v.fits;
          used = omega arith;
          length = refl;
          positive = v.positive;
        },
        ap (◌∷◌ (arr.da.at 0))
            (sym (cells_shift a.at arr.da.at 0 n (λ k p r. s.moved k p (omega arith)))),
      ))

-- `DeleteFrontDA` of a full array reads the cell behind the end.
pub delete_front_full : (arr : Da) → Holds arr.capacity arr → delete_front arr ≡ fault
unfolding delete_front
delete_front_full arr v =
    let fits = v.fits in
    let positive = v.positive in
    let e : arr.capacity ≡ (arr.capacity - 1) + 1 = omega arith in
    let (a, run, s) =
      Returns-value (shift-IsShifted arr.da 0 (arr.capacity - 1) (omega arith) (omega arith)) in
    let size = s.same_size in
    let rounds : for_range 0 arr.capacity shift_step arr.da ≡ fault = rw e (
      for_range-last 0 (arr.capacity - 1) shift_step arr.da (omega arith)
      ∙ rw run (shift_step_end (arr.capacity - 1) a (omega arith))) in
    rw (v.length, rounds)

-- what the loop of `DeleteCenterDA` leaves: after an element that is taken away, the next one stays
-- unread
unfoldable pub skim : ℤ → (unread : Bool) → List ℤ → List ℤ
skim num unread [] = []
skim num true (x ∷ xs) = x ∷ skim num false xs
skim num false (x ∷ xs) = if eqb_ℤ x num then skim num true xs else x ∷ skim num false xs

-- the array without the cell `i`
record IsClosed (i r : ℕ) (arr d : Da) : Type 0 where
  holds : Holds (i + r) d
  same_capacity : d.capacity ≡ arr.capacity
  front : (k : ℕ) → k < i → d.da.at k ≡ arr.da.at k
  moved : (k : ℕ) → i ≤ k → k < suc (i + r) → d.da.at k ≡ arr.da.at (suc k)

close-IsClosed :
    (arr : Da) (i r : ℕ)
    → Holds (i + suc r) arr
    → i + suc r < arr.capacity
    → Returns (IsClosed i r arr) (
        for_range i (suc (i + r)) shift_step arr.da >>= λ da.
        ok (record arr { da = da; length = decr (pos (suc (i + r))) }))
close-IsClosed arr i r v room =
    let fits = v.fits in
    Returns-bind (shift-IsShifted arr.da i (suc (i + r)) (omega arith) (omega arith)) λ a s.
      returns (record {
        holds = record {
          fits = s.same_size ∙ v.fits;
          used = omega arith;
          length = refl;
          positive = v.positive;
        };
        same_capacity = refl;
        front = s.front;
        moved = s.moved;
      })

delete_loop_end :
    (rounds i : ℕ) (num : ℤ) (arr : Da) (n : ℕ)
    → arr.length ≡ pos n
    → n ≤ i
    → delete_loop rounds i num arr ≡ ok arr
unfolding delete_loop
delete_loop_end zero i num arr n e le = refl
delete_loop_end (suc rounds) i num arr n e le =
    let b : ltb_ℤ (pos i) (pos n) ≡ false = ground arith in rw (e, b) refl

-- the array holds these elements
abbrev pub Lists : List ℤ → Da → Type 0
Lists xs d = (m : ℕ) × Holds m d × (view d m ≡ xs)

next_cell : (f : ℕ → ℤ) (i : ℕ) (xs : List ℤ) → cells f 0 (suc i) ++ xs ≡ cells f 0 i ++ (f i ∷ xs)
next_cell f i xs =
    let e : 0 + i ≡ i = omega arith in
    rw (cells-last f 0 i, e) (append_assoc (cells f 0 i) (f i ∷ []) xs)

-- what follows a removal
after_hit :
    (rounds i r : ℕ) (num : ℤ) (arr d : Da)
    → IsClosed i r arr d
    → ((r' : ℕ)
        → r ≡ suc r'
        → Returns
            (Lists (cells d.da.at 0 (suc i) ++ skim num false (cells d.da.at (suc i) r')))
            (delete_loop rounds (suc i) num d))
    → Returns
        (Lists (cells arr.da.at 0 i ++ skim num true (cells arr.da.at (suc i) r)))
        (delete_loop rounds (suc i) num d)
unfolding skim cells
after_hit rounds i zero num arr d c next =
    let e : i + 0 ≡ i = omega arith in
    let w = rw e at c.holds in
    rw (delete_loop_end rounds (suc i) num d i w.length (omega arith)) (
      returns (
        i,
        w,
        cells_eq d.da.at arr.da.at 0 i (λ k p q. c.front k (omega arith))
            ∙ sym (append-nil (cells arr.da.at 0 i)),
      ))
after_hit rounds i (suc r) num arr d c next =
    let before = cells_eq d.da.at arr.da.at 0 i (λ k p q. c.front k (omega arith)) in
    let here = c.moved i (omega arith) (omega arith) in
    let after =
      cells_shift d.da.at arr.da.at (suc i) r (λ k p q. c.moved k (omega arith) (omega arith)) in
    Returns-mono (next r refl)
      λ d' (m, w, e). (m, w, e ∙ next_cell d.da.at i _ ∙ rw (before, here, after) refl)

delete_loop-skim :
    (rounds i r : ℕ) (num : ℤ) (arr : Da)
    → r ≤ rounds
    → Holds (i + r) arr
    → i + r < arr.capacity
    → Returns
        (Lists (cells arr.da.at 0 i ++ skim num false (cells arr.da.at i r)))
        (delete_loop rounds i num arr)
unfolding delete_loop delete_step skim cells
delete_loop-skim rounds i zero num arr le v room =
    let e : i + 0 ≡ i = omega arith in
    rw (delete_loop_end rounds i num arr (i + 0) v.length (omega arith))
      (returns (i, rw e at v, sym (append-nil (cells arr.da.at 0 i))))
delete_loop-skim zero i (suc r) num arr le v room = absurd (omega arith)
delete_loop-skim (suc rounds) i (suc r) num arr le v room =
    let e : i + suc r ≡ suc (i + r) = omega arith in
    let b : ltb_ℤ (pos i) (pos (suc (i + r))) ≡ true = ground arith in
    rw (v.length, e, b, read-ok arr.da i (omega (arith, v.fits)))
      (elim (Bool-cases (eqb_ℤ (arr.da.at i) num)) [
        | inl hit ↦ rw hit (
            Returns-bind (close-IsClosed arr i r v room) λ d c.
              after_hit rounds i r num arr d c λ r' more.
                let same : i + r ≡ suc i + r' = omega arith in
                delete_loop-skim rounds (suc i) r' num d (omega arith) (rw same at c.holds)
                  (omega (arith, c.same_capacity)))
        | inr miss ↦
            let same : suc (i + r) ≡ suc i + r = omega arith in
            rw miss (
              Returns-mono
                (delete_loop-skim rounds (suc i) r num (record arr { length = pos (suc (i + r)) })
                  (omega arith)
                  (record {
                    fits = v.fits;
                    used = omega (arith, v.used);
                    length = ap pos same;
                    positive = v.positive;
                  })
                  (omega arith))
                λ d (m, w, e'). (m, w, e' ∙ next_cell arr.da.at i _))
      ])

-- `DeleteCenterDA` on an array that is not full: an element that is `num` goes away, but the
-- element behind it stays without a test, even where it is `num` too.
pub delete_center-skim :
    (arr : Da) (n : ℕ) (num : ℤ)
    → Holds n arr
    → n < arr.capacity
    → Returns (Lists (skim num false (view arr n))) (delete_center arr num)
unfolding delete_center
delete_center-skim arr n num v room =
    let e : 0 + n ≡ n = omega arith in
    let e' : pos_part arr.length ≡ n = ap pos_part v.length in
    rw e' (unfold cells in delete_loop-skim n 0 n num arr (omega arith) (rw e v) (omega arith))
