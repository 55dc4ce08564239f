-- ===== src/PriorityQueue/Contents.antt =====
-- What the loop of `DeleteMin` does to the elements.
use core_technologies.Base.{
  refl, arith, count, count-update, false, inl, inr, one, update, suc, ℕ, ℤ, ◌+◌, ◌/◌, ◌<◌, ◌==◌,
  ◌≡◌, ◌≤ℤ◌, ◌≤◌, ◌⊎◌,
}

-- `g` has the elements of `f` with `last` in place of that of cell `i`; or `last` is not above the
-- element of a cell `c` further down, which is lost, and that of its parent stands twice
pub Sinks : (f : ℕ → ℤ) (m i : ℕ) (last : ℤ) (g : ℕ → ℤ) → Type 0
Sinks f m i last g =
    ((v : ℤ) → count v g (suc m) + one v (f i) ≡ count v f (suc m) + one v last)
    ⊎ ((c : ℕ) × (i ≤ c / 2)
        × (c ≤ m)
        × (last ≤ℤ f c)
        × ((v : ℤ)
            → count v g (suc m) + one v (f i) + one v (f c)
              ≡ count v f (suc m) + one v last + one v (f (c / 2))))

-- the write in a cell without children
pub Sinks-end : (f : ℕ → ℤ) (m i : ℕ) (last : ℤ) → i ≤ m → Sinks f m i last (update f i last)
unfolding Sinks
Sinks-end f m i last high = inl λ v. count-update v f i last (suc m) (omega arith)

-- the write in a child
pub Sinks-stop :
    (f : ℕ → ℤ) (m i c : ℕ) (last : ℤ)
    → c / 2 ≡ i
    → c ≤ m
    → last ≤ℤ f c
    → Sinks f m i last (update f c last)
unfolding Sinks
Sinks-stop f m i c last parent high le = inr (
  c,
  omega arith,
  high,
  le,
  λ v. rw parent (omega (arith, count-update v f c last (suc m) (omega arith))),
)

-- the element of a cell `c` below `i` moves up
pub Sinks-up :
    (f : ℕ → ℤ) (m i c : ℕ) (last : ℤ) (g : ℕ → ℤ)
    → i ≤ m
    → i < c
    → Sinks (update f i (f c)) m c last g
    → Sinks f m i last g
unfolding Sinks
Sinks-up f m i c last g high below (inl counts) =
    let same : (i == c) ≡ false = ground arith in
    inl λ v.
      let now = counts v in
      let now' = rw same at now in
      omega (arith, now', count-update v f i (f c) (suc m) (omega arith))
Sinks-up f m i c last g high below (inr (d, low, high', le, counts)) =
    let same : (i == c) ≡ false = ground arith in
    let same' : (i == d) ≡ false = ground arith in
    let same'' : (i == d / 2) ≡ false = ground arith in
    let le' = rw same' at le in
    inr (
      d,
      omega arith,
      high',
      le',
      λ v.
          let now = counts v in
          let now' = rw (same, same', same'') at now in
          omega (arith, now', count-update v f i (f c) (suc m) (omega arith)),
    )

-- `g` has the elements of the cells of `f` up to `suc m` without that of cell 1; or the one behind
-- them is not above that of a cell `c`, which is lost too, and that of its parent is there once more
abbrev pub IsTaken : (f : ℕ → ℤ) (m : ℕ) (g : ℕ → ℤ) → Type 0
IsTaken f m g =
    ((v : ℤ) → count v g (suc m) + one v (f 1) ≡ count v f (suc (suc m)))
    ⊎ ((c : ℕ) × (1 ≤ c / 2)
        × (c ≤ m)
        × (f (suc m) ≤ℤ f c)
        × ((v : ℤ)
            → count v g (suc m) + one v (f 1) + one v (f c)
              ≡ count v f (suc (suc m)) + one v (f (c / 2))))

pub IsTaken-of_Sinks : (f : ℕ → ℤ) (m : ℕ) (g : ℕ → ℤ) → Sinks f m 1 (f (suc m)) g → IsTaken f m g
unfolding Sinks
IsTaken-of_Sinks f m g (inl counts) = inl λ v.
    let all : count v f (suc (suc m)) ≡ one v (f (suc m)) + count v f (suc m) =
      unfold count in refl in
    omega (arith, counts v, all)
IsTaken-of_Sinks f m g (inr (c, low, high, le, counts)) = inr (
  c,
  low,
  high,
  le,
  λ v.
      let all : count v f (suc (suc m)) ≡ one v (f (suc m)) + count v f (suc m) =
        unfold count in refl in
      omega (arith, counts v, all),
)
