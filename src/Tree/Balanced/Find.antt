-- ===== src/Tree/Balanced/Find.antt =====
-- `Find`.
use core_technologies.Base.{
  Bool, Bool-cases, ap, arith, eq_of_parts, eqb_ℤ, false, fault, if◌then◌else◌, inl, inr, ltb_ℤ, ok,
  refl, suc, true, ℕ, ℤ, ◌+◌, ◌||◌, ◌≡◌, ◌≤ℤ◌, ◌≤◌,
}
use core_technologies.Tree.Balanced.Defs.{Avl, find, height, leaf, node, val_of}
use core_technologies.Tree.Balanced.Order.{AllAbove-has, AllBelow-has, IsAvl, has, max_of-max}

pick_left : (p q r : Bool) → p ≡ false → r ≡ false → (p || (q || r)) ≡ q
pick_left p q r e e' = ground arith

pick_right : (p q r : Bool) → p ≡ false → q ≡ false → (p || (q || r)) ≡ r
pick_right p q r e e' = ground arith

lt_ne : (x y : ℤ) → ltb_ℤ x y ≡ true → (eqb_ℤ x y ≡ false) × (x ≤ℤ y)
lt_ne x y h = ground arith

gt_ne : (x y : ℤ) → ltb_ℤ y x ≡ true → (eqb_ℤ x y ≡ false) × (y ≤ℤ x)
gt_ne x y h = ground arith

eq_of_not_lt : (x y : ℤ) → ltb_ℤ x y ≡ false → ltb_ℤ y x ≡ false → (y ≡ x) × (eqb_ℤ x y ≡ true)
eq_of_not_lt x y h k = (eq_of_parts y x (ground arith), ground arith)

-- `s` stands `d` links below the root of a tree
pub data Under : Avl → ℕ → Avl → Type 0 where
  here : {t : Avl} → Under t 0 t
  on_left :
      {l : Avl} {v : ℤ} {h : ℕ} {r : Avl} {d : ℕ} {s : Avl}
      → Under l d s
      → Under (node l v h r) (suc d) s
  on_right :
      {l : Avl} {v : ℤ} {h : ℕ} {r : Avl} {d : ℕ} {s : Avl}
      → Under r d s
      → Under (node l v h r) (suc d) s

-- `Find` on an AVL tree gives a node that holds the value if there is one, and `NULL`, which has
-- no value to read, if not; it adds to the count the number of links from the root down to what it
-- gives, which is at most the height of the tree.
pub find_steps_lem :
    (t : Avl) (x : ℤ) (n : ℕ)
    → IsAvl t
    → (val_of (find t x n).0 ≡ (if has x t then ok x else fault))
      × ((d : ℕ) × Under t d (find t x n).0 × ((find t x n).1 ≡ n + d) × (d ≤ height t))
unfolding find val_of
find_steps_lem leaf x n avl = (refl, (0, here, omega arith, omega arith))
find_steps_lem (node l v h r) x n avl = elim (Bool-cases (ltb_ℤ x v)) [
  | inl lt ↦
      let (ne, le) = lt_ne x v lt in
      let e = pick_left (eqb_ℤ x v) (has x l) (has x r) ne (AllAbove-has v x r avl.3 le) in
      let (found, (d, under, count, le')) = find_steps_lem l x (n + 1) avl.0 in
      rw (lt, e) (found, (suc d, on_left under, omega arith, omega (arith, max_of-max, avl.4)))
  | inr ge ↦ elim (Bool-cases (ltb_ℤ v x)) [
    | inl gt ↦
        let (ne, le) = gt_ne x v gt in
        let e = pick_right (eqb_ℤ x v) (has x l) (has x r) ne (AllBelow-has v x l avl.2 le) in
        let (found, (d, under, count, le')) = find_steps_lem r x (n + 1) avl.1 in
        rw (ge, gt, e)
          (found, (suc d, on_right under, omega arith, omega (arith, max_of-max, avl.4)))
    | inr le ↦
        let (same, eq) = eq_of_not_lt x v ge le in
        rw (ge, le, eq) (ap ok same, (0, here, omega arith, omega arith))
  ]
]
