-- ===== src/Tree/Search/Find.antt =====
-- `Find`, `FindMin` and `FindMax`.
use core_technologies.Base.{arith, eq_of_parts, fault, if◌then◌else◌, ok, refl, true, ℤ, ◌≡◌, ◌≤ℤ◌}
use core_technologies.Tree.Search.Defs.{Tree, element_of, find, find_max, find_min, leaf, node}
use core_technologies.Tree.Search.Order.{
  AllAbove, AllAbove-has, AllBelow, AllBelow-has, AtLeast, AtMost, IsSearchTree, has,
}

-- On a search tree `Find` gives a node that holds the element if there is one, and `NULL`, which
-- has no element to read, if not.
pub find_lem :
    (t : Tree) (x : ℤ) → IsSearchTree t → element_of (find t x) ≡ (if has x t then ok x else fault)
unfolding find element_of
find_lem leaf x h = refl
find_lem (node l e r) x h =
    ground
      (arith, find_lem l x, find_lem r x, AllBelow-has e x l, AllAbove-has e x r, eq_of_parts x e)

AllAbove-AtLeast : (b c : ℤ) (t : Tree) → AllAbove b t → c ≤ℤ b → AtLeast c t
AllAbove-AtLeast b c leaf h le = tt
AllAbove-AtLeast b c (node l e r) (h, hl, hr) le =
    (omega arith, AllAbove-AtLeast b c l hl le, AllAbove-AtLeast b c r hr le)

AllBelow-AtMost : (b c : ℤ) (t : Tree) → AllBelow b t → b ≤ℤ c → AtMost c t
AllBelow-AtMost b c leaf h le = tt
AllBelow-AtMost b c (node l e r) (h, hl, hr) le =
    (omega arith, AllBelow-AtMost b c l hl le, AllBelow-AtMost b c r hr le)

-- On a search tree that is not empty `FindMin` gives a node with its smallest element.
pub find_min_lem :
    (l : Tree) (e : ℤ) (r : Tree)
    → IsSearchTree (node l e r)
    → (m : ℤ) × (element_of (find_min (node l e r)) ≡ ok m)
      × (has m (node l e r) ≡ true)
      × AtLeast m (node l e r)
unfolding find_min element_of
find_min_lem leaf e r (_, _, above, _) =
    (e, refl, ground arith, (omega arith, tt, AllAbove-AtLeast e e r above (omega arith)))
find_min_lem (node ll le lr) e r (sl, below, above, sr) =
    let (m, got, has_m, least) = find_min_lem ll le lr sl in
    let low : m ≤ℤ e = omega (arith, least.0, below.0) in
    (m, got, ground arith, (low, least, AllAbove-AtLeast e m r above low))

-- On a search tree that is not empty `FindMax` gives a node with its largest element.
pub find_max_lem :
    (l : Tree) (e : ℤ) (r : Tree)
    → IsSearchTree (node l e r)
    → (m : ℤ) × (element_of (find_max (node l e r)) ≡ ok m)
      × (has m (node l e r) ≡ true)
      × AtMost m (node l e r)
unfolding find_max element_of
find_max_lem l e leaf (_, below, _, _) =
    (e, refl, ground arith, (omega arith, AllBelow-AtMost e e l below (omega arith), tt))
find_max_lem l e (node rl re rr) (sl, below, above, sr) =
    let (m, got, has_m, most) = find_max_lem rl re rr sr in
    let high : e ≤ℤ m = omega (arith, most.0, above.0) in
    (m, got, ground arith, (high, AllBelow-AtMost e m l below high, most))
