-- ===== src/Tree/Search/Insert.antt =====
-- `Insert` keeps the search order and adds the element.
use core_technologies.Base.{arith, eqb_ℤ, ℤ, ◌<ℤ◌, ◌||◌, ◌≡◌}
use core_technologies.Tree.Search.Defs.{Tree, insert, leaf, node}
use core_technologies.Tree.Search.Order.{AllAbove, AllBelow, IsSearchTree, has}

insert-AllBelow : (x b : ℤ) (t : Tree) → x <ℤ b → AllBelow b t → AllBelow b (insert x t)
unfolding insert
insert-AllBelow x b leaf lt h = (lt, tt, tt)
insert-AllBelow x b (node l e r) lt h = ground (arith, insert-AllBelow x b l, insert-AllBelow x b r)

insert-AllAbove : (x b : ℤ) (t : Tree) → b <ℤ x → AllAbove b t → AllAbove b (insert x t)
unfolding insert
insert-AllAbove x b leaf lt h = (lt, tt, tt)
insert-AllAbove x b (node l e r) lt h = ground (arith, insert-AllAbove x b l, insert-AllAbove x b r)

-- `Insert` into a search tree gives a search tree.
pub insert-IsSearchTree : (x : ℤ) (t : Tree) → IsSearchTree t → IsSearchTree (insert x t)
unfolding insert
insert-IsSearchTree x leaf h = (tt, tt, tt, tt)
insert-IsSearchTree x (node l e r) h = ground (
  arith,
  insert-IsSearchTree x l,
  insert-IsSearchTree x r,
  insert-AllBelow x e l,
  insert-AllAbove x e r,
)

-- What stands in the tree after `Insert` is the new element and what stood there.
pub insert-has : (x y : ℤ) (t : Tree) → has y (insert x t) ≡ (eqb_ℤ y x || has y t)
unfolding insert
insert-has x y leaf = ground arith
insert-has x y (node l e r) = ground (arith, insert-has x y l, insert-has x y r)
