-- ===== src/Tests/Tree/Search.antt =====
-- The search tree with three elements.
use core_technologies.Base.{Returns, arith, false, ok, pos, refl, true, ℤ, ◌≡◌}
use core_technologies.Tree.Search.Defs.{Tree, delete, find, inorder, insert, leaf, node}
use core_technologies.Tree.Search.Delete.{IsWithout, delete-IsWithout, delete-both, has_both}
use core_technologies.Tree.Search.Inorder.{inorder-insert, insert_ordered}
use core_technologies.Tree.Search.Order.{IsSearchTree, has}

abbrev three : Tree
three = node (node leaf (pos 1) leaf) (pos 4) (node leaf (pos 6) leaf)

three-IsSearchTree : IsSearchTree three
three-IsSearchTree =
    ((tt, tt, tt, tt), (omega arith, tt, tt), (omega arith, tt, tt), (tt, tt, tt, tt))

inorder-insert_example : inorder (insert (pos 5) three) ≡ insert_ordered (pos 5) (inorder three)
inorder-insert_example = inorder-insert (pos 5) three three-IsSearchTree

one_child : has_both (find three (pos 6)) ≡ false
unfolding find
one_child = refl

delete-IsWithout_example : Returns (IsWithout (pos 6) three) (delete three (pos 6))
delete-IsWithout_example = delete-IsWithout three (pos 6) three-IsSearchTree one_child

delete-both_test :
    (m : ℤ) × (delete three (pos 4) ≡ ok (node (node leaf (pos 1) leaf) m (node leaf (pos 6) leaf)))
    × (has m (node leaf (pos 6) leaf) ≡ true)
    × ¬ IsSearchTree (node (node leaf (pos 1) leaf) m (node leaf (pos 6) leaf))
delete-both_test = delete-both leaf (pos 1) leaf (pos 4) leaf (pos 6) leaf three-IsSearchTree
