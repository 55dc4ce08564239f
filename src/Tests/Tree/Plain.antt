-- ===== src/Tests/Tree/Plain.antt =====
-- BinaryTree.c on four nodes.
use core_technologies.Base.{[], arith, ok, pos, refl, ◌∷◌, ◌≡◌}
use core_technologies.Tree.Plain.{
  Btn, leaf, level_loop, level_order, node, pop, push, push_child, visit,
}
use core_technologies.Tree.Plain.Laws.{level_order-levels}
use core_technologies.Tree.Plain.Levels.{depth, levels}

abbrev tree : Btn
tree = node (pos 1) (node (pos 2) leaf (node (pos 4) leaf leaf)) (node (pos 3) leaf leaf)

level_order-levels_example : level_order 4 tree ≡ ok (levels 0 (depth tree) tree)
level_order-levels_example = level_order-levels 4 tree (omega arith)

four_elements : level_order 4 tree ≡ ok (pos 1 ∷ pos 2 ∷ pos 3 ∷ pos 4 ∷ [])
unfolding level_order level_loop push pop visit push_child
four_elements = refl
