-- ===== src/Tests/Tree/Balanced.antt =====
-- The balanced tree with two nodes, where a third one needs a double rotation.
use core_technologies.Base.{
  ℕ, Returns, arith, fault, if◌then◌else◌, ok, pos, refl, ℤ, ◌+◌, ◌≡◌, ◌≢◌, ◌≤◌,
}
use core_technologies.Tree.Balanced.Content.{IsInserted}
use core_technologies.Tree.Balanced.Defs.{
  Avl, delete_node, find, height, insert_node, leaf, max_of, node, val_of,
}
use core_technologies.Tree.Balanced.Delete.{delete_node-fault}
use core_technologies.Tree.Balanced.Find.{Under, find_steps_lem}
use core_technologies.Tree.Balanced.Insert.{insert_node-IsInserted}
use core_technologies.Tree.Balanced.Order.{IsAvl, has}

abbrev two : Avl
two = node leaf (pos 3) 2 (node leaf (pos 5) 1 leaf)

two-IsAvl : IsAvl two
unfolding max_of
two-IsAvl = (
  tt,
  (tt, tt, tt, tt, refl, omega arith, omega arith),
  tt,
  (omega arith, tt, tt),
  refl,
  omega arith,
  omega arith,
)

insert_node-IsInserted_example : Returns (IsInserted (pos 4) two) (insert_node two (pos 4))
insert_node-IsInserted_example = insert_node-IsInserted two (pos 4) two-IsAvl

find_steps_lem_example :
    (val_of (find two (pos 5) 0).0 ≡ (if has (pos 5) two then ok (pos 5) else fault))
    × ((d : ℕ) × Under two d (find two (pos 5) 0).0
        × ((find two (pos 5) 0).1 ≡ 0 + d)
        × (d ≤ height two))
find_steps_lem_example = find_steps_lem two (pos 5) 0 two-IsAvl

abbrev single : ℤ → Avl
single v = node leaf v 1 leaf

single_ne : {v : ℤ} → single v ≢ leaf
single_ne = λ e. cc

delete_node-fault_test :
    delete_node (node (single (pos 1)) (pos 2) 3 (node (single (pos 3)) (pos 4) 2 leaf)) (pos 2)
    ≡ fault
delete_node-fault_test =
    delete_node-fault (single (pos 1)) (pos 2) 3 (single (pos 3)) (pos 4) 2 single_ne single_ne
