-- ===== src/Tree/Balanced/Delete.antt =====
-- `DeleteNode`.
use core_technologies.Base.{arith, false, fault, ltb_ℤ, refl, ℕ, ℤ, ◌+◌, ◌<◌, ◌≡◌, ◌≢◌}
use core_technologies.Tree.Balanced.Defs.{
  Avl, delete_here, delete_node, find_min, height, leaf, left_rotate, node, rebalance_deleted,
  val_of,
}

-- `FindMin` goes to the right child where it should go to the left one. So `DeleteNode` of a
-- value whose node has two children, the right one with a left child and no right child,
-- dereferences the null pointer that `FindMin` returns, whatever the rest of the tree is.
pub delete_node-fault :
    (l : Avl) (v : ℤ) (h : ℕ) (a : Avl) (u : ℤ) (k : ℕ)
    → l ≢ leaf
    → a ≢ leaf
    → delete_node (node l v h (node a u k leaf)) v ≡ fault
unfolding delete_node delete_here find_min val_of
delete_node-fault leaf v h a u k hl ha = absurd (hl refl)
delete_node-fault (node ll lv lh lr) v h leaf u k hl ha = absurd (ha refl)
delete_node-fault (node ll lv lh lr) v h (node al av ah ar) u k hl ha =
    let t : ltb_ℤ v v ≡ false = ground arith in rw t

-- Where the right subtree is too high because of its own left side, `DeleteNode` rotates that
-- subtree to the left where a rotation to the right is meant, as in `InsertNode`. So it
-- dereferences a null pointer if the subtree has no right child.
pub rebalance_deleted-fault :
    (l : Avl) (v : ℤ) (h : ℕ) (a : Avl) (u : ℤ) (k : ℕ)
    → height l + 1 < k
    → 0 < height a
    → rebalance_deleted (node l v h (node a u k leaf)) ≡ fault
unfolding rebalance_deleted left_rotate
rebalance_deleted-fault l v h a u k high lean = ground arith
