-- ===== src/Tree/Balanced/Branches.antt =====
-- What `InsertNode` returns after the recursion, branch by branch.
use core_technologies.Base.{arith, false, ltb_ℤ, negsuc, ok, pos, sub_ℕ, ℕ, ℤ, ◌+◌, ◌<◌, ◌≡◌, ◌≤◌}
use core_technologies.Tree.Balanced.Defs.{
  Avl, height, joined, left_rotate, node, rebalance, right_rotate,
}

not_left : (m n : ℕ) → m ≤ n + 1 → ltb_ℤ (pos 1) (sub_ℕ m n) ≡ false
not_left m n h = ground arith

not_right : (m n : ℕ) → n ≤ m + 1 → ltb_ℤ (sub_ℕ m n) (negsuc 0) ≡ false
not_right m n h = ground arith

pub rebalance_level :
    (l : Avl) (v : ℤ) (h : ℕ) (r : Avl)
    → height l ≤ height r + 1
    → height r ≤ height l + 1
    → rebalance l v h r ≡ ok (node l v h r)
unfolding rebalance
rebalance_level l v h r lo hi =
    rw (not_left (height l) (height r) lo, not_right (height l) (height r) hi)

module _ (a : Avl) (u : ℤ) (k : ℕ) (b : Avl) (v : ℤ) (h : ℕ) (c : Avl) where
  pub rebalance_left_left :
      height c + 1 < k
      → height b < height a
      → rebalance (node a u k b) v h c ≡ ok (joined a u (joined b v c))
  unfolding rebalance right_rotate
  rebalance_left_left high lean = ground arith

  pub rebalance_right_right :
      height a + 1 < h
      → height b < height c
      → rebalance a u k (node b v h c) ≡ ok (joined (joined a u b) v c)
  unfolding rebalance left_rotate
  rebalance_right_right high lean = ground arith

module _ (a : Avl) (u : ℤ) (k : ℕ) (b : Avl) (w : ℤ) (m : ℕ) (c : Avl) (v : ℤ) (h : ℕ)
    (d : Avl) where
  pub rebalance_left_right :
      height d + 1 < k
      → height a < m
      → rebalance (node a u k (node b w m c)) v h d ≡ ok (joined (joined a u b) w (joined c v d))
  unfolding rebalance right_rotate left_rotate
  rebalance_left_right high lean = ground arith

  pub rebalance_right_left :
      height a + 1 < h
      → height d < m
      → rebalance a u k (node (node b w m c) v h d) ≡ ok (joined (joined a u b) w (joined c v d))
  unfolding rebalance right_rotate left_rotate
  rebalance_right_left high lean = ground arith
