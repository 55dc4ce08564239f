-- ===== src/Tree/Balanced/Left.antt =====
-- An insertion on the left, with the rotations that it may need.
use core_technologies.Base.{arith, inr, refl, ℕ, ℤ, ◌+◌, ◌<ℤ◌, ◌<◌, ◌≤◌}
use core_technologies.Tree.Balanced.Content.{
  Adds-same, Adds-left, IsInserted, IsSame-double_right, IsSame-right_rotate,
}
use core_technologies.Tree.Balanced.Defs.{Avl, height, joined, max_of, node}
use core_technologies.Tree.Balanced.Order.{IsAvl, max_of-max}
use core_technologies.Tree.Balanced.Rotate.{double-IsAvl, single_right-IsAvl}

module _ (x : ℤ) (l : Avl) (v : ℤ) (h : ℕ) (r : Avl) (avl : IsAvl (node l v h r)) where
  -- no rotation, on the left
  pub level_left :
      (l' : Avl)
      → x <ℤ v
      → IsInserted x l l'
      → height l' ≤ height r + 1
      → IsInserted x (node l v h r) (node l' v (1 + max_of (height l') (height r)) r)
  level_left l' lt w fits = record {
    avl = (
      w.avl,
      avl.1,
      w.adds.below v lt avl.2,
      avl.3,
      omega arith,
      fits,
      omega (arith, w.grows, avl.6),
    );
    adds = Adds-left x l v h _ r l' w.adds;
    grows = omega (arith, max_of-max, w.grows, avl.4);
    little = omega (arith, max_of-max, w.little, avl.4);
    tilted = λ e. inr (inr (omega (arith, max_of-max, w.little, avl.4, e)));
  }

  pub single_left :
      (a : Avl) (u : ℤ) (k : ℕ) (b : Avl)
      → x <ℤ v
      → IsInserted x l (node a u k b)
      → height r + 1 < k
      → height b < height a
      → IsInserted x (node l v h r) (joined a u (joined b v r))
  single_left a u k b lt w high lean =
      let (va, vb, ba, ab, eq, lo, hi) = w.avl in
      let (u<v, ba', bb) = w.adds.below v lt avl.2 in
      let (is, top) =
        single_right-IsAvl a u b v r u<v va vb avl.1 ba ab bb avl.3
          (omega (arith, max_of-max, w.little, avl.5))
          (omega (arith, max_of-max, w.little, avl.5)) in
      record {
        avl = is;
        adds =
            Adds-same (Adds-left x l v h h r (node a u k b) w.adds)
              (IsSame-right_rotate a u b v r k h);
        grows = omega (arith, max_of-max, w.little, avl.4, top);
        little = omega (arith, max_of-max, w.little, avl.4, top);
        tilted = λ e. absurd (omega (arith, max_of-max, w.little, avl.4, top));
      }

  pub double_left :
      (a : Avl) (u : ℤ) (k : ℕ) (b : Avl) (w : ℤ) (m : ℕ) (c : Avl)
      → x <ℤ v
      → IsInserted x l (node a u k (node b w m c))
      → height r + 1 < k
      → height a < m
      → IsInserted x (node l v h r) (joined (joined a u b) w (joined c v r))
  double_left a u k b w m c lt i high lean =
      let (va, (vb, vc, bb, ac, eqm, lom, him), ba, (u<w, ab, _), eq, lo, hi) = i.avl in
      let (_, _, (w<v, _, bc)) = i.adds.below v lt avl.2 in
      let (is, top) =
        double-IsAvl a u b w c v r (height r) (u<w, w<v) (va, vb, vc, avl.1)
          (ba, ab, bb, ac, bc, avl.3) (omega (arith, max_of-max, i.little, avl.5), refl)
          (omega (arith, max_of-max, i.little, avl.5)) (omega arith, omega arith) in
      record {
        avl = is;
        adds =
            Adds-same (Adds-left x l v h h r (node a u k (node b w m c)) i.adds)
              (IsSame-double_right a u b w c v r k m h);
        grows = omega (arith, max_of-max, i.little, avl.4, top);
        little = omega (arith, max_of-max, i.little, avl.4, top);
        tilted = λ e. absurd (omega (arith, max_of-max, i.little, avl.4, top));
      }
