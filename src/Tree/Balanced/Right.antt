-- ===== src/Tree/Balanced/Right.antt =====
-- An insertion on the right, with the rotations that it may need.
use core_technologies.Base.{arith, inl, inr, refl, ℕ, ℤ, ◌+◌, ◌<ℤ◌, ◌<◌, ◌≤◌}
use core_technologies.Tree.Balanced.Content.{
  Adds-same, Adds-right, IsInserted, IsSame-double_left, IsSame-left_rotate,
}
use core_technologies.Tree.Balanced.Defs.{Avl, height, joined, max_of, node}
use core_technologies.Tree.Balanced.Order.{IsAvl, max_of-max}
use core_technologies.Tree.Balanced.Rotate.{double-IsAvl, single_left-IsAvl}

module _ (x : ℤ) (l : Avl) (v : ℤ) (h : ℕ) (r : Avl) (avl : IsAvl (node l v h r)) where
  -- no rotation
  pub level_right :
      (r' : Avl)
      → v <ℤ x
      → IsInserted x r r'
      → height r' ≤ height l + 1
      → IsInserted x (node l v h r) (node l v (1 + max_of (height l) (height r')) r')
  level_right r' lt w fits = record {
    avl = (
      avl.0,
      w.avl,
      avl.2,
      w.adds.above v lt avl.3,
      omega arith,
      omega (arith, w.grows, avl.5),
      fits,
    );
    adds = Adds-right x l v h _ r r' w.adds;
    grows = omega (arith, max_of-max, w.grows, avl.4);
    little = omega (arith, max_of-max, w.little, avl.4);
    tilted = λ e. inr (inl (omega (arith, max_of-max, w.little, avl.4, e)));
  }

  pub single_right :
      (a : Avl) (u : ℤ) (k : ℕ) (b : Avl)
      → v <ℤ x
      → IsInserted x r (node a u k b)
      → height l + 1 < k
      → height a < height b
      → IsInserted x (node l v h r) (joined (joined l v a) u b)
  single_right a u k b lt w high lean =
      let (va, vb, ba, ab, eq, lo, hi) = w.avl in
      let (v<u, aa, ab') = w.adds.above v lt avl.3 in
      let (is, top) =
        single_left-IsAvl l v a u b v<u avl.0 va vb avl.2 aa ba ab
          (omega (arith, max_of-max, w.little, avl.6))
          (omega (arith, max_of-max, w.little, avl.6)) in
      record {
        avl = is;
        adds =
            Adds-same (Adds-right x l v h h r (node a u k b) w.adds)
              (IsSame-left_rotate l v a u b h k);
        grows = omega (arith, max_of-max, w.little, avl.4, top);
        little = omega (arith, max_of-max, w.little, avl.4, top);
        tilted = λ e. absurd (omega (arith, max_of-max, w.little, avl.4, top));
      }

  pub double_right :
      (b : Avl) (w : ℤ) (m : ℕ) (c : Avl) (u : ℤ) (k : ℕ) (d : Avl)
      → v <ℤ x
      → IsInserted x r (node (node b w m c) u k d)
      → height l + 1 < k
      → height d < m
      → IsInserted x (node l v h r) (joined (joined l v b) w (joined c u d))
  double_right b w m c u k d lt i high lean =
      let ((vb, vc, bb, ac, eqm, lom, him), vd, (w<u, _, bc), ad, eq, lo, hi) = i.avl in
      let (_, (v<w, ab, _), _) = i.adds.above v lt avl.3 in
      let (is, top) =
        double-IsAvl l v b w c u d (height l) (v<w, w<u) (avl.0, vb, vc, vd)
          (avl.2, ab, bb, ac, bc, ad) (refl, omega (arith, max_of-max, i.little, avl.6))
          (omega (arith, max_of-max, i.little, avl.6)) (omega arith, omega arith) in
      record {
        avl = is;
        adds =
            Adds-same (Adds-right x l v h h r (node (node b w m c) u k d) i.adds)
              (IsSame-double_left l v b w c u d h m k);
        grows = omega (arith, max_of-max, i.little, avl.4, top);
        little = omega (arith, max_of-max, i.little, avl.4, top);
        tilted = λ e. absurd (omega (arith, max_of-max, i.little, avl.4, top));
      }
