-- ===== src/Tree/Balanced/Insert.antt =====
-- `InsertNode` keeps the tree an AVL tree and adds the value.
use core_technologies.Base.{
  Bool, Bool-cases, Returns, Returns-bind, Returns-of_eq, arith, dec_le, eq_of_parts, eqb_ℤ, inl,
  inr, ltb_ℤ, one, refl, returns, ℕ, ℤ, ◌+◌, ◌<ℤ◌, ◌<◌, ◌||◌, ◌≡◌,
}
use core_technologies.Tree.Balanced.Branches.{
  rebalance_left_left, rebalance_left_right, rebalance_level, rebalance_right_left,
  rebalance_right_right,
}
use core_technologies.Tree.Balanced.Content.{IsInserted}
use core_technologies.Tree.Balanced.Defs.{
  Avl, create_node, height, insert_node, leaf, max_of, node, rebalance,
}
use core_technologies.Tree.Balanced.Left.{double_left, level_left, single_left}
use core_technologies.Tree.Balanced.Order.{IsAvl, has, max_of-max}
use core_technologies.Tree.Balanced.Right.{double_right, level_right, single_right}

module _ (x : ℤ) (l : Avl) (v : ℤ) (h : ℕ) (r : Avl) (avl : IsAvl (node l v h r)) where
  -- an insertion on the left made that side two higher
  rotate_left :
      (l' : Avl)
      → x <ℤ v
      → IsInserted x l l'
      → height r + 1 < height l'
      → Returns (IsInserted x (node l v h r)) (rebalance l' v (1 + max_of (height l') (height r)) r)
  rotate_left leaf lt w high = absurd (omega arith)
  rotate_left (node a u k b) lt w high =
      elim (w.tilted (omega (arith, max_of-max, w.little, avl.5))) [
        | inl one ↦ absurd (omega arith)
        | inr (inr lean) ↦
            Returns-of_eq (rebalance_left_left a u k b v _ r high lean)
              (single_left x l v h r avl a u k b lt w high lean)
        | inr (inl lean) ↦ inner b w lean
      ]
    where
      inner :
          (b : Avl)
          → IsInserted x l (node a u k b)
          → height a < height b
          → Returns
              (IsInserted x (node l v h r))
              (rebalance (node a u k b) v (1 + max_of k (height r)) r)
      inner leaf w lean = absurd (omega arith)
      inner (node b w m c) i lean =
          Returns-of_eq (rebalance_left_right a u k b w m c v _ r high lean)
            (double_left x l v h r avl a u k b w m c lt i high lean)

  -- an insertion on the right made that side two higher
  rotate_right :
      (r' : Avl)
      → v <ℤ x
      → IsInserted x r r'
      → height l + 1 < height r'
      → Returns (IsInserted x (node l v h r)) (rebalance l v (1 + max_of (height l) (height r')) r')
  rotate_right leaf lt w high = absurd (omega arith)
  rotate_right (node a u k b) lt w high =
      elim (w.tilted (omega (arith, max_of-max, w.little, avl.6))) [
        | inl one ↦ absurd (omega arith)
        | inr (inl lean) ↦
            Returns-of_eq (rebalance_right_right l v _ a u k b high lean)
              (single_right x l v h r avl a u k b lt w high lean)
        | inr (inr lean) ↦ inner a w lean
      ]
    where
      inner :
          (a : Avl)
          → IsInserted x r (node a u k b)
          → height b < height a
          → Returns
              (IsInserted x (node l v h r))
              (rebalance l v (1 + max_of (height l) k) (node a u k b))
      inner leaf w lean = absurd (omega arith)
      inner (node b' w m c) i lean =
          Returns-of_eq (rebalance_right_left l v _ b' w m c u k b high lean)
            (double_right x l v h r avl b' w m c u k b lt i high lean)

  rebalance_left :
      (l' : Avl)
      → x <ℤ v
      → IsInserted x l l'
      → Returns (IsInserted x (node l v h r)) (rebalance l' v (1 + max_of (height l') (height r)) r)
  rebalance_left l' lt w = elim (dec_le (height l') (height r + 1)) [
    | yes fits ↦
        Returns-of_eq (rebalance_level l' v _ r fits (omega (arith, w.grows, avl.6)))
          (level_left x l v h r avl l' lt w fits)
    | no high ↦ rotate_left l' lt w (omega arith)
  ]

  rebalance_right :
      (r' : Avl)
      → v <ℤ x
      → IsInserted x r r'
      → Returns (IsInserted x (node l v h r)) (rebalance l v (1 + max_of (height l) (height r')) r')
  rebalance_right r' lt w = elim (dec_le (height r') (height l + 1)) [
    | yes fits ↦
        Returns-of_eq (rebalance_level l v _ r' (omega (arith, w.grows, avl.5)) fits)
          (level_right x l v h r avl r' lt w fits)
    | no high ↦ rotate_right r' lt w (omega arith)
  ]

or_again : (p q : Bool) → (p || q) ≡ (p || (p || q))
or_again p q = ground arith

-- `InsertNode` into an AVL tree dereferences no null pointer and returns an AVL tree that holds
-- the value and what the tree held, and is at most one higher; a value that is there is not
-- inserted again.
pub insert_node-IsInserted :
    (t : Avl) (x : ℤ) → IsAvl t → Returns (IsInserted x t) (insert_node t x)
unfolding insert_node create_node
insert_node-IsInserted leaf x avl = returns (record {
  avl = (tt, tt, tt, tt, omega (arith, max_of-max), omega arith, omega arith);
  adds = record { below = λ b p q. (p, tt, tt); above = λ b p q. (p, tt, tt); members = λ y. refl };
  grows = omega arith;
  little = omega arith;
  tilted = λ e. inl refl;
})
insert_node-IsInserted (node l v h r) x avl = elim (Bool-cases (ltb_ℤ x v)) [
  | inl lt ↦ rw lt (
      Returns-bind (insert_node-IsInserted l x avl.0)
        (λ l' w. rebalance_left x l v h r avl l' (ground arith) w))
  | inr ge ↦ elim (Bool-cases (ltb_ℤ v x)) [
    | inl gt ↦
        rw (ge, gt)
          (Returns-bind (insert_node-IsInserted r x avl.1)
            (λ r' w. rebalance_right x l v h r avl r' (ground arith) w))
    | inr le ↦
        rw (ge, le)
          (returns (record {
            avl = avl;
            adds = record {
              below = λ b p q. q;
              above = λ b p q. q;
              members = λ y.
                  let eq : x ≡ v = eq_of_parts x v (ground arith) in
                  rw eq (or_again (eqb_ℤ y v) (has y l || has y r));
            };
            grows = omega arith;
            little = omega arith;
            tilted = λ e. absurd (omega arith);
          }))
  ]
]
