-- ===== src/Tree/Balanced/Content.antt =====
-- What a tree holds, apart from its shape: rotations keep it, an insertion adds to it.
use core_technologies.Base.{Bool, arith, eqb_ℤ, sym, ℕ, ℤ, ◌+◌, ◌<ℤ◌, ◌<◌, ◌||◌, ◌∙◌, ◌≡◌, ◌≤◌, ◌⊎◌}
use core_technologies.Tree.Balanced.Defs.{Avl, height, joined, leaf, node}
use core_technologies.Tree.Balanced.Order.{AllAbove, AllBelow, IsAvl, has}

-- `t'` holds what `t` holds
pub record IsSame (t t' : Avl) : Type 0 where
  pub below : (b : ℤ) → AllBelow b t → AllBelow b t'
  pub above : (b : ℤ) → AllAbove b t → AllAbove b t'
  pub members : (y : ℤ) → has y t' ≡ has y t

-- `t'` holds what `t` holds, and `x`
pub record Adds (x : ℤ) (t t' : Avl) : Type 0 where
  pub below : (b : ℤ) → x <ℤ b → AllBelow b t → AllBelow b t'
  pub above : (b : ℤ) → b <ℤ x → AllAbove b t → AllAbove b t'
  pub members : (y : ℤ) → has y t' ≡ (eqb_ℤ y x || has y t)

pub Adds-same : {x : ℤ} {t t' t'' : Avl} → Adds x t t' → IsSame t' t'' → Adds x t t''
Adds-same w s = record {
  below = λ b p q. s.below b (w.below b p q);
  above = λ b p q. s.above b (w.above b p q);
  members = λ y. s.members y ∙ w.members y;
}

or_left : (p q l l' r : Bool) → l' ≡ (q || l) → (p || (l' || r)) ≡ (q || (p || (l || r)))
or_left p q l l' r e = ground arith

or_right : (p q l r r' : Bool) → r' ≡ (q || r) → (p || (l || r')) ≡ (q || (p || (l || r)))
or_right p q l r r' e = ground arith

or_rotate : (p a q b c : Bool) → (p || (a || (q || (b || c)))) ≡ (q || ((p || (a || b)) || c))
or_rotate p a q b c = ground arith

or_shuffle :
    (u w v a b c d : Bool)
    → (w || ((u || (a || b)) || (v || (c || d)))) ≡ (v || ((u || (a || (w || (b || c)))) || d))
or_shuffle u w v a b c d = ground arith

or_shuffle' :
    (u w v a b c d : Bool)
    → (w || ((u || (a || b)) || (v || (c || d)))) ≡ (u || (a || (v || ((w || (b || c)) || d))))
or_shuffle' u w v a b c d = ground arith

module _ (x : ℤ) (l : Avl) (v : ℤ) (h k : ℕ) (r : Avl) where
  pub Adds-left : (l' : Avl) → Adds x l l' → Adds x (node l v h r) (node l' v k r)
  Adds-left l' w = record {
    below = λ b p q. (q.0, w.below b p q.1, q.2);
    above = λ b p q. (q.0, w.above b p q.1, q.2);
    members = λ y. or_left (eqb_ℤ y v) (eqb_ℤ y x) (has y l) (has y l') (has y r) (w.members y);
  }

  pub Adds-right : (r' : Avl) → Adds x r r' → Adds x (node l v h r) (node l v k r')
  Adds-right r' w = record {
    below = λ b p q. (q.0, q.1, w.below b p q.2);
    above = λ b p q. (q.0, q.1, w.above b p q.2);
    members = λ y. or_right (eqb_ℤ y v) (eqb_ℤ y x) (has y l) (has y r) (has y r') (w.members y);
  }

module _ (a : Avl) (u : ℤ) (b : Avl) (v : ℤ) (c : Avl) (h k : ℕ) where
  pub IsSame-right_rotate : IsSame (node (node a u h b) v k c) (joined a u (joined b v c))
  IsSame-right_rotate = record {
    below = λ e q. (q.1.0, q.1.1, (q.0, q.1.2, q.2));
    above = λ e q. (q.1.0, q.1.1, (q.0, q.1.2, q.2));
    members = λ y. or_rotate (eqb_ℤ y u) (has y a) (eqb_ℤ y v) (has y b) (has y c);
  }

  pub IsSame-left_rotate : IsSame (node a u h (node b v k c)) (joined (joined a u b) v c)
  IsSame-left_rotate = record {
    below = λ e q. (q.2.0, (q.0, q.1, q.2.1), q.2.2);
    above = λ e q. (q.2.0, (q.0, q.1, q.2.1), q.2.2);
    members = λ y. sym (or_rotate (eqb_ℤ y u) (has y a) (eqb_ℤ y v) (has y b) (has y c));
  }

-- one child is higher than the other
abbrev pub IsTilted : Avl → Type 0
IsTilted leaf = ⊥
IsTilted (node l v h r) = (height l < height r) ⊎ (height r < height l)

-- `t'` is the AVL tree `t` with `x`, at most one higher
pub record IsInserted (x : ℤ) (t t' : Avl) : Type 0 where
  pub avl : IsAvl t'
  pub adds : Adds x t t'
  pub grows : height t ≤ height t'
  pub little : height t' ≤ height t + 1
  pub tilted : height t' ≡ height t + 1 → (height t' ≡ 1) ⊎ IsTilted t'

module _ (a : Avl) (u : ℤ) (b : Avl) (w : ℤ) (c : Avl) (v : ℤ) (d : Avl) (k m h : ℕ) where
  pub IsSame-double_right :
      IsSame (node (node a u k (node b w m c)) v h d) (joined (joined a u b) w (joined c v d))
  IsSame-double_right = record {
    below = λ e q. (q.1.2.0, (q.1.0, q.1.1, q.1.2.1), (q.0, q.1.2.2, q.2));
    above = λ e q. (q.1.2.0, (q.1.0, q.1.1, q.1.2.1), (q.0, q.1.2.2, q.2));
    members =
        λ y. or_shuffle (eqb_ℤ y u) (eqb_ℤ y w) (eqb_ℤ y v) (has y a) (has y b) (has y c) (has y d);
  }

  pub IsSame-double_left :
      IsSame (node a u k (node (node b w m c) v h d)) (joined (joined a u b) w (joined c v d))
  IsSame-double_left = record {
    below = λ e q. (q.2.1.0, (q.0, q.1, q.2.1.1), (q.2.0, q.2.1.2, q.2.2));
    above = λ e q. (q.2.1.0, (q.0, q.1, q.2.1.1), (q.2.0, q.2.1.2, q.2.2));
    members = λ y.
        or_shuffle' (eqb_ℤ y u) (eqb_ℤ y w) (eqb_ℤ y v) (has y a) (has y b) (has y c) (has y d);
  }
