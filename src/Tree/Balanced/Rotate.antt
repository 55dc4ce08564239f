-- ===== src/Tree/Balanced/Rotate.antt =====
-- What the rotations of `InsertNode` make of a node that leans to one side by two.
use core_technologies.Base.{arith, ℕ, ℤ, ◌+◌, ◌<ℤ◌, ◌≡◌, ◌≤◌}
use core_technologies.Tree.Balanced.Defs.{Avl, height, joined, max_of}
use core_technologies.Tree.Balanced.Order.{
  AllAbove, AllAbove-mono, AllBelow, AllBelow-mono, IsAvl, joined-IsAvl, max_of-max,
}

-- the outer child of the higher side is the higher one: one rotation
module _ (a : Avl) (v : ℤ) (b : Avl) (w : ℤ) (c : Avl) (lt : v <ℤ w) where
  module _ (va : IsAvl a) (vb : IsAvl b) (vc : IsAvl c) (ba : AllBelow v a) (ab : AllAbove v b)
      (bb : AllBelow w b) (ac : AllAbove w c) where
    pub single_right-IsAvl :
        height a ≡ height c + 1
        → height b ≡ height c
        → IsAvl (joined a v (joined b w c)) × (height (joined a v (joined b w c)) ≡ height c + 2)
    single_right-IsAvl ha hb = (
      joined-IsAvl a v (joined b w c) va
          (joined-IsAvl b w c vb vc bb ac (omega arith) (omega arith)) ba
          (lt, ab, AllAbove-mono w v c ac (omega arith)) (omega (arith, max_of-max))
          (omega (arith, max_of-max)),
      omega (arith, max_of-max),
    )

    pub single_left-IsAvl :
        height c ≡ height a + 1
        → height b ≡ height a
        → IsAvl (joined (joined a v b) w c) × (height (joined (joined a v b) w c) ≡ height a + 2)
    single_left-IsAvl hc hb = (
      joined-IsAvl (joined a v b) w c (joined-IsAvl a v b va vb ba ab (omega arith) (omega arith))
          vc (lt, AllBelow-mono v w a ba (omega arith), bb) ac (omega (arith, max_of-max))
          (omega (arith, max_of-max)),
      omega (arith, max_of-max),
    )

-- the inner child of the higher side is the higher one: two rotations
pub double-IsAvl :
    (a : Avl) (u : ℤ) (b : Avl) (v : ℤ) (c : Avl) (w : ℤ) (d : Avl) (h : ℕ)
    → (u <ℤ v) × (v <ℤ w)
    → IsAvl a × IsAvl b × IsAvl c × IsAvl d
    → AllBelow u a × AllAbove u b × AllBelow v b × AllAbove v c × AllBelow w c × AllAbove w d
    → (height a ≡ h) × (height d ≡ h)
    → (max_of (height b) (height c) ≡ h)
    → (height b ≤ height c + 1) × (height c ≤ height b + 1)
    → IsAvl (joined (joined a u b) v (joined c w d))
      × (height (joined (joined a u b) v (joined c w d)) ≡ h + 2)
double-IsAvl a u b v c w d h lt (va, vb, vc, vd) (ba, ab, bb, ac, bc, ad) hs hm hd = (
  joined-IsAvl (joined a u b) v (joined c w d)
      (joined-IsAvl a u b va vb ba ab (omega (arith, max_of-max)) (omega (arith, max_of-max)))
      (joined-IsAvl c w d vc vd bc ad (omega (arith, max_of-max)) (omega (arith, max_of-max)))
      (lt.0, AllBelow-mono u v a ba (omega arith), bb)
      (lt.1, ac, AllAbove-mono w v d ad (omega arith)) (omega (arith, max_of-max))
      (omega (arith, max_of-max)),
  omega (arith, max_of-max),
)
