-- ===== src/Tree/Balanced/Order.antt =====
-- The search order, the heights, the balance, and membership.
use core_technologies.Base.{Bool, arith, eqb_ℤ, false, refl, ℕ, ℤ, ◌+◌, ◌<ℤ◌, ◌||◌, ◌≡◌, ◌≤ℤ◌, ◌≤◌}
use core_technologies.Tree.Balanced.Defs.{Avl, height, joined, leaf, max_of, node}
use Prim.Native.Nat.{max}

abbrev pub AllBelow : ℤ → Avl → Type 0
AllBelow b leaf = Unit
AllBelow b (node l v h r) = (v <ℤ b) × AllBelow b l × AllBelow b r

abbrev pub AllAbove : ℤ → Avl → Type 0
AllAbove b leaf = Unit
AllAbove b (node l v h r) = (b <ℤ v) × AllAbove b l × AllAbove b r

-- a search tree whose heights are right and differ by one at most between siblings
abbrev pub IsAvl : Avl → Type 0
IsAvl leaf = Unit
IsAvl (node l v h r) =
    IsAvl l
    × IsAvl r
    × AllBelow v l
    × AllAbove v r
    × (h ≡ max_of (height l) (height r) + 1)
    × (height l ≤ height r + 1)
    × (height r ≤ height l + 1)

abbrev pub has : ℤ → Avl → Bool
has x leaf = false
has x (node l v h r) = eqb_ℤ x v || (has x l || has x r)

pub AllBelow-mono : (b c : ℤ) (t : Avl) → AllBelow b t → b ≤ℤ c → AllBelow c t
AllBelow-mono b c leaf h le = tt
AllBelow-mono b c (node l v k r) (h, hl, hr) le =
    (omega arith, AllBelow-mono b c l hl le, AllBelow-mono b c r hr le)

pub AllAbove-mono : (b c : ℤ) (t : Avl) → AllAbove b t → c ≤ℤ b → AllAbove c t
AllAbove-mono b c leaf h le = tt
AllAbove-mono b c (node l v k r) (h, hl, hr) le =
    (omega arith, AllAbove-mono b c l hl le, AllAbove-mono b c r hr le)

pub AllBelow-has : (b x : ℤ) (t : Avl) → AllBelow b t → b ≤ℤ x → has x t ≡ false
AllBelow-has b x leaf h le = refl
AllBelow-has b x (node l v k r) h le = ground (arith, AllBelow-has b x l, AllBelow-has b x r)

pub AllAbove-has : (b x : ℤ) (t : Avl) → AllAbove b t → x ≤ℤ b → has x t ≡ false
AllAbove-has b x leaf h le = refl
AllAbove-has b x (node l v k r) h le = ground (arith, AllAbove-has b x l, AllAbove-has b x r)

pub max_of-max : (a b : ℕ) → max_of a b ≡ max a b
unfolding max_of
max_of-max a b = ground arith

-- joining two trees that fit
pub joined-IsAvl :
    (l : Avl) (v : ℤ) (r : Avl)
    → IsAvl l
    → IsAvl r
    → AllBelow v l
    → AllAbove v r
    → height l ≤ height r + 1
    → height r ≤ height l + 1
    → IsAvl (joined l v r)
joined-IsAvl l v r vl vr bl ar lo hi = (vl, vr, bl, ar, refl, lo, hi)
