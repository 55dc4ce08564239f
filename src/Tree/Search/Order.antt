-- ===== src/Tree/Search/Order.antt =====
-- The search order, and membership.
use core_technologies.Base.{Bool, arith, eqb_ℤ, false, refl, ℤ, ◌<ℤ◌, ◌||◌, ◌≡◌, ◌≤ℤ◌}
use core_technologies.Tree.Search.Defs.{Tree, leaf, node}

-- every element is below `b`
abbrev pub AllBelow : ℤ → Tree → Type 0
AllBelow b leaf = Unit
AllBelow b (node l e r) = (e <ℤ b) × AllBelow b l × AllBelow b r

-- every element is above `b`
abbrev pub AllAbove : ℤ → Tree → Type 0
AllAbove b leaf = Unit
AllAbove b (node l e r) = (b <ℤ e) × AllAbove b l × AllAbove b r

-- no element is below, or above, `b`
abbrev pub AtLeast : ℤ → Tree → Type 0
AtLeast b leaf = Unit
AtLeast b (node l e r) = (b ≤ℤ e) × AtLeast b l × AtLeast b r

abbrev pub AtMost : ℤ → Tree → Type 0
AtMost b leaf = Unit
AtMost b (node l e r) = (e ≤ℤ b) × AtMost b l × AtMost b r

abbrev pub IsSearchTree : Tree → Type 0
IsSearchTree leaf = Unit
IsSearchTree (node l e r) = IsSearchTree l × AllBelow e l × AllAbove e r × IsSearchTree r

-- whether `x` stands anywhere in the tree
abbrev pub has : ℤ → Tree → Bool
has x leaf = false
has x (node l e r) = eqb_ℤ x e || (has x l || has x r)

pub AllBelow-has : (b x : ℤ) (t : Tree) → AllBelow b t → b ≤ℤ x → has x t ≡ false
AllBelow-has b x leaf h le = refl
AllBelow-has b x (node l e r) h le = ground (arith, AllBelow-has b x l, AllBelow-has b x r)

pub AllAbove-has : (b x : ℤ) (t : Tree) → AllAbove b t → x ≤ℤ b → has x t ≡ false
AllAbove-has b x leaf h le = refl
AllAbove-has b x (node l e r) h le = ground (arith, AllAbove-has b x l, AllAbove-has b x r)

pub AllBelow-mono : (b c : ℤ) (t : Tree) → AllBelow b t → b ≤ℤ c → AllBelow c t
AllBelow-mono b c leaf h le = tt
AllBelow-mono b c (node l e r) (h, hl, hr) le =
    (omega arith, AllBelow-mono b c l hl le, AllBelow-mono b c r hr le)

pub AllAbove-mono : (b c : ℤ) (t : Tree) → AllAbove b t → c ≤ℤ b → AllAbove c t
AllAbove-mono b c leaf h le = tt
AllAbove-mono b c (node l e r) (h, hl, hr) le =
    (omega arith, AllAbove-mono b c l hl le, AllAbove-mono b c r hr le)
