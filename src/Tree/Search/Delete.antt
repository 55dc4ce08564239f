-- ===== src/Tree/Search/Delete.antt =====
-- `Delete`: right where the node has at most one child, wrong where it has two.
use core_technologies.Base.{
  Bool, Bool-cases, Returns, Returns-bind, Run, arith, eq_of_parts, eqb_ℤ, false, inl, inr, ltb_ℤ,
  not, ok, one, refl, returns, true, ℤ, ◌&&◌, ◌<ℤ◌, ◌≡◌,
}
use core_technologies.Tree.Search.Defs.{Tree, delete, delete_here, find, leaf, node}
use core_technologies.Tree.Search.Find.{find_min_lem}
use core_technologies.Tree.Search.Order.{
  AllAbove, AllAbove-has, AllBelow, AllBelow-has, IsSearchTree, has,
}

-- `Delete` of an element that is not there changes nothing.
pub delete_missing : (t : Tree) (x : ℤ) → has x t ≡ false → delete t x ≡ ok t
unfolding delete
delete_missing leaf x h = refl
delete_missing (node l e r) x h = ground (arith, delete_missing l x, delete_missing r x)

-- whether the node that holds `x` has both children
abbrev pub has_both : Tree → Bool
has_both (node (node ll le lr) e (node rl re rr)) = true
has_both t = false

-- `t'` is the search tree `t` without `x`
pub record IsWithout (x : ℤ) (t t' : Tree) : Type 0 where
  pub search : IsSearchTree t'
  pub below : (b : ℤ) → AllBelow b t → AllBelow b t'
  pub above : (b : ℤ) → AllAbove b t → AllAbove b t'
  pub members : (y : ℤ) → has y t' ≡ (not (eqb_ℤ y x) && has y t)

module _ (l : Tree) (e : ℤ) (r : Tree) (x : ℤ) (s : IsSearchTree (node l e r)) where
  IsWithout-left : (l' : Tree) → x <ℤ e → IsWithout x l l' → IsWithout x (node l e r) (node l' e r)
  IsWithout-left l' lt w = record {
    search = (w.search, w.below e s.1, s.2, s.3);
    below = λ b h. (h.0, w.below b h.1, h.2);
    above = λ b h. (h.0, w.above b h.1, h.2);
    members = λ y. ground (arith, w.members y, AllAbove-has e y r s.2);
  }

  IsWithout-right : (r' : Tree) → e <ℤ x → IsWithout x r r' → IsWithout x (node l e r) (node l e r')
  IsWithout-right r' lt w = record {
    search = (s.0, s.1, w.above e s.2, w.search);
    below = λ b h. (h.0, h.1, w.below b h.2);
    above = λ b h. (h.0, h.1, w.above b h.2);
    members = λ y. ground (arith, w.members y, AllBelow-has e y l s.1);
  }

-- at a node with at most one child
IsWithout-here :
    (l : Tree) (e : ℤ) (r : Tree) (next : Run Tree)
    → IsSearchTree (node l e r)
    → has_both (node l e r) ≡ false
    → Returns (IsWithout e (node l e r)) (delete_here l e r next)
unfolding delete_here
IsWithout-here leaf e r next s one = returns (record {
  search = s.3;
  below = λ b h. h.2;
  above = λ b h. h.2;
  members = λ y. ground (arith, AllAbove-has e y r s.2);
})
IsWithout-here (node ll le lr) e leaf next s one = returns (record {
  search = s.0;
  below = λ b h. h.1;
  above = λ b h. h.1;
  members = λ y. ground (arith, AllBelow-has e y (node ll le lr) s.1);
})
IsWithout-here (node ll le lr) e (node rl re rr) next s one = cc

-- Where the node that holds the element has at most one child, or the element is not there,
-- `Delete` from a search tree returns a search tree with the other elements.
pub delete-IsWithout :
    (t : Tree) (x : ℤ)
    → IsSearchTree t
    → has_both (find t x) ≡ false
    → Returns (IsWithout x t) (delete t x)
unfolding delete find
delete-IsWithout leaf x s one =
    returns
      (record { search = tt; below = λ b h. tt; above = λ b h. tt; members = λ y. ground arith })
delete-IsWithout (node l e r) x s one = elim (Bool-cases (ltb_ℤ x e)) [
  | inl lt ↦ rw lt (
      Returns-bind (delete-IsWithout l x s.0 (rw lt at one))
        λ l' w. returns (IsWithout-left l e r x s l' (ground arith) w))
  | inr ge ↦ elim (Bool-cases (ltb_ℤ e x)) [
    | inl gt ↦
        rw (ge, gt)
          (Returns-bind (delete-IsWithout r x s.3 (rw (ge, gt) at one))
            λ r' w. returns (IsWithout-right l e r x s r' (ground arith) w))
    | inr le ↦
        let eq : x ≡ e = eq_of_parts x e (ground arith) in
        rw (ge, le, eq) (IsWithout-here l e r (delete r e) s (rw (ge, le) at one))
  ]
]

-- `Delete` of the element of a node with two children from a search tree puts the smallest
-- element of the right subtree in its place and leaves that subtree as it was. So this smallest
-- element then stands twice in the tree, which is no search tree any more.
pub delete-both :
    (ll : Tree) (le : ℤ) (lr : Tree) (e : ℤ) (rl : Tree) (re : ℤ) (rr : Tree)
    → IsSearchTree (node (node ll le lr) e (node rl re rr))
    → (m : ℤ) × (delete (node (node ll le lr) e (node rl re rr)) e
        ≡ ok (node (node ll le lr) m (node rl re rr)))
      × (has m (node rl re rr) ≡ true)
      × ¬ IsSearchTree (node (node ll le lr) m (node rl re rr))
unfolding delete delete_here
delete-both ll le lr e rl re rr (sl, below, above, sr) =
    let (m, got, has_m, _) = find_min_lem rl re rr sr in
    let same =
      delete_missing (node rl re rr) e (AllAbove-has e e (node rl re rr) above (omega arith)) in
    let t : ltb_ℤ e e ≡ false = ground arith in
    (m, rw (t, got, same), has_m, λ s. ground (arith, AllAbove-has m m (node rl re rr) s.2))
