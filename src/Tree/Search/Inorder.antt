-- ===== src/Tree/Search/Inorder.antt =====
-- `Inorder` prints a search tree in ascending order, and `Insert` acts on what it prints.
use core_technologies.Base.{
  List, [], arith, eq_of_parts, if◌then◌else◌, ltb_ℤ, refl, ℤ, ◌++◌, ◌<ℤ◌, ◌∷◌, ◌≡◌, ◌≤ℤ◌,
}
use core_technologies.Tree.Search.Defs.{Tree, inorder, insert, leaf, node}
use core_technologies.Tree.Search.Order.{AllAbove, AllBelow, IsSearchTree}

-- insertion into an ascending list without repetitions
unfoldable pub insert_ordered : ℤ → List ℤ → List ℤ
insert_ordered x [] = x ∷ []
insert_ordered x (y ∷ ys) =
    if ltb_ℤ x y then x ∷ y ∷ ys else if ltb_ℤ y x then y ∷ insert_ordered x ys else y ∷ ys

abbrev pub ListAbove : ℤ → List ℤ → Type 0
ListAbove b [] = Unit
ListAbove b (x ∷ xs) = (b <ℤ x) × ListAbove b xs

abbrev pub ListBelow : ℤ → List ℤ → Type 0
ListBelow b [] = Unit
ListBelow b (x ∷ xs) = (x <ℤ b) × ListBelow b xs

-- strictly ascending
abbrev pub Ascends : List ℤ → Type 0
Ascends [] = Unit
Ascends (x ∷ xs) = ListAbove x xs × Ascends xs

ListAbove-append :
    (b : ℤ) (xs ys : List ℤ) → ListAbove b xs → ListAbove b ys → ListAbove b (xs ++ ys)
ListAbove-append b [] ys hx hy = hy
ListAbove-append b (x ∷ xs) ys (h, hx) hy = (h, ListAbove-append b xs ys hx hy)

ListBelow-append :
    (b : ℤ) (xs ys : List ℤ) → ListBelow b xs → ListBelow b ys → ListBelow b (xs ++ ys)
ListBelow-append b [] ys hx hy = hy
ListBelow-append b (x ∷ xs) ys (h, hx) hy = (h, ListBelow-append b xs ys hx hy)

ListAbove-mono : (b c : ℤ) (xs : List ℤ) → c ≤ℤ b → ListAbove b xs → ListAbove c xs
ListAbove-mono b c [] le h = tt
ListAbove-mono b c (x ∷ xs) le (h, hx) = (omega arith, ListAbove-mono b c xs le hx)

Ascends-append :
    (xs : List ℤ) (e : ℤ) (ys : List ℤ)
    → ListBelow e xs
    → Ascends xs
    → ListAbove e ys
    → Ascends ys
    → Ascends (xs ++ (e ∷ ys))
Ascends-append [] e ys bx ax by ay = (by, ay)
Ascends-append (x ∷ xs) e ys (b, bx) (a, ax) by ay = (
  ListAbove-append x xs (e ∷ ys) a (b, ListAbove-mono e x ys (omega arith) by),
  Ascends-append xs e ys bx ax by ay,
)

inorder-ListAbove : (b : ℤ) (t : Tree) → AllAbove b t → ListAbove b (inorder t)
unfolding inorder
inorder-ListAbove b leaf h = tt
inorder-ListAbove b (node l e r) (h, hl, hr) =
    ListAbove-append b (inorder l) (e ∷ inorder r) (inorder-ListAbove b l hl)
      (h, inorder-ListAbove b r hr)

inorder-ListBelow : (b : ℤ) (t : Tree) → AllBelow b t → ListBelow b (inorder t)
unfolding inorder
inorder-ListBelow b leaf h = tt
inorder-ListBelow b (node l e r) (h, hl, hr) =
    ListBelow-append b (inorder l) (e ∷ inorder r) (inorder-ListBelow b l hl)
      (h, inorder-ListBelow b r hr)

-- `Inorder` of a search tree prints its elements in strictly ascending order.
pub inorder-Ascends : (t : Tree) → IsSearchTree t → Ascends (inorder t)
unfolding inorder
inorder-Ascends leaf h = tt
inorder-Ascends (node l e r) (sl, bl, ar, sr) =
    Ascends-append (inorder l) e (inorder r) (inorder-ListBelow e l bl) (inorder-Ascends l sl)
      (inorder-ListAbove e r ar) (inorder-Ascends r sr)

insert_ordered-low :
    (x e : ℤ) (xs ys : List ℤ)
    → x <ℤ e
    → insert_ordered x (xs ++ (e ∷ ys)) ≡ insert_ordered x xs ++ (e ∷ ys)
unfolding insert_ordered
insert_ordered-low x e [] ys lt = ground arith
insert_ordered-low x e (y ∷ xs) ys lt = ground (arith, insert_ordered-low x e xs ys)

insert_ordered-high :
    (x e : ℤ) (xs ys : List ℤ)
    → e <ℤ x
    → ListBelow e xs
    → insert_ordered x (xs ++ (e ∷ ys)) ≡ xs ++ (e ∷ insert_ordered x ys)
unfolding insert_ordered
insert_ordered-high x e [] ys lt h = ground arith
insert_ordered-high x e (y ∷ xs) ys lt (h, hx) = ground (arith, insert_ordered-high x e xs ys lt hx)

insert_ordered-same :
    (x e : ℤ) (xs ys : List ℤ)
    → x ≡ e
    → ListBelow e xs
    → insert_ordered x (xs ++ (e ∷ ys)) ≡ xs ++ (e ∷ ys)
unfolding insert_ordered
insert_ordered-same x e [] ys eq h = rw eq (ground arith)
insert_ordered-same x e (y ∷ xs) ys eq (h, hx) = ground (arith, insert_ordered-same x e xs ys eq hx)

-- `Insert` into a search tree is insertion into the ascending list that `Inorder` prints, and an
-- element that is there already is not inserted again.
pub inorder-insert :
    (x : ℤ) (t : Tree) → IsSearchTree t → inorder (insert x t) ≡ insert_ordered x (inorder t)
unfolding inorder insert
inorder-insert x leaf h = unfold insert_ordered in refl
inorder-insert x (node l e r) (sl, bl, ar, sr) =
    let below = inorder-ListBelow e l bl in
    ground (
      arith,
      inorder-insert x l sl,
      inorder-insert x r sr,
      insert_ordered-low x e (inorder l) (inorder r),
      insert_ordered-high x e (inorder l) (inorder r),
      insert_ordered-same x e (inorder l) (inorder r),
      eq_of_parts x e,
    )
