-- ===== src/Tree/Search/Defs.antt =====
-- The functions of BinarySearchTree.c.
use core_technologies.Base.{List, Run, [], fault, if◌then◌else◌, ltb_ℤ, ok, ℤ, ◌++◌, ◌>>=◌, ◌∷◌}

pub data Tree : Type 0 where
  leaf : Tree
  node : Tree → ℤ → Tree → Tree

-- `MakeEmpty`, with the elements of the nodes in the order in which they are freed
unfoldable pub make_empty : Tree → List ℤ × Tree
make_empty leaf = ([], leaf)
make_empty (node l e r) = ((make_empty l).0 ++ (make_empty r).0 ++ (e ∷ []), leaf)

unfoldable pub insert : ℤ → Tree → Tree
insert element leaf = node leaf element leaf
insert element (node l e r) =
    if ltb_ℤ e element
    then node l e (insert element r)
    else if ltb_ℤ element e
    then node (insert element l) e r
    else node l e r

unfoldable pub find : Tree → ℤ → Tree
find leaf element = leaf
find (node l e r) element =
    if ltb_ℤ element e
    then find l element
    else if ltb_ℤ e element
    then find r element
    else node l e r

unfoldable pub find_max : Tree → Tree
find_max leaf = leaf
find_max (node l e leaf) = node l e leaf
find_max (node l e (node rl re rr)) = find_max (node rl re rr)

unfoldable pub find_min : Tree → Tree
find_min leaf = leaf
find_min (node leaf e r) = node leaf e r
find_min (node (node ll le lr) e r) = find_min (node ll le lr)

-- `p->element`
unfoldable pub element_of : Tree → Run ℤ
element_of leaf = fault
element_of (node l e r) = ok e

-- the branch of `Delete` at a node that holds the element: `right'` is `Delete(root->right, element)`
unfoldable pub delete_here : Tree → ℤ → Tree → Run Tree → Run Tree
delete_here leaf e r right' = ok r
delete_here (node ll le lr) e leaf right' = ok (node ll le lr)
delete_here (node ll le lr) e (node rl re rr) right' = do
  element ← element_of (find_min (node rl re rr))
  r ← right'
  ok (node (node ll le lr) element r)

-- `Delete`; the message of `perror` for a missing element is left out
unfoldable pub delete : Tree → ℤ → Run Tree
unfolding delete_here
delete leaf element = ok leaf
delete (node l e r) element =
    let left' = delete l element in
    let right' = delete r element in
    if ltb_ℤ element e
    then (do l ← left'; ok (node l e r))
    else if ltb_ℤ e element
    then (do r ← right'; ok (node l e r))
    else delete_here l e r right'

-- `Inorder`, as the list of what it prints
unfoldable pub inorder : Tree → List ℤ
inorder leaf = []
inorder (node l e r) = inorder l ++ (e ∷ inorder r)
