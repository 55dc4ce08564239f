-- ===== src/Tree/Balanced/Defs.antt =====
-- The functions of BinaryBalanceTree.c.
use core_technologies.Base.{
  List, Run, [], count, fault, if◌then◌else◌, leb_ℤ, ltb, ltb_ℤ, negsuc, ok, pos, sub_ℕ, ℕ, ℤ, ◌&&◌,
  ◌++◌, ◌+◌, ◌>>=◌, ◌∷◌,
}

pub data Avl : Type 0 where
  leaf : Avl
  node : (left : Avl) (val : ℤ) (height : ℕ) (right : Avl) → Avl

unfoldable pub create_node : ℤ → Avl
create_node val = node leaf val 1 leaf

-- `Find`, with the number of steps added to `*count`
unfoldable pub find : Avl → ℤ → ℕ → Avl × ℕ
find leaf target count = (leaf, count)
find (node l v h r) target count =
    if ltb_ℤ target v
    then find l target (count + 1)
    else if ltb_ℤ v target
    then find r target (count + 1)
    else (node l v h r, count)

abbrev pub height : Avl → ℕ
height leaf = 0
height (node l v h r) = h

-- `Max(a, b)`
unfoldable pub max_of : ℕ → ℕ → ℕ
max_of a b = if ltb b a then a else b

abbrev pub get_balance : Avl → ℤ
get_balance leaf = pos 0
get_balance (node l v h r) = sub_ℕ (height l) (height r)

-- `FindMin`, which goes down on the right
unfoldable pub find_min : Avl → Avl
find_min leaf = leaf
find_min (node leaf v h r) = node leaf v h r
find_min (node (node ll lv lh lr) v h r) = find_min r

-- a node whose height is computed from its children
abbrev pub joined : Avl → ℤ → Avl → Avl
joined l v r = node l v (max_of (height l) (height r) + 1) r

unfoldable pub left_rotate : Avl → Run Avl
left_rotate (node l v h (node t2 w k r)) = ok (joined (joined l v t2) w r)
left_rotate _ = fault

unfoldable pub right_rotate : Avl → Run Avl
right_rotate (node (node l w k t2) v h r) = ok (joined l w (joined t2 v r))
right_rotate _ = fault

-- the end of `InsertNode`, once the height of the node is up to date
unfoldable pub rebalance : Avl → ℤ → ℕ → Avl → Run Avl
rebalance l v h r =
    let balance = sub_ℕ (height l) (height r) in
    if ltb_ℤ (pos 1) balance && ltb_ℤ (pos 0) (get_balance l)
    then right_rotate (node l v h r)
    else if ltb_ℤ balance (negsuc 0) && ltb_ℤ (get_balance r) (pos 0)
    then left_rotate (node l v h r)
    else if ltb_ℤ (pos 1) balance && ltb_ℤ (get_balance l) (pos 0)
    then (do l ← left_rotate l; right_rotate (node l v h r))
    else if ltb_ℤ balance (negsuc 0) && ltb_ℤ (pos 0) (get_balance r)
    then (do r ← right_rotate r; left_rotate (node l v h r))
    else ok (node l v h r)

unfoldable pub insert_node : Avl → ℤ → Run Avl
insert_node leaf val = ok (create_node val)
insert_node (node l v h r) val =
    let left' = insert_node l val in
    let right' = insert_node r val in
    if ltb_ℤ val v
    then (do l ← left'; rebalance l v (1 + max_of (height l) (height r)) r)
    else if ltb_ℤ v val
    then (do r ← right'; rebalance l v (1 + max_of (height l) (height r)) r)
    else ok (node l v h r)

-- `p->val`
unfoldable pub val_of : Avl → Run ℤ
val_of leaf = fault
val_of (node l v h r) = ok v

-- the end of `DeleteNode`
unfoldable pub rebalance_deleted : Avl → Run Avl
rebalance_deleted leaf = ok leaf
rebalance_deleted (node l v h r) =
    let balance = sub_ℕ (height l) (height r) in
    if ltb_ℤ (pos 1) balance && leb_ℤ (pos 0) (get_balance l)
    then right_rotate (node l v h r)
    else if ltb_ℤ (pos 1) balance && ltb_ℤ (get_balance l) (pos 0)
    then (do l ← left_rotate l; right_rotate (node l v h r))
    else if ltb_ℤ balance (negsuc 0) && leb_ℤ (get_balance r) (pos 0)
    then left_rotate (node l v h r)
    else if ltb_ℤ balance (negsuc 0) && ltb_ℤ (pos 0) (get_balance r)
    then (do r ← left_rotate r; left_rotate (node l v h r))
    else ok (node l v h r)

-- the branches of `DeleteNode` at a node that holds the value: `right'` is
-- `DeleteNode(root->right, val)`
unfoldable pub delete_here : Avl → ℤ → ℕ → Avl → Run Avl → Run Avl
delete_here (node ll lv lh lr) v h (node rl rv rh rr) right' = do
  val ← val_of (find_min (node rl rv rh rr))
  r ← right'
  ok (node (node ll lv lh lr) val h r)
delete_here l v h leaf right' = ok l
delete_here leaf v h (node rl rv rh rr) right' = ok (node rl rv rh rr)

unfoldable pub delete_node : Avl → ℤ → Run Avl
delete_node leaf val = ok leaf
delete_node (node l v h r) val =
    let left' = delete_node l val in
    let right' = delete_node r val in
    (if ltb_ℤ val v
      then (do l ← left'; ok (node l v h r))
      else if ltb_ℤ v val
      then (do r ← right'; ok (node l v h r))
      else delete_here l v h r right')
    >>= rebalance_deleted

-- `PreOrder` and `MidOrder`, as the lists of what they print
unfoldable pub pre_order : Avl → List ℤ
pre_order leaf = []
pre_order (node l v h r) = v ∷ (pre_order l ++ pre_order r)

unfoldable pub mid_order : Avl → List ℤ
mid_order leaf = []
mid_order (node l v h r) = mid_order l ++ (v ∷ mid_order r)
