-- ===== src/Tree/Plain.antt =====
-- BinaryTree.c. The queue of nodes is the list of what it holds, the oldest first.
pub mod Laws
pub mod Levels
use core_technologies.Base.{
  List, Run, [], fault, ok, out_of_fuel, suc, zero, ℕ, ℤ, ◌++◌, ◌>>=◌, ◌>>◌, ◌∷◌,
}

pub data Btn : Type 0 where
  leaf : Btn
  node : (element : ℤ) (left right : Btn) → Btn

-- `CreateBTN`
unfoldable pub create_btn : ℤ → Btn
create_btn element = node element leaf leaf

-- `PreOrder`, `InOrder` and `PostOrder`, as the lists of what they print
unfoldable pub pre_order : Btn → List ℤ
pre_order leaf = []
pre_order (node element left right) = element ∷ (pre_order left ++ pre_order right)

unfoldable pub in_order : Btn → List ℤ
in_order leaf = []
in_order (node element left right) = in_order left ++ (element ∷ in_order right)

unfoldable pub post_order : Btn → List ℤ
post_order leaf = []
post_order (node element left right) = post_order left ++ (post_order right ++ (element ∷ []))

-- `push`, which walks to the end of the queue
unfoldable pub push : List Btn → Btn → List Btn
push [] t = t ∷ []
push (s ∷ queue) t = s ∷ push queue t

-- `pop`; of an empty queue it dereferences a null pointer
unfoldable pub pop : List Btn → Run (Btn × List Btn)
pop [] = fault
pop (t ∷ queue) = ok (t, queue)

-- `if (child != NULL) push(tq, child);`
unfoldable pub push_child : List Btn → Btn → List Btn
push_child queue leaf = queue
push_child queue (node element left right) = push queue (node element left right)

-- what a round of `LevelOrder` does with `current`: the element printed, and the queue
unfoldable pub visit : Btn → List Btn → Run (ℤ × List Btn)
visit leaf queue = fault
visit (node element left right) queue = ok (element, push_child (push_child queue left) right)

-- the loop of `LevelOrder`, as the list of what it prints
unfoldable pub level_loop : ℕ → List Btn → Run (List ℤ)
level_loop fuel [] = ok []
level_loop zero (t ∷ queue) = out_of_fuel
level_loop (suc fuel) (t ∷ queue) = do
  (current, queue) ← pop (t ∷ queue)
  (element, queue) ← visit current queue
  printed ← level_loop fuel queue
  ok (element ∷ printed)

unfoldable pub level_order : ℕ → Btn → Run (List ℤ)
level_order fuel leaf = ok []
level_order fuel (node element left right) = level_loop fuel (push [] (node element left right))
