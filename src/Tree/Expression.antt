-- ===== src/Tree/Expression.antt =====
-- BinaryExpressionTree.c. The stack of trees is the list of what its nodes hold, the newest last;
-- a text is the list of its characters, which ends at a `'\0'` or with the list.
pub mod Laws
use core_technologies.Base.{
  Bool, List, Run, [], fault, if◌then◌else◌, ok, ℕ, ◌++◌, ◌==◌, ◌>>=◌, ◌>>◌, ◌||◌, ◌∷◌,
}

pub data Etn : Type 0 where
  leaf : Etn
  node : (st : ℕ) (left right : Etn) → Etn

-- `CreateETN`
unfoldable pub create_etn : ℕ → Etn
create_etn st = node st leaf leaf

-- `Push`, which walks to the end of the stack
unfoldable pub push : List Etn → Etn → List Etn
push [] t = t ∷ []
push (s ∷ stack) t = s ∷ push stack t

-- `Pop`; with no tree on the stack its second loop runs into a null pointer
unfoldable pub pop : List Etn → Run (Etn × List Etn)
pop [] = fault
pop (t ∷ []) = ok (t, [])
pop (s ∷ t ∷ stack) = do (last, stack) ← pop (t ∷ stack); ok (last, s ∷ stack)

-- the test for an operator
unfoldable pub is_operator : ℕ → Bool
is_operator c = c == b'+' || (c == b'-' || (c == b'*' || c == b'/'))

-- one round of the loop of `BuildPostfixExpressionTree`
unfoldable pub build_step : ℕ → List Etn → Run (List Etn)
build_step c stack =
    if is_operator c
    then (do
      (last, stack) ← pop stack
      (front, stack) ← pop stack
      ok (push stack (node c front last)))
    else ok (push stack (create_etn c))

unfoldable pub build_loop : List ℕ → List Etn → Run (List Etn)
build_loop [] stack = ok stack
build_loop (c ∷ posfix) stack =
    if c == 0 then ok stack else (do stack ← build_step c stack; build_loop posfix stack)

-- `BuildPostfixExpressionTree`
unfoldable pub build_postfix : List ℕ → Run Etn
build_postfix posfix = do stack ← build_loop posfix []; (root, stack) ← pop stack; ok root

-- `PostOrder`, as the list of what it prints
unfoldable pub post_order : Etn → List ℕ
post_order leaf = []
post_order (node st left right) = post_order left ++ (post_order right ++ (st ∷ []))
