-- ===== src/Tests/Tree/Expression.antt =====
-- BinaryExpressionTree.c on `a+b*c`.
use core_technologies.Base.{List, [], ok, refl, ℕ, ◌∷◌, ◌≡◌}
use core_technologies.Tree.Expression.{
  Etn, build_loop, build_postfix, build_step, create_etn, is_operator, leaf, node, pop, post_order,
  push,
}
use core_technologies.Tree.Expression.Laws.{IsExpression, build_postfix-post_order}

abbrev operand : ℕ → Etn
operand c = node c leaf leaf

abbrev expression : Etn
expression = node b'+' (operand b'a') (node b'*' (operand b'b') (operand b'c'))

expression-IsExpression : IsExpression expression
unfolding is_operator
expression-IsExpression = (refl, (refl, refl), (refl, (refl, refl), (refl, refl)))

build_postfix-post_order_example : build_postfix (post_order expression) ≡ ok expression
build_postfix-post_order_example = build_postfix-post_order expression expression-IsExpression

-- a text with an operand that no operator uses
abbrev text : List ℕ
text = b'd' ∷ b'a' ∷ b'b' ∷ b'c' ∷ b'*' ∷ b'+' ∷ []

built : build_postfix text ≡ ok expression
unfolding build_postfix build_loop build_step is_operator push pop create_etn
built = refl
