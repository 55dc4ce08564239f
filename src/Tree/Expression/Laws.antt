-- ===== src/Tree/Expression/Laws.antt =====
-- Building a tree from its postfix notation, and printing it again.
use core_technologies.Base.{
  arith, Bool-cases, Ensures, Ensures-bind, Ensures-ok, List, Run-cases, [], ap, false, inl, inr,
  ok, refl, sym, true, ℕ, ◌++◌, ◌∙◌, ◌∷◌, ◌≡◌, ◌==◌,
}
use core_technologies.Tree.Expression.{
  Etn, build_loop, build_postfix, build_step, create_etn, is_operator, leaf, node, pop, post_order,
  push,
}
use mathlib.Core.List.{append_assoc, append-nil}

-- an expression: its inner nodes are operators with two operands, its outer nodes are neither
-- operators nor the end of a text
abbrev pub IsExpression : Etn → Type 0
IsExpression leaf = ⊥
IsExpression (node st leaf leaf) = (is_operator st ≡ false) × ((st == 0) ≡ false)
IsExpression (node st leaf (node su l r)) = ⊥
IsExpression (node st (node su l r) leaf) = ⊥
IsExpression (node st (node su l r) (node sv l' r')) =
    (is_operator st ≡ true) × IsExpression (node su l r) × IsExpression (node sv l' r')

pop-push_tree : (stack : List Etn) (t : Etn) → pop (push stack t) ≡ ok (t, stack)
unfolding pop push
pop-push_tree [] t = refl
pop-push_tree (s ∷ []) t = refl
pop-push_tree (s ∷ u ∷ stack) t = rw (pop-push_tree (u ∷ stack) t)

post_order-append :
    (st : ℕ) (l r : Etn) (rest : List ℕ)
    → post_order (node st l r) ++ rest ≡ post_order l ++ (post_order r ++ (st ∷ rest))
unfolding post_order
post_order-append st l r rest =
    append_assoc (post_order l) (post_order r ++ (st ∷ [])) rest
    ∙ ap (λ w. post_order l ++ w) (append_assoc (post_order r) (st ∷ []) rest)

operator_ne : (st : ℕ) → is_operator st ≡ true → (st == 0) ≡ false
unfolding is_operator
operator_ne st op = ground arith

build_operator :
    (st : ℕ) (l r : Etn) (rest : List ℕ) (stack : List Etn)
    → is_operator st ≡ true
    → build_loop (st ∷ rest) (push (push stack l) r) ≡ build_loop rest (push stack (node st l r))
unfolding build_loop build_step
build_operator st l r rest stack op =
    let some_ = operator_ne st op in
    rw (some_, op, pop-push_tree (push stack l) r) (rw (pop-push_tree stack l) refl)

build_operand :
    (st : ℕ) (rest : List ℕ) (stack : List Etn)
    → is_operator st ≡ false
    → (st == 0) ≡ false
    → build_loop (st ∷ rest) stack ≡ build_loop rest (push stack (create_etn st))
unfolding build_loop build_step
build_operand st rest stack op some_ = rw (some_, op) refl

-- The loop reads an expression and puts its tree on the stack.
build_loop-post_order :
    (t : Etn) (rest : List ℕ) (stack : List Etn)
    → IsExpression t
    → build_loop (post_order t ++ rest) stack ≡ build_loop rest (push stack t)
build_loop-post_order leaf rest stack e = absurd e
build_loop-post_order (node st leaf leaf) rest stack e =
    unfold post_order in unfold create_etn in build_operand st rest stack e.0 e.1
build_loop-post_order (node st leaf (node su l r)) rest stack e = absurd e
build_loop-post_order (node st (node su l r) leaf) rest stack e = absurd e
build_loop-post_order (node st (node su l r) (node sv l' r')) rest stack (op, e, e') =
    let left = node su l r in
    let right = node sv l' r' in
    ap (λ w. build_loop w stack) (post_order-append st left right rest)
    ∙ build_loop-post_order (node su l r) (post_order right ++ (st ∷ rest)) stack e
    ∙ build_loop-post_order (node sv l' r') (st ∷ rest) (push stack left) e'
    ∙ build_operator st left right rest stack op

-- `BuildPostfixExpressionTree` of what `PostOrder` prints of an expression, whose operators have
-- two operands and whose operands are neither operators nor `'\0'`, gives the expression back.
pub build_postfix-post_order : (t : Etn) → IsExpression t → build_postfix (post_order t) ≡ ok t
unfolding build_postfix
build_postfix-post_order t e =
    rw (← append-nil (post_order t))
      (rw (build_loop-post_order t [] [] e) (unfold build_loop in rw (pop-push_tree [] t) refl))

-- what the trees on the stack print
abbrev pub prints : List Etn → List ℕ
prints [] = []
prints (t ∷ stack) = post_order t ++ prints stack

prints-push : (stack : List Etn) (t : Etn) → prints (push stack t) ≡ prints stack ++ post_order t
unfolding push
prints-push [] t = append-nil (post_order t)
prints-push (s ∷ stack) t =
    ap (λ w. post_order s ++ w) (prints-push stack t)
    ∙ sym (append_assoc (post_order s) (prints stack) (post_order t))

-- `pop` takes the end of the stack
push-pop : (stack : List Etn) → Ensures (λ (t, rest). stack ≡ push rest t) (pop stack)
unfolding pop push
push-pop [] = tt
push-pop (t ∷ []) = refl
push-pop (s ∷ t ∷ stack) =
    Ensures-bind (λ (u, rest). t ∷ stack ≡ push rest u) (λ (u, rest). s ∷ t ∷ stack ≡ push rest u)
      (pop (t ∷ stack)) _ (push-pop (t ∷ stack)) λ (u, rest) e. ap (◌∷◌ s) e

prints-pop :
    (stack : List Etn)
    → Ensures (λ (t, rest). prints stack ≡ prints rest ++ post_order t) (pop stack)
prints-pop stack = elim (Run-cases (pop stack)) [
  | inl ((t, rest), e) ↦
      let popped = Ensures-ok _ (pop stack) (t, rest) (push-pop stack) e in
      rw e (ap prints popped ∙ prints-push rest t)
  | inr (inl e) ↦ rw e tt
  | inr (inr e) ↦ rw e tt
]

prints-node :
    (c : ℕ) (front last : Etn) (stack stack' rest : List Etn)
    → prints stack ≡ prints stack' ++ post_order last
    → prints stack' ≡ prints rest ++ post_order front
    → prints (push rest (node c front last)) ≡ prints stack ++ (c ∷ [])
unfolding post_order
prints-node c front last stack stack' rest e e' = simp (prints-push, e, e', append_assoc)

build_step-prints :
    (c : ℕ) (stack : List Etn)
    → Ensures (λ stack'. prints stack' ≡ prints stack ++ (c ∷ [])) (build_step c stack)
unfolding build_step
build_step-prints c stack = elim (Bool-cases (is_operator c)) [
  | inl op ↦ rw op (
      Ensures-bind _ _ (pop stack) _ (prints-pop stack) λ (last, stack') e.
        Ensures-bind _ _ (pop stack') _ (prints-pop stack')
          λ (front, rest) e'. prints-node c front last stack stack' rest e e')
  | inr other ↦
      rw other (prints-push stack (create_etn c) ∙ unfold create_etn in unfold post_order in refl)
]

cons_last : (xs : List ℕ) (c : ℕ) (ys : List ℕ) → (xs ++ (c ∷ [])) ++ ys ≡ xs ++ (c ∷ ys)
cons_last xs c ys = append_assoc xs (c ∷ []) ys

-- a text without the `'\0'`
abbrev pub IsFull : List ℕ → Type 0
IsFull [] = Unit
IsFull (c ∷ cs) = ((c == 0) ≡ false) × IsFull cs

build_loop-prints :
    (posfix : List ℕ) (stack : List Etn)
    → IsFull posfix
    → Ensures (λ stack'. prints stack' ≡ prints stack ++ posfix) (build_loop posfix stack)
unfolding build_loop
build_loop-prints [] stack full = sym (append-nil (prints stack))
build_loop-prints (c ∷ posfix) stack (some_, full) = rw some_ (
    Ensures-bind _ _ (build_step c stack) _ (build_step-prints c stack) λ stack' e.
      rw (← cons_last (prints stack) c posfix, ← e) (build_loop-prints posfix stack' full))

-- What `BuildPostfixExpressionTree` returns prints as the end of the text that it was built from:
-- the text, in which no `'\0'` stands, is that, after what the trees print that were left on the
-- stack.
pub post_order-build_postfix :
    (posfix : List ℕ) (t : Etn)
    → IsFull posfix
    → build_postfix posfix ≡ ok t
    → (front : List ℕ) × (posfix ≡ front ++ post_order t)
post_order-build_postfix posfix t full built =
    Ensures-ok (λ u. (front : List ℕ) × (posfix ≡ front ++ post_order u)) (build_postfix posfix) t
      (unfold build_postfix in
        Ensures-bind _ _ (build_loop posfix []) _ (build_loop-prints posfix [] full) λ stack e.
          Ensures-bind _ _ (pop stack) _ (prints-pop stack)
            λ (root, rest) e'. (prints rest, sym e ∙ e'))
      built
