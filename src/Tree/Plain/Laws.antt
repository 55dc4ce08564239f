-- ===== src/Tree/Plain/Laws.antt =====
-- `LevelOrder` against the levels of the tree.
use core_technologies.Base.{
  List, Run, [], ap, arith, fault, ok, out_of_fuel, refl, suc, sym, zero, ℕ, ℤ, ◌++◌, ◌+◌, ◌-◌,
  ◌>>=◌, ◌∙◌, ◌∷◌, ◌≡◌, ◌≤◌,
}
use core_technologies.Tree.Plain.{
  Btn, leaf, level_loop, level_order, node, pop, push, push_child, visit,
}
use core_technologies.Tree.Plain.Levels.{
  IsQueue, all_depth, all_level, all_levels, all_nodes, depth, kids, kids-IsQueue, kids-depth,
  kids-levels, kids-nodes, length, level, levels, nodes, present, push_child-append,
}
use mathlib.Core.List.{append_assoc, append-nil}

and_print : List ℤ → Run (List ℤ) → Run (List ℤ)
and_print xs r = r >>= λ ys. ok (xs ++ ys)

-- The loop prints the queue `xs`, and goes on behind what was in the queue after it.
round :
    (e : ℤ) (l r : Btn) (queue : List Btn) (fuel : ℕ)
    → level_loop (suc fuel) (node e l r ∷ queue)
      ≡ (level_loop fuel (queue ++ (present l ++ present r)) >>= λ ys. ok (e ∷ ys))
unfolding level_loop pop visit
round e l r queue fuel =
    rw
      (
        push_child-append (push_child queue l) r,
        push_child-append queue l,
        append_assoc queue (present l) (present r),
      )
      refl

print_twice :
    (e : ℤ) (xs : List ℤ) (r : Run (List ℤ))
    → (and_print xs r >>= λ ys. ok (e ∷ ys)) ≡ and_print (e ∷ xs) r
unfolding and_print
print_twice e xs (ok ys) = refl
print_twice e xs fault = refl
print_twice e xs out_of_fuel = refl

and_print-nil : (r : Run (List ℤ)) → r ≡ and_print [] r
unfolding and_print
and_print-nil (ok ys) = refl
and_print-nil fault = refl
and_print-nil out_of_fuel = refl

level_loop-append :
    (xs ys : List Btn) (fuel : ℕ)
    → IsQueue xs
    → level_loop (length xs + fuel) (xs ++ ys)
      ≡ and_print (all_level 0 xs) (level_loop fuel (ys ++ kids xs))
level_loop-append [] ys fuel h =
    let e : 0 + fuel ≡ fuel = omega arith in
    rw (e, append-nil ys) (and_print-nil (level_loop fuel ys))
level_loop-append (leaf ∷ xs) ys fuel h = absurd h
level_loop-append (node e l r ∷ xs) ys fuel h =
    let step : suc (length xs) + fuel ≡ suc (length xs + fuel) = omega arith in
    let new = present l ++ present r in
    ap (λ n. level_loop n (node e l r ∷ (xs ++ ys))) step
    ∙ round e l r (xs ++ ys) (length xs + fuel)
    ∙ ap (λ q. level_loop (length xs + fuel) q >>= λ zs. ok (e ∷ zs)) (append_assoc xs ys new)
    ∙ ap (λ w. w >>= λ zs. ok (e ∷ zs)) (level_loop-append xs (ys ++ new) fuel h)
    ∙ print_twice e (all_level 0 xs) (level_loop fuel ((ys ++ new) ++ kids xs))
    ∙ ap (λ q. and_print (e ∷ all_level 0 xs) (level_loop fuel q))
        (append_assoc ys new (kids xs)
          ∙ ap (λ w. ys ++ w) (append_assoc (present l) (present r) (kids xs)))

length-le : (q : List Btn) → IsQueue q → length q ≤ all_nodes q
length-le q h = omega (arith, kids-nodes q h)

no_depth : (q : List Btn) → IsQueue q → all_depth q ≤ 0 → q ≡ []
no_depth [] h d = refl
no_depth (leaf ∷ q) h d = absurd h
no_depth (node e l r ∷ q) h d = absurd (omega arith)

level_loop-levels :
    (d fuel : ℕ) (q : List Btn)
    → IsQueue q
    → all_depth q ≤ d
    → all_nodes q ≤ fuel
    → level_loop fuel q ≡ ok (all_levels 0 d q)
level_loop-levels zero fuel q h low f = rw (no_depth q h low) (unfold level_loop in refl)
level_loop-levels (suc d) fuel q h low f =
    let enough : fuel ≡ length q + (fuel - length q) = omega (arith, length-le q h) in
    ap (λ n. level_loop n q) enough
    ∙ ap (λ w. level_loop (length q + (fuel - length q)) w) (sym (append-nil q))
    ∙ level_loop-append q [] (fuel - length q) h
    ∙ ap (λ w. and_print (all_level 0 q) w)
        (level_loop-levels d (fuel - length q) (kids q) (kids-IsQueue q) (kids-depth q d low)
          (omega (arith, kids-nodes q h)))
    ∙ unfold and_print in ap (λ w. ok (all_level 0 q ++ w)) (kids-levels d 0 q)

one-levels : (n d : ℕ) (t : Btn) → all_levels d n (t ∷ []) ≡ levels d n t
one-levels zero d t = refl
one-levels (suc n) d t =
    ap (λ w. w ++ all_levels (suc d) n (t ∷ [])) (append-nil (level d t))
    ∙ ap (λ w. level d t ++ w) (one-levels n (suc d) t)

-- `LevelOrder` prints the levels of the tree one after the other, each from the left to the right,
-- and dereferences no null pointer; as many rounds as the tree has nodes are enough.
pub level_order-levels :
    (fuel : ℕ) (t : Btn) → nodes t ≤ fuel → level_order fuel t ≡ ok (levels 0 (depth t) t)
unfolding level_order push
level_order-levels fuel leaf f = refl
level_order-levels fuel (node e l r) f =
    let t = node e l r in
    level_loop-levels (depth t) fuel (t ∷ []) tt (omega arith) (omega arith)
    ∙ ap (λ w. ok w) (one-levels (depth t) 0 t)
