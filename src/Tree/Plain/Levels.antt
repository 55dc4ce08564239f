-- ===== src/Tree/Plain/Levels.antt =====
-- The levels of a tree, and of the trees in the queue.
use core_technologies.Base.{
  List, [], ap, arith, refl, suc, sym, zero, ℕ, ℤ, ◌++◌, ◌+◌, ◌∙◌, ◌∷◌, ◌≡◌, ◌≤◌,
}
use core_technologies.Tree.Plain.{Btn, leaf, node, push, push_child}
use mathlib.Core.List.{append_assoc, append-nil}
use Prim.Native.Nat.{max}

abbrev pub nodes : Btn → ℕ
nodes leaf = 0
nodes (node e l r) = suc (nodes l + nodes r)

abbrev pub depth : Btn → ℕ
depth leaf = 0
depth (node e l r) = suc (max (depth l) (depth r))

-- the elements of the nodes at depth `d`, from the left to the right
abbrev pub level : ℕ → Btn → List ℤ
level d leaf = []
level zero (node e l r) = e ∷ []
level (suc d) (node e l r) = level d l ++ level d r

-- the levels `d`, ..., `d + n - 1` one after the other
abbrev pub levels : ℕ → ℕ → Btn → List ℤ
levels d zero t = []
levels d (suc n) t = level d t ++ levels (suc d) n t

-- no tree of the queue is empty
abbrev pub IsQueue : List Btn → Type 0
IsQueue [] = Unit
IsQueue (leaf ∷ q) = ⊥
IsQueue (node e l r ∷ q) = IsQueue q

-- the same of all trees of a queue
abbrev pub all_nodes : List Btn → ℕ
all_nodes [] = 0
all_nodes (t ∷ q) = nodes t + all_nodes q

abbrev pub all_depth : List Btn → ℕ
all_depth [] = 0
all_depth (t ∷ q) = max (depth t) (all_depth q)

abbrev pub all_level : ℕ → List Btn → List ℤ
all_level d [] = []
all_level d (t ∷ q) = level d t ++ all_level d q

abbrev pub all_levels : ℕ → ℕ → List Btn → List ℤ
all_levels d zero q = []
all_levels d (suc n) q = all_level d q ++ all_levels (suc d) n q

abbrev pub length : List Btn → ℕ
length [] = 0
length (t ∷ q) = suc (length q)

-- the nodes below those of a queue
abbrev pub present : Btn → List Btn
present leaf = []
present (node e l r) = node e l r ∷ []

abbrev pub kids : List Btn → List Btn
kids [] = []
kids (leaf ∷ q) = kids q
kids (node e l r ∷ q) = present l ++ (present r ++ kids q)

push-append : (q : List Btn) (t : Btn) → push q t ≡ q ++ (t ∷ [])
unfolding push
push-append [] t = refl
push-append (s ∷ q) t = ap (◌∷◌ s) (push-append q t)

pub push_child-append : (q : List Btn) (t : Btn) → push_child q t ≡ q ++ present t
unfolding push_child
push_child-append q leaf = sym (append-nil q)
push_child-append q (node e l r) = push-append q (node e l r)

present-append :
    (t : Btn) (q : List Btn) (d : ℕ) → all_level d (present t ++ q) ≡ level d t ++ all_level d q
present-append leaf q d = refl
present-append (node e l r) q d = refl

kids-level : (q : List Btn) (d : ℕ) → all_level d (kids q) ≡ all_level (suc d) q
kids-level [] d = refl
kids-level (leaf ∷ q) d = kids-level q d
kids-level (node e l r ∷ q) d =
    present-append l (present r ++ kids q) d
    ∙ ap (λ w. level d l ++ w)
        (present-append r (kids q) d ∙ ap (λ w. level d r ++ w) (kids-level q d))
    ∙ sym (append_assoc (level d l) (level d r) (all_level (suc d) q))

pub kids-levels : (n d : ℕ) (q : List Btn) → all_levels d n (kids q) ≡ all_levels (suc d) n q
kids-levels zero d q = refl
kids-levels (suc n) d q = rw (kids-level q d, kids-levels n (suc d) q) refl

present-IsQueue : (t : Btn) (q : List Btn) → IsQueue q → IsQueue (present t ++ q)
present-IsQueue leaf q h = h
present-IsQueue (node e l r) q h = h

pub kids-IsQueue : (q : List Btn) → IsQueue (kids q)
kids-IsQueue [] = tt
kids-IsQueue (leaf ∷ q) = kids-IsQueue q
kids-IsQueue (node e l r ∷ q) =
    present-IsQueue l (present r ++ kids q) (present-IsQueue r (kids q) (kids-IsQueue q))

present-nodes : (t : Btn) (q : List Btn) → all_nodes (present t ++ q) ≡ nodes t + all_nodes q
present-nodes leaf q = omega arith
present-nodes (node e l r) q = refl

pub kids-nodes : (q : List Btn) → IsQueue q → all_nodes (kids q) + length q ≡ all_nodes q
kids-nodes [] h = refl
kids-nodes (leaf ∷ q) h = absurd h
kids-nodes (node e l r ∷ q) h =
    omega (arith, present-nodes l (present r ++ kids q), present-nodes r (kids q), kids-nodes q h)

present-depth : (t : Btn) (q : List Btn) → all_depth (present t ++ q) ≡ max (depth t) (all_depth q)
present-depth leaf q = omega arith
present-depth (node e l r) q = refl

pub kids-depth : (q : List Btn) (d : ℕ) → all_depth q ≤ suc d → all_depth (kids q) ≤ d
kids-depth [] d h = omega arith
kids-depth (leaf ∷ q) d h = kids-depth q d (omega arith)
kids-depth (node e l r ∷ q) d h = omega (
  arith,
  present-depth l (present r ++ kids q),
  present-depth r (kids q),
  kids-depth q d (omega arith),
)
