-- ===== src/Stack/Bounded/Laws.antt =====
-- The bounded stack against the list of its elements, the newest first.
use core_technologies.Base.{
  List, Returns, arith, cells_down, cells_down-update, decr-pos, eqb-pred, eqb_ℤ, false, incr-pred,
  negsuc, ok, pos, pred_ℤ, pred_ℤ-add, read-ok, refl, returns, suc, sym, write-ok, ℕ, ℤ, ◌+◌, ◌-◌,
  ◌<◌, ◌==◌, ◌∷◌, ◌≡◌, ◌≤◌,
}
use core_technologies.Stack.Bounded.{Stack, init_stack, is_stack_empty, max_size, pop, push}

-- the stack holds `n` elements
pub record Holds (n : ℕ) (s : Stack) : Type 0 where
  pub fits : s.cells.size ≡ max_size
  pub used : n ≤ max_size
  pub top : s.top ≡ pred_ℤ n

abbrev pub elements : Stack → ℕ → List ℤ
elements s n = cells_down s.cells.at n

pub init_stack-Holds : (s : Stack) → s.cells.size ≡ max_size → Holds 0 (init_stack s)
unfolding init_stack
init_stack-Holds s fits = record { fits = fits; used = omega arith; top = refl }

-- `IsStackEmpty` tells just the stack with no element.
pub is_stack_empty_iff : (s : Stack) (n : ℕ) → Holds n s → is_stack_empty s ≡ (n == 0)
unfolding is_stack_empty
is_stack_empty_iff s n v = rw v.top (eqb-pred n 0)

-- `Push` on a stack that is not full puts the element on top.
pub push-elements :
    (s : Stack) (n : ℕ) (x : ℤ)
    → Holds n s
    → n < max_size
    → Returns (λ s'. Holds (n + 1) s' × (elements s' (n + 1) ≡ x ∷ elements s n)) (push s x)
unfolding push
push-elements s n x v h =
    let e : eqb_ℤ (pred_ℤ n) (pos (max_size - 1)) ≡ false =
      rw (eqb-pred n max_size) (ground arith) in
    rw (v.top, e, incr-pred n, write-ok s.cells n x (omega (arith, v.fits)))
      (returns (
        record { fits = v.fits; used = omega arith; top = sym (pred_ℤ-add n) },
        cells_down-update s.cells.at n x,
      ))

-- `Push` on a full stack changes nothing.
pub push_full : (s : Stack) (x : ℤ) → Holds max_size s → push s x ≡ ok s
unfolding push
push_full s x v = rw v.top

-- `Pop` of a stack with an element takes the newest one.
pub pop-elements :
    (s : Stack) (n : ℕ)
    → Holds (suc n) s
    → Returns (λ (x, s'). Holds n s' × (elements s (suc n) ≡ x ∷ elements s' n)) (pop s)
unfolding pop cells_down
pop-elements s n v =
    let e : eqb_ℤ (pos n) (negsuc 0) ≡ false = ground arith in
    rw (v.top, e, read-ok s.cells n (omega (arith, v.fits, v.used)))
      (returns (record { fits = v.fits; used = omega (arith, v.used); top = decr-pos n }, refl))

-- `Pop` of an empty stack gives -1 and changes nothing.
pub pop_empty : (s : Stack) → Holds 0 s → pop s ≡ ok (negsuc 0, s)
unfolding pop
pop_empty s v = rw v.top
