-- ===== src/Stack/Array/Laws.antt =====
-- The array stack against the list of its elements, the newest first.
use core_technologies.Base.{
  List, Returns, Returns-bind, Returns-mono, arith, cells_down, cells_down-pred, cells_down-update,
  cells_down_pos, false, fault, negsuc, ok, read-ok, returns, sym, write-fault, write-ok, ℤ, ◌-◌,
  ◌<◌, ◌==◌, ◌>>=◌, ◌∙◌, ◌∷◌, ◌≡◌, ◌≤◌,
}
use core_technologies.Stack.Array.{ArrayStack, pop, push}

pub record IsValid (s : ArrayStack) : Type 0 where
  pub fits : s.arr.size ≡ s.capacity
  pub used : s.length ≤ s.capacity

-- the elements, the newest first
abbrev pub view : ArrayStack → List ℤ
view s = cells_down s.arr.at s.length

-- `push` on a stack that is not full puts the element on top.
pub push-view :
    (s : ArrayStack) (x : ℤ)
    → IsValid s
    → s.length < s.capacity
    → Returns (λ s'. IsValid s' × (view s' ≡ x ∷ view s)) (push s x)
unfolding push
push-view s x v room =
    rw (write-ok s.arr s.length x (omega (arith, v.fits))) (
      returns (record { fits = v.fits; used = omega arith }, cells_down-update s.arr.at s.length x))

-- `push` on a full stack writes past the end of the array.
pub push-full : (s : ArrayStack) (x : ℤ) → IsValid s → s.length ≡ s.capacity → push s x ≡ fault
unfolding push
push-full s x v full = rw (write-fault s.arr s.length x (omega (arith, v.fits)))

-- `pop` of a stack that is not empty takes the newest element.
pub pop-view :
    (s : ArrayStack)
    → IsValid s
    → 0 < s.length
    → Returns (λ (x, s'). IsValid s' × (view s ≡ x ∷ view s')) (pop s)
unfolding pop
pop-view s v some_there =
    let ne : (s.length == 0) ≡ false = ground arith in
    rw (ne, read-ok s.arr (s.length - 1) (omega (arith, v.fits, v.used)))
      (returns (
        record { fits = v.fits; used = omega (arith, v.used) },
        cells_down-pred s.arr.at s.length some_there,
      ))

-- `pop` of an empty stack gives -1 and changes nothing.
pub pop_empty : (s : ArrayStack) → s.length ≡ 0 → pop s ≡ ok (negsuc 0, s)
unfolding pop
pop_empty s e = ground arith

-- `pop` after `push` gives the element back, and the stack with the same elements.
pub pop-push :
    (s : ArrayStack) (x : ℤ)
    → IsValid s
    → s.length < s.capacity
    → Returns (λ (y, s'). (y ≡ x) × (view s' ≡ view s)) (push s x >>= pop)
pop-push s x v room = Returns-bind (push-view s x v room) λ s' (v', e).
    Returns-mono (pop-view s' v' (cells_down_pos s'.arr.at s'.length e))
      λ (y, s'') (_, e'). let whole = sym e' ∙ e in (cc, cc)
