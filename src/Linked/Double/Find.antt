-- ===== src/Linked/Double/Find.antt =====
-- The loops of `Delete` and `PrintList`, which change nothing.
use core_technologies.Base.{
  [], arith, eqb_ℤ, false, ok, refl, suc, true, zero, ℕ, ℤ, ◌++◌, ◌<◌, ◌==◌, ◌∷◌, ◌≡◌,
}
use core_technologies.Linked.Chain.{Cells, size}
use core_technologies.Linked.Double.{Heap, find_loop, print_list, print_loop}
use core_technologies.Linked.Double.Chain.{Back, Chain, IsList}
use core_technologies.Linked.Memory.{Ptr, load-ok}
use core_technologies.Linked.Single.Find.{elements}

-- no node has the element `x`
abbrev pub Absent : ℤ → Cells → Type 0
Absent x [] = Unit {0}
Absent x (c ∷ xs) = (eqb_ℤ c.1 x ≡ false) × Absent x xs

module _ (R : Back) (h : Heap) (x : ℤ) where
  pub find_loop-missing :
      (fuel : ℕ) (b p : Ptr) (xs : Cells)
      → size xs < fuel
      → Absent x xs
      → Chain R h b p xs
      → find_loop fuel p x h ≡ ok (0, h)
  unfolding find_loop
  find_loop-missing zero b p xs f miss ch = absurd (omega arith)
  find_loop-missing (suc fuel) b p [] f miss ch =
      let null : (p == 0) ≡ true = ground arith in rw (null, ch) refl
  find_loop-missing (suc fuel) b p ((a, v) ∷ xs) f (no_hit, miss) (e, ne, _, r, q, there, _, rest) =
      let more : (a == 0) ≡ false = ground arith in
      rw (e, more, load-ok h a ne there, no_hit)
        (find_loop-missing fuel a q xs (omega arith) miss rest)

  pub find_loop-first :
      (fuel : ℕ) (b p : Ptr) (ys : Cells) (a : Ptr) (zs : Cells)
      → size ys < fuel
      → Absent x ys
      → Chain R h b p (ys ++ ((a, x) ∷ zs))
      → find_loop fuel p x h ≡ ok (a, h)
  unfolding find_loop
  find_loop-first zero b p ys a zs f miss ch = absurd (omega arith)
  find_loop-first (suc fuel) b p [] a zs f miss (e, ne, _, r, q, there, _, rest) =
      let more : (a == 0) ≡ false = ground arith in
      let hit : eqb_ℤ x x ≡ true = ground arith in rw (e, more, load-ok h a ne there, hit) refl
  find_loop-first (suc fuel) b p ((d, v) ∷ ys) a zs f (no_hit, miss)
        (e, ne, _, r, q, there, _, rest) =
      let more : (d == 0) ≡ false = ground arith in
      rw (e, more, load-ok h d ne there, no_hit)
        (find_loop-first fuel d q ys a zs (omega arith) miss rest)

print_loop-elements :
    (R : Back) (fuel : ℕ) (h : Heap) (b p : Ptr) (xs : Cells)
    → size xs < fuel
    → Chain R h b p xs
    → print_loop fuel p h ≡ ok (elements xs, h)
unfolding print_loop elements
print_loop-elements R zero h b p xs f ch = absurd (omega arith)
print_loop-elements R (suc fuel) h b p [] f ch =
    let null : (p == 0) ≡ true = ground arith in rw null refl
print_loop-elements R (suc fuel) h b p ((a, v) ∷ xs) f (e, ne, _, r, q, there, _, rest) =
    let more : (a == 0) ≡ false = ground arith in
    let later = print_loop-elements R fuel h a q xs (omega arith) rest in
    rw (e, more, load-ok h a ne there, later) refl

-- `PrintList` prints the elements behind the header in order, whatever the `previous` links are, and
-- changes nothing; `fuel` is above the number of nodes.
pub print_list-elements_double :
    (R : Back) (fuel : ℕ) (h : Heap) (header : Ptr) (g : ℤ) (xs : Cells)
    → size xs < fuel
    → IsList R h header g xs
    → print_list fuel header h ≡ ok (elements xs, h)
unfolding print_list
print_list-elements_double R fuel h header g xs f (_, ne, _, r, q, there, _, rest) =
    rw (load-ok h header ne there) (print_loop-elements R fuel h header q xs f rest)
