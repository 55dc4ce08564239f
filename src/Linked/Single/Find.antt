-- ===== src/Linked/Single/Find.antt =====
-- `Find`, `FindNodeth`, `Modify`, `Delete` and `PrintList`.
use core_technologies.Base.{
  Bool-cases, List, [], arith, eqb_ℤ, false, if◌then◌else◌, inl, inr, negsuc, ok, pos, refl, suc,
  true, zero, ℕ, ℤ, ◌+◌, ◌<◌, ◌==◌, ◌∷◌, ◌≡◌,
}
use core_technologies.Linked.Chain.{Cells, Chain, IsList, size}
use core_technologies.Linked.Single.{
  find, find_loop, find_nodeth, nodeth_loop, print_list, print_loop,
}
use core_technologies.Linked.Store.{Heap, Ptr, load-ok}

-- the address of the first node with the element, null if there is none
unfoldable pub place : Cells → ℤ → Ptr
place [] x = 0
place (c ∷ xs) x = if eqb_ℤ c.1 x then c.0 else place xs x

pub find_loop-place :
    (fuel : ℕ) (h : Heap) (p : Ptr) (xs : Cells) (x : ℤ)
    → size xs < fuel
    → Chain h p xs
    → find_loop fuel p x h ≡ ok (place xs x, h)
unfolding find_loop place
find_loop-place zero h p xs x f ch = absurd (omega arith)
find_loop-place (suc fuel) h p [] x f ch =
    let null : (p == 0) ≡ true = ground arith in rw (null, ch) refl
find_loop-place (suc fuel) h p ((a, v) ∷ xs) x f (e, ne, _, q, there, rest) =
    let more : (a == 0) ≡ false = ground arith in
    let later = find_loop-place fuel h q xs x (omega arith) rest in
    rw (e, more, load-ok h a ne there)
      (elim (Bool-cases (eqb_ℤ v x)) [ inl hit ↦ rw hit refl | inr miss ↦ rw (miss, later) refl ])

-- `Find` gives the address of the first node with the element, null if there is none, and
-- changes nothing; `fuel` is above the number of nodes.
pub find-place :
    (fuel : ℕ) (h : Heap) (header : Ptr) (g : ℤ) (xs : Cells) (x : ℤ)
    → size xs < fuel
    → IsList h header g xs
    → find fuel header x h ≡ ok (place xs x, h)
unfolding find
find-place fuel h header g xs x f (_, ne, _, q, there, rest) =
    rw (load-ok h header ne there) (find_loop-place fuel h q xs x f rest)

unfoldable pub elements : Cells → List ℤ
elements [] = []
elements (c ∷ xs) = c.1 ∷ elements xs

print_loop-elements :
    (fuel : ℕ) (h : Heap) (p : Ptr) (xs : Cells)
    → size xs < fuel
    → Chain h p xs
    → print_loop fuel p h ≡ ok (elements xs, h)
unfolding print_loop elements
print_loop-elements zero h p xs f ch = absurd (omega arith)
print_loop-elements (suc fuel) h p [] f ch =
    let null : (p == 0) ≡ true = ground arith in rw null refl
print_loop-elements (suc fuel) h p ((a, v) ∷ xs) f (e, ne, _, q, there, rest) =
    let more : (a == 0) ≡ false = ground arith in
    let later = print_loop-elements fuel h q xs (omega arith) rest in
    rw (e, more, load-ok h a ne there, later) refl

-- `PrintList` prints the elements behind the header in order and changes nothing; `fuel` is above
-- the number of nodes.
pub print_list-elements :
    (fuel : ℕ) (h : Heap) (header : Ptr) (g : ℤ) (xs : Cells)
    → size xs < fuel
    → IsList h header g xs
    → print_list fuel header h ≡ ok (elements xs, h)
unfolding print_list
print_list-elements fuel h header g xs f (_, ne, _, q, there, rest) =
    rw (load-ok h header ne there) (print_loop-elements fuel h q xs f rest)

-- the position of the first element that is the one looked for, counted from `n`, else -1
unfoldable pub position : List ℤ → ℤ → ℕ → ℤ
position [] x n = negsuc 0
position (y ∷ ys) x n = if eqb_ℤ y x then pos n else position ys x (n + 1)

nodeth_loop-position :
    (fuel : ℕ) (h : Heap) (p : Ptr) (xs : Cells) (x : ℤ) (n : ℕ)
    → size xs < fuel
    → Chain h p xs
    → nodeth_loop fuel p x n h ≡ ok (position (elements xs) x n, h)
unfolding nodeth_loop position elements
nodeth_loop-position zero h p xs x n f ch = absurd (omega arith)
nodeth_loop-position (suc fuel) h p [] x n f ch =
    let null : (p == 0) ≡ true = ground arith in rw null refl
nodeth_loop-position (suc fuel) h p ((a, v) ∷ xs) x n f (e, ne, _, q, there, rest) =
    let more : (a == 0) ≡ false = ground arith in
    let later = nodeth_loop-position fuel h q xs x (n + 1) (omega arith) rest in
    rw (e, more, load-ok h a ne there)
      (elim (Bool-cases (eqb_ℤ v x)) [ inl hit ↦ rw hit refl | inr miss ↦ rw (miss, later) refl ])

-- `FindNodeth` gives the position of the first node with the element, counted from 1, and -1 if
-- there is none; `fuel` is above the number of nodes.
pub find_nodeth-position :
    (fuel : ℕ) (h : Heap) (header : Ptr) (g : ℤ) (xs : Cells) (x : ℤ)
    → size xs < fuel
    → IsList h header g xs
    → find_nodeth fuel header x h ≡ ok (position (elements xs) x 1, h)
unfolding find_nodeth
find_nodeth-position fuel h header g xs x f (_, ne, _, q, there, rest) =
    rw (load-ok h header ne there) (nodeth_loop-position fuel h q xs x 1 f rest)
