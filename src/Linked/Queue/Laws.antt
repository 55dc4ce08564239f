-- ===== src/Linked/Queue/Laws.antt =====
-- The linked queue against the list of its nodes, the oldest first.
use core_technologies.Base.{
  Returns, [], arith, fault, none, refl, returns, some, sym, ℕ, ℤ, ◌++◌, ◌<◌, ◌∙◌, ◌∷◌, ◌≡◌, ◌≢◌,
}
use core_technologies.Linked.Chain.{Cells, Chain-free, Chain-set_cell, IsList, SameOutside, size}
use core_technologies.Linked.Queue.{pop, push}
use core_technologies.Linked.Store.{
  Heap, Ptr, alloc-ok, free-ok, load, load-ok, node, set_cell, set_cell-ne, set_cell_self,
  set_next-ok,
}
use core_technologies.Linked.Walk.{Chain-snoc, end_of, end_of-node, has_ne, last-end_of}

-- `push` puts the new node at the end, and changes no cell outside of the queue and the new node;
-- `malloc` gives a free address that is not null, and `fuel` is above the number of nodes.
pub push-IsQueue :
    (fuel : ℕ) (h : Heap) (quene : Ptr) (g : ℤ) (xs : Cells) (x : ℤ) (fresh : Ptr)
    → size xs < fuel
    → IsList h quene g xs
    → fresh ≢ 0
    → h fresh ≡ none
    → Returns
        (λ (_, h').
          IsList h' quene g (xs ++ ((fresh, x) ∷ []))
          × SameOutside ((fresh, x) ∷ (quene, g) ∷ xs) h h')
        (push fuel quene x fresh h)
unfolding push
push-IsQueue fuel h quene g xs x fresh f list ne unused =
    let e = end_of quene xs in
    let (w, q, at_end, ne_e, inside) = end_of-node h quene g xs list in
    let out = Chain-free h quene ((quene, g) ∷ xs) fresh list unused in
    let apart : fresh ≢ e = has_ne fresh e ((quene, g) ∷ xs) out inside in
    let h1 = set_cell h fresh (some (node x 0)) in
    let at_end' = set_cell-ne h fresh e (some (node x 0)) (ground arith) ∙ at_end in
    rw
      (
        last-end_of fuel h quene g xs f list,
        alloc-ok h fresh (node x 0) ne,
        set_next-ok h1 e ne_e at_end' fresh,
      )
      (returns (
        Chain-snoc h (set_cell h1 e (some (node w fresh))) quene g xs fresh x list out ne at_end
            (set_cell-ne h1 e fresh _ apart ∙ set_cell_self h fresh _) (set_cell_self h1 e _)
            (λ b i j.
              set_cell-ne h1 e b _ j
              ∙ set_cell-ne h fresh b _ (λ k. has_ne fresh b ((quene, g) ∷ xs) out i (sym k))),
        λ b i.
            let j = has_ne b e ((quene, g) ∷ xs) (ground arith) inside in
            set_cell-ne h1 e b _ j ∙ set_cell-ne h fresh b _ (ground arith),
      ))

-- `pop` of a queue with an element takes the oldest node out and frees it, and gives its element.
pub pop-IsQueue :
    (h : Heap) (quene : Ptr) (g : ℤ) (a : Ptr) (w : ℤ) (xs : Cells)
    → IsList h quene g ((a, w) ∷ xs)
    → Returns
        (λ (v, h').
          (v ≡ w)
          × IsList h' quene g xs
          × (h' a ≡ none)
          × SameOutside ((quene, g) ∷ (a, w) ∷ []) h h')
        (pop quene h)
unfolding pop
pop-IsQueue h quene g a w xs (_, ne, apart, q, there, rest) =
    let (e, ne', out, r, there', rest') = rest in
    let h1 = set_cell h quene (some (node g r)) in
    let still = set_cell-ne h quene a (some (node g r)) (ground arith) ∙ there' in
    rw
      (
        load-ok h quene ne there,
        e,
        load-ok h a ne' there',
        set_next-ok h quene ne there r,
        free-ok h1 a ne' still,
      )
      (returns (
        refl,
        (
          refl,
          ne,
          ground arith,
          r,
          set_cell-ne h1 a quene _ (ground arith) ∙ set_cell_self h quene _,
          Chain-set_cell h1 r xs a _ out (Chain-set_cell h r xs quene _ (ground arith) rest'),
        ),
        set_cell_self h1 a _,
        λ b i. set_cell-ne h1 a b _ (ground arith) ∙ set_cell-ne h quene b _ (ground arith),
      ))

-- `pop` of an empty queue dereferences a null pointer.
pub pop_null : (h : Heap) (quene : Ptr) (g : ℤ) → IsList h quene g [] → pop quene h ≡ fault
unfolding pop load
pop_null h quene g (_, ne, _, q, there, end) = rw (load-ok h quene ne there, end) refl
