-- ===== src/Linked/Stack/Laws.antt =====
-- The linked stack against the list of its nodes, the newest last.
use core_technologies.Base.{
  Returns, Returns-mono, [], ap, arith, false, none, ok, refl, returns, some, suc, sym, ℕ, ℤ, ◌++◌,
  ◌<◌, ◌∙◌, ◌∷◌, ◌≡◌, ◌≢◌,
}
use core_technologies.Linked.Chain.{
  Cells, Chain, Chain-free, IsList, SameOutside, has, has-snoc, size,
}
use core_technologies.Linked.Stack.{pop, push}
use core_technologies.Linked.Store.{
  Heap, Ptr, Returns-and_then, alloc-ok, free-ok, load-ok, node, set_cell, set_cell-ne,
  set_cell_self, set_next-ok, ◌>>=◌,
}
use core_technologies.Linked.Walk.{
  Chain-drop, Chain-snoc, end_of, end_of-node, end_of-snoc, has-end_of, has_ne, last, last-end_of,
  pre_of-end_of,
}

-- `push` puts the new node at the end; `fuel` is above the number of nodes.
pub push-IsList :
    (fuel : ℕ) (h : Heap) (header : Ptr) (g : ℤ) (xs : Cells) (x : ℤ) (fresh rest : Ptr)
    → size xs < fuel
    → IsList h header g xs
    → fresh ≢ 0
    → h fresh ≡ none
    → Returns
        (λ (_, h').
          IsList h' header g (xs ++ ((fresh, x) ∷ []))
          × SameOutside ((fresh, x) ∷ (header, g) ∷ xs) h h')
        (push fuel header x fresh rest h)
unfolding push
push-IsList fuel h header g xs x fresh rest f list ne unused =
    let e = end_of header xs in
    let (w, q, at_end, ne_e, inside) = end_of-node h header g xs list in
    let out = Chain-free h header ((header, g) ∷ xs) fresh list unused in
    let apart : fresh ≢ e = has_ne fresh e ((header, g) ∷ xs) out inside in
    let h1 = set_cell h fresh (some (node x rest)) in
    let h2 = set_cell h1 e (some (node w fresh)) in
    let at_end' = set_cell-ne h fresh e (some (node x rest)) (ground arith) ∙ at_end in
    let there =
      set_cell-ne h1 e fresh (some (node w fresh)) apart
      ∙ set_cell_self h fresh (some (node x rest)) in
    rw
      (
        last-end_of fuel h header g xs f list,
        alloc-ok h fresh (node x rest) ne,
        set_next-ok h1 e ne_e at_end' fresh,
        set_next-ok h2 fresh ne there 0,
      )
      (returns (
        Chain-snoc h (set_cell h2 fresh (some (node x 0))) header g xs fresh x list out ne at_end
            (set_cell_self h2 fresh _)
            (set_cell-ne h2 fresh e _ (ground arith) ∙ set_cell_self h1 e _)
            (λ b i j.
              set_cell-ne h2 fresh b _ (λ k. has_ne fresh b ((header, g) ∷ xs) out i (sym k))
              ∙ set_cell-ne h1 e b _ j
              ∙ set_cell-ne h fresh b _ (λ k. has_ne fresh b ((header, g) ∷ xs) out i (sym k))),
        λ b i.
            let j = has_ne b e ((header, g) ∷ xs) (ground arith) inside in
            set_cell-ne h2 fresh b _ (ground arith)
            ∙ set_cell-ne h1 e b _ j
            ∙ set_cell-ne h fresh b _ (ground arith),
      ))

-- the last node of a chain
snoc-node :
    (h : Heap) (p : Ptr) (xs : Cells) (a : Ptr) (w : ℤ)
    → Chain h p (xs ++ ((a, w) ∷ []))
    → (h a ≡ some (node w 0)) × (a ≢ 0)
snoc-node h p [] a w (_, ne, _, q, there, end) = (there ∙ ap (λ r. some (node w r)) end, ne)
snoc-node h p (c ∷ xs) a w (_, _, _, q, _, rest) = snoc-node h q xs a w rest

-- the node in front of it
snoc-link :
    (h : Heap) (p : Ptr) (v : ℤ) (xs : Cells) (a : Ptr) (w : ℤ)
    → Chain h p ((p, v) ∷ xs ++ ((a, w) ∷ []))
    → (u : ℤ) × (h (end_of p xs) ≡ some (node u a))
      × (end_of p xs ≢ 0)
      × (has a ((p, v) ∷ xs) ≡ false)
snoc-link h p v [] a w (_, ne, apart, q, there, rest) =
    (v, there ∙ ap (λ r. some (node v r)) rest.0, ne, ground arith)
snoc-link h p v ((b, t) ∷ xs) a w (_, ne, apart, q, there, rest) =
    let (u, link, ne', out) = snoc-link h b t xs a w (rw rest.0 at rest) in
    (u, link, ne', ground (arith, has-snoc p xs (a, w)))

size-snoc : (xs : Cells) (c : Ptr × ℤ) → size (xs ++ (c ∷ [])) ≡ suc (size xs)
size-snoc [] c = refl
size-snoc (d ∷ xs) c = ap suc (size-snoc xs c)

last-snoc :
    (fuel : ℕ) (h : Heap) (p : Ptr) (xs : Cells) (a : Ptr) (w : ℤ)
    → size xs < fuel
    → Chain h p (xs ++ ((a, w) ∷ []))
    → last fuel p h ≡ ok (a, h)
last-snoc fuel h p [] a w f ch = rw ch.0 (last-end_of fuel h a w [] f (rw ch.0 at ch))
last-snoc fuel h p ((b, u) ∷ xs) a w f ch = rw ch.0 (
    last-end_of fuel h b u (xs ++ ((a, w) ∷ [])) (omega (arith, size-snoc xs (a, w)))
      (rw ch.0 at ch)
    ∙ ap (λ e. ok (e, h)) (end_of-snoc b xs (a, w)))

-- `pop` of a stack with an element takes the newest node out and frees it, and gives its element;
-- `fuel` is above the number of the other nodes.
pub pop-IsList :
    (fuel : ℕ) (h : Heap) (header : Ptr) (g : ℤ) (xs : Cells) (a : Ptr) (w : ℤ)
    → size xs < fuel
    → IsList h header g (xs ++ ((a, w) ∷ []))
    → Returns
        (λ (v, h').
          (v ≡ w)
          × IsList h' header g xs
          × (h' a ≡ none)
          × SameOutside ((a, w) ∷ (header, g) ∷ xs) h h')
        (pop fuel header h)
unfolding pop
pop-IsList fuel h header g xs a w f list =
    let e = end_of header xs in
    let (_, ne, _, q, there, rest) = list in
    let (at_end, ne_a) = snoc-node h q xs a w rest in
    let (u, link, ne_e, out) = snoc-link h header g xs a w list in
    let inside = has-end_of header g xs in
    let apart : a ≢ e = has_ne a e ((header, g) ∷ xs) out inside in
    let h1 = set_cell h e (some (node u 0)) in
    let still = set_cell-ne h e a (some (node u 0)) apart ∙ at_end in
    rw
      (
        load-ok h header ne there,
        last-snoc fuel h q xs a w f rest,
        pre_of-end_of fuel h header g xs a w f list,
        load-ok h a ne_a at_end,
        set_next-ok h e ne_e link 0,
        load-ok h1 a ne_a still,
        free-ok h1 a ne_a still,
      )
      (returns (
        refl,
        Chain-drop h (set_cell h1 a none) header g xs (a, w) list link
            (set_cell-ne h1 a e _ (ground arith) ∙ set_cell_self h e _)
            (λ b i j.
              set_cell-ne h1 a b _ (λ k. has_ne a b ((header, g) ∷ xs) out i (sym k))
              ∙ set_cell-ne h e b _ j),
        set_cell_self h1 a _,
        λ b i.
            let j = has_ne b e ((header, g) ∷ xs) (ground arith) inside in
            set_cell-ne h1 a b _ (ground arith) ∙ set_cell-ne h e b _ j,
      ))

-- `pop` after `push` gives the element back, and the stack as it was, with the new node freed;
-- `malloc` gives a free address that is not null, and `fuel` is above the number of nodes.
pub pop-push-IsList :
    (fuel : ℕ) (h : Heap) (header : Ptr) (g : ℤ) (xs : Cells) (x : ℤ) (fresh rest : Ptr)
    → size xs < fuel
    → IsList h header g xs
    → fresh ≢ 0
    → h fresh ≡ none
    → Returns
        (λ (v, h'). (v ≡ x) × IsList h' header g xs × (h' fresh ≡ none))
        ((push fuel header x fresh rest >>= λ _. pop fuel header) h)
pop-push-IsList fuel h header g xs x fresh rest f list ne unused =
    Returns-and_then (push-IsList fuel h header g xs x fresh rest f list ne unused)
      λ _ h' (list', _).
        Returns-mono (pop-IsList fuel h' header g xs fresh x f list')
          λ (v, h'') (e, list'', freed, _). (e, list'', freed)
