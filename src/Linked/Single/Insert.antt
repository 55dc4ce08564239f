-- ===== src/Linked/Single/Insert.antt =====
-- `InsertFront`, `InsertTail` and `InsertOrder`.
use core_technologies.Base.{
  Returns, Returns-mono, [], ap, arith, false, none, refl, returns, some, suc, true, zero, ℕ, ℤ,
  ◌++◌, ◌<◌, ◌==◌, ◌∙◌, ◌∷◌, ◌≡◌, ◌≢◌,
}
use core_technologies.Linked.Chain.{
  Cells, Chain, Chain-free, Chain-set_cell, IsList, SameOutside, has, has-snoc, size,
}
use core_technologies.Linked.Single.{insert_front, insert_tail, link_last}
use core_technologies.Linked.Store.{
  Heap, Ptr, alloc-ok, load-ok, node, set_cell, set_cell-ne, set_cell_self, set_next-ok,
}

-- `InsertFront` puts the new node right behind the header, and changes no other cell than the
-- header; `malloc` gives a free address that is not null.
pub insert_front-IsList :
    (h : Heap) (header : Ptr) (g : ℤ) (xs : Cells) (fresh : Ptr) (x : ℤ)
    → IsList h header g xs
    → fresh ≢ 0
    → h fresh ≡ none
    → Returns
        (λ (_, h').
          IsList h' header g ((fresh, x) ∷ xs) × SameOutside ((header, g) ∷ (fresh, x) ∷ []) h h')
        (insert_front header x fresh h)
unfolding insert_front
insert_front-IsList h header g xs fresh x list ne unused =
    let out = Chain-free h header ((header, g) ∷ xs) fresh list unused in
    let (_, ne', apart, q, there, rest) = list in
    let differ : header ≢ fresh = ground arith in
    let there' = set_cell-ne h fresh header (some (node x q)) differ ∙ there in
    rw
      (
        load-ok h header ne' there,
        alloc-ok h fresh (node x q) ne,
        set_next-ok (set_cell h fresh (some (node x q))) header ne' there' fresh,
      )
      (returns (
        (
          refl,
          ne',
          ground arith,
          fresh,
          set_cell_self _ header _,
          (
            refl,
            ne,
            ground arith,
            q,
            set_cell-ne _ header fresh _ (ground arith) ∙ set_cell_self h fresh _,
            Chain-set_cell _ q xs header _ apart
                (Chain-set_cell h q xs fresh _ (ground arith) rest),
          ),
        ),
        λ a i. set_cell-ne _ header a _ (ground arith) ∙ set_cell-ne h fresh a _ (ground arith),
      ))

-- The loop of `InsertTail` from the node at `a` on links the new node behind the last one.
link_last-Chain :
    (fuel : ℕ) (h : Heap) (a : Ptr) (v : ℤ) (xs : Cells) (t : Ptr) (x : ℤ)
    → size xs < fuel
    → Chain h a ((a, v) ∷ xs)
    → has t ((a, v) ∷ xs) ≡ false
    → t ≢ 0
    → h t ≡ some (node x 0)
    → Returns
        (λ (_, h'). Chain h' a ((a, v) ∷ xs ++ ((t, x) ∷ [])) × SameOutside ((a, v) ∷ xs) h h')
        (link_last fuel a t h)
unfolding link_last
link_last-Chain zero h a v xs t x f ch out ne new = absurd (omega arith)
link_last-Chain (suc fuel) h a v [] t x f (_, ne', _, q, there, end) out ne new =
    let last : (q == 0) ≡ true = ground arith in
    rw (load-ok h a ne' there, last, set_next-ok h a ne' there t)
      (returns (
        (
          refl,
          ne',
          ground arith,
          t,
          set_cell_self h a _,
          (refl, ne, refl, 0, set_cell-ne h a t _ (ground arith) ∙ new, refl),
        ),
        λ b i. set_cell-ne h a b _ (ground arith),
      ))
link_last-Chain (suc fuel) h a v ((b, w) ∷ xs) t x f (_, ne', apart, q, there, rest) out ne new =
    let more : (q == 0) ≡ false = ground arith in
    let rest' = rw rest.0 at rest in
    rw (load-ok h a ne' there, more, rest.0)
      (Returns-mono (link_last-Chain fuel h b w xs t x (omega arith) rest' (ground arith) ne new)
        λ (_, h') (ch, same). (
          (
            refl,
            ne',
            ground (arith, has-snoc a xs (t, x)),
            b,
            same a apart ∙ there ∙ ap (λ r. some (node v r)) rest.0,
            ch,
          ),
          λ c i. same c (ground arith),
        ))

-- `InsertTail` puts the new node behind the last one, and changes no cell outside of the list and
-- the new node; `malloc` gives a free address that is not null, and `fuel` is above the number of
-- nodes.
pub insert_tail-IsList :
    (fuel : ℕ) (h : Heap) (header : Ptr) (g : ℤ) (xs : Cells) (fresh : Ptr) (x : ℤ)
    → size xs < fuel
    → IsList h header g xs
    → fresh ≢ 0
    → h fresh ≡ none
    → Returns
        (λ (_, h').
          IsList h' header g (xs ++ ((fresh, x) ∷ []))
          × SameOutside ((fresh, x) ∷ (header, g) ∷ xs) h h')
        (insert_tail fuel header x fresh h)
unfolding insert_tail
insert_tail-IsList fuel h header g xs fresh x f list ne unused =
    let out = Chain-free h header ((header, g) ∷ xs) fresh list unused in
    rw (alloc-ok h fresh (node x 0) ne) (
      Returns-mono
        (link_last-Chain fuel (set_cell h fresh (some (node x 0))) header g xs fresh x f
          (Chain-set_cell h header ((header, g) ∷ xs) fresh _ out list) out ne
          (set_cell_self h fresh _))
        λ (_, h') (ch, same).
          (ch, λ a i. same a (ground arith) ∙ set_cell-ne h fresh a _ (ground arith)))
