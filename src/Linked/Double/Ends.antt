-- ===== src/Linked/Double/Ends.antt =====
-- `InsertFront` and `InsertTail`.
use core_technologies.Base.{
  Returns, Returns-mono, [], ap, arith, false, none, refl, returns, some, suc, true, zero, ℕ, ℤ,
  ◌++◌, ◌<◌, ◌==◌, ◌∙◌, ◌∷◌, ◌≡◌, ◌≢◌, ◌↔◌, sym,
}
use core_technologies.Linked.Chain.{Cells, has, has-snoc, size}
use core_technologies.Linked.Double.{Heap, dll, insert_front, insert_tail, link_last}
use core_technologies.Linked.Double.Chain.{
  Chain, Chain-any, Chain-free, Chain-set_cell, IsDouble, IsList, any, exact, set_next-ok,
  set_previous-ok,
}
use core_technologies.Linked.Memory.{Ptr, alloc-ok, load-ok, set_cell, set_cell-ne, set_cell_self}

-- The loop of `InsertTail` from the node at `a` on links the new node behind the last one.
link_last-Chain :
    (fuel : ℕ) (h : Heap) (b a : Ptr) (v : ℤ) (xs : Cells) (t : Ptr) (x : ℤ) {r : Ptr}
    → size xs < fuel
    → Chain exact h b a ((a, v) ∷ xs)
    → has t ((a, v) ∷ xs) ≡ false
    → t ≢ 0
    → h t ≡ some (dll x r 0)
    → Returns
        (λ (_, h').
          Chain exact h' b a ((a, v) ∷ xs ++ ((t, x) ∷ []))
          × ((d : Ptr) → has d ((t, x) ∷ (a, v) ∷ xs) ≡ false → h' d ≡ h d))
        (link_last fuel a t h)
unfolding link_last
link_last-Chain zero h b a v xs t x f ch out ne new = absurd (omega arith)
link_last-Chain (suc fuel) h b a v [] t x f (_, ne', _, r, q, there, back, end) out ne new =
    let last : (q == 0) ≡ true = ground arith in
    let h₁ = set_cell h t (some (dll x a 0)) in
    rw
      (
        load-ok h a ne' there,
        last,
        set_previous-ok h t ne new a,
        set_next-ok h₁ a ne' (set_cell-ne h t a _ (ground arith) ∙ there) t,
      )
      (returns (
        (
          refl,
          ne',
          ground arith,
          r,
          t,
          set_cell_self h₁ a _,
          back,
          (
            refl,
            ne,
            refl,
            a,
            0,
            set_cell-ne h₁ a t _ (ground arith) ∙ set_cell_self h t _,
            refl,
            refl,
          ),
        ),
        λ d i. set_cell-ne h₁ a d _ (ground arith) ∙ set_cell-ne h t d _ (ground arith),
      ))
link_last-Chain (suc fuel) h b a v ((d, w) ∷ xs) t x f (_, ne', apart, r, q, there, back, rest) out
      ne new =
    let more : (q == 0) ≡ false = ground arith in
    let rest' = rw rest.0 at rest in
    rw (load-ok h a ne' there, more, rest.0)
      (Returns-mono (link_last-Chain fuel h a d w xs t x (omega arith) rest' (ground arith) ne new)
        λ (_, h') (ch, same). (
          (
            refl,
            ne',
            ground (arith, has-snoc a xs (t, x)),
            r,
            d,
            same a (ground arith) ∙ there ∙ ap (λ s. some (dll v r s)) rest.0,
            back,
            ch,
          ),
          λ c i. same c (ground arith),
        ))

-- `InsertTail` puts the new node behind the last one, both links of every node are right, and no
-- cell outside of the list and the new node changes; `malloc` gives a free address that is not
-- null, and `fuel` is above the number of nodes.
pub insert_tail-IsDouble :
    (fuel : ℕ) (h : Heap) (header : Ptr) (g : ℤ) (xs : Cells) (fresh : Ptr) (x : ℤ) (rest : Ptr)
    → size xs < fuel
    → IsDouble h header g xs
    → fresh ≢ 0
    → h fresh ≡ none
    → Returns
        (λ (_, h').
          IsDouble h' header g (xs ++ ((fresh, x) ∷ []))
          × ((a : Ptr) → has a ((fresh, x) ∷ (header, g) ∷ xs) ≡ false → h' a ≡ h a))
        (insert_tail fuel header x fresh rest h)
unfolding insert_tail
insert_tail-IsDouble fuel h header g xs fresh x rest f list ne unused =
    let out = Chain-free exact h 0 header ((header, g) ∷ xs) fresh list unused in
    rw (alloc-ok h fresh (dll x rest 0) ne) (
      Returns-mono
        (link_last-Chain fuel (set_cell h fresh (some (dll x rest 0))) 0 header g xs fresh x f
          (Chain-set_cell exact h 0 header ((header, g) ∷ xs) fresh _ out list) out ne
          (set_cell_self h fresh _))
        λ (_, h') (ch, same). (ch, λ a i. same a i ∙ set_cell-ne h fresh a _ (ground arith)))

previous_eq : (v w : ℤ) (r s q t : Ptr) → some (dll v r q) ≡ some (dll w s t) → r ≡ s
previous_eq v w r s q t e = cc

-- the `previous` link of the node that was the first is as it was
front_previous :
    (h h' : Heap) (header : Ptr) (g : ℤ) (xs : Cells) (fresh : Ptr) (x : ℤ) (q : Ptr)
    → IsDouble h header g xs
    → fresh ≢ 0
    → header ≢ fresh
    → has fresh xs ≡ false
    → h' header ≡ some (dll g 0 fresh)
    → h' fresh ≡ some (dll x header q)
    → Chain any h' fresh q xs
    → ((a : Ptr) → a ≢ header → a ≢ fresh → h' a ≡ h a)
    → IsDouble h' header g ((fresh, x) ∷ xs) ↔ (xs ≡ [])
front_previous h h' header g [] fresh x q (_, ne', _, _, _, _, _, _) ne differ out at_header
      at_fresh end same =
    (
      λ _. refl,
      λ _. (
        refl,
        ne',
        ground arith,
        0,
        fresh,
        at_header,
        refl,
        (refl, ne, refl, header, q, at_fresh, refl, end),
      ),
    )
front_previous h h' header g ((c, w) ∷ xs) fresh x q list ne differ out at_header at_fresh rest
      same =
    (
      λ (_, _, _, _, _, _, _, (_, _, _, _, _, _, _, (_, _, _, r, s, there, back, _))).
          let (_, _, apart, _, _, _, _, (_, _, _, r', s', there', back', _)) = list in
          let link : r ≡ r' =
            previous_eq w w r r' s s' (sym there ∙ same c (ground arith) (ground arith) ∙ there') in
          absurd (differ (sym back' ∙ sym link ∙ back)),
      λ none. cc,
    )

-- `InsertFront` puts the new node right behind the header, so that the `next` links lead through
-- the new node and the others; but the first of the others keeps the header as `previous`. So both
-- links are right afterwards exactly if the list was empty. No cell changes but the header and the
-- new node; `malloc` gives a free address that is not null.
pub insert_front-IsList :
    (h : Heap) (header : Ptr) (g : ℤ) (xs : Cells) (fresh : Ptr) (x : ℤ)
    → IsDouble h header g xs
    → fresh ≢ 0
    → h fresh ≡ none
    → Returns
        (λ (_, h').
          IsList any h' header g ((fresh, x) ∷ xs)
          × (IsDouble h' header g ((fresh, x) ∷ xs) ↔ (xs ≡ []))
          × ((a : Ptr) → a ≢ header → a ≢ fresh → h' a ≡ h a))
        (insert_front header x fresh h)
unfolding insert_front
insert_front-IsList h header g xs fresh x list ne unused =
    let out = Chain-free exact h 0 header ((header, g) ∷ xs) fresh list unused in
    let (_, ne', apart, r, q, there, back, rest) = list in
    let differ : header ≢ fresh = ground arith in
    let at_header : h header ≡ some (dll g 0 q) = there ∙ ap (λ s. some (dll g s q)) back in
    let h₁ = set_cell h fresh (some (dll x header q)) in
    let h₂ = set_cell h₁ header (some (dll g 0 fresh)) in
    let at_header' : h₂ header ≡ some (dll g 0 fresh) = set_cell_self h₁ header _ in
    let at_fresh : h₂ fresh ≡ some (dll x header q) =
      set_cell-ne h₁ header fresh _ (ground arith) ∙ set_cell_self h fresh _ in
    let behind : Chain any h₂ fresh q xs = Chain-set_cell any h₁ fresh q xs header _ apart (
      Chain-set_cell any h fresh q xs fresh _ (ground arith)
        (Chain-any h header fresh q xs rest)) in
    rw
      (
        load-ok h header ne' at_header,
        alloc-ok h fresh (dll x header q) ne,
        set_next-ok h₁ header ne' (set_cell-ne h fresh header _ differ ∙ at_header) fresh,
      )
      (returns (
        (
          refl,
          ne',
          ground arith,
          0,
          fresh,
          at_header',
          tt,
          (refl, ne, ground arith, header, q, at_fresh, tt, behind),
        ),
        front_previous h h₂ header g xs fresh x q list ne differ (ground arith) at_header' at_fresh
            behind (λ a p q. set_cell-ne h₁ header a _ p ∙ set_cell-ne h fresh a _ q),
        λ a p q. set_cell-ne h₁ header a _ p ∙ set_cell-ne h fresh a _ q,
      ))
