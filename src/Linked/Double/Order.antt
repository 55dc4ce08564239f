-- ===== src/Linked/Double/Order.antt =====
-- `InsertOrder`.
use core_technologies.Base.{
  Bool-cases, Returns, Returns-mono, [], ap, arith, false, if◌then◌else◌, inl, inr, leb_ℤ, ltb_ℤ,
  none, refl, some, suc, true, zero, ℕ, ℤ, ◌++◌, ◌<◌, ◌<ℤ◌, ◌≤ℤ◌, ◌==◌, ◌∙◌, ◌∷◌, ◌≡◌, ◌≢◌,
}
use core_technologies.Linked.Chain.{Cells, has, size}
use core_technologies.Linked.Double.{
  Dll, Heap, dll, insert_order, link_order, set_next, set_previous,
}
use core_technologies.Linked.Double.Chain.{Chain, Chain-free, Chain-set_cell, IsList, any}
use core_technologies.Linked.Memory.{
  Ptr, alloc-ok, load, load-ok, set_cell, set_cell-ne, set_cell_self, ◌>>=◌, ◌>>◌,
}
use core_technologies.Linked.Double.Place.{
  cell_after, has-cell_after, link_behind, link_front, order_cell,
}

-- The loop from the node at `a` on.
link_order-Chain :
    (fuel : ℕ) (h : Heap) (b a : Ptr) (v : ℤ) (xs : Cells) (t : Ptr) (x : ℤ) {s s' : Ptr}
    → size xs < fuel
    → Chain any h b a ((a, v) ∷ xs)
    → has t ((a, v) ∷ xs) ≡ false
    → t ≢ 0
    → h t ≡ some (dll x s s')
    → Returns
        (λ (_, h').
          Chain any h' b a (cell_after (t, x) (a, v) xs)
          × ((d : Ptr) → has d ((t, x) ∷ (a, v) ∷ xs) ≡ false → h' d ≡ h d))
        (link_order fuel a x t h)
unfolding link_order cell_after
link_order-Chain zero h b a v xs t x f ch out ne new = absurd (omega arith)
link_order-Chain (suc fuel) h b a v [] t x f (_, ne', apart, r, q, there, _, end) out ne new =
    let last : (q == 0) ≡ true = ground arith in
    rw (load-ok h a ne' there, last) (link_behind h b a v r q [] t x ne' there apart end out ne new)
link_order-Chain (suc fuel) h b a v ((d, w) ∷ xs) t x f (_, ne', apart, r, q, there, _, rest) out ne
      new =
    let more : (q == 0) ≡ false = ground arith in
    rw (load-ok h a ne' there, more)
      (elim (Bool-cases (ltb_ℤ v x)) [
        | inl lt ↦
            rw (lt, rest.0)
              (Returns-mono
                (link_order-Chain fuel h a d w xs t x (omega arith) (rw rest.0 at rest)
                  (ground arith) ne new)
                λ (_, h') (ch, same). (
                  (
                    refl,
                    ne',
                    has-cell_after a (t, x) (d, w) xs ∙ ground arith,
                    r,
                    d,
                    same a (ground arith) ∙ there ∙ ap (λ e. some (dll v r e)) rest.0,
                    tt,
                    ch,
                  ),
                  λ c i. same c (ground arith),
                ))
        | inr ge ↦ rw ge (link_behind h b a v r q ((d, w) ∷ xs) t x ne' there apart rest out ne new)
      ])

-- what `InsertOrder` does with the new node
ordered :
    (fuel : ℕ) (h : Heap) (header : Ptr) (g : ℤ) (xs : Cells) (t : Ptr) (x : ℤ) {s s' : Ptr}
    → size xs < fuel
    → IsList any h header g xs
    → has t ((header, g) ∷ xs) ≡ false
    → t ≢ 0
    → h t ≡ some (dll x s s')
    → Returns
        (λ (_, h').
          IsList any h' header g (order_cell (t, x) xs)
          × ((d : Ptr) → has d ((t, x) ∷ (header, g) ∷ xs) ≡ false → h' d ≡ h d))
        ((do
          n ← load header
          if n.next == 0
              then (do set_next t n.next; set_next header t; set_previous t header)
              else (do
                m ← load n.next
                if leb_ℤ x m.element
                    then (do set_next t n.next; set_next header t; set_previous t header)
                    else link_order fuel n.next x t))
          h)
unfolding order_cell
ordered fuel h header g [] t x f (_, ne', apart, r, q, there, _, end) out ne new =
    let null : (q == 0) ≡ true = ground arith in
    rw (load-ok h header ne' there, null)
      (link_front h header g r q [] t x ne' there apart end out ne new)
ordered fuel h header g ((d, w) ∷ xs) t x f (_, ne', apart, r, q, there, _, first) out ne new =
    let more : (q == 0) ≡ false = ground arith in
    let (e, ne_d, apart_d, r_d, q_d, there_d, _, rest) = first in
    let first' : Chain any h header d ((d, w) ∷ xs) =
      (refl, ne_d, apart_d, r_d, q_d, there_d, tt, rest) in
    let there' : h header ≡ some (dll g r d) = there ∙ ap (λ p. some (dll g r p)) e in
    rw (load-ok h header ne' there, more, e, load-ok h d ne_d there_d)
      (elim (Bool-cases (leb_ℤ x w)) [
        | inl le ↦
            rw le (link_front h header g r d ((d, w) ∷ xs) t x ne' there' apart first' out ne new)
        | inr gt ↦ rw gt (
            Returns-mono
              (link_order-Chain fuel h header d w xs t x (omega arith) first' (ground arith) ne new)
              λ (_, h') (ch, same). (
                (
                  refl,
                  ne',
                  has-cell_after header (t, x) (d, w) xs ∙ ground arith,
                  r,
                  d,
                  same header (ground arith) ∙ there',
                  tt,
                  ch,
                ),
                λ c i. same c (ground arith),
              ))
      ])

-- `InsertOrder` puts the new node where `order_cell` says, reached by the `next` links, and changes
-- no cell outside of the list and the new node; `malloc` gives a free address that is not null, and
-- `fuel` is above the number of nodes.
pub insert_order-IsList :
    (fuel : ℕ) (h : Heap) (header : Ptr) (g : ℤ) (xs : Cells) (fresh : Ptr) (x : ℤ) (rest : Dll)
    → size xs < fuel
    → IsList any h header g xs
    → fresh ≢ 0
    → h fresh ≡ none
    → Returns
        (λ (_, h').
          IsList any h' header g (order_cell (fresh, x) xs)
          × ((d : Ptr) → has d ((fresh, x) ∷ (header, g) ∷ xs) ≡ false → h' d ≡ h d))
        (insert_order fuel header x fresh rest h)
unfolding insert_order order_cell
insert_order-IsList fuel h header g xs fresh x rest f list ne unused =
    let out = Chain-free any h 0 header ((header, g) ∷ xs) fresh list unused in
    let h₁ = set_cell h fresh (some (record rest { element = x })) in
    let list' : IsList any h₁ header g xs =
      Chain-set_cell any h 0 header ((header, g) ∷ xs) fresh _ out list in
    let new : h₁ fresh ≡ some (dll x rest.previous rest.next) = set_cell_self h fresh _ in
    rw (alloc-ok h fresh (record rest { element = x }) ne) (
      Returns-mono (ordered fuel h₁ header g xs fresh x f list' out ne new)
        λ (_, h') (ch, same). (ch, λ d i. same d i ∙ set_cell-ne h fresh d _ (ground arith)))

-- the elements of `xs` are below `x`
abbrev pub AllBelow : ℤ → Cells → Type 0
AllBelow x [] = Unit {0}
AllBelow x (c ∷ xs) = (c.1 <ℤ x) × AllBelow x xs

cell_after-above :
    (c y : Ptr × ℤ) (ys : Cells) (z : Ptr × ℤ) (zs : Cells)
    → y.1 <ℤ c.1
    → AllBelow c.1 ys
    → c.1 ≤ℤ z.1
    → cell_after c y (ys ++ (z ∷ zs)) ≡ (y ∷ ys) ++ (z ∷ c ∷ zs)
unfolding cell_after
cell_after-above c y [] z [] low below above = ground arith
cell_after-above c y [] z (w ∷ zs) low below above = ground arith
cell_after-above c y (w ∷ ys) z zs low below above =
    ground (arith, cell_after-above c w ys z zs below.0 below.1 above)

-- Where the elements of the first nodes, of which there is at least one, are below the new one, and
-- the next one is not, `InsertOrder` puts the new node behind that next one instead of in front of
-- it: the `next` links lead from a larger element to the new one, if the two differ. `malloc`
-- gives a free address that is not null, and `fuel` is above the number of nodes.
pub insert_order-behind :
    (fuel : ℕ) (h : Heap) (header : Ptr) (g : ℤ) (y : Ptr × ℤ) (ys : Cells) (z : Ptr × ℤ)
    (zs : Cells) (fresh : Ptr) (x : ℤ) (rest : Dll)
    → AllBelow x (y ∷ ys)
    → x ≤ℤ z.1
    → size (y ∷ ys ++ (z ∷ zs)) < fuel
    → IsList any h header g (y ∷ ys ++ (z ∷ zs))
    → fresh ≢ 0
    → h fresh ≡ none
    → Returns
        (λ (_, h'). IsList any h' header g (y ∷ ys ++ (z ∷ (fresh, x) ∷ zs)))
        (insert_order fuel header x fresh rest h)
unfolding order_cell
insert_order-behind fuel h header g y ys z zs fresh x rest (low, below) above f list ne unused =
    let first : leb_ℤ x y.1 ≡ false = ground arith in
    let placed : order_cell (fresh, x) (y ∷ ys ++ (z ∷ zs)) ≡ y ∷ ys ++ (z ∷ (fresh, x) ∷ zs) =
      rw first (cell_after-above (fresh, x) y ys z zs low below above) in
    Returns-mono
      (insert_order-IsList fuel h header g (y ∷ ys ++ (z ∷ zs)) fresh x rest f list ne unused)
      λ (_, h') (ch, _). rw placed at ch
