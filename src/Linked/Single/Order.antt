-- ===== src/Linked/Single/Order.antt =====
-- `InsertOrder`.
use core_technologies.Base.{
  Bool-cases, Returns, Returns-mono, [], ap, arith, false, if◌then◌else◌, inl, inr, leb_ℤ, ltb_ℤ,
  none, not, refl, returns, some, suc, true, zero, ℕ, ℤ, ◌<◌, ◌==◌, ◌||◌, ◌∙◌, ◌∷◌, ◌≡◌, ◌≢◌,
}
use core_technologies.Linked.Chain.{
  Cells, Chain, Chain-free, Chain-set_cell, IsList, SameOutside, has, size,
}
use core_technologies.Linked.Single.{insert_order, link_order}
use core_technologies.Linked.Store.{
  Heap, Ptr, alloc-ok, load-ok, node, set_cell, set_cell-ne, set_cell_self, set_next, set_next-ok,
  ◌>>◌,
}

-- a cell put before the first one whose element is not below its own
unfoldable pub insert_cell : Ptr × ℤ → Cells → Cells
insert_cell c [] = c ∷ []
insert_cell c (y ∷ ys) = if ltb_ℤ y.1 c.1 then y ∷ insert_cell c ys else c ∷ y ∷ ys

has-insert_cell :
    (a : Ptr) (c : Ptr × ℤ) (xs : Cells) → has a (insert_cell c xs) ≡ ((a == c.0) || has a xs)
unfolding insert_cell
has-insert_cell a c [] = ground arith
has-insert_cell a c (d ∷ xs) = ground (arith, has-insert_cell a c xs)

-- the two links, between the node at `a` and what comes next
link_between :
    (h : Heap) (a : Ptr) (v : ℤ) (q : Ptr) (xs : Cells) (t : Ptr) (x : ℤ) {r : Ptr}
    → a ≢ 0
    → h a ≡ some (node v q)
    → has a xs ≡ false
    → Chain h q xs
    → has t ((a, v) ∷ xs) ≡ false
    → t ≢ 0
    → h t ≡ some (node x r)
    → Returns
        (λ (_, h'). Chain h' a ((a, v) ∷ (t, x) ∷ xs) × SameOutside ((t, x) ∷ (a, v) ∷ xs) h h')
        ((set_next t q >> set_next a t) h)
link_between h a v q xs t x ne' there apart rest out ne new =
    let differ : a ≢ t = ground arith in
    rw
      (
        set_next-ok h t ne new q,
        set_next-ok (set_cell h t (some (node x q))) a ne' (set_cell-ne h t a _ differ ∙ there) t,
      )
      (returns (
        (
          refl,
          ne',
          ground arith,
          t,
          set_cell_self _ a _,
          (
            refl,
            ne,
            ground arith,
            q,
            set_cell-ne _ a t _ (ground arith) ∙ set_cell_self h t _,
            Chain-set_cell _ q xs a _ apart (Chain-set_cell h q xs t _ (ground arith) rest),
          ),
        ),
        λ b i. set_cell-ne _ a b _ (ground arith) ∙ set_cell-ne h t b _ (ground arith),
      ))

-- The loop from the node at `a` on puts the new node in its place among the later ones.
link_order-Chain :
    (fuel : ℕ) (h : Heap) (a : Ptr) (v : ℤ) (xs : Cells) (t : Ptr) (x : ℤ) {r : Ptr}
    → size xs < fuel
    → Chain h a ((a, v) ∷ xs)
    → has t ((a, v) ∷ xs) ≡ false
    → t ≢ 0
    → h t ≡ some (node x r)
    → Returns
        (λ (_, h').
          Chain h' a ((a, v) ∷ insert_cell (t, x) xs) × SameOutside ((t, x) ∷ (a, v) ∷ xs) h h')
        (link_order fuel a x t h)
unfolding link_order insert_cell
link_order-Chain zero h a v xs t x f ch out ne new = absurd (omega arith)
link_order-Chain (suc fuel) h a v [] t x f (_, ne', apart, q, there, end) out ne new =
    let last : (q == 0) ≡ true = ground arith in
    rw (load-ok h a ne' there, last) (link_between h a v q [] t x ne' there apart end out ne new)
link_order-Chain (suc fuel) h a v ((b, w) ∷ xs) t x f (_, ne', apart, q, there, rest) out ne new =
    let more : (q == 0) ≡ false = ground arith in
    let (e, ne'', apart', q', there', rest') = rest in
    let whole : Chain h b ((b, w) ∷ xs) = (refl, ne'', apart', q', there', rest') in
    let at_a : h a ≡ some (node v b) = there ∙ ap (λ r. some (node v r)) e in
    rw (load-ok h a ne' there, more, e, load-ok h b ne'' there')
      (elim (Bool-cases (ltb_ℤ w x)) [
        | inl lt ↦ rw lt (
            Returns-mono
              (link_order-Chain fuel h b w xs t x (omega arith) whole (ground arith) ne new)
              λ (_, h') (ch, same). (
                (
                  refl,
                  ne',
                  ground (arith, has-insert_cell a (t, x) xs),
                  b,
                  same a (ground arith) ∙ at_a,
                  ch,
                ),
                λ c i. same c (ground arith),
              ))
        | inr ge ↦ rw ge (link_between h a v b ((b, w) ∷ xs) t x ne' at_a apart whole out ne new)
      ])

leb_not_ltb : (x y : ℤ) → leb_ℤ x y ≡ not (ltb_ℤ y x)
leb_not_ltb x y = ground arith

-- the code before the loop takes the same step as a round of the loop
insert_order-link_order :
    (fuel : ℕ) (h : Heap) (header : Ptr) (g : ℤ) (xs : Cells) (fresh : Ptr) (x : ℤ) (rest : Ptr)
    → fresh ≢ 0
    → IsList (set_cell h fresh (some (node x rest))) header g xs
    → insert_order fuel header x fresh rest h
      ≡ link_order (suc fuel) header x fresh (set_cell h fresh (some (node x rest)))
unfolding insert_order link_order
insert_order-link_order fuel h header g [] fresh x rest ne (_, ne', _, q, there, end) =
    let last : (q == 0) ≡ true = ground arith in
    rw (alloc-ok h fresh (node x rest) ne, load-ok _ header ne' there, last) refl
insert_order-link_order fuel h header g ((b, w) ∷ xs) fresh x rest ne (_, ne', _, q, there, ch) =
    let more : (q == 0) ≡ false = ground arith in
    let (e, ne'', _, q', there', _) = ch in
    rw
      (
        alloc-ok h fresh (node x rest) ne,
        load-ok _ header ne' there,
        more,
        e,
        load-ok _ b ne'' there',
        leb_not_ltb x w,
      )
      (elim (Bool-cases (ltb_ℤ w x)) [ inl lt ↦ rw lt refl | inr ge ↦ rw ge refl ])

-- `InsertOrder` puts the new node before the first one whose element is not below the new one, and
-- changes no cell outside of the list and the new node; `malloc` gives a free address that is not
-- null, and `fuel` is above the number of nodes.
pub insert_order-IsList :
    (fuel : ℕ) (h : Heap) (header : Ptr) (g : ℤ) (xs : Cells) (fresh : Ptr) (x : ℤ) (rest : Ptr)
    → size xs < fuel
    → IsList h header g xs
    → fresh ≢ 0
    → h fresh ≡ none
    → Returns
        (λ (_, h').
          IsList h' header g (insert_cell (fresh, x) xs)
          × SameOutside ((fresh, x) ∷ (header, g) ∷ xs) h h')
        (insert_order fuel header x fresh rest h)
insert_order-IsList fuel h header g xs fresh x rest f list ne unused =
    let out = Chain-free h header ((header, g) ∷ xs) fresh list unused in
    let list' = Chain-set_cell h header ((header, g) ∷ xs) fresh (some (node x rest)) out list in
    rw (insert_order-link_order fuel h header g xs fresh x rest ne list') (
      Returns-mono
        (link_order-Chain (suc fuel) (set_cell h fresh (some (node x rest))) header g xs fresh x
          (omega arith) list' out ne (set_cell_self h fresh _))
        λ (_, h') (ch, same).
          (ch, λ a i. same a (ground arith) ∙ set_cell-ne h fresh a _ (ground arith)))
