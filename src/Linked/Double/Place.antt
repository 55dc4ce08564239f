-- ===== src/Linked/Double/Place.antt =====
-- Where `InsertOrder` puts a node, and its links.
use core_technologies.Base.{
  Returns, [], arith, false, if◌then◌else◌, leb_ℤ, ltb_ℤ, refl, returns, some, ℤ, ◌==◌, ◌||◌, ◌∙◌,
  ◌∷◌, ◌≡◌, ◌≢◌,
}
use core_technologies.Linked.Chain.{Cells, has}
use core_technologies.Linked.Double.{Heap, dll, set_next, set_previous}
use core_technologies.Linked.Double.Chain.{Chain, Chain-frame, any, set_next-ok, set_previous-ok}
use core_technologies.Linked.Memory.{Ptr, set_cell, set_cell-ne, set_cell_self, ◌>>◌}

-- a cell behind the first one, from `y` on, that is not below it or is the last
unfoldable pub cell_after : Ptr × ℤ → Ptr × ℤ → Cells → Cells
cell_after c y [] = y ∷ c ∷ []
cell_after c y (z ∷ zs) = if ltb_ℤ y.1 c.1 then y ∷ cell_after c z zs else y ∷ c ∷ z ∷ zs

-- where `InsertOrder` puts a cell
unfoldable pub order_cell : Ptr × ℤ → Cells → Cells
unfolding cell_after
order_cell c [] = c ∷ []
order_cell c (y ∷ ys) = if leb_ℤ c.1 y.1 then c ∷ y ∷ ys else cell_after c y ys

pub has-cell_after :
    (a : Ptr) (c y : Ptr × ℤ) (ys : Cells)
    → has a (cell_after c y ys) ≡ ((a == c.0) || has a (y ∷ ys))
unfolding cell_after
has-cell_after a c y [] = ground arith
has-cell_after a c y (z ∷ zs) = ground (arith, has-cell_after a c z zs)

Chain-rebase : (h : Heap) (b b' p : Ptr) (xs : Cells) → Chain any h b p xs → Chain any h b' p xs
Chain-rebase h b b' p [] c = c
Chain-rebase h b b' p ((a, v) ∷ xs) (e, ne, out, r, q, there, _, rest) =
    (e, ne, out, r, q, there, tt, rest)

-- the new node behind the one at `a`, in a heap `g` that differs in these two cells
Chain-put :
    (h g : Heap) (b a : Ptr) (v : ℤ) (r q : Ptr) (xs : Cells) (t : Ptr) (x : ℤ)
    → a ≢ 0
    → has a xs ≡ false
    → Chain any h a q xs
    → has t ((a, v) ∷ xs) ≡ false
    → t ≢ 0
    → g a ≡ some (dll v r t)
    → g t ≡ some (dll x a q)
    → ((d : Ptr) → d ≢ a → d ≢ t → g d ≡ h d)
    → Chain any g b a ((a, v) ∷ (t, x) ∷ xs)
Chain-put h g b a v r q xs t x ne' apart rest out ne at_a at_t same = (
  refl,
  ne',
  ground arith,
  r,
  t,
  at_a,
  tt,
  (
    refl,
    ne,
    ground arith,
    a,
    q,
    at_t,
    tt,
    Chain-frame any h g t q xs (λ d i. same d (ground arith) (ground arith))
        (Chain-rebase h a t q xs rest),
  ),
)

-- the links that put the new node behind the one at `a`
pub link_behind :
    (h : Heap) (b a : Ptr) (v : ℤ) (r q : Ptr) (xs : Cells) (t : Ptr) (x : ℤ) {s s' : Ptr}
    → a ≢ 0
    → h a ≡ some (dll v r q)
    → has a xs ≡ false
    → Chain any h a q xs
    → has t ((a, v) ∷ xs) ≡ false
    → t ≢ 0
    → h t ≡ some (dll x s s')
    → Returns
        (λ (_, h').
          Chain any h' b a ((a, v) ∷ (t, x) ∷ xs)
          × ((d : Ptr) → has d ((t, x) ∷ (a, v) ∷ xs) ≡ false → h' d ≡ h d))
        ((set_next t q >> (set_previous t a >> set_next a t)) h)
link_behind h b a v r q xs t x {s} ne' there apart rest out ne new =
    let differ : a ≢ t = ground arith in
    let back : t ≢ a = ground arith in
    let h₁ = set_cell h t (some (dll x s q)) in
    let h₂ = set_cell h₁ t (some (dll x a q)) in
    let others : (d : Ptr) → d ≢ a → d ≢ t → set_cell h₂ a (some (dll v r t)) d ≡ h d =
      λ d p₁ p₂. set_cell-ne h₂ a d _ p₁ ∙ set_cell-ne h₁ t d _ p₂ ∙ set_cell-ne h t d _ p₂ in
    rw
      (
        set_next-ok h t ne new q,
        set_previous-ok h₁ t ne (set_cell_self h t _) a,
        set_next-ok h₂ a ne' (set_cell-ne h₁ t a _ differ ∙ set_cell-ne h t a _ differ ∙ there) t,
      )
      (returns (
        Chain-put h _ b a v r q xs t x ne' apart rest out ne (set_cell_self h₂ a _)
            (set_cell-ne h₂ a t _ back ∙ set_cell_self h₁ t _) others,
        λ d i. others d (ground arith) (ground arith),
      ))

-- the same links in the order in which the code before the loop sets them
pub link_front :
    (h : Heap) (a : Ptr) (v : ℤ) (r q : Ptr) (xs : Cells) (t : Ptr) (x : ℤ) {s s' : Ptr}
    → a ≢ 0
    → h a ≡ some (dll v r q)
    → has a xs ≡ false
    → Chain any h a q xs
    → has t ((a, v) ∷ xs) ≡ false
    → t ≢ 0
    → h t ≡ some (dll x s s')
    → Returns
        (λ (_, h').
          Chain any h' 0 a ((a, v) ∷ (t, x) ∷ xs)
          × ((d : Ptr) → has d ((t, x) ∷ (a, v) ∷ xs) ≡ false → h' d ≡ h d))
        ((set_next t q >> (set_next a t >> set_previous t a)) h)
link_front h a v r q xs t x {s} ne' there apart rest out ne new =
    let differ : a ≢ t = ground arith in
    let back : t ≢ a = ground arith in
    let h₁ = set_cell h t (some (dll x s q)) in
    let h₂ = set_cell h₁ a (some (dll v r t)) in
    let others : (d : Ptr) → d ≢ a → d ≢ t → set_cell h₂ t (some (dll x a q)) d ≡ h d =
      λ d p₁ p₂. set_cell-ne h₂ t d _ p₂ ∙ set_cell-ne h₁ a d _ p₁ ∙ set_cell-ne h t d _ p₂ in
    rw
      (
        set_next-ok h t ne new q,
        set_next-ok h₁ a ne' (set_cell-ne h t a _ differ ∙ there) t,
        set_previous-ok h₂ t ne (set_cell-ne h₁ a t _ back ∙ set_cell_self h t _) a,
      )
      (returns (
        Chain-put h _ 0 a v r q xs t x ne' apart rest out ne
            (set_cell-ne h₂ t a _ differ ∙ set_cell_self h₁ a _) (set_cell_self h₂ t _) others,
        λ d i. others d (ground arith) (ground arith),
      ))
