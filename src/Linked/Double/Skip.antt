-- ===== src/Linked/Double/Skip.antt =====
-- A chain without one of its nodes.
use core_technologies.Base.{[], ap, arith, false, refl, some, ℤ, ◌++◌, ◌∙◌, ◌∷◌, ◌≡◌, ◌≢◌, sym}
use core_technologies.Linked.Chain.{Cells, has}
use core_technologies.Linked.Double.{Heap, dll}
use core_technologies.Linked.Double.Chain.{Chain, Chain-frame, exact}
use core_technologies.Linked.Merged.{has-append}
use core_technologies.Linked.Memory.{Ptr}
use core_technologies.Linked.Walk.{end_of, has-end_of, has_ne}

-- the node at `a`, the one before it and the chain behind it
pub before_node :
    (h : Heap) (b e : Ptr) (v : ℤ) (ys : Cells) (a : Ptr) (x : ℤ) (zs : Cells)
    → Chain exact h b e ((e, v) ∷ ys ++ ((a, x) ∷ zs))
    → (u : ℤ) × (r q : Ptr) × (h (end_of e ys) ≡ some (dll u r a))
      × (end_of e ys ≢ 0)
      × (h a ≡ some (dll x (end_of e ys) q))
      × (a ≢ 0)
      × (end_of e ys ≢ a)
      × (has (end_of e ys) zs ≡ false)
      × (has a zs ≡ false)
      × Chain exact h a q zs
before_node h b e v [] a x zs
      (_, ne, apart, r, q, there, back, (e', ne', apart', r', q', there', back', rest)) =
    (
      v,
      r,
      q',
      there ∙ ap (λ s. some (dll v r s)) e',
      ne,
      there' ∙ ap (λ s. some (dll x s q')) back',
      ne',
      ground arith,
      ground arith,
      apart',
      rest,
    )
before_node h b e v ((k, w) ∷ ys) a x zs (_, ne, apart, r, q, there, back, rest) =
    before_node h e k w ys a x zs (rw rest.0 at rest)

pub next_eq : (v w : ℤ) (r s q t : Ptr) → some (dll v r q) ≡ some (dll w s t) → q ≡ t
next_eq v w r s q t e = cc

pub next_change :
    (v w : ℤ) (r s q t d : Ptr)
    → some (dll v r q) ≡ some (dll w s t)
    → some (dll v r d) ≡ some (dll w s d)
next_change v w r s q t d e = cc

-- The chain without the node at `a`, in a heap `g` that differs in the links over it.
pub Chain-skip :
    (h g : Heap) (b e : Ptr) (v : ℤ) (ys : Cells) (a : Ptr) (x : ℤ) (d : Ptr) (w : ℤ) (zs : Cells)
    (u : ℤ) (r s : Ptr)
    → Chain exact h b e ((e, v) ∷ ys ++ ((a, x) ∷ (d, w) ∷ zs))
    → h (end_of e ys) ≡ some (dll u r a)
    → h d ≡ some (dll w a s)
    → g (end_of e ys) ≡ some (dll u r d)
    → g d ≡ some (dll w (end_of e ys) s)
    → ((c : Ptr) → c ≢ end_of e ys → c ≢ a → c ≢ d → g c ≡ h c)
    → Chain exact g b e ((e, v) ∷ ys ++ ((d, w) ∷ zs))
Chain-skip h g b e v [] a x d w zs u r s (_, ne, apart, r', q, there, back, second) before at_d now
      now_d same =
    let (_, ne', apart', _, q', _, _, (e'', ne'', apart'', r'', s', there'', _, rest)) = second in
    (
      refl,
      ne,
      ground arith,
      r',
      d,
      now ∙ next_change u v r r' a q d (sym before ∙ there),
      back,
      (
        refl,
        ne'',
        apart'',
        e,
        s',
        now_d ∙ ap (λ t. some (dll w e t)) (next_eq w w a r'' s s' (sym at_d ∙ there'')),
        refl,
        Chain-frame exact h g d s' zs (λ c i. same c (ground arith) (ground arith) (ground arith))
            rest,
      ),
    )
Chain-skip h g b e v ((k, w') ∷ ys) a x d w zs u r s (_, ne, apart, r', q, there, back, rest) before
      at_d now now_d same =
    let inside = has-end_of k w' ys in
    (
      refl,
      ne,
      ground (arith, has-append e ys ((a, x) ∷ (d, w) ∷ zs), has-append e ys ((d, w) ∷ zs)),
      r',
      k,
      same e
            (has_ne e (end_of k ys) ((k, w') ∷ ys)
              (ground (arith, has-append e ys ((a, x) ∷ (d, w) ∷ zs))) inside)
            (ground (arith, has-append e ys ((a, x) ∷ (d, w) ∷ zs)))
            (ground (arith, has-append e ys ((a, x) ∷ (d, w) ∷ zs)))
          ∙ there
          ∙ ap (λ t. some (dll v r' t)) rest.0,
      back,
      Chain-skip h g e k w' ys a x d w zs u r s (rw rest.0 at rest) before at_d now now_d same,
    )
