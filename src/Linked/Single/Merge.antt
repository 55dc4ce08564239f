-- ===== src/Linked/Single/Merge.antt =====
-- `Merge_SLL`.
use core_technologies.Base.{
  Bool-cases, Returns, Returns-mono, Run, [], arith, false, inl, inr, ltb_ℤ, none, refl, returns,
  some, suc, true, zero, ℕ, ℤ, ◌++◌, ◌+◌, ◌<◌, ◌==◌, ◌∙◌, ◌∷◌, ◌≡◌, ◌≢◌, ◌≤◌,
}
use core_technologies.Linked.Chain.{
  Cells, Chain, Chain-free, Chain-set_cell, IsList, SameOutside, has, size,
}
use core_technologies.Linked.Merged.{
  Apart, Apart-cons, Ascends, has-append, has-merged, merged, merged-Ascends, merged_nil,
}
use core_technologies.Linked.Single.{merge_loop, merge_sll}
use core_technologies.Linked.Store.{
  Heap, Ptr, alloc-ok, and_then, load-ok, node, pure, set_cell, set_cell-ne, set_cell_self,
  set_next-ok,
}

-- The loop links the merge of both rests behind the node at `p3`.
merge_loop-Chain :
    (fuel n : ℕ) (h : Heap) (p1 p2 p3 : Ptr) (xs ys : Cells) (v : ℤ) {r : Ptr}
    → size xs + size ys ≤ n
    → n < fuel
    → Chain h p1 xs
    → Chain h p2 ys
    → Apart xs ys
    → p3 ≢ 0
    → has p3 xs ≡ false
    → has p3 ys ≡ false
    → h p3 ≡ some (node v r)
    → Returns
        (λ (_, h'). Chain h' p3 ((p3, v) ∷ merged n xs ys) × SameOutside ((p3, v) ∷ xs ++ ys) h h')
        (merge_loop fuel p1 p2 p3 h)
unfolding merge_loop merged
merge_loop-Chain zero n h p1 p2 p3 xs ys v le f c1 c2 apart ne out1 out2 there =
    absurd (omega arith)
merge_loop-Chain (suc fuel) n h p1 p2 p3 [] ys v le f c1 c2 apart ne out1 out2 there =
    let null : (p1 == 0) ≡ true = ground arith in
    rw (null, merged_nil n ys, set_next-ok h p3 ne there p2)
      (returns (
        (refl, ne, out2, p2, set_cell_self h p3 _, Chain-set_cell h p2 ys p3 _ out2 c2),
        λ b i. set_cell-ne h p3 b _ (ground arith),
      ))
merge_loop-Chain (suc fuel) zero h p1 p2 p3 (x ∷ xs) ys v le f c1 c2 apart ne out1 out2 there =
    absurd (omega arith)
merge_loop-Chain (suc fuel) (suc n) h p1 p2 p3 (x ∷ xs) [] v le f c1 c2 apart ne out1 out2 there =
    let some_there : (p1 == 0) ≡ false = ground arith in
    let null : (p2 == 0) ≡ true = ground arith in
    rw (some_there, null, set_next-ok h p3 ne there p1)
      (returns (
        (refl, ne, out1, p1, set_cell_self h p3 _, Chain-set_cell h p1 (x ∷ xs) p3 _ out1 c1),
        λ b i. set_cell-ne h p3 b _ (ground arith),
      ))
merge_loop-Chain (suc fuel) (suc n) h p1 p2 p3 ((a, w) ∷ xs) ((b, u) ∷ ys) v le f c1 c2 apart ne
      out1 out2 there =
    let (e1, ne1, o1, q1, t1, rest1) = c1 in
    let (e2, ne2, o2, q2, t2, rest2) = c2 in
    let more1 : (a == 0) ≡ false = ground arith in
    let more2 : (b == 0) ≡ false = ground arith in
    rw (e1, e2, more1, more2, load-ok h a ne1 t1, load-ok h b ne2 t2)
      (elim (Bool-cases (ltb_ℤ w u)) [
        | inl lt ↦
            let h1 = set_cell h p3 (some (node v a)) in
            let t1' = set_cell-ne h p3 a (some (node v a)) (ground arith) ∙ t1 in
            rw (lt, set_next-ok h p3 ne there a, load-ok h1 a ne1 t1')
              (Returns-mono
                (merge_loop-Chain fuel n h1 q1 b a xs ((b, u) ∷ ys) w (omega arith) (omega arith)
                  (Chain-set_cell h q1 xs p3 _ (ground arith) rest1)
                  (Chain-set_cell h b ((b, u) ∷ ys) p3 _ out2 (refl, ne2, o2, q2, t2, rest2))
                  apart.1 ne1 o1 apart.0 t1')
                λ (_, h') (ch, same).
                  let rest_append = has-append p3 xs ((b, u) ∷ ys) in
                  (
                    (
                      refl,
                      ne,
                      ground (arith, has-merged n p3 xs ((b, u) ∷ ys) (omega arith)),
                      a,
                      same p3 (ground arith) ∙ set_cell_self h p3 _,
                      ch,
                    ),
                    λ c i. same c (ground arith) ∙ set_cell-ne h p3 c _ (ground arith),
                  ))
        | inr ge ↦
            let h1 = set_cell h p3 (some (node v b)) in
            let t2' = set_cell-ne h p3 b (some (node v b)) (ground arith) ∙ t2 in
            let (apart', out) = Apart-cons ((a, w) ∷ xs) (b, u) ys apart in
            rw (ge, set_next-ok h p3 ne there b, load-ok h1 b ne2 t2')
              (Returns-mono
                (merge_loop-Chain fuel n h1 a q2 b ((a, w) ∷ xs) ys u (omega arith) (omega arith)
                  (Chain-set_cell h a ((a, w) ∷ xs) p3 _ out1 (refl, ne1, o1, q1, t1, rest1))
                  (Chain-set_cell h q2 ys p3 _ (ground arith) rest2) apart' ne2 out o2 t2')
                λ (_, h') (ch, same).
                  let short = has-append p3 xs ys in
                  (
                    (
                      refl,
                      ne,
                      ground (arith, has-merged n p3 ((a, w) ∷ xs) ys (omega arith)),
                      b,
                      same p3 (ground arith) ∙ set_cell_self h p3 _,
                      ch,
                    ),
                    λ c i.
                        same c (ground (arith, has-append c xs ys, has-append c xs ((b, u) ∷ ys)))
                        ∙ set_cell-ne h p3 c _ (ground arith),
                  ))
      ])

and_then-pure :
    {A B : Type 0} {P : A × Heap → Type 0} {Q : B × Heap → Type 0} {r : Run (A × Heap)} (b : B)
    → Returns P r
    → ((a : A) (h : Heap) → P (a, h) → Q (b, h))
    → Returns Q (and_then r (λ _. pure b))
and_then-pure b (returns p) next = returns (next _ _ p)

-- `Merge_SLL` of two ascending lists with no node in common returns a list, under a new header,
-- of the same nodes merged, which ascends; no other cell than these changes. `malloc` gives a free
-- address that is not null, and `fuel` is above the number of nodes of both lists.
pub merge_sll-IsList :
    (fuel : ℕ) (h : Heap) (header1 header2 : Ptr) (g1 g2 : ℤ) (xs ys : Cells) (fresh : Ptr) (g : ℤ)
    (rest : Ptr)
    → size xs + size ys < fuel
    → IsList h header1 g1 xs
    → IsList h header2 g2 ys
    → Apart xs ys
    → Ascends xs
    → Ascends ys
    → fresh ≢ 0
    → h fresh ≡ none
    → Returns
        (λ (p, h').
          (p ≡ fresh)
          × IsList h' fresh g (merged (size xs + size ys) xs ys)
          × Ascends (merged (size xs + size ys) xs ys)
          × SameOutside ((fresh, g) ∷ xs ++ ys) h h')
        (merge_sll fuel header1 header2 fresh (node g rest) h)
unfolding merge_sll
merge_sll-IsList fuel h header1 header2 g1 g2 xs ys fresh g rest f l1 l2 apart ax ay ne unused =
    let out1 = Chain-free h header1 ((header1, g1) ∷ xs) fresh l1 unused in
    let out2 = Chain-free h header2 ((header2, g2) ∷ ys) fresh l2 unused in
    let h1 = set_cell h fresh (some (node g rest)) in
    let (_, ne1, _, q1, t1, c1) =
      Chain-set_cell h header1 ((header1, g1) ∷ xs) fresh (some (node g rest)) out1 l1 in
    let (_, ne2, _, q2, t2, c2) =
      Chain-set_cell h header2 ((header2, g2) ∷ ys) fresh (some (node g rest)) out2 l2 in
    rw (alloc-ok h fresh (node g rest) ne, load-ok h1 header1 ne1 t1, load-ok h1 header2 ne2 t2)
      (and_then-pure fresh
        (merge_loop-Chain fuel (size xs + size ys) h1 q1 q2 fresh xs ys g (omega arith) f c1 c2
          apart ne (ground arith) (ground arith) (set_cell_self h fresh _))
        λ _ h' (ch, same). (
          refl,
          ch,
          merged-Ascends (size xs + size ys) xs ys ax ay,
          λ c i. same c i ∙ set_cell-ne h fresh c _ (ground arith),
        ))
