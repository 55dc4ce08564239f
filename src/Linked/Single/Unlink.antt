-- ===== src/Linked/Single/Unlink.antt =====
-- What `Delete` of Single_linked_list.c does at the place that it has found.
use core_technologies.Base.{
  Bool-cases, [], ap, arith, eq_of_parts, eqb_ℤ, false, if◌then◌else◌, inl, inr, ok, refl, some,
  suc, true, zero, ℕ, ℤ, ◌<◌, ◌==◌, ◌∙◌, ◌∷◌, ◌≡◌, ◌≢◌,
}
use core_technologies.Linked.Chain.{Cells, Chain, Chain-set_cell, SameOutside, has, size}
use core_technologies.Linked.Single.{predecessor}
use core_technologies.Linked.Single.Find.{place}
use core_technologies.Linked.Store.{
  Heap, Ptr, load-ok, node, set_cell, set_cell-ne, set_cell_self, set_next, set_next-ok,
}

-- the nodes without the first one that holds the element
unfoldable pub without : ℤ → Cells → Cells
without x [] = []
without x (c ∷ xs) = if eqb_ℤ c.1 x then xs else c ∷ without x xs

-- the node in front of the one that `place` finds, or the last one
unfoldable pub before : Ptr → Cells → ℤ → Ptr
before a [] x = a
before a (c ∷ xs) x = if eqb_ℤ c.1 x then a else before c.0 xs x

place-apart : (b : Ptr) (xs : Cells) (x : ℤ) → has b xs ≡ false → b ≢ 0 → (b == place xs x) ≡ false
unfolding place
place-apart b [] x out ne = ground arith
place-apart b (c ∷ xs) x out ne = ground (arith, place-apart b xs x)

pub has-without : (a : Ptr) (x : ℤ) (xs : Cells) → has a xs ≡ false → has a (without x xs) ≡ false
unfolding without
has-without a x [] out = refl
has-without a x (c ∷ xs) out = ground (arith, has-without a x xs)

pub predecessor-before :
    (fuel : ℕ) (h : Heap) (a : Ptr) (v : ℤ) (xs : Cells) (x : ℤ)
    → size xs < fuel
    → Chain h a ((a, v) ∷ xs)
    → predecessor fuel a (place xs x) h ≡ ok (before a xs x, h)
unfolding predecessor before place
predecessor-before zero h a v xs x f ch = absurd (omega arith)
predecessor-before (suc fuel) h a v [] x f (_, ne, _, q, there, end) =
    let last : (q == 0) ≡ true = ground arith in rw (load-ok h a ne there, last) refl
predecessor-before (suc fuel) h a v ((b, w) ∷ xs) x f (_, ne, _, q, there, rest) =
    let (e, ne', out, q', there', rest') = rest in
    let later =
      predecessor-before fuel h b w xs x (omega arith) (refl, ne', out, q', there', rest') in
    let same : (b == b) ≡ true = ground arith in
    rw (load-ok h a ne there, e)
      (elim (Bool-cases (eqb_ℤ w x)) [
        | inl hit ↦ rw (hit, same) refl
        | inr miss ↦ rw (miss, place-apart b xs x out ne', later) refl
      ])

place-none : (x : ℤ) → place [] x ≡ 0
unfolding place
place-none x = refl

place-hit : (b : Ptr) (w : ℤ) (xs : Cells) (x : ℤ) → eqb_ℤ w x ≡ true → place ((b, w) ∷ xs) x ≡ b
unfolding place
place-hit b w xs x hit = rw hit refl

place-miss :
    (b : Ptr) (w : ℤ) (xs : Cells) (x : ℤ) → eqb_ℤ w x ≡ false → place ((b, w) ∷ xs) x ≡ place xs x
unfolding place
place-miss b w xs x miss = rw miss refl

-- the link past the node that `place` finds
pub unlink_next :
    (h : Heap) (a : Ptr) (v : ℤ) (xs : Cells) (x : ℤ)
    → Chain h a ((a, v) ∷ xs)
    → place xs x ≢ 0
    → (q : Ptr) × (h' : Heap) × (h (place xs x) ≡ some (node x q))
      × (set_next (before a xs x) q h ≡ ok (tt, h'))
      × (h' (place xs x) ≡ some (node x q))
      × Chain h' a ((a, v) ∷ without x xs)
      × (has (place xs x) ((a, v) ∷ without x xs) ≡ false)
      × (has (place xs x) xs ≡ true)
      × SameOutside ((a, v) ∷ xs) h h'
unfolding before without
unlink_next h a v [] x ch found = absurd (found (place-none x))
unlink_next h a v ((b, w) ∷ xs) x (_, ne, apart, q, there, rest) found =
    let (e, ne', out, q', there', rest') = rest in
    elim (Bool-cases (eqb_ℤ w x)) [
      | inl hit ↦
          let value : w ≡ x = eq_of_parts w x (ground arith) in
          let p-hit = place-hit b w xs x hit in
          let p_out : has (place ((b, w) ∷ xs) x) xs ≡ false = ap (λ r. has r xs) p-hit ∙ out in
          rw (place-hit b w xs x hit, hit)
            (
              q',
              set_cell h a (some (node v q')),
              there' ∙ ap (λ r. some (node r q')) value,
              set_next-ok h a ne there q',
              set_cell-ne h a b _ (ground arith) ∙ there' ∙ ap (λ r. some (node r q')) value,
              (
                refl,
                ne,
                ground arith,
                q',
                set_cell_self h a _,
                Chain-set_cell h q' xs a _ (ground arith) rest',
              ),
              ground arith,
              ground arith,
              λ c i. set_cell-ne h a c _ (ground arith),
            )
      | inr miss ↦
          let (q'', h', at_p, step, still, ch, gone, inside, same) =
            unlink_next h b w xs x (refl, ne', out, q', there', rest')
              (rw (place-miss b w xs x miss) at found) in
          let p-miss = place-miss b w xs x miss in
          let gone' = ap (λ r. has r ((b, w) ∷ without x xs)) p-miss ∙ gone in
          let inside' = ap (λ r. has r xs) p-miss ∙ inside in
          let apart' : (place ((b, w) ∷ xs) x == a) ≡ false = ground arith in
          rw (place-miss b w xs x miss, miss)
            (
              q'',
              h',
              at_p,
              step,
              still,
              (
                refl,
                ne,
                ground (arith, has-without a x xs),
                b,
                same a apart ∙ there ∙ ap (λ r. some (node v r)) e,
                ch,
              ),
              ground arith,
              ground arith,
              λ c i. same c (ground arith),
            )
    ]
