-- ===== src/Linked/Walk.antt =====
-- The loops of LinkedListStack.c and LinkedListQuene.c that look for the end of a list.
use core_technologies.Base.{
  [], ap, arith, false, if◌then◌else◌, ok, out_of_fuel, refl, some, suc, true, zero, ℕ, ℤ, ◌++◌,
  ◌<◌, ◌==◌, ◌∙◌, ◌∷◌, ◌≡◌, ◌≢◌,
}
use core_technologies.Linked.Chain.{Cells, Chain, has, has-snoc, size}
use core_technologies.Linked.Store.{Cmd, Heap, Ptr, load, load-ok, node, pure, ◌>>=◌}

-- `while (p->next != NULL) p = p->next;`
unfoldable pub last : ℕ → (p : Ptr) → Cmd Ptr
last zero p = λ h. out_of_fuel
last (suc fuel) p = do n ← load p; if n.next == 0 then pure p else last fuel n.next

-- `while (pre->next != p) pre = pre->next;`
unfoldable pub pre_of : ℕ → (pre p : Ptr) → Cmd Ptr
pre_of zero pre p = λ h. out_of_fuel
pre_of (suc fuel) pre p = do n ← load pre; if n.next == p then pure pre else pre_of fuel n.next p

-- the last of the node at `a` and those behind it
abbrev pub end_of : Ptr → Cells → Ptr
end_of a [] = a
end_of a (c ∷ xs) = end_of c.0 xs

pub end_of-snoc : (a : Ptr) (xs : Cells) (c : Ptr × ℤ) → end_of a (xs ++ (c ∷ [])) ≡ c.0
end_of-snoc a [] c = refl
end_of-snoc a (d ∷ xs) c = end_of-snoc d.0 xs c

pub last-end_of :
    (fuel : ℕ) (h : Heap) (a : Ptr) (v : ℤ) (xs : Cells)
    → size xs < fuel
    → Chain h a ((a, v) ∷ xs)
    → last fuel a h ≡ ok (end_of a xs, h)
unfolding last
last-end_of zero h a v xs f ch = absurd (omega arith)
last-end_of (suc fuel) h a v [] f (_, ne, _, q, there, end) =
    let null : (q == 0) ≡ true = ground arith in rw (load-ok h a ne there, null) refl
last-end_of (suc fuel) h a v ((b, w) ∷ xs) f (_, ne, _, q, there, rest) =
    let more : (q == 0) ≡ false = ground arith in
    let rest' = rw rest.0 at rest in
    rw (load-ok h a ne there, more, rest.0) (last-end_of fuel h b w xs (omega arith) rest')

-- the node in front of the last one
pub pre_of-end_of :
    (fuel : ℕ) (h : Heap) (a : Ptr) (v : ℤ) (xs : Cells) (e : Ptr) (w : ℤ)
    → size xs < fuel
    → Chain h a ((a, v) ∷ xs ++ ((e, w) ∷ []))
    → pre_of fuel a e h ≡ ok (end_of a xs, h)
unfolding pre_of
pre_of-end_of zero h a v xs e w f ch = absurd (omega arith)
pre_of-end_of (suc fuel) h a v [] e w f (_, ne, _, q, there, rest) =
    let here : (q == e) ≡ true = ground arith in rw (load-ok h a ne there, here) refl
pre_of-end_of (suc fuel) h a v ((b, u) ∷ xs) e w f (_, ne, _, q, there, rest) =
    let out = has-snoc b xs (e, w) in
    let more : (q == e) ≡ false = ground arith in
    let rest' = rw rest.0 at rest in
    rw (load-ok h a ne there, more, rest.0) (pre_of-end_of fuel h b u xs e w (omega arith) rest')

-- the node at the end of a chain
pub end_of-node :
    (h : Heap) (a : Ptr) (v : ℤ) (xs : Cells)
    → Chain h a ((a, v) ∷ xs)
    → (w : ℤ) × (q : Ptr) × (h (end_of a xs) ≡ some (node w q))
      × (end_of a xs ≢ 0)
      × (has (end_of a xs) ((a, v) ∷ xs) ≡ true)
end_of-node h a v [] (_, ne, _, q, there, _) = (v, q, there, ne, ground arith)
end_of-node h a v ((b, u) ∷ xs) (_, ne, _, q, there, rest) =
    let (w, r, at_end, ne', inside) = end_of-node h b u xs (rw rest.0 at rest) in
    (w, r, at_end, ne', ground arith)

pub has_ne : (a b : Ptr) (xs : Cells) → has a xs ≡ false → has b xs ≡ true → a ≢ b
has_ne a b xs out inside e = cc

pub has-end_of : (a : Ptr) (v : ℤ) (xs : Cells) → has (end_of a xs) ((a, v) ∷ xs) ≡ true
has-end_of a v [] = ground arith
has-end_of a v ((b, u) ∷ xs) = ground (arith, has-end_of b u xs)

-- a chain longer by one node, in a heap `g` that differs in the last link and the new node
pub Chain-snoc :
    (h g : Heap) (a : Ptr) (v : ℤ) (xs : Cells) (t : Ptr) (x : ℤ) {w : ℤ} {q : Ptr}
    → Chain h a ((a, v) ∷ xs)
    → has t ((a, v) ∷ xs) ≡ false
    → t ≢ 0
    → h (end_of a xs) ≡ some (node w q)
    → g t ≡ some (node x 0)
    → g (end_of a xs) ≡ some (node w t)
    → ((b : Ptr) → has b ((a, v) ∷ xs) ≡ true → b ≢ end_of a xs → g b ≡ h b)
    → Chain g a ((a, v) ∷ xs ++ ((t, x) ∷ []))
Chain-snoc h g a v [] t x (_, ne, _, q, there, _) out ne' before new now same =
    (refl, ne, ground arith, t, cc, (refl, ne', refl, 0, new, refl))
Chain-snoc h g a v ((b, u) ∷ xs) t x (_, ne, apart, q, there, rest) out ne' before new now same =
    let rest' = rw rest.0 at rest in
    let (_, _, _, _, inside) = end_of-node h b u xs rest' in
    (
      refl,
      ne,
      ground (arith, has-snoc a xs (t, x)),
      b,
      same a (ground arith) (has_ne a (end_of b xs) ((b, u) ∷ xs) apart inside)
          ∙ there
          ∙ ap (λ r. some (node v r)) rest.0,
      Chain-snoc h g b u xs t x rest' (ground arith) ne' before new now
          (λ c i. same c (ground arith)),
    )

-- a chain without its last node, in a heap `g` that differs in the link to that node
pub Chain-drop :
    (h g : Heap) (a : Ptr) (v : ℤ) (xs : Cells) (c : Ptr × ℤ) {w : ℤ} {q : Ptr}
    → Chain h a ((a, v) ∷ xs ++ (c ∷ []))
    → h (end_of a xs) ≡ some (node w q)
    → g (end_of a xs) ≡ some (node w 0)
    → ((b : Ptr) → has b ((a, v) ∷ xs) ≡ true → b ≢ end_of a xs → g b ≡ h b)
    → Chain g a ((a, v) ∷ xs)
Chain-drop h g a v [] c (_, ne, _, q, there, _) before now same = (refl, ne, refl, 0, cc, refl)
Chain-drop h g a v ((b, u) ∷ xs) c (_, ne, apart, q, there, rest) before now same =
    let rest' = rw rest.0 at rest in
    let apart' : has a ((b, u) ∷ xs) ≡ false = ground (arith, has-snoc a xs c) in
    let inside = has-end_of b u xs in
    (
      refl,
      ne,
      apart',
      b,
      same a (ground arith) (has_ne a (end_of b xs) ((b, u) ∷ xs) apart' inside)
          ∙ there
          ∙ ap (λ r. some (node v r)) rest.0,
      Chain-drop h g b u xs c rest' before now (λ d i. same d (ground arith)),
    )
