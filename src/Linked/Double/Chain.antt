-- ===== src/Linked/Double/Chain.antt =====
-- Chains of nodes with two links, and the steps of the commands on them.
use core_technologies.Base.{
  Option, [], arith, false, none, ok, refl, some, true, ℤ, ◌∙◌, ◌∷◌, ◌≡◌, ◌≢◌,
}
use core_technologies.Linked.Chain.{Cells, has}
use core_technologies.Linked.Double.{Dll, Heap, dll, set_next, set_previous}
use core_technologies.Linked.Memory.{Ptr, load-ok, set_cell}

module _ (h : Heap) (p : Ptr) {n : Dll} (ne : p ≢ 0) (there : h p ≡ some n) where
  pub set_next-ok :
      (r : Ptr) → set_next p r h ≡ ok (tt, set_cell h p (some (record n { next = r })))
  unfolding set_next
  set_next-ok r = rw (load-ok h p ne there)

  pub set_previous-ok :
      (r : Ptr) → set_previous p r h ≡ ok (tt, set_cell h p (some (record n { previous = r })))
  unfolding set_previous
  set_previous-ok r = rw (load-ok h p ne there)

-- what is asked of the `previous` link of a node, where `b` is the address of the node before
abbrev pub Back : Type 1
Back = (b previous : Ptr) → Type 0

-- nothing, and the address itself
abbrev pub any : Back
any b r = Unit {0}

abbrev pub exact : Back
exact b r = r ≡ b

-- from `p`, with `b` before it, the `next` links lead through the distinct nodes `xs` to null
abbrev pub Chain : Back → Heap → (b p : Ptr) → Cells → Type 0
Chain R h b p [] = p ≡ 0
Chain R h b p (c ∷ xs) =
    (p ≡ c.0)
    × (c.0 ≢ 0)
    × (has c.0 xs ≡ false)
    × (r q : Ptr) × (h c.0 ≡ some (dll c.1 r q))
    × R b r
    × Chain R h c.0 q xs

-- a header with the nodes `xs` behind it, whose `previous` links satisfy `R`
abbrev pub IsList : Back → Heap → Ptr → ℤ → Cells → Type 0
IsList R h header g xs = Chain R h 0 header ((header, g) ∷ xs)

-- a double list: both links are right
abbrev pub IsDouble : Heap → Ptr → ℤ → Cells → Type 0
IsDouble h header g xs = Chain exact h 0 header ((header, g) ∷ xs)

module _ (R : Back) where
  pub Chain-frame :
      (h g : Heap) (b p : Ptr) (xs : Cells)
      → ((a : Ptr) → has a xs ≡ true → g a ≡ h a)
      → Chain R h b p xs
      → Chain R g b p xs
  Chain-frame h g b p [] same c = c
  Chain-frame h g b p ((a, v) ∷ xs) same (e, ne, out, r, q, there, back, rest) = (
    e,
    ne,
    out,
    r,
    q,
    same a (ground arith) ∙ there,
    back,
    Chain-frame h g a q xs (λ d i. same d (ground arith)) rest,
  )

  pub Chain-free :
      (h : Heap) (b p : Ptr) (xs : Cells) (a : Ptr)
      → Chain R h b p xs
      → h a ≡ none
      → has a xs ≡ false
  Chain-free h b p [] a c unused = refl
  Chain-free h b p ((d, v) ∷ xs) a (e, ne, out, r, q, there, back, rest) unused =
      ground (arith, Chain-free h d q xs a rest unused)

  pub Chain-set_cell :
      (h : Heap) (b p : Ptr) (xs : Cells) (a : Ptr) (c : Option Dll)
      → has a xs ≡ false
      → Chain R h b p xs
      → Chain R (set_cell h a c) b p xs
  unfolding set_cell
  Chain-set_cell h b p xs a c out ch =
      Chain-frame h (set_cell h a c) b p xs (λ d i. ground arith) ch

-- what holds for both links holds for the one
pub Chain-any : (h : Heap) (b b' p : Ptr) (xs : Cells) → Chain exact h b p xs → Chain any h b' p xs
Chain-any h b b' p [] c = c
Chain-any h b b' p ((a, v) ∷ xs) (e, ne, out, r, q, there, _, rest) =
    (e, ne, out, r, q, there, tt, Chain-any h a a q xs rest)
