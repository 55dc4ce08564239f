-- ===== src/Linked/Chain.antt =====
-- Chains of nodes that end in null, and what they hold.
use core_technologies.Base.{
  Bool, List, Option, [], arith, false, none, refl, some, suc, true, ℕ, ℤ, ◌++◌, ◌==◌, ◌||◌, ◌∙◌,
  ◌∷◌, ◌≡◌, ◌≢◌,
}
use core_technologies.Linked.Store.{Heap, Node, Ptr, node, set_cell}

-- address and element of each node, in order
abbrev pub Cells : Type 0
Cells = List (Ptr × ℤ)

abbrev pub has : Ptr → Cells → Bool
has a [] = false
has a (c ∷ xs) = (a == c.0) || has a xs

-- from `p` the `next` pointers lead through the distinct nodes `xs` to null
abbrev pub Chain : Heap → Ptr → Cells → Type 0
Chain h p [] = p ≡ 0
Chain h p (c ∷ xs) =
    (p ≡ c.0)
    × (c.0 ≢ 0)
    × (has c.0 xs ≡ false)
    × (q : Ptr) × (h c.0 ≡ some (node c.1 q))
    × Chain h q xs

-- the chain survives what happens to other cells
pub Chain-frame :
    (h g : Heap) (p : Ptr) (xs : Cells)
    → ((a : Ptr) → has a xs ≡ true → g a ≡ h a)
    → Chain h p xs
    → Chain g p xs
Chain-frame h g p [] same c = c
Chain-frame h g p ((a, v) ∷ xs) same (e, ne, out, q, there, rest) = (
  e,
  ne,
  out,
  q,
  same a (ground arith) ∙ there,
  Chain-frame h g q xs (λ b i. same b (ground arith)) rest,
)

-- a free address is not on the chain
pub Chain-free :
    (h : Heap) (p : Ptr) (xs : Cells) (a : Ptr) → Chain h p xs → h a ≡ none → has a xs ≡ false
Chain-free h p [] a c unused = refl
Chain-free h p ((b, v) ∷ xs) a (e, ne, out, q, there, rest) unused =
    ground (arith, Chain-free h q xs a rest unused)

pub Chain-set_cell :
    (h : Heap) (p : Ptr) (xs : Cells) (a : Ptr) (c : Option Node)
    → has a xs ≡ false
    → Chain h p xs
    → Chain (set_cell h a c) p xs
unfolding set_cell
Chain-set_cell h p xs a c out ch = Chain-frame h (set_cell h a c) p xs (λ b i. ground arith) ch

abbrev pub size : Cells → ℕ
size [] = 0
size (c ∷ xs) = suc (size xs)

-- a header with the nodes `xs` behind it
abbrev pub IsList : Heap → Ptr → ℤ → Cells → Type 0
IsList h header g xs = Chain h header ((header, g) ∷ xs)

-- `h` and `g` agree outside of `xs`
abbrev pub SameOutside : Cells → Heap → Heap → Type 0
SameOutside xs h g = (a : Ptr) → has a xs ≡ false → g a ≡ h a

pub has-snoc :
    (a : Ptr) (xs : Cells) (c : Ptr × ℤ) → has a (xs ++ (c ∷ [])) ≡ ((a == c.0) || has a xs)
has-snoc a [] c = ground arith
has-snoc a (d ∷ xs) c = ground (arith, has-snoc a xs c)
