-- ===== src/Linked/Double/Delete.antt =====
-- `Delete`.
use core_technologies.Base.{
  Returns, [], ap, arith, false, fault, none, refl, returns, some, ℕ, ℤ, ◌++◌, ◌<◌, ◌∙◌, ◌∷◌, ◌≡◌,
  ◌≢◌, Option, sym,
}
use mathlib.Core.List.{append-nil}
use core_technologies.Linked.Chain.{Cells, has, size}
use core_technologies.Linked.Double.{Dll, Heap, delete, dll, set_previous}
use core_technologies.Linked.Double.Chain.{IsDouble, exact, set_next-ok, set_previous-ok}
use core_technologies.Linked.Double.Find.{Absent, find_loop-first, find_loop-missing}
use core_technologies.Linked.Merged.{has-append}
use core_technologies.Linked.Memory.{
  Ptr, free-ok, load, load-ok, set_cell, set_cell-ne, set_cell_self,
}
use core_technologies.Linked.Walk.{end_of, has-end_of, has_ne}
use core_technologies.Linked.Double.Skip.{Chain-skip, before_node}

-- the heaps after the three commands of `Delete`
abbrev unlinked : Heap → (pre a d : Ptr) → Dll → Dll → Heap × Heap × Heap
unlinked h pre a d n m =
    let h₁ = set_cell h pre (some n) in
    let h₂ = set_cell h₁ d (some m) in (h₁, h₂, set_cell h₂ a none)

-- `Delete` takes the first node with the element out of a double list and frees it, if another node
-- is behind it: both links of every node are right afterwards, and no cell outside of the list
-- changes. `fuel` is above the number of nodes before it.
pub delete-IsDouble :
    (fuel : ℕ) (h : Heap) (header : Ptr) (g : ℤ) (ys : Cells) (a : Ptr) (x : ℤ) (d : Ptr) (w : ℤ)
    (zs : Cells)
    → size ys < fuel
    → Absent x ys
    → IsDouble h header g (ys ++ ((a, x) ∷ (d, w) ∷ zs))
    → Returns
        (λ (_, h').
          IsDouble h' header g (ys ++ ((d, w) ∷ zs))
          × (h' a ≡ none)
          × ((c : Ptr) → has c ((header, g) ∷ ys ++ ((a, x) ∷ (d, w) ∷ zs)) ≡ false → h' c ≡ h c))
        (delete fuel header x h)
unfolding delete
delete-IsDouble fuel h header g ys a x d w zs f miss list =
    let (_, ne, apart, r, q, there, _, behind) = list in
    let (
      u,
      r',
      q',
      before,
      ne',
      at_a,
      ne_a,
      differ,
      out,
      out',
      (e, ne_d, apart_d, r'', s, there_d, back_d, rest),
    ) =
      before_node h 0 header g ys a x ((d, w) ∷ zs) list in
    let pre = end_of header ys in
    let at_a' : h a ≡ some (dll x pre d) = at_a ∙ ap (λ t. some (dll x pre t)) e in
    let at_d : h d ≡ some (dll w a s) = there_d ∙ ap (λ t. some (dll w t s)) back_d in
    let a-pre : a ≢ pre = λ same. differ (sym same) in
    let pre-d : pre ≢ d = ground arith in
    let d-pre : d ≢ pre = λ same. pre-d (sym same) in
    let a-d : a ≢ d = ground arith in
    let d-a : d ≢ a = λ same. a-d (sym same) in
    let (h₁, h₂, h₃) = unlinked h pre a d (dll u r' d) (dll w pre s) in
    let others : (c : Ptr) → c ≢ pre → c ≢ a → c ≢ d → h₃ c ≡ h c = λ c p₁ p₂ p₃.
      set_cell-ne h₂ a c none p₂ ∙ set_cell-ne h₁ d c _ p₃ ∙ set_cell-ne h pre c _ p₁ in
    let chain : IsDouble h₃ header g (ys ++ ((d, w) ∷ zs)) =
      Chain-skip h h₃ 0 header g ys a x d w zs u r' s list before at_d
        (set_cell-ne h₂ a pre none differ ∙ set_cell-ne h₁ d pre _ pre-d ∙ set_cell_self h pre _)
        (set_cell-ne h₂ a d none d-a ∙ set_cell_self h₁ d _) others in
    let whole = λ (c : Ptr). has-append c ((header, g) ∷ ys) ((a, x) ∷ (d, w) ∷ zs) in
    rw
      (
        load-ok h header ne there,
        find_loop-first exact h x fuel header q ys a ((d, w) ∷ zs) f miss behind,
        load-ok h a ne_a at_a',
        set_next-ok h pre ne' before d,
        load-ok h₁ a ne_a (set_cell-ne h pre a _ a-pre ∙ at_a'),
        set_previous-ok h₁ d ne_d (set_cell-ne h pre d _ d-pre ∙ at_d) pre,
        free-ok h₂ a ne_a (set_cell-ne h₁ d a _ a-d ∙ set_cell-ne h pre a _ a-pre ∙ at_a'),
      )
      (returns (
        chain,
        set_cell_self h₂ a none,
        λ c i.
            others c
              (has_ne c pre ((header, g) ∷ ys) (ground (arith, whole c)) (has-end_of header g ys))
              (ground (arith, whole c)) (ground (arith, whole c)),
      ))

load_null : (h : Heap) → load 0 h ≡ fault
unfolding load
load_null h = refl

set_previous_null : (h : Heap) (q : Ptr) → set_previous 0 q h ≡ fault
unfolding set_previous
set_previous_null h q = rw (load_null h) refl

-- the end of a list: nothing, or one node with the element `x`
abbrev pub tail_of : Option Ptr → ℤ → Cells
tail_of none x = []
tail_of (some a) x = (a, x) ∷ []

-- `Delete` dereferences a null pointer where no node has the element, and where the first one that
-- has it is the last of the list. `fuel` is above the number of the other nodes.
pub delete-fault :
    (fuel : ℕ) (h : Heap) (header : Ptr) (g : ℤ) (ys : Cells) (x : ℤ) (last : Option Ptr)
    → size ys < fuel
    → Absent x ys
    → IsDouble h header g (ys ++ tail_of last x)
    → delete fuel header x h ≡ fault
unfolding delete
delete-fault fuel h header g ys x none f miss (_, ne, _, r, q, there, _, behind) =
    let behind' = rw (append-nil ys) at behind in
    rw
      (
        load-ok h header ne there,
        find_loop-missing exact h x fuel header q ys f miss behind',
        load_null h,
      )
      refl
delete-fault fuel h header g ys x (some a) f miss list =
    let (_, ne, _, r, q, there, _, behind) = list in
    let (u, r', q', before, ne', at_a, ne_a, differ, _, _, end) =
      before_node h 0 header g ys a x [] list in
    let pre = end_of header ys in
    let h₁ = set_cell h pre (some (dll u r' q')) in
    let a-pre : a ≢ pre = λ same. differ (sym same) in
    rw
      (
        load-ok h header ne there,
        find_loop-first exact h x fuel header q ys a [] f miss behind,
        load-ok h a ne_a at_a,
        set_next-ok h pre ne' before q',
        load-ok h₁ a ne_a (set_cell-ne h pre a _ a-pre ∙ at_a),
        end,
        set_previous_null _ pre,
      )
      refl
