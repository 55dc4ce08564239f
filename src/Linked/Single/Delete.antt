-- ===== src/Linked/Single/Delete.antt =====
-- `Delete` and `Modify`.
use core_technologies.Base.{
  Bool-cases, Returns, Returns-mono, [], arith, eqb_ℤ, false, if◌then◌else◌, inl, inr, none, refl,
  returns, suc, true, zero, ℕ, ℤ, ◌<◌, ◌==◌, ◌∙◌, ◌∷◌, ◌≡◌, ◌≢◌, ◌⊎◌,
}
use core_technologies.Linked.Chain.{Cells, Chain, Chain-set_cell, IsList, SameOutside, has, size}
use core_technologies.Linked.Single.{delete, modify, modify_loop}
use core_technologies.Linked.Single.Find.{find-place, place}
use core_technologies.Linked.Single.Unlink.{before, predecessor-before, unlink_next, without}
use core_technologies.Linked.Store.{
  Heap, Ptr, free, free-ok, load, load-ok, set_cell-ne, set_cell_self, set_element-ok, set_next,
  ◌>>=◌, ◌>>◌,
}

-- the three commands at the end of `Delete`
unlink :
    (h : Heap) (a : Ptr) (v : ℤ) (xs : Cells) (x : ℤ)
    → Chain h a ((a, v) ∷ xs)
    → place xs x ≢ 0
    → Returns
        (λ (_, h').
          Chain h' a ((a, v) ∷ without x xs)
          × (h' (place xs x) ≡ none)
          × SameOutside ((a, v) ∷ xs) h h')
        ((do n ← load (place xs x); set_next (before a xs x) n.next; free (place xs x)) h)
unlink h a v xs x list found =
    let (q, h', at_p, step, still, ch, gone, inside, same) = unlink_next h a v xs x list found in
    rw (load-ok h (place xs x) found at_p, step, free-ok h' (place xs x) found still)
      (returns (
        Chain-set_cell h' a ((a, v) ∷ without x xs) (place xs x) none gone ch,
        set_cell_self h' _ none,
        λ c i. set_cell-ne h' (place xs x) c _ (ground arith) ∙ same c i,
      ))

pub without_missing :
    (h : Heap) (p : Ptr) (xs : Cells) (x : ℤ) → Chain h p xs → place xs x ≡ 0 → without x xs ≡ xs
unfolding without place
without_missing h p [] x ch missing = refl
without_missing h p (c ∷ xs) x (_, ne, _, q, _, rest) missing = elim (Bool-cases (eqb_ℤ c.1 x)) [
  | inl hit ↦ absurd (ne (rw hit at missing))
  | inr miss ↦ rw (miss, without_missing h q xs x rest (rw miss at missing))
]

-- `Delete` takes the first node with the element out of the list and frees it; a list without the
-- element stays as it is. `fuel` is above the number of nodes.
pub delete-IsList :
    (fuel : ℕ) (h : Heap) (header : Ptr) (g : ℤ) (xs : Cells) (x : ℤ)
    → size xs < fuel
    → IsList h header g xs
    → Returns
        (λ (_, h').
          IsList h' header g (without x xs)
          × ((place xs x ≡ 0) ⊎ (h' (place xs x) ≡ none))
          × SameOutside ((header, g) ∷ xs) h h')
        (delete fuel header x h)
unfolding delete
delete-IsList fuel h header g xs x f list =
    rw (find-place fuel h header g xs x f list, predecessor-before fuel h header g xs x f list)
      (elim (Bool-cases (place xs x == 0)) [
        | inl null ↦
            let missing : place xs x ≡ 0 = ground arith in
            let (_, _, _, q, _, rest) = list in
            rw (null, without_missing h q xs x rest missing)
              (returns (list, inl missing, λ c i. refl))
        | inr there ↦ rw there (
            Returns-mono (unlink h header g xs x list (ground arith))
              λ (_, h') (ch, freed, same). (ch, inr freed, same))
      ])

-- the nodes with the first element that is `x` replaced by `y`
unfoldable pub replaced : ℤ → ℤ → Cells → Cells
replaced x y [] = []
replaced x y (c ∷ xs) = if eqb_ℤ c.1 x then (c.0, y) ∷ xs else c ∷ replaced x y xs

has-replaced : (a : Ptr) (x y : ℤ) (xs : Cells) → has a (replaced x y xs) ≡ has a xs
unfolding replaced
has-replaced a x y [] = refl
has-replaced a x y (c ∷ xs) = ground (arith, has-replaced a x y xs)

modify_loop-Chain :
    (fuel : ℕ) (h : Heap) (p : Ptr) (xs : Cells) (x y : ℤ)
    → size xs < fuel
    → Chain h p xs
    → Returns
        (λ (_, h'). Chain h' p (replaced x y xs) × SameOutside xs h h')
        (modify_loop fuel p x y h)
unfolding modify_loop replaced
modify_loop-Chain zero h p xs x y f ch = absurd (omega arith)
modify_loop-Chain (suc fuel) h p [] x y f ch =
    let null : (p == 0) ≡ true = ground arith in rw null (returns (ch, λ a i. refl))
modify_loop-Chain (suc fuel) h p ((a, v) ∷ xs) x y f (e, ne, apart, q, there, rest) =
    let more : (a == 0) ≡ false = ground arith in
    rw (e, more, load-ok h a ne there)
      (elim (Bool-cases (eqb_ℤ v x)) [
        | inl hit ↦
            rw (hit, set_element-ok h a ne there y)
              (returns (
                (refl, ne, apart, q, set_cell_self h a _, Chain-set_cell h q xs a _ apart rest),
                λ b i. set_cell-ne h a b _ (ground arith),
              ))
        | inr miss ↦ rw miss (
            Returns-mono (modify_loop-Chain fuel h q xs x y (omega arith) rest)
              λ (_, h') (ch, same). (
                (refl, ne, has-replaced a x y xs ∙ apart, q, same a apart ∙ there, ch),
                λ b i. same b (ground arith),
              ))
      ])

-- `Modify` replaces the first element that is `x` by `y`, and changes no other node; a list
-- without `x` stays as it is. `fuel` is above the number of nodes.
pub modify-IsList :
    (fuel : ℕ) (h : Heap) (header : Ptr) (g : ℤ) (xs : Cells) (x y : ℤ)
    → size xs < fuel
    → IsList h header g xs
    → Returns
        (λ (_, h'). IsList h' header g (replaced x y xs) × SameOutside xs h h')
        (modify fuel header x y h)
unfolding modify
modify-IsList fuel h header g xs x y f (_, ne, apart, q, there, rest) =
    rw (load-ok h header ne there) (
      Returns-mono (modify_loop-Chain fuel h q xs x y f rest) λ (_, h') (ch, same).
        ((refl, ne, has-replaced header x y xs ∙ apart, q, same header apart ∙ there, ch), same))
