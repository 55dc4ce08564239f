-- ===== src/Linked/Merged.antt =====
-- Merging two lists of nodes.
-- the merge of two lists of nodes, which takes from the second one where the elements are equal
use core_technologies.Base.{
  Bool-cases, [], arith, false, if◌then◌else◌, inl, inr, ltb_ℤ, refl, suc, zero, ℕ, ℤ, ◌++◌, ◌+◌,
  ◌||◌, ◌∷◌, ◌≡◌, ◌≤ℤ◌, ◌≤◌,
}
use core_technologies.Linked.Chain.{Cells, has, size}
use core_technologies.Linked.Store.{Ptr}

unfoldable pub merged : ℕ → Cells → Cells → Cells
merged zero xs ys = ys
merged (suc n) [] ys = ys
merged (suc n) (x ∷ xs) [] = x ∷ xs
merged (suc n) (x ∷ xs) (y ∷ ys) =
    let left = merged n xs (y ∷ ys) in
    let right = merged n (x ∷ xs) ys in if ltb_ℤ x.1 y.1 then x ∷ left else y ∷ right

pub merged_nil : (n : ℕ) (ys : Cells) → merged n [] ys ≡ ys
unfolding merged
merged_nil zero ys = refl
merged_nil (suc n) ys = refl

-- no address is on both lists
abbrev pub Apart : Cells → Cells → Type 0
Apart [] ys = Unit
Apart (c ∷ xs) ys = (has c.0 ys ≡ false) × Apart xs ys

pub Apart-cons :
    (xs : Cells) (c : Ptr × ℤ) (ys : Cells) → Apart xs (c ∷ ys) → Apart xs ys × (has c.0 xs ≡ false)
Apart-cons [] c ys h = (tt, refl)
Apart-cons (d ∷ xs) c ys (h, hs) =
    let (a, b) = Apart-cons xs c ys hs in ((ground arith, a), ground arith)

pub has-merged :
    (n : ℕ) (a : Ptr) (xs ys : Cells)
    → size xs + size ys ≤ n
    → has a (merged n xs ys) ≡ (has a xs || has a ys)
unfolding merged
has-merged zero a [] ys h = refl
has-merged zero a (x ∷ xs) ys h = absurd (omega arith)
has-merged (suc n) a [] ys h = refl
has-merged (suc n) a (x ∷ xs) [] h = ground arith
has-merged (suc n) a (x ∷ xs) (y ∷ ys) h =
    ground
      (arith, has-merged n a xs (y ∷ ys) (omega arith), has-merged n a (x ∷ xs) ys (omega arith))

pub has-append : (a : Ptr) (xs ys : Cells) → has a (xs ++ ys) ≡ (has a xs || has a ys)
has-append a [] ys = refl
has-append a (x ∷ xs) ys = ground (arith, has-append a xs ys)

-- every element is at least `m`, and the elements ascend
abbrev pub AtLeast : ℤ → Cells → Type 0
AtLeast m [] = Unit
AtLeast m (c ∷ xs) = (m ≤ℤ c.1) × AtLeast m xs

abbrev pub Ascends : Cells → Type 0
Ascends [] = Unit
Ascends (c ∷ xs) = AtLeast c.1 xs × Ascends xs

AtLeast-mono : (m k : ℤ) (xs : Cells) → AtLeast m xs → k ≤ℤ m → AtLeast k xs
AtLeast-mono m k [] h le = tt
AtLeast-mono m k (c ∷ xs) (h, hs) le = (omega arith, AtLeast-mono m k xs hs le)

AtLeast-merged :
    (n : ℕ) (m : ℤ) (xs ys : Cells) → AtLeast m xs → AtLeast m ys → AtLeast m (merged n xs ys)
unfolding merged
AtLeast-merged zero m xs ys hx hy = hy
AtLeast-merged (suc n) m [] ys hx hy = hy
AtLeast-merged (suc n) m (x ∷ xs) [] hx hy = hx
AtLeast-merged (suc n) m (x ∷ xs) (y ∷ ys) hx hy = elim (Bool-cases (ltb_ℤ x.1 y.1)) [
  | inl lt ↦ rw lt (hx.0, AtLeast-merged n m xs (y ∷ ys) hx.1 hy)
  | inr ge ↦ rw ge (hy.0, AtLeast-merged n m (x ∷ xs) ys hx hy.1)
]

pub merged-Ascends : (n : ℕ) (xs ys : Cells) → Ascends xs → Ascends ys → Ascends (merged n xs ys)
unfolding merged
merged-Ascends zero xs ys ax ay = ay
merged-Ascends (suc n) [] ys ax ay = ay
merged-Ascends (suc n) (x ∷ xs) [] ax ay = ax
merged-Ascends (suc n) (x ∷ xs) (y ∷ ys) ax ay = elim (Bool-cases (ltb_ℤ x.1 y.1)) [
  | inl lt ↦
      let le : x.1 ≤ℤ y.1 = ground arith in
      rw lt (
        AtLeast-merged n x.1 xs (y ∷ ys) ax.0 (le, AtLeast-mono y.1 x.1 ys ay.0 le),
        merged-Ascends n xs (y ∷ ys) ax.1 ay,
      )
  | inr ge ↦
      let le : y.1 ≤ℤ x.1 = ground arith in
      rw ge (
        AtLeast-merged n y.1 (x ∷ xs) ys (le, AtLeast-mono x.1 y.1 xs ax.0 le) ay.0,
        merged-Ascends n (x ∷ xs) ys ax ay.1,
      )
]
