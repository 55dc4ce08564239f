-- ===== src/Sort/Bubble/Laws.antt =====
-- `BubbleSort` sorts.
use core_technologies.Base.{
  Arr, Bool-cases, Returns, Returns-mono, Returns-of_eq, arith, dec_le, for_range, for_range_inv,
  if◌then◌else◌, inl, inr, ltb_ℤ, ok, read-ok, suc, ℕ, ℤ, ◌+◌, ◌-◌, ◌<ℤ◌, ◌<◌, ◌≡◌, ◌≤ℤ◌, ◌≤◌,
}
use core_technologies.Sort.Bubble.{bubble_sort, bubble_step}
use core_technologies.Sort.Spec.{IsSorted, Rearranges, Rearranges-refl, Rearranges-trans}
use core_technologies.Sort.Swap.{Rearranges-swapped, swap-ok, swapped}

-- the cells from `m` on ascend, and none of them is below an earlier cell
abbrev pub IsTail : ℕ → ℕ → Arr ℤ → Type 0
IsTail m sz a = (k l : ℕ) → k < l → m ≤ l → l < sz → a.at k ≤ℤ a.at l

-- cell `j` is a greatest of the first
abbrev pub IsMax : ℕ → Arr ℤ → Type 0
IsMax j a = (k : ℕ) → k < j → a.at k ≤ℤ a.at j

-- the invariant of the inner loop, before the round of `j`, with the cells from `m` on in place
pub record IsBubbling (sz m : ℕ) (a₀ : Arr ℤ) (j : ℕ) (a : Arr ℤ) : Type 0 where
  pub same : Rearranges 0 sz a₀ a
  pub tail : IsTail m sz a
  pub top : IsMax j a

-- cells `j` and `j + 1` in order
unfoldable pub bubbled : Arr ℤ → ℕ → Arr ℤ
bubbled a j = if ltb_ℤ (a.at (j + 1)) (a.at j) then swapped a j (j + 1) else a

bubble_step-ok : (j : ℕ) (a : Arr ℤ) → suc j < a.size → bubble_step j a ≡ ok (bubbled a j)
unfolding bubble_step bubbled
bubble_step-ok j a h =
    rw (read-ok a j (omega arith), read-ok a (j + 1) (omega arith))
      (ground (arith, swap-ok a j (j + 1) (omega arith) (omega arith)))

module _ {sz m : ℕ} {a₀ : Arr ℤ} (fits : sz ≤ a₀.size) (low : m ≤ sz) where
  module _ {a : Arr ℤ} (j : ℕ) (h : suc j < m) (inv : IsBubbling sz m a₀ j a) where
    IsBubbling-swapped : a.at (j + 1) <ℤ a.at j → IsBubbling sz m a₀ (j + 1) (swapped a j (j + 1))
    IsBubbling-swapped lt = record {
      same = Rearranges-trans inv.same (
          Rearranges-swapped a j (j + 1) 0 sz (omega arith) (omega arith) (omega arith)
            (omega arith) (omega (arith, inv.same.same_size)));
      tail = λ k l p q r. ground (
        arith,
        inv.tail k l p q r,
        inv.tail j l (omega arith) q r,
        inv.tail (j + 1) l (omega arith) q r,
      );
      top = λ k p. ground (arith, inv.top k, lt);
    }

    pub IsBubbling-bubbled : IsBubbling sz m a₀ (j + 1) (bubbled a j)
    unfolding bubbled
    IsBubbling-bubbled = elim (Bool-cases (ltb_ℤ (a.at (j + 1)) (a.at j))) [
      | inl e ↦ rw e (IsBubbling-swapped (ground arith))
      | inr e ↦
          rw e
            (record { same = inv.same; tail = inv.tail; top = λ k p. ground (arith, inv.top k, e) })
    ]

  inner-IsBubbling :
      {a : Arr ℤ}
      → IsBubbling sz m a₀ 0 a
      → Returns (IsBubbling sz m a₀ (m - 1)) (for_range 0 (m - 1) bubble_step a)
  inner-IsBubbling {a} inv =
      for_range_inv (IsBubbling sz m a₀) bubble_step (m - 1)
        (λ j s lt p.
          Returns-of_eq (bubble_step-ok j s (omega (arith, p.same.same_size)))
            (IsBubbling-bubbled j (omega arith) p))
        0 a (omega arith) inv

-- the invariant of the outer loop, before the round of `i`
pub record IsPassed (sz : ℕ) (a₀ : Arr ℤ) (i : ℕ) (a : Arr ℤ) : Type 0 where
  pub same : Rearranges 0 sz a₀ a
  pub tail : IsTail (sz - i) sz a

module _ (sz i : ℕ) {a₀ a : Arr ℤ} where
  pub IsPassed-IsBubbling : IsPassed sz a₀ i a → IsBubbling sz (sz - i) a₀ 0 a
  IsPassed-IsBubbling p = record { same = p.same; tail = p.tail; top = λ k h. absurd (omega arith) }

  pub IsPassed-next : IsBubbling sz (sz - i) a₀ (sz - i - 1) a → IsPassed sz a₀ (i + 1) a
  IsPassed-next inv = record {
    same = inv.same;
    tail = λ k l p q r. elim (dec_le (sz - i) l) [
      | yes h ↦ inv.tail k l p h r
      | no h ↦ let e : l ≡ sz - i - 1 = omega arith in rw e (inv.top k (omega arith))
    ];
  }

pub IsPassed-start : (sz : ℕ) (a : Arr ℤ) → IsPassed sz a 0 a
IsPassed-start sz a = record { same = Rearranges-refl a; tail = λ k l p q r. absurd (omega arith) }

pub IsPassed-IsSorted :
    {sz i : ℕ} {a₀ a : Arr ℤ} → sz ≤ i + 1 → IsPassed sz a₀ i a → IsSorted 0 sz a
IsPassed-IsSorted h p k l _ q r = p.tail k l q (omega arith) r

-- `BubbleSort(arr, sz)` on an array of at least `sz` cells reads and writes no other cell, and
-- leaves the first `sz` cells in ascending order, with the values they had.
pub bubble_sort-IsSorted :
    (a : Arr ℤ) (sz : ℕ)
    → sz ≤ a.size
    → Returns (λ b. Rearranges 0 sz a b × IsSorted 0 sz b) (bubble_sort a sz)
unfolding bubble_sort
bubble_sort-IsSorted a sz fits =
    Returns-mono
      (for_range_inv (IsPassed sz a) _ (sz - 1)
        (λ i s lt p.
          Returns-mono (inner-IsBubbling fits (omega arith) (IsPassed-IsBubbling sz i p))
            λ b inv. IsPassed-next sz i inv)
        0 a (omega arith) (IsPassed-start sz a))
      λ b p. (p.same, IsPassed-IsSorted (omega arith) p)
