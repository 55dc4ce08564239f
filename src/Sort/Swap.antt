-- ===== src/Sort/Swap.antt =====
-- `Swap` of BubbleSort.c, SelectionSort.c and QuickSort.c, on two cells of an array.
use core_technologies.Base.{
  Arr, Bool-cases, Run, SameCounts, arith, count-update, inl, inr, ok, put, read, read-ok, refl,
  update, write, write-ok, ℕ, ℤ, ◌<◌, ◌==◌, ◌>>=◌, ◌≡◌, ◌≤◌,
}
use core_technologies.Sort.Spec.{Rearranges}

-- `Swap(&arr[i], &arr[j])`
unfoldable pub swap : Arr ℤ → ℕ → ℕ → Run (Arr ℤ)
swap arr i j = do temp ← read arr i; y ← read arr j; arr ← write arr i y; write arr j temp

-- what it leaves behind
abbrev pub swapped : Arr ℤ → ℕ → ℕ → Arr ℤ
swapped a i j = put (put a i (a.at j)) j (a.at i)

module _ (a : Arr ℤ) (i j : ℕ) where
  pub swap-ok : i < a.size → j < a.size → swap a i j ≡ ok (swapped a i j)
  unfolding swap
  swap-ok hi hj =
      rw (read-ok a i hi, read-ok a j hj, write-ok a i (a.at j) hi)
        (write-ok (put a i (a.at j)) j (a.at i) hj)

  SameCounts-swapped : i < a.size → j < a.size → SameCounts a (swapped a i j)
  SameCounts-swapped hi hj v =
      let second = count-update v (update a.at i (a.at j)) j (a.at i) a.size hj in
      let e : update a.at i (a.at j) j ≡ a.at j = ground arith in
      omega (arith, count-update v a.at i (a.at j) a.size hi, rw e at second)

  pub Rearranges-swapped :
      (lo hi : ℕ)
      → lo ≤ i
      → i < hi
      → lo ≤ j
      → j < hi
      → hi ≤ a.size
      → Rearranges lo hi a (swapped a i j)
  Rearranges-swapped lo hi li ih lj jh fits = record {
    same_size = refl;
    counts = SameCounts-swapped (omega arith) (omega arith);
    outside = λ k h. ground arith;
    source = λ k p q. elim (Bool-cases (j == k)) [
      | inl e ↦ (i, li, ih, rw e)
      | inr e ↦ elim (Bool-cases (i == k)) [
        | inl e' ↦ (j, lj, jh, rw (e, e'))
        | inr e' ↦ (k, p, q, rw (e, e'))
      ]
    ];
  }
