-- ===== src/Subsequence/Spec.antt =====
-- What a maximal sum of consecutive cells is.
use core_technologies.Base.{
  Arr, arith, eq_of_parts, pos, suc, true, zero, ℕ, ℤ, ◌+ℤ◌, ◌-ℤ◌, ◌≡◌, ◌≤ℤ◌, ◌≤◌,
}
use core_technologies.Subsequence.{is_int}

-- the sum of the first `n` cells
unfoldable pub prefix : Arr ℤ → ℕ → ℤ
prefix a zero = pos 0
prefix a (suc n) = prefix a n +ℤ a.at n

-- the sum of the cells `i`, ..., `j - 1`
abbrev pub sum : Arr ℤ → (i j : ℕ) → ℤ
sum a i j = prefix a j -ℤ prefix a i

-- `r` is the largest of the sums of consecutive cells below `n`, with the empty sum 0 among them
pub record IsMaxSum (a : Arr ℤ) (n : ℕ) (r : ℤ) : Type 0 where
  pub from : ℕ
  pub to : ℕ
  pub order : from ≤ to
  pub within : to ≤ n
  pub value : r ≡ sum a from to
  pub best : (i j : ℕ) → i ≤ j → j ≤ n → sum a i j ≤ℤ r

-- every sum of consecutive cells below `n` is an `int`
abbrev pub SumsFit : Arr ℤ → ℕ → Type 0
SumsFit a n = (i j : ℕ) → i ≤ j → j ≤ n → is_int (sum a i j) ≡ true

-- There is one largest sum.
pub IsMaxSum-unique : {a : Arr ℤ} {n : ℕ} {r s : ℤ} → IsMaxSum a n r → IsMaxSum a n s → r ≡ s
IsMaxSum-unique {a} {n} {r} {s} x y =
    let below = y.best x.from x.to x.order x.within in
    let above = x.best y.from y.to y.order y.within in
    let below' : r ≤ℤ s = rw (← x.value) at below in
    let above' : s ≤ℤ r = rw (← y.value) at above in eq_of_parts r s (omega (arith, below', above'))
