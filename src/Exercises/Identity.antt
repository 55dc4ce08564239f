-- ===== src/Exercises/Identity.antt =====
-- `identity_matric` of Chapter Eight Array/Programming Execrise 8.8/Question3.c.
use core_technologies.Base.{
  Arr, Bool, Run, eqb_ℤ, false, fault, if◌then◌else◌, ok, pos, read, read-ok, refl, suc, true, zero,
  ℕ, ℤ, ◌<◌, ◌==◌, ◌>>=◌, ◌≡◌,
}

-- the loop of `identity_matric` on `j`, for `n` rounds: whether it returns
unfoldable pub identity_row : Arr (Arr ℤ) → (i j n : ℕ) → Run Bool
identity_row arr i j zero = ok false
identity_row arr i j (suc n) =
    let rest = identity_row arr i (suc j) n in
    if i == j
    then (do row ← read arr i; v ← read row j; if eqb_ℤ v (pos 1) then ok true else rest)
    else rest

-- the loop on `i`; behind it the function ends without a value
unfoldable pub identity_rows : Arr (Arr ℤ) → (i n : ℕ) → Run Bool
unfolding identity_row
identity_rows arr i zero = fault
identity_rows arr i (suc n) = do
  found ← identity_row arr i 0 10
  if found then ok true else identity_rows arr (suc i) n

unfoldable pub identity_matric : Arr (Arr ℤ) → Run Bool
unfolding identity_rows
identity_matric arr = identity_rows arr 0 10

-- `identity_matric` takes every matrix whose first cell is 1 for an identity.
pub identity_matric_first :
    (arr : Arr (Arr ℤ))
    → 0 < arr.size
    → 0 < (arr.at 0).size
    → (arr.at 0).at 0 ≡ pos 1
    → identity_matric arr ≡ ok true
unfolding identity_matric identity_row identity_rows
identity_matric_first arr p q one = rw (read-ok arr 0 p, read-ok (arr.at 0) 0 q, one) refl
