-- ===== src/Base/Array/Count.antt =====
-- How often a value stands in an array.
use Prim.Native.Nat.{ℕ, zero, suc, ◌+◌, ◌≤◌, ◌<◌}
use mathlib.Core.Path.{◌≡◌, refl}
use mathlib.Core.Bool.{false}
use mathlib.Core.Logic.{inl, inr}
use native.Mathlib.Omega.{arith}
use core_technologies.Base.Tests.{◌==◌, Bool-cases, if◌then◌else◌}
use core_technologies.Base.Int.{ℤ, eqb_ℤ}
use core_technologies.Base.Array.{Arr, update}

abbrev pub one : ℤ → ℤ → ℕ
one v x = if eqb_ℤ v x then 1 else 0

-- occurrences of `v` among the first `n` cells
unfoldable pub count : ℤ → (ℕ → ℤ) → ℕ → ℕ
count v f zero = 0
count v f (suc n) = one v (f n) + count v f n

abbrev pub SameCounts : Arr ℤ → Arr ℤ → Type 0
SameCounts a b = (v : ℤ) → count v a.at a.size ≡ count v b.at b.size

module _ (v : ℤ) (f : ℕ → ℤ) (i : ℕ) (x : ℤ) where
  pub count-update_out : (n : ℕ) → n ≤ i → count v (update f i x) n ≡ count v f n
  unfolding count
  count-update_out zero h = refl
  count-update_out (suc n) h =
      let e : (i == n) ≡ false = ground arith in rw (e, count-update_out n (omega arith))

  -- a write takes one occurrence of the old value away and adds one of the new
  pub count-update :
      (n : ℕ) → i < n → count v (update f i x) n + one v (f i) ≡ count v f n + one v x
  unfolding count
  count-update zero h = absurd (omega arith)
  count-update (suc n) h = elim (Bool-cases (i == n)) [
    | inl e ↦
        let i≡n : i ≡ n = ground arith in
        rw (e, count-update_out n (omega arith), i≡n) (omega arith)
    | inr e ↦ rw e (omega (arith, count-update n (ground arith)))
  ]
