-- ===== src/Rearrange/Read.antt =====
-- `read_column_numbers`.
use core_technologies.Base.{
  Arr, Bool-cases, List, Returns, Returns-bind, ap, [], arith, cells, cells-update, cells_eq, false,
  if◌then◌else◌, inl, inr, leb_ℤ, ltb, pos, put, refl, returns, suc, sym, true, update, write-ok,
  zero, ℕ, ℤ, ◌%◌, ◌++◌, ◌+◌, ◌==◌, ◌∙◌, ◌∷◌, ◌≡◌, ◌≤◌,
}
use mathlib.Core.List.{append-nil, append_assoc}
use core_technologies.Rearrange.{
  Columns, column_loop, column_numbers, not_paired, read_column_numbers,
}

-- the first numbers, at most `k` and none of them negative
unfoldable pub taken : (k : ℕ) → List ℤ → List ℤ
taken zero vs = []
taken (suc k) [] = []
taken (suc k) (v ∷ vs) = if leb_ℤ (pos 0) v then v ∷ taken k vs else []

taken_none : (k : ℕ) → taken k [] ≡ []
unfolding taken
taken_none zero = refl
taken_none (suc k) = refl

unfoldable pub number_of {ℓ} : {A : Type ℓ} → List A → ℕ
number_of [] = 0
number_of (v ∷ vs) = suc (number_of vs)

number_of-cells : (f : ℕ → ℤ) (i n : ℕ) → number_of (cells f i n) ≡ n
unfolding number_of cells
number_of-cells f i zero = refl
number_of-cells f i (suc n) = ap suc (number_of-cells f (suc i) n)

-- the cells hold what was read before and now
Takes : (old : Arr ℤ) (vs : List ℤ) → Arr ℤ × ℕ → Type 0
Takes old vs (c, n) = (cells c.at 0 n ≡ vs) × (c.size ≡ old.size)

column_loop-Takes :
    (input : List ℤ) (c : Arr ℤ) (max num k : ℕ)
    → num + k ≡ max
    → max ≤ c.size
    → Returns (Takes c (cells c.at 0 num ++ taken k input)) (column_loop input c max num)
unfolding column_loop taken Takes
column_loop-Takes [] c max num k e room = rw (taken_none k, append-nil) (returns (refl, refl))
column_loop-Takes (v ∷ input) c max num zero e room =
    let full : ltb num max ≡ false = ground arith in rw (full, append-nil) (returns (refl, refl))
column_loop-Takes (v ∷ input) c max num (suc k) e room =
    let some_room : ltb num max ≡ true = ground arith in
    rw (some_room, write-ok c num v (omega arith))
      (elim (Bool-cases (leb_ℤ (pos 0) v)) [
        | inl more ↦
            rw
              (
                more,
                ← append_assoc (cells c.at 0 num) (v ∷ []) (taken k input),
                ← cells-update c.at 0 num num v (omega arith),
              )
              (column_loop-Takes input (put c num v) max (num + 1) k (omega arith) room)
        | inr negative ↦
            rw (negative, append-nil)
              (returns (cells_eq (update c.at num v) c.at 0 num (λ j p q. ground arith), refl))
      ])

-- what `read_column_numbers` may give for the numbers `vs`
unfoldable pub Reads : (old : Arr ℤ) (vs : List ℤ) → Columns → Type 0
Reads old vs (column_numbers c n) = (cells c.at 0 n ≡ vs) × (n % 2 ≡ 0) × (c.size ≡ old.size)
Reads old vs not_paired = number_of vs % 2 ≡ 1

-- `read_column_numbers` with room for `max` numbers leaves in the first cells, as many as it
-- gives, the numbers before the first negative one, at most `max`, if they are even in number, and
-- ends the program if they are odd.
pub read_column_numbers-Reads :
    (input : List ℤ) (c : Arr ℤ) (max : ℕ)
    → max ≤ c.size
    → Returns (Reads c (taken max input)) (read_column_numbers input c max)
unfolding read_column_numbers Takes Reads cells
read_column_numbers-Reads input c max room =
    Returns-bind (column_loop-Takes input c max 0 max (omega arith) room) λ (d, n) (held, size).
      elim (Bool-cases (n % 2 == 0)) [
        | inl even ↦ rw even (returns (held, ground arith, size))
        | inr odd ↦
            let all : number_of (taken max input) ≡ n =
              ap number_of (sym held) ∙ number_of-cells d.at 0 n in
            rw odd (returns (rw all (ground arith)))
      ]
