-- ===== src/Exercises/Matrix.antt =====
-- `matrix_multiply` of Chapter Eight Array/Programming Execrise 8.8/Question5.c. The three arrays do
-- not overlap. A sum or a product that is no `int` is a fault.
use core_technologies.Subsequence.{add_int, is_int}
use core_technologies.Base.{
  fault, if◌then◌else◌, Arr, Bool-cases, Returns, Returns-bind, Returns-mono, Run, arith, false,
  for_range, for_range_inv, inl, inr, ltb, ok, ap, ◌∙◌, pos, put, read, read-ok, refl, returns, suc,
  true, write, write-ok, zero, ℕ, ℤ, ◌*ℤ◌, ◌*◌, ◌+ℤ◌, ◌+◌, ◌<◌, ◌==◌, ◌>>=◌, ◌≡◌, ◌≤◌,
}

-- `a * b`: an overflow is a fault
unfoldable pub mul_int : ℤ → ℤ → Run ℤ
mul_int a b = if is_int (a *ℤ b) then ok (a *ℤ b) else fault

-- a round of the loop on `k`, on the array `r`, whose cell `place` it adds to, and the places of
-- `m1p` and `m2p`
unfoldable pub product_step : (m1 m2 : Arr ℤ) (place : ℕ) → Arr ℤ × ℕ × ℕ → Run (Arr ℤ × ℕ × ℕ)
unfolding mul_int
product_step m1 m2 place (r, p, q) = do
  s ← read r place
  a ← read m1 p
  b ← read m2 q
  product ← mul_int a b
  sum ← add_int s product
  r' ← write r place sum
  ok (r', p + 1, q + 2)

-- a round of the loop on `column`, on the array `r` and the place of the pointer into it
unfoldable pub column_step : (m1 m2 : Arr ℤ) (row y column : ℕ) → Arr ℤ × ℕ → Run (Arr ℤ × ℕ)
unfolding product_step
column_step m1 m2 row y column (r, place) = do
  r0 ← write r place (pos 0)
  (r', p, q) ← for_range 0 y (λ k s. product_step m1 m2 place s) (r0, row * y, column)
  ok (r', place + 1)

unfoldable pub matrix_multiply : (m1 m2 r : Arr ℤ) (x y z : ℕ) → Run (Arr ℤ)
unfolding column_step
matrix_multiply m1 m2 r x y z = do
  (r', place) ← for_range 0 x (λ row s. for_range 0 z (column_step m1 m2 row y) s) (r, 0)
  ok r'

-- the first `k` products of row `i` of a matrix of `y` columns with column `j` of one of `width`
-- columns
unfoldable pub entry : (m1 m2 : ℕ → ℤ) (y width i j k : ℕ) → ℤ
entry m1 m2 y width i j zero = pos 0
entry m1 m2 y width i j (suc k) = entry m1 m2 y width i j k +ℤ m1 (i * y + k) *ℤ m2 (k * width + j)

-- the array has its first size, the cells before `place` are as they were, and cell `place` has `v`
record Sums (old : Arr ℤ) (place : ℕ) (v : ℤ) (new : Arr ℤ) : Type 0 where
  same_size : new.size ≡ old.size
  before : (c : ℕ) → c < place → new.at c ≡ old.at c
  here : new.at place ≡ v

Sums-put :
    (old : Arr ℤ) (place : ℕ) (v : ℤ) (r : Arr ℤ) (w : ℤ)
    → Sums old place v r
    → Sums old place w (put r place w)
Sums-put old place v r w h = record {
  same_size = h.same_size;
  before = λ c lt. let d : (place == c) ≡ false = ground arith in rw (d, h.before c lt) refl;
  here = let d : (place == place) ≡ true = ground arith in rw d refl;
}

-- A cell of a row stands before the end of the rows.
pub row_fits : (i n z : ℕ) → i < n → i * z + z ≤ n * z
row_fits i zero z h = absurd (omega arith)
row_fits i (suc n) z h = elim (Bool-cases (i == n)) [
  | inl same ↦ let e : i ≡ n = ground arith in rw e (omega arith)
  | inr other ↦ let lower = row_fits i n z (ground arith) in omega (arith, lower)
]

-- A cell of `z` columns stands in one row.
same_row : (a b i j z : ℕ) → b < z → j < z → a * z + b ≡ i * z + j → a ≡ i
same_row a b i j z hb hj same = elim (Bool-cases (ltb a i)) [
  | inl below ↦ let row = row_fits a i z (ground arith) in absurd (omega (arith, row))
  | inr not_below ↦ elim (Bool-cases (ltb i a)) [
    | inl above ↦ let row = row_fits i a z (ground arith) in absurd (omega (arith, row))
    | inr equal ↦ ground arith
  ]
]

-- the product of the round `k` for cell `j` of row `i`, and the sum with it, are `int`s
unfoldable pub IsWithin : (m1 m2 : ℕ → ℤ) (y i j k : ℕ) → Type 0
unfolding entry
IsWithin m1 m2 y i j k =
    (is_int (m1 (i * y + k) *ℤ m2 (k * 2 + j)) ≡ true)
    × (is_int (entry m1 m2 y 2 i j (suc k)) ≡ true)

mul_int-ok : (a b : ℤ) → is_int (a *ℤ b) ≡ true → mul_int a b ≡ ok (a *ℤ b)
unfolding mul_int
mul_int-ok a b h = rw h refl

add_int-ok : (a b : ℤ) → is_int (a +ℤ b) ≡ true → add_int a b ≡ ok (a +ℤ b)
unfolding add_int
add_int-ok a b h = rw h refl

module _ (m1 m2 : Arr ℤ) (x y z : ℕ) (fits1 : x * y ≤ m1.size) (fits2 : z + y * 2 ≤ m2.size + 2)
    (within : (i j k : ℕ) → i < x → j < z → k < y → IsWithin m1.at m2.at y i j k) where
  -- after `k` rounds on column `j` of row `i`
  After : (old : Arr ℤ) (place i j k : ℕ) → Arr ℤ × ℕ × ℕ → Type 0
  After old place i j k (r, p, q) =
      Sums old place (entry m1.at m2.at y 2 i j k) r × (p ≡ i * y + k) × (q ≡ k * 2 + j)

  product_step-After :
      (old : Arr ℤ) (place i j k : ℕ) (s : Arr ℤ × ℕ × ℕ)
      → i < x
      → j < z
      → k < y
      → place < old.size
      → After old place i j k s
      → Returns (After old place i j (k + 1)) (product_step m1 m2 place s)
  unfolding After product_step entry IsWithin
  product_step-After old place i j k (r, p, q) hi hj hk room (sums, e1, e2) =
      let row = row_fits i x y hi in
      let size = sums.same_size in
      let next : k + 1 ≡ suc k = omega arith in
      let (no_over, no_over') = within i j k hi hj hk in
      let sum = entry m1.at m2.at y 2 i j k in
      let a = m1.at (i * y + k) in
      let b = m2.at (k * 2 + j) in
      rw
        (
          read-ok r place (omega arith),
          read-ok m1 p (omega arith),
          read-ok m2 q (omega arith),
          sums.here,
          e1,
          e2,
          mul_int-ok a b no_over,
          add_int-ok sum (a *ℤ b) no_over',
          write-ok r place _ (omega arith),
          next,
        )
        (returns (Sums-put old place _ r _ sums, omega arith, omega arith))

  -- the cells before `place` and the cell there, once column `j` of row `i` is done
  column_step-Sums :
      (old : Arr ℤ) (place i j : ℕ)
      → i < x
      → j < z
      → place < old.size
      → Returns
          (λ s. Sums old place (entry m1.at m2.at y 2 i j y) s.0 × (s.1 ≡ place + 1))
          (column_step m1 m2 i y j (old, place))
  unfolding column_step After entry
  column_step-Sums old place i j hi hj room =
      let start : Sums old place (pos 0) (put old place (pos 0)) =
        Sums-put old place _ old _
          (record { same_size = refl; before = λ c lt. refl; here = refl }) in
      rw (write-ok old place _ room) (
        Returns-bind
          (for_range_inv (After old place i j) (λ k s. product_step m1 m2 place s) y
            (λ k s lt h. product_step-After old place i j k s hi hj lt room h) 0
            (put old place (pos 0), i * y, j) (omega arith) (start, omega arith, omega arith))
          (λ (r, p, q) (sums, e1, e2). returns (sums, refl)))

  -- what is done before column `j` of row `i`
  Done : (size i j : ℕ) → Arr ℤ × ℕ → Type 0
  Done size i j (r, place) =
      (place ≡ i * z + j)
      × (r.size ≡ size)
      × ((a b : ℕ) → b < z → a * z + b < place → r.at (a * z + b) ≡ entry m1.at m2.at y 2 a b y)

  Done-start : (r : Arr ℤ) → Done r.size 0 0 (r, 0)
  unfolding Done
  Done-start r = (omega arith, refl, λ a b hb under. absurd (omega arith))

  Done-next : (size i : ℕ) (s : Arr ℤ × ℕ) → Done size i z s → Done size (i + 1) 0 s
  unfolding Done
  Done-next size i (r, place) (at_place, same_size, done) = (omega arith, same_size, done)

  Done-end :
      (size : ℕ) (s : Arr ℤ × ℕ)
      → Done size x 0 s
      → (a b : ℕ) → a < x
      → b < z
      → s.0.at (a * z + b) ≡ entry m1.at m2.at y 2 a b y
  unfolding Done
  Done-end size (r, place) (at_place, same_size, done) a b ha hb =
      let row = row_fits a x z ha in done a b hb (omega arith)

  column_step-Done :
      (size i j : ℕ) (s : Arr ℤ × ℕ)
      → x * z ≤ size
      → i < x
      → j < z
      → Done size i j s
      → Returns (Done size i (j + 1)) (column_step m1 m2 i y j s)
  unfolding Done
  column_step-Done size i j (r, place) room hi hj (at_place, same_size, done) =
      let row = row_fits i x z hi in
      Returns-mono (column_step-Sums r place i j hi hj (omega arith)) (λ (r', place') (sums, e).
        let size = sums.same_size in
        (
          omega arith,
          omega arith,
          λ a b hb under. elim (Bool-cases (a * z + b == place)) [
            | inl same ↦
                let row_ : a ≡ i = same_row a b i j z hb hj (ground arith) in
                let column_ : b ≡ j =
                  let e' : a * z ≡ i * z = ap (λ t. t * z) row_ in ground arith in
                let cell : i * z + j ≡ place = omega arith in rw (row_, column_, cell) sums.here
            | inr other ↦
                let lower : a * z + b < place = ground arith in
                sums.before _ lower ∙ done a b hb lower
          ],
        ))

  row_step-Done :
      (size i : ℕ) (s : Arr ℤ × ℕ)
      → x * z ≤ size
      → i < x
      → Done size i 0 s
      → Returns (Done size (i + 1) 0) (for_range 0 z (column_step m1 m2 i y) s)
  row_step-Done size i s room hi h =
      Returns-mono
        (for_range_inv (Done size i) (column_step m1 m2 i y) z
          (λ j s' lt h'. column_step-Done size i j s' room hi lt h') 0 s (omega arith) h)
        (Done-next size i)

  -- `matrix_multiply` gives in cell `a * z + b` of `r`, for `a < x` and `b < z`, the sum over
  -- `k < y` of `m1[a * y + k]` and `m2[k * 2 + b]`, if `m1` has `x * y` cells, `r` has `x * z`, and
  -- `m2` has those that this reads, and if none of these products, nor of the sums that grow by them,
  -- overflows. This is the product of an `x` by `y` with a `y` by `z` matrix where `z` is 2.
  pub matrix_multiply-entry :
      (r : Arr ℤ)
      → x * z ≤ r.size
      → Returns
          (λ r'. (a b : ℕ) → a < x → b < z → r'.at (a * z + b) ≡ entry m1.at m2.at y 2 a b y)
          (matrix_multiply m1 m2 r x y z)
  unfolding matrix_multiply
  matrix_multiply-entry r room =
      Returns-bind
        (for_range_inv (λ i. Done r.size i 0) (λ row s. for_range 0 z (column_step m1 m2 row y) s) x
          (λ i s lt h. row_step-Done r.size i s room lt h) 0 (r, 0) (omega arith) (Done-start r))
        (λ s h. returns (Done-end r.size s h))
