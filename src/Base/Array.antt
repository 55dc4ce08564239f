-- ===== src/Base/Array.antt =====
-- C arrays: `size` cells, and their contents. A cell outside of the array can be neither read
-- nor written; what `at` gives there means nothing.
pub mod Count
pub mod Shift
use Prim.Native.Nat.{ℕ, zero, suc, ◌+◌, ◌-◌, ◌≤◌, ◌<◌}
use mathlib.Core.List.{List, [], ◌∷◌, ◌++◌}
use core_technologies.Base.Int.{ℤ, pos, negsuc}
use mathlib.Core.Path.{◌≡◌, refl, ap}
use native.Mathlib.Omega.{arith}
use core_technologies.Base.Tests.{ltb, ◌==◌, if◌then◌else◌}
use core_technologies.Base.Outcome.{Run, ok, fault, ◌>>=◌}

pub record Arr {ℓ} (A : Type ℓ) : Type ℓ where
  pub size : ℕ
  pub at : ℕ → A

abbrev pub update {ℓ} : {A : Type ℓ} → (ℕ → A) → ℕ → A → ℕ → A
update f i v j = if i == j then v else f j

-- the array once `v` stands in cell `i`
abbrev pub put {ℓ} : {A : Type ℓ} → Arr A → ℕ → A → Arr A
put a i v = record { size = a.size; at = update a.at i v }

-- `a[i]` as a value, and `a[i] = v`
unfoldable pub read {ℓ} : {A : Type ℓ} → Arr A → ℕ → Run A
read a i = if ltb i a.size then ok (a.at i) else fault

unfoldable pub write {ℓ} : {A : Type ℓ} → Arr A → ℕ → A → Run (Arr A)
write a i v = if ltb i a.size then ok (put a i v) else fault

module _ {ℓ} {A : Type ℓ} where
  pub read-ok : (a : Arr A) (i : ℕ) → i < a.size → read a i ≡ ok (a.at i)
  unfolding read
  read-ok a i h = ground arith

  pub write-ok : (a : Arr A) (i : ℕ) (v : A) → i < a.size → write a i v ≡ ok (put a i v)
  unfolding write
  write-ok a i v h = ground arith

  pub read-fault : (a : Arr A) (i : ℕ) → a.size ≤ i → read a i ≡ fault
  unfolding read
  read-fault a i h = ground arith

  pub write-fault : (a : Arr A) (i : ℕ) (v : A) → a.size ≤ i → write a i v ≡ fault
  unfolding write
  write-fault a i v h = ground arith

-- `a[i]` and `a[i] = v` at an index that may be negative
abbrev pub read_at {ℓ} : {A : Type ℓ} → Arr A → ℤ → Run A
read_at a (pos i) = read a i
read_at a (negsuc i) = fault

abbrev pub write_at {ℓ} : {A : Type ℓ} → Arr A → ℤ → A → Run (Arr A)
write_at a (pos i) v = write a i v
write_at a (negsuc i) v = fault

-- the cells `i`, ..., `i + n - 1` in order
unfoldable pub cells {ℓ} : {A : Type ℓ} → (ℕ → A) → (i n : ℕ) → List A
cells f i zero = []
cells f i (suc n) = f i ∷ cells f (suc i) n

-- the cells `n - 1`, ..., `0`
unfoldable pub cells_down {ℓ} : {A : Type ℓ} → (ℕ → A) → ℕ → List A
cells_down f zero = []
cells_down f (suc n) = f n ∷ cells_down f n

module _ {ℓ} {A : Type ℓ} where
  pub cells_down_eq :
      (f g : ℕ → A) (n : ℕ) → ((k : ℕ) → k < n → f k ≡ g k) → cells_down f n ≡ cells_down g n
  unfolding cells_down
  cells_down_eq f g zero h = refl
  cells_down_eq f g (suc n) h =
      rw (h n (omega arith), cells_down_eq f g n (λ k lt. h k (omega arith)))

  pub cells_eq :
      (f g : ℕ → A) (i n : ℕ)
      → ((k : ℕ) → i ≤ k → k < i + n → f k ≡ g k)
      → cells f i n ≡ cells g i n
  unfolding cells
  cells_eq f g i zero h = refl
  cells_eq f g i (suc n) h = rw (
    h i (omega arith) (omega arith),
    cells_eq f g (suc i) n (λ k p q. h k (omega arith) (omega arith)),
  )

  -- the cells of an array that has moved down by one
  pub cells_shift :
      (f g : ℕ → A) (i n : ℕ)
      → ((k : ℕ) → i ≤ k → k < i + n → f k ≡ g (suc k))
      → cells f i n ≡ cells g (suc i) n
  unfolding cells
  cells_shift f g i zero h = refl
  cells_shift f g i (suc n) h = rw (
    h i (omega arith) (omega arith),
    cells_shift f g (suc i) n (λ k p q. h k (omega arith) (omega arith)),
  )

  pub cells-last : (f : ℕ → A) (i n : ℕ) → cells f i (suc n) ≡ cells f i n ++ (f (i + n) ∷ [])
  unfolding cells
  cells-last f i zero = let e : i + 0 ≡ i = omega arith in rw e
  cells-last f i (suc n) =
      let e : suc i + n ≡ i + suc n = omega arith in rw (cells-last f (suc i) n, e)

  pub cells-split : (f : ℕ → A) (i k m : ℕ) → cells f i (k + m) ≡ cells f i k ++ cells f (i + k) m
  unfolding cells
  cells-split f i zero m =
      let e : i + 0 ≡ i = omega arith in let e' : 0 + m ≡ m = omega arith in rw (e, e') refl
  cells-split f i (suc k) m =
      let e : suc i + k ≡ i + suc k = omega arith in
      let e' : suc k + m ≡ suc (k + m) = omega arith in rw (e', cells-split f (suc i) k m, e) refl

  -- a write behind the last of the cells
  pub cells_down-update :
      (f : ℕ → A) (n : ℕ) (x : A) → cells_down (update f n x) (n + 1) ≡ x ∷ cells_down f n
  unfolding cells_down
  cells_down-update f n x =
      let e : n + 1 ≡ suc n = omega arith in
      let self : update f n x n ≡ x = ground arith in
      rw (e, self) (ap (◌∷◌ x) (cells_down_eq (update f n x) f n (λ k lt. ground arith)))

  pub cells_down-pred :
      (f : ℕ → A) (n : ℕ) → 0 < n → cells_down f n ≡ f (n - 1) ∷ cells_down f (n - 1)
  unfolding cells_down
  cells_down-pred f zero h = absurd (omega arith)
  cells_down-pred f (suc n) h = let e : suc n - 1 ≡ n = omega arith in rw e

  pub cells_down_pos : (f : ℕ → A) (n : ℕ) {x : A} {xs : List A} → cells_down f n ≡ x ∷ xs → 0 < n
  unfolding cells_down
  cells_down_pos f zero h = cc
  cells_down_pos f (suc n) h = omega arith

  pub cells-update :
      (f : ℕ → A) (i n m : ℕ) (x : A)
      → m ≡ i + n
      → cells (update f m x) i (n + 1) ≡ cells f i n ++ (x ∷ [])
  cells-update f i n m x at_end =
      let e : n + 1 ≡ suc n = omega arith in
      let self : update f m x (i + n) ≡ x = ground arith in
      rw (e, cells-last, self, cells_eq (update f m x) f i n (λ k p q. ground arith))

  pub cells_pos :
      (f : ℕ → A) (i n : ℕ) {x : A} {xs : List A}
      → cells f i n ≡ x ∷ xs
      → (0 < n) × (f i ≡ x) × (cells f (suc i) (n - 1) ≡ xs)
  unfolding cells
  cells_pos f i zero h = cc
  cells_pos f i (suc n) h = let e : suc n - 1 ≡ n = omega arith in (omega arith, cc, rw e (cc))
