-- ===== src/Text/Spec.antt =====
-- A string in an array.
use core_technologies.Base.{
  Arr, arith, false, ok, read-ok, refl, suc, zero, ℕ, ◌+◌, ◌-◌, ◌<◌, ◌==◌, ◌≡◌, ◌≢◌, ◌≤◌,
}
use core_technologies.Text.{my_strlen}

-- `n` characters from `p` on, and the 0 behind them
pub record IsText (a : Arr ℕ) (p n : ℕ) : Type 0 where
  pub fits : p + n < a.size
  pub full : (k : ℕ) → k < n → a.at (p + k) ≢ 0
  pub end : a.at (p + n) ≡ 0

-- the string without its first character
pub IsText-next : (a : Arr ℕ) (p n : ℕ) → IsText a p (suc n) → IsText a (suc p) n
IsText-next a p n w =
    let e : p + suc n ≡ suc p + n = omega arith in
    let fits = w.fits in
    record {
      fits = omega arith;
      full = λ k lt.
          let e' : p + suc k ≡ suc p + k = omega arith in
          let old = w.full (suc k) (omega arith) in rw e' at old;
      end = let old = w.end in rw e at old;
    }

pub IsText-head : (a : Arr ℕ) (p n : ℕ) → IsText a p (suc n) → (a.at p == 0) ≡ false
IsText-head a p n w =
    let old = w.full 0 (omega arith) in
    let e : p + 0 ≡ p = omega arith in let first = rw e at old in ground arith

pub IsText-empty : (a : Arr ℕ) (p : ℕ) → IsText a p 0 → a.at p ≡ 0
IsText-empty a p w = let e : p + 0 ≡ p = omega arith in let old = w.end in rw e at old

-- `my_strlen` gives the length of a string; more rounds than it has characters are enough.
pub my_strlen_lem :
    (fuel : ℕ) (a : Arr ℕ) (p n : ℕ) → n < fuel → IsText a p n → my_strlen fuel a p ≡ ok n
unfolding my_strlen
my_strlen_lem zero a p n f w = absurd (omega arith)
my_strlen_lem (suc fuel) a p zero f w =
    rw (read-ok a p (omega (arith, w.fits)), IsText-empty a p w) refl
my_strlen_lem (suc fuel) a p (suc n) f w =
    let e : n + 1 ≡ suc n = omega arith in
    rw
      (
        read-ok a p (omega (arith, w.fits)),
        IsText-head a p n w,
        my_strlen_lem fuel a (suc p) n (omega arith) (IsText-next a p n w),
        e,
      )
      refl

-- the end of a string from a place in it on
pub IsText-from :
    (a : Arr ℕ) (p n i : ℕ) → IsText a p n → p ≤ i → i ≤ p + n → IsText a i (p + n - i)
IsText-from a p n i w low high =
    let e : i + (p + n - i) ≡ p + n = omega arith in
    record {
      fits = omega (arith, w.fits);
      full = λ k lt.
          let e' : p + (i + k - p) ≡ i + k = omega arith in
          let old = w.full (i + k - p) (omega arith) in rw e' at old;
      end = rw e w.end;
    }
