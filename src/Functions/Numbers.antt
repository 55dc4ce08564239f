-- ===== src/Functions/Numbers.antt =====
-- The functions on numbers.
use core_technologies.Base.{
  Bool-cases, List, Returns, Returns-bind, [], ap, arith, false, inl, inr, leb, ok, pos, refl,
  returns, suc, sym, true, zero, ℕ, ◌%◌, ◌*◌, ◌++◌, ◌+◌, ◌-◌, ◌/◌, ◌<◌, ◌==◌, ◌∙◌, ◌∷◌, ◌≡◌, ◌≤◌,
}
use core_technologies.Functions.{
  add_long, binary_to_ascii, factorial2, factorial_loop, fibonacci1, fibonacci2, fibonacci_loop,
  max_int, max_long,
}
use native.Mathlib.Nat.{mul_assoc, le-mul_of_pos_right}

-- the Fibonacci numbers, and the factorials
unfoldable pub fib : ℕ → ℕ
fib zero = 0
fib (suc zero) = 1
fib (suc (suc n)) = fib (suc n) + fib n

unfoldable pub factorial : ℕ → ℕ
factorial zero = 1
factorial (suc n) = suc n * factorial n

fib-le : (n : ℕ) → fib n ≤ fib (suc n)
unfolding fib
fib-le zero = omega arith
fib-le (suc n) = omega arith

add_long-ok : (a b : ℕ) → a + b ≤ max_long → add_long a b ≡ ok (a + b)
unfolding add_long
add_long-ok a b h = let e : leb (a + b) max_long ≡ true = ground arith in rw e refl

fibonacci1-fib : (n : ℕ) → fib n ≤ max_long → fibonacci1 n ≡ ok (fib n)
unfolding fibonacci1 fib
fibonacci1-fib zero h = refl
fibonacci1-fib (suc zero) h = refl
fibonacci1-fib (suc (suc n)) h =
    rw (fibonacci1-fib (suc n) (omega arith), fibonacci1-fib n (omega arith))
      (add_long-ok (fib (suc n)) (fib n) h)

fib_mono : (m n : ℕ) → fib m ≤ fib (m + n)
fib_mono m zero = let e : m + 0 ≡ m = omega arith in rw e (omega arith)
fib_mono m (suc n) =
    let e : m + suc n ≡ suc (m + n) = omega arith in
    rw e (omega (arith, fib_mono m n, fib-le (m + n)))

fibonacci_loop-fib :
    (n k : ℕ)
    → fib (suc (suc k) + n) ≤ max_long
    → fibonacci_loop n (fib (suc (suc k))) (fib (suc k)) ≡ ok (fib (suc (suc k) + n))
unfolding fibonacci_loop
fibonacci_loop-fib zero k h = let e : suc (suc k) + 0 ≡ suc (suc k) = omega arith in rw e refl
fibonacci_loop-fib (suc n) k h =
    let e : suc (suc k) + suc n ≡ suc (suc (suc k)) + n = omega arith in
    let h' = rw e at h in
    let next : fib (suc (suc k)) + fib (suc k) ≡ fib (suc (suc (suc k))) = unfold fib in refl in
    let fits : fib (suc (suc k)) + fib (suc k) ≤ max_long =
      omega (arith, fib_mono (suc (suc (suc k))) n) in
    rw (add_long-ok (fib (suc (suc k))) (fib (suc k)) fits, next, e)
      (fibonacci_loop-fib n (suc k) h')

-- `fibonacci2` of a positive number gives the same as `fibonacci1`, the Fibonacci number, if this
-- is a `long`.
pub fibonacci2-fibonacci1 :
    (n : ℕ) → 0 < n → fib n ≤ max_long → (fibonacci2 n ≡ fibonacci1 n) × (fibonacci1 n ≡ ok (fib n))
unfolding fibonacci2
fibonacci2-fibonacci1 zero some_there h = absurd (omega arith)
fibonacci2-fibonacci1 (suc zero) some_there h =
    (unfold fibonacci_loop in unfold fibonacci1 in refl, fibonacci1-fib 1 h)
fibonacci2-fibonacci1 (suc (suc n)) some_there h =
    let e : suc (suc n) - 2 ≡ n = omega arith in
    let e' : 2 + n ≡ suc (suc n) = omega arith in
    let one : fib 1 ≡ 1 = unfold fib in refl in
    let two : fib 2 ≡ 1 = unfold fib in refl in
    let loop = fibonacci_loop-fib n 0 (rw e' h) in
    let loop' : fibonacci_loop n 1 1 ≡ ok (fib (suc (suc n))) = rw (← e') (rw (two, one) at loop) in
    (rw e (loop' ∙ sym (fibonacci1-fib (suc (suc n)) h)), fibonacci1-fib (suc (suc n)) h)

factorial-positive : (n : ℕ) → 0 < factorial n
unfolding factorial
factorial-positive zero = omega arith
factorial-positive (suc n) =
    let least = le-mul_of_pos_right (suc n) (factorial-positive n) in omega arith

factorial_loop-factorial :
    (n result : ℕ)
    → result * factorial n ≤ max_int
    → factorial_loop n result ≡ ok (result * factorial n)
unfolding factorial_loop factorial
factorial_loop-factorial zero result h = let e : result * 1 ≡ result = omega arith in rw e refl
factorial_loop-factorial (suc zero) result h =
    let e : result * (1 * 1) ≡ result = omega arith in rw e refl
factorial_loop-factorial (suc (suc n)) result h =
    let more : (suc n == 0) ≡ false = ground arith in
    let e = mul_assoc result (suc (suc n)) (factorial (suc n)) in
    let h' : result * suc (suc n) * factorial (suc n) ≤ max_int = rw e h in
    let least = le-mul_of_pos_right (result * suc (suc n)) (factorial-positive (suc n)) in
    let below : result * suc (suc n) ≤ max_int = omega arith in
    let fits : leb (result * suc (suc n)) max_int ≡ true = ground arith in
    rw (more, fits, ← e) (factorial_loop-factorial (suc n) (result * suc (suc n)) h')

-- `factorial2` of a number that is not negative gives its factorial if this is an `int`.
pub factorial2-factorial : (n : ℕ) → factorial n ≤ max_int → factorial2 (pos n) ≡ ok (factorial n)
unfolding factorial2
factorial2-factorial n h =
    let e : 1 * factorial n ≡ factorial n = omega arith in
    factorial_loop-factorial n 1 (rw e h) ∙ ap (λ r. ok r) e

-- the number that decimal digits stand for, behind those of `front`
unfoldable pub number : (front : ℕ) → List ℕ → ℕ
number front [] = front
number front (c ∷ cs) = number (front * 10 + (c - b'0')) cs

number-append : (n : ℕ) (xs ys : List ℕ) → number n (xs ++ ys) ≡ number (number n xs) ys
unfolding number
number-append n [] ys = refl
number-append n (x ∷ xs) ys = number-append (n * 10 + (x - b'0')) xs ys

-- `binary_to_ascii` prints digits that stand for the value; more calls than the value are enough.
pub binary_to_ascii-number :
    (fuel value : ℕ)
    → value < fuel
    → Returns (λ digits. number 0 digits ≡ value) (binary_to_ascii fuel value)
unfolding binary_to_ascii
binary_to_ascii-number zero value f = absurd (omega arith)
binary_to_ascii-number (suc fuel) value f = elim (Bool-cases (value / 10 == 0)) [
  | inl small ↦
      let nothing : value / 10 ≡ 0 = ground arith in
      let e : number 0 ((value % 10 + b'0') ∷ []) ≡ value = unfold number in omega arith in
      rw small (returns e)
  | inr large ↦ rw large (
      Returns-bind (binary_to_ascii-number fuel (value / 10) (ground arith)) λ front e.
        returns
          (number-append 0 front ((value % 10 + b'0') ∷ []) ∙ unfold number in rw e (omega arith)))
]
