-- ===== src/Exercises/Numbers.antt =====
-- Exercises with numbers and characters: `gcd` of Chapter Seven Functions/Program Exercise
-- 7.11/Question2.c, `reverse_bits` and `encrypt` of Chapter Five/Program Execise 5.9/Question_3.c
-- and Question_2.c, and the `main` of Chapter Four Statement/Programming Exercises 4.14/Question_2.c
-- and Question_3.c.
use core_technologies.Base.{
  Bool-cases, List, Run, [], arith, eqb_ℤ, false, if◌then◌else◌, inl, inr, leb, leb_ℤ, ltb_ℤ, not,
  ok, out_of_fuel, pos, pos_part, refl, suc, zero, ℕ, ℤ, ◌%◌, ◌&&◌, ◌*◌, ◌++◌, ◌+ℤ◌, ◌+◌, ◌-◌, ◌/◌,
  ◌^◌, ◌<◌, ◌<ℤ◌, ◌==◌, ◌>>=◌, ◌||◌, ◌∷◌, ◌≡◌, ◌≢◌, ◌≤◌,
}
use core_technologies.Number.Gcd.{gcd}

-- `gcd` of Question2.c, which recurs at most `fuel` deep
unfoldable pub gcd_positive : ℕ → (m n : ℤ) → Run ℤ
gcd_positive zero m n = out_of_fuel
gcd_positive (suc fuel) m n =
    if leb_ℤ m (pos 0) || leb_ℤ n (pos 0)
    then ok (pos 0)
    else (let r = pos_part m % pos_part n in if r == 0 then ok n else gcd_positive fuel n (pos r))

gcd_positive-gcd_lem :
    (m n : ℕ) → 0 < m → 0 < n → (leb_ℤ (pos m) (pos 0) || leb_ℤ (pos n) (pos 0)) ≡ false
gcd_positive-gcd_lem m n p q = ground arith

-- `gcd` of Question2.c gives for positive numbers what the `gcd` of Gcd.c gives, with one call less.
pub gcd_positive-gcd :
    (fuel m n : ℕ)
    → 0 < m
    → 0 < n
    → gcd_positive fuel (pos m) (pos n) ≡ (gcd (suc fuel) m n >>= λ g. ok (pos g))
unfolding gcd_positive gcd
gcd_positive-gcd zero m n p q = let some_ : (n == 0) ≡ false = ground arith in rw some_ refl
gcd_positive-gcd (suc fuel) m n p q =
    let some_ : (n == 0) ≡ false = ground arith in
    rw (gcd_positive-gcd_lem m n p q, some_)
      (elim (Bool-cases (m % n == 0)) [
        | inl z ↦ rw z refl
        | inr more ↦ rw (more, gcd_positive-gcd fuel n (m % n) q (ground arith), more) refl
      ])

-- a round of the loop of `reverse_bits`, for values of 32 bits
unfoldable pub reverse_loop : ℕ → (i result value : ℕ) → Run ℕ
reverse_loop zero i result value = out_of_fuel
reverse_loop (suc fuel) i result value =
    if i == 0
    then ok result
    else reverse_loop fuel (i * 2 % 2 ^ 32) ((result * 2 % 2 ^ 32) + value % 2) (value / 2)

unfoldable pub reverse_bits : ℕ → (value : ℕ) → Run ℕ
unfolding reverse_loop
reverse_bits fuel value = reverse_loop fuel 0 0 value

-- `reverse_bits` gives 0 for every number: the loop is not entered.
pub reverse_bits_lem : (fuel value : ℕ) → reverse_bits (suc fuel) value ≡ ok 0
unfolding reverse_bits reverse_loop
reverse_bits_lem fuel value = refl

-- `encrypt` for a letter that is not before `base`
unfoldable pub encrypt : (ch base : ℕ) → ℕ
encrypt ch base = (ch - base + 13) % 26 + base

-- `encrypt` is its own inverse on the 26 letters from `base` on, and gives one of them.
pub encrypt-encrypt :
    (ch base : ℕ)
    → base ≤ ch
    → ch < base + 26
    → (encrypt (encrypt ch base) base ≡ ch)
      × (base ≤ encrypt ch base)
      × (encrypt ch base < base + 26)
unfolding encrypt
encrypt-encrypt ch base low high = omega arith

-- the loop of `main` of Question_2.c: what it prints of the characters that it reads
unfoldable pub cipher : List ℕ → List ℕ
cipher [] = []
cipher (ch ∷ rest) =
    let printed = cipher rest in
    let upper = encrypt ch 65 in
    let lower = encrypt ch 97 in
    if leb 65 ch && leb ch 90
    then printed
    else (if leb 97 ch && leb ch 122 then printed else ch ∷ printed)

-- what `main` of Chapter Four/Question_3.c says of three sides
pub data Triangle : Type 0 where
  no_triangle : Triangle
  equilateral : Triangle
  isosceles : Triangle
  scalene : Triangle

unfoldable pub triangle : (a b c : ℤ) → Triangle
triangle a b c =
    if ltb_ℤ c (a +ℤ b) || (ltb_ℤ b (a +ℤ c) || ltb_ℤ a (b +ℤ c))
    then (if eqb_ℤ a b && (eqb_ℤ b c && eqb_ℤ c a)
        then equilateral
        else (if eqb_ℤ a b || (eqb_ℤ a c || eqb_ℤ c b) then isosceles else scalene))
    else no_triangle

-- Three positive numbers are never refused, though the sum of two may be below the third: the
-- test asks for one of the three inequalities, not for all.
pub triangle_accepts :
    (a b c : ℤ) → pos 0 <ℤ a → pos 0 <ℤ b → pos 0 <ℤ c → triangle a b c ≢ no_triangle
unfolding triangle ◌+ℤ◌
triangle_accepts a b c p q r = ground arith

-- the inner loop of `main` of Chapter Four/Question_2.c, from `i` on for `k` rounds: what it prints
unfoldable pub prime_loop : (prime i k : ℕ) → List ℕ
prime_loop prime i zero = []
prime_loop prime i (suc k) =
    let rest = prime_loop prime (suc i) k in
    if prime % i == 0 && not (prime == i) then [] else (if prime == i then prime ∷ rest else rest)

-- the outer loop, for `k` rounds
unfoldable pub primes_from : (prime k : ℕ) → List ℕ
unfolding prime_loop
primes_from prime zero = []
primes_from prime (suc k) = prime_loop prime 2 (prime - 1) ++ primes_from (suc prime) k

unfoldable pub primes_below_hundred : List ℕ
unfolding primes_from
primes_below_hundred = primes_from 2 98
