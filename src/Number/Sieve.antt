-- ===== src/Number/Sieve.antt =====
-- The sieves: Eratosthene_sieve_method.c and Euler_sieve_method.c of Algorithm/Prime, and
-- Question4_5_6.c of Pointers_On_C. The bound, `MAXNUM` and `N` there, is the argument `n`; the
-- cells of the arrays hold no negative numbers.
pub mod Cross
pub mod Eratosthenes
pub mod Strike
pub mod Euler
pub mod Overrun
pub mod Last
use core_technologies.Base.{
  Arr, List, Run, [], fault, for_range, if◌then◌else◌, ltb, ok, out_of_fuel, read, suc, write, zero,
  ℕ, ◌%◌, ◌*◌, ◌+◌, ◌-◌, ◌==◌, ◌>>=◌, ◌∷◌,
}

-- what a sieve works on: `access` and `prime` in the one program, `st`, `primes` and `count` in the
-- other
pub record Sieve : Type 0 where
  pub access : Arr ℕ
  pub prime : Arr ℕ
  pub prime_index : ℕ

-- `prime[prime_index++] = i;`
unfoldable pub store : ℕ → Sieve → Run Sieve
store i s = do
  prime ← write s.prime s.prime_index i
  ok (record s { prime = prime; prime_index = suc s.prime_index })

-- the loop on `j` of `Eratosthene_sieve_method`, which writes cell `i * j`
unfoldable pub multiple_loop : ℕ → (n i j : ℕ) → Arr ℕ → Run (Arr ℕ)
multiple_loop zero n i j access = out_of_fuel
multiple_loop (suc fuel) n i j access =
    if ltb (i * j) n
    then (do access ← write access (i * j) 1; multiple_loop fuel n i (j + 1) access)
    else ok access

-- a round of its loop on `i`
unfoldable pub eratosthene_step : (n i : ℕ) → Sieve → Run Sieve
eratosthene_step n i s = do
  a ← read s.access i
  s ← (if a == 0 then store i s else ok s)
  access ← multiple_loop (suc n) n i 2 s.access
  ok (record s { access = access })

unfoldable pub eratosthene_sieve_method : ℕ → Sieve → Run Sieve
eratosthene_sieve_method n s =
    for_range 2 (suc n) (eratosthene_step n) (record s { prime_index = 0 })

-- the loop on `j` of `eratosthenes_sieve_method`, which grows by `i`
unfoldable pub cross_loop : ℕ → (n i j : ℕ) → Arr ℕ → Run (Arr ℕ)
cross_loop zero n i j st = out_of_fuel
cross_loop (suc fuel) n i j st =
    if ltb j n then (do st ← write st j 1; cross_loop fuel n i (j + i) st) else ok st

-- a round of its loop on `i`
unfoldable pub eratosthenes_step : (n i : ℕ) → Sieve → Run Sieve
eratosthenes_step n i s = do
  a ← read s.access i
  if a == 0
      then (do
        s ← store i s
        st ← cross_loop (suc n) n i (i + i) s.access
        ok (record s { access = st }))
      else ok s

-- with `count` as the program has left it
unfoldable pub eratosthenes_sieve_method : ℕ → Sieve → Run Sieve
eratosthenes_sieve_method n s = for_range 2 n (eratosthenes_step n) s

-- the loop on `j` of the sieves of Euler, for the `k` primes from cell `j` on, up to the first
-- multiple that is not below `limit`
unfoldable pub strike_loop : (k limit i j : ℕ) → Arr ℕ → Arr ℕ → Run (Arr ℕ)
strike_loop zero limit i j prime st = ok st
strike_loop (suc k) limit i j prime st = do
  p ← read prime j
  if ltb (i * p) limit
      then (do
        st ← write st (i * p) 1
        if p == 0
            then fault
            else (if i % p == 0 then ok st else strike_loop k limit i (suc j) prime st))
      else ok st

-- a round of the loop on `i` of `euler_sieve_method`
unfoldable pub euler_step : (n i : ℕ) → Sieve → Run Sieve
euler_step n i s = do
  a ← read s.access i
  s ← (if a == 0 then store i s else ok s)
  st ← strike_loop s.prime_index n i 0 s.prime s.access
  ok (record s { access = st })

-- `euler_sieve_method` of Question4_5_6.c, with `count` as the program has left it
unfoldable pub euler_sieve_method : ℕ → Sieve → Run Sieve
euler_sieve_method n s = for_range 2 n (euler_step n) s

-- a round of the loop on `i` of `Euler_sieve_method` of Euler_sieve_method.c, whose inner loop
-- tests `j <= prime_index` and `i * prime[j] <= MAXNUM`
unfoldable pub last_step : (n i : ℕ) → Sieve → Run Sieve
last_step n i s = do
  a ← read s.access i
  s ← (if a == 0 then store i s else ok s)
  access ← strike_loop (suc s.prime_index) (suc n) i 0 s.prime s.access
  ok (record s { access = access })

-- `Euler_sieve_method` of Euler_sieve_method.c
unfoldable pub euler_sieve : ℕ → Sieve → Run Sieve
euler_sieve n s = for_range 2 n (last_step n) (record s { prime_index = 0 })

-- `print` of both files of Algorithm/Prime: the numbers, without the line feeds
unfoldable pub print_loop : Arr ℕ → (i k : ℕ) → Run (List ℕ)
print_loop prime i zero = ok []
print_loop prime i (suc k) = do x ← read prime i; xs ← print_loop prime (suc i) k; ok (x ∷ xs)

unfoldable pub print : Arr ℕ → (prime_index : ℕ) → Run (List ℕ)
unfolding print_loop
print prime prime_index = print_loop prime 0 (prime_index - 1)

-- `main` of Question4_5_6.c from the first sieve on: the numbers that it prints after each sieve.
-- Between the two nothing is reset.
unfoldable pub sieves : ℕ → Sieve → Run (List ℕ × List ℕ)
unfolding print_loop
sieves n s = do
  s ← eratosthenes_sieve_method n s
  first ← print_loop s.prime 0 s.prime_index
  s ← euler_sieve_method n s
  second ← print_loop s.prime 0 s.prime_index
  ok (first, second)
