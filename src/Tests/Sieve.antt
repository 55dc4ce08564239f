-- ===== src/Tests/Sieve.antt =====
-- The sieves below small bounds.
use core_technologies.Base.{
  List, Returns, Run, [], arith, cells, fault, for_range, for_rounds, ok, read, refl, write, ℕ,
  ◌>>=◌, ◌∷◌, ◌≡◌,
}
use core_technologies.Number.Prime.{ListsPrimes}
use core_technologies.Number.Sieve.{
  Sieve, cross_loop, eratosthene_sieve_method, eratosthene_step, eratosthenes_sieve_method,
  eratosthenes_step, euler_sieve, euler_sieve_method, euler_step, multiple_loop, print, sieves,
  store, strike_loop,
}
use core_technologies.Number.Sieve.Eratosthenes.{
  eratosthene_sieve_method-fault, eratosthenes_sieve_method-ListsPrimes,
}
use core_technologies.Number.Sieve.Euler.{euler_sieve_method-ListsPrimes}
use core_technologies.Number.Sieve.Last.{euler_sieve-overrun}
use core_technologies.Number.Sieve.Overrun.{euler_sieve-fault}

-- nothing is marked, and the other cells hold what was there before
abbrev start : (size : ℕ) → Sieve
start size = record {
  access = record { size = size; at = λ k. 0 };
  prime = record { size = size; at = λ k. k };
  prime_index = 0;
}

abbrev found : Run Sieve → Run (List ℕ)
found r = r >>= λ s. ok (cells s.prime.at 0 s.prime_index)

abbrev below_thirty : List ℕ
below_thirty = 2 ∷ 3 ∷ 5 ∷ 7 ∷ 11 ∷ 13 ∷ 17 ∷ 19 ∷ 23 ∷ 29 ∷ []

eratosthenes_thirty : found (eratosthenes_sieve_method 30 (start 30)) ≡ ok below_thirty
unfolding eratosthenes_sieve_method for_range for_rounds eratosthenes_step store cross_loop read
    write cells
eratosthenes_thirty = refl

euler_thirty : found (euler_sieve_method 30 (start 30)) ≡ ok below_thirty
unfolding euler_sieve_method for_range for_rounds euler_step store strike_loop read write cells
euler_thirty = refl

-- with room for one cell more, `Eratosthene_sieve_method` takes the bound for a prime number
bound_taken : found (eratosthene_sieve_method 12 (start 13)) ≡ ok (2 ∷ 3 ∷ 5 ∷ 7 ∷ 11 ∷ 12 ∷ [])
unfolding eratosthene_sieve_method for_range for_rounds eratosthene_step store multiple_loop read
    write cells
bound_taken = refl

-- `print` leaves out the last number
printed :
    (eratosthenes_sieve_method 12 (start 12) >>= λ s. print s.prime s.prime_index)
    ≡ ok (2 ∷ 3 ∷ 5 ∷ 7 ∷ [])
unfolding eratosthenes_sieve_method for_range for_rounds eratosthenes_step store cross_loop read
    write print
printed = refl

-- the second sieve adds the prime numbers again
printed_twice :
    sieves 12 (start 12)
    ≡ ok ((2 ∷ 3 ∷ 5 ∷ 7 ∷ 11 ∷ []), (2 ∷ 3 ∷ 5 ∷ 7 ∷ 11 ∷ 2 ∷ 3 ∷ 5 ∷ 7 ∷ 11 ∷ []))
unfolding sieves eratosthenes_sieve_method euler_sieve_method for_range for_rounds eratosthenes_step
    euler_step store cross_loop strike_loop read write
printed_twice = refl

eratosthenes_sieve_method-ListsPrimes_example :
    Returns
      (λ s. ListsPrimes 1000 s.prime.at s.prime_index)
      (eratosthenes_sieve_method 1000 (start 1001))
eratosthenes_sieve_method-ListsPrimes_example =
    eratosthenes_sieve_method-ListsPrimes 1000 (start 1001) (omega arith) (omega arith)
      (λ k less. refl) refl

euler_sieve_method-ListsPrimes_example :
    Returns (λ s. ListsPrimes 1000 s.prime.at s.prime_index) (euler_sieve_method 1000 (start 1001))
euler_sieve_method-ListsPrimes_example =
    euler_sieve_method-ListsPrimes 1000 (start 1001) (omega arith) (omega arith) (λ k less. refl)
      refl

eratosthene_sieve_method-fault_example : eratosthene_sieve_method 100000 (start 100000) ≡ fault
eratosthene_sieve_method-fault_example =
    eratosthene_sieve_method-fault 100000 (start 100000) (omega arith) refl (omega arith)
      (λ k less. refl)

euler_sieve-fault_test : euler_sieve 100000 (start 100000) ≡ fault
euler_sieve-fault_test =
    euler_sieve-fault 100000 50000 (start 100000) (omega arith) (omega arith) refl refl

euler_sieve-overrun_example :
    (euler_sieve 100000 (record {
      access = record { size = 100000; at = λ k. 0 };
      prime = record { size = 100000; at = λ k. k };
      prime_index = 0;
    })
      ≡ fault)
    × Returns
        (λ s. ListsPrimes 100000 s.prime.at s.prime_index)
        (euler_sieve 100000 (record {
          access = record { size = 100001; at = λ k. 0 };
          prime = record { size = 100000; at = λ k. k };
          prime_index = 0;
        }))
euler_sieve-overrun_example =
    euler_sieve-overrun 100000 50000 (λ k. 0) (record { size = 100000; at = λ k. k }) 0
      (omega arith) (omega arith) (omega arith) (λ k. refl)
