-- ===== src/Tests/Trial.antt =====
-- The prime numbers below small bounds.
use core_technologies.Base.{[], refl, ◌∷◌, ◌≡◌}
use core_technologies.Number.Trial.{
  ordinary_sieve_method, ordinary_sieve_method1, ordinary_sieve_method2,
}
use core_technologies.Number.Trial.Laws.{ordinary_sieve_method1-ordinary_sieve_method}

below_twelve : ordinary_sieve_method 12 ≡ record { count = 5; numbers = 2 ∷ 3 ∷ 5 ∷ 7 ∷ 11 ∷ [] }
unfolding ordinary_sieve_method
below_twelve = refl

below_twelve1 : ordinary_sieve_method1 12 ≡ record { count = 5; numbers = 2 ∷ 3 ∷ 5 ∷ 7 ∷ 11 ∷ [] }
unfolding ordinary_sieve_method1
below_twelve1 = refl

below_twelve2 : ordinary_sieve_method2 12 ≡ record { count = 5; numbers = 2 ∷ 3 ∷ 5 ∷ 7 ∷ 11 ∷ [] }
unfolding ordinary_sieve_method2
below_twelve2 = refl

-- below an odd bound 2 is missing
below_eleven2 : ordinary_sieve_method2 11 ≡ record { count = 3; numbers = 3 ∷ 5 ∷ 7 ∷ [] }
unfolding ordinary_sieve_method2
below_eleven2 = refl

ordinary_sieve_method1-ordinary_sieve_method_test :
    ordinary_sieve_method1 100 ≡ ordinary_sieve_method 100
ordinary_sieve_method1-ordinary_sieve_method_test = ordinary_sieve_method1-ordinary_sieve_method 100
