-- ===== src/Tests/Functions.antt =====
-- example.c on small numbers.
use core_technologies.Base.{Returns, arith, ok, refl, ◌≡◌}
use core_technologies.Functions.{binary_to_ascii, fibonacci1, fibonacci2, fibonacci_loop}
use core_technologies.Functions.Numbers.{binary_to_ascii-number, fib, fibonacci2-fibonacci1, number}

fibonacci2-fibonacci1_test : (fibonacci2 10 ≡ fibonacci1 10) × (fibonacci1 10 ≡ ok (fib 10))
fibonacci2-fibonacci1_test = fibonacci2-fibonacci1 10 (omega arith) (unfold fib in omega arith)

-- at 0 the two differ
at_zero : (fibonacci1 0 ≡ ok 0) × (fibonacci2 0 ≡ ok 1)
unfolding fibonacci1 fibonacci2 fibonacci_loop
at_zero = (refl, refl)

binary_to_ascii-number_test : Returns (λ digits. number 0 digits ≡ 4267) (binary_to_ascii 4268 4267)
binary_to_ascii-number_test = binary_to_ascii-number 4268 4267 (omega arith)
