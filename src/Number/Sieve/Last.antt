-- ===== src/Number/Sieve/Last.antt =====
-- `Euler_sieve_method` of Euler_sieve_method.c, with an array `access` of the size that `main` gives it
-- and with one of one cell more.
use core_technologies.Base.{
  Arr, Bool-cases, Returns, Returns-mono, arith, fault, false, for_range_inv, inl, inr, put, ltb,
  read-ok, refl, suc, true, write, zero, ℕ, Run-cases, ℕ_discrete, ◌%◌, ◌*◌, ◌+◌, ◌<◌, ◌==◌, ◌≡◌,
  ◌≤◌,
}
use core_technologies.Number.Prime.{
  Divides, Divides-trans, IsPrime, ListsPrimes, ListsPrimes-composite, ListsPrimes-none,
  ListsPrimes-prime,
}
use core_technologies.Number.Sieve.Cross.{store-ok}
use core_technologies.Number.Sieve.{Sieve, euler_sieve, euler_step, last_step, strike_loop}
use core_technologies.Number.Sieve.Euler.{
  IsLinear, least_below, mod_of_Divides, step-IsLinear, unmarked-IsPrime,
}
use core_technologies.Number.Sieve.Overrun.{euler_sieve-fault}

-- the inner loop does not come to a further cell where a number before it divides `i`
later :
    (j l i : ℕ) (prime : Arr ℕ)
    → j ≤ l
    → i % prime.at l ≡ 0
    → (i % prime.at j == 0) ≡ false
    → suc j ≤ l
later j l i prime low divides on = elim (ℕ_discrete j l) [
  | yes same ↦ let on' = rw same at on in absurd (ground arith)
  | no other ↦ omega arith
]

strike_loop-suc :
    (k limit i j l : ℕ) (prime st : Arr ℕ)
    → j + k ≤ prime.size
    → j ≤ l
    → l < j + k
    → i % prime.at l ≡ 0
    → strike_loop (suc k) limit i j prime st ≡ strike_loop k limit i j prime st
unfolding strike_loop
strike_loop-suc zero limit i j l prime st room low high divides = absurd (omega arith)
strike_loop-suc (suc k) limit i j l prime st room low high divides =
    rw (read-ok prime j (omega arith)) (
      let p = prime.at j in
      elim (Bool-cases (ltb (i * p) limit)) [
        | inl more ↦ rw more (elim (Run-cases (write st (i * p) 1)) [
          | inl (st', e) ↦ rw e (elim (Bool-cases (p == 0)) [
            | inl null ↦ rw null refl
            | inr some_ ↦ rw some_ (elim (Bool-cases (i % p == 0)) [
              | inl found ↦ rw found refl
              | inr on ↦ rw on (
                  strike_loop-suc k limit i (suc j) l prime st' (omega arith)
                    (later j l i prime low divides on) (omega arith) divides)
            ])
          ])
          | inr (inl e) ↦ rw e refl
          | inr (inr e) ↦ rw e refl
        ])
        | inr stop ↦ rw stop refl
      ])

-- a number from 2 on has a prime divisor up to itself
IsPrime-divisor : (i : ℕ) → 2 ≤ i → (p : ℕ) × (p < i + 1) × IsPrime p × Divides p i
IsPrime-divisor i two = elim (least_below (suc i) i) [
  | inl (p, two', less, none, divides) ↦ (
    p,
    omega arith,
    (two', λ d q r divides'. none d q r (Divides-trans d p i divides' divides)),
    divides,
  )
  | inr none ↦ absurd (none i two (omega arith) (1, omega arith))
]

module _ (n i : ℕ) (s : Sieve) (two : 2 ≤ i) (less : i < n) (w : IsLinear (suc n) i s) where
  -- the inner loop of a round, where the primes up to `i` are listed
  inner_eq :
      (prime : Arr ℕ) (k : ℕ) (st : Arr ℕ)
      → k ≤ prime.size
      → ListsPrimes (i + 1) prime.at k
      → strike_loop (suc k) (suc n) i 0 prime st ≡ strike_loop k (suc n) i 0 prime st
  inner_eq prime k st room lists =
      let (p, below, is_prime, divides) = IsPrime-divisor i two in
      let (l, inside, same) = lists.complete p below is_prime in
      strike_loop-suc k (suc n) i 0 l prime st (omega arith) (omega arith) (omega arith)
        (rw same (mod_of_Divides p i divides))

  last_step-euler_step : last_step n i s ≡ euler_step (suc n) i s
  unfolding last_step euler_step
  last_step-euler_step =
      rw (read-ok s.access i (omega (arith, w.fits))) (elim (ℕ_discrete (s.access.at i) 0) [
        | yes z ↦
            let free : (s.access.at i == 0) ≡ true = ground arith in
            let lists =
              ListsPrimes-prime i s.prime.at s.prime_index (omega arith) w.lists
                (unmarked-IsPrime (suc n) i s two (omega arith) w z) in
            rw
              (
                free,
                store-ok i s (omega (arith, w.lists.room, w.room)),
                inner_eq (put s.prime s.prime_index i) (suc s.prime_index) s.access
                    (omega (arith, lists.room, w.room)) lists,
              )
              refl
        | no nz ↦
            let taken : (s.access.at i == 0) ≡ false = ground arith in
            let lists =
              ListsPrimes-composite i s.prime.at s.prime_index (omega arith) w.lists
                (w.marked i (omega arith) nz) in
            rw
              (
                taken,
                inner_eq s.prime s.prime_index s.access (omega (arith, lists.room, w.room)) lists,
              )
              refl
      ])

  last_step-IsLinear : Returns (IsLinear (suc n) (i + 1)) (last_step n i s)
  last_step-IsLinear = rw last_step-euler_step (step-IsLinear (suc n) i s two (omega arith) w)

-- `Euler_sieve_method` on an array `access` of more cells than the bound, none of them marked, lists
-- the prime numbers below the bound.
pub euler_sieve-ListsPrimes :
    (n : ℕ) (s : Sieve)
    → 2 ≤ n
    → n < s.access.size
    → n ≤ s.prime.size
    → ((k : ℕ) → k ≤ n → s.access.at k ≡ 0)
    → Returns (λ s'. ListsPrimes n s'.prime.at s'.prime_index) (euler_sieve n s)
unfolding euler_sieve
euler_sieve-ListsPrimes n s big fits room clear =
    let start : IsLinear (suc n) 2 (record s { prime_index = 0 }) = record {
      fits = omega arith;
      room = omega arith;
      lists = ListsPrimes-none 2 s.prime.at (omega arith);
      marked = λ m less mark. absurd (mark (clear m (omega arith)));
      done = λ c p two less. absurd (omega arith);
    } in
    Returns-mono
      (for_range_inv (λ i s. (2 ≤ i) × IsLinear (suc n) i s) (last_step n) n
        (λ i s' less (two, w).
          Returns-mono (last_step-IsLinear n i s' two less w) λ t v. (omega arith, v))
        2 (record s { prime_index = 0 }) (omega arith) (omega arith, start))
      λ s' (two, w). w.lists

-- `Euler_sieve_method` writes `access[MAXNUM]`, one cell behind the end of the array that `main` gives
-- it: for an even bound `n` of at least 6, with room for `n` prime numbers and nothing marked, the run
-- makes an access out of bounds where `access` has `n` cells; where it has one cell more, the run
-- makes none, and lists the prime numbers below `n`.
pub euler_sieve-overrun :
    (n m : ℕ) (access : ℕ → ℕ) (prime : Arr ℕ) (prime_index : ℕ)
    → m * 2 ≡ n
    → 2 < m
    → n ≤ prime.size
    → ((k : ℕ) → access k ≡ 0)
    → (euler_sieve n (record {
      access = record { size = n; at = access };
      prime = prime;
      prime_index = prime_index;
    })
        ≡ fault)
      × Returns
          (λ s. ListsPrimes n s.prime.at s.prime_index)
          (euler_sieve n (record {
            access = record { size = suc n; at = access };
            prime = prime;
            prime_index = prime_index;
          }))
euler_sieve-overrun n m access prime prime_index half big room clear = (
  euler_sieve-fault n m _ half big refl (clear 2),
  euler_sieve-ListsPrimes n _ (omega arith) (omega arith) room (λ k le. clear k),
)
