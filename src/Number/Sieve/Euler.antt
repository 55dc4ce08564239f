-- ===== src/Number/Sieve/Euler.antt =====
-- `euler_sieve_method` of Question4_5_6.c.
use core_technologies.Base.{
  Arr, Returns, Returns-mono, Returns-bind, arith, dec_lt, for_range_empty, for_range_inv, inl, inr,
  ok, read-ok, refl, returns, suc, true, false, zero, ℕ, ℕ_discrete, ◌%◌, ◌*◌, ◌+◌, ◌<◌, ◌==◌,
  ◌>>=◌, ◌∙◌, ◌≡◌, ◌≢◌, ◌≤◌, put, ◌⊎◌,
}
use core_technologies.Number.Prime.{
  Divides, Divides-trans, IsComposite, IsPrime, ListsPrimes, ListsPrimes-composite,
  ListsPrimes-none, ListsPrimes-prime,
}
use core_technologies.Number.Sieve.Cross.{store-ok}
use core_technologies.Number.Sieve.{Sieve, euler_sieve_method, euler_step, strike_loop}
use core_technologies.Number.Sieve.Strike.{Divides-of_mod, IsStruck, strike_loop-IsStruck}
use native.Mathlib.Nat.{mul-le-mul_left, mul-mod_right, mul_comm}

-- no number from 2 on below `p` divides `m`
abbrev pub NoneBelow : ℕ → ℕ → Type 0
NoneBelow p m = (d : ℕ) → 2 ≤ d → d < p → ¬ (Divides d m)

pub mod_of_Divides : (d m : ℕ) → Divides d m → m % d ≡ 0
mod_of_Divides d m (c, e) = rw (e, mul_comm c d) (mul-mod_right d c)

-- the least divisor of `m` below `k`, from 2 on, if there is one
pub least_below :
    (k m : ℕ) → ((p : ℕ) × (2 ≤ p) × (p < k) × NoneBelow p m × Divides p m) ⊎ NoneBelow k m
least_below zero m = inr (λ d p q. absurd (omega arith))
least_below (suc k) m = elim (least_below k m) [
  | inl (p, two, less, none, divides) ↦ inl (p, two, omega arith, none, divides)
  | inr none ↦ elim (dec_lt k 2) [
    | yes small ↦ inr (λ d p q. absurd (omega arith))
    | no big ↦ elim (ℕ_discrete (m % k) 0) [
      | yes z ↦ inl (k, omega arith, omega arith, none, Divides-of_mod k m z)
      | no nz ↦ inr (λ d p q. elim (ℕ_discrete d k) [
        | yes e ↦ λ divides. nz (mod_of_Divides k m (rw e at divides))
        | no ne ↦ none d p (omega arith)
      ])
    ]
  ]
]

-- Before the round of `i` the primes below `i` are listed, and marked are composite numbers only:
-- those below `n` whose cofactor to the least divisor is below `i`.
pub record IsLinear (n i : ℕ) (s : Sieve) : Type 0 where
  pub fits : n ≤ s.access.size
  pub room : n ≤ suc s.prime.size
  pub lists : ListsPrimes i s.prime.at s.prime_index
  pub marked : (m : ℕ) → m < n → s.access.at m ≢ 0 → IsComposite m
  pub done :
      (c p : ℕ) → 2 ≤ c → c < i → 2 ≤ p → NoneBelow p (c * p) → c * p < n → s.access.at (c * p) ≢ 0

cofactor_bounds : (c p d i : ℕ) → 2 ≤ p → p ≤ d → d < i → i ≡ c * p → (2 ≤ c) × (c < i)
cofactor_bounds zero p d i two le less e = absurd (omega arith)
cofactor_bounds (suc zero) p d i two le less e = absurd (omega arith)
cofactor_bounds (suc (suc c)) p d i two le less e = (omega arith, grind arith)

above : (i p : ℕ) → 2 ≤ i → 2 ≤ p → i < i * p
above i p two two' = omega (arith, mul-le-mul_left i two')

module _ (n i : ℕ) (s : Sieve) (two : 2 ≤ i) (less : i < n) (w : IsLinear n i s) where
  pub unmarked-IsPrime : s.access.at i ≡ 0 → IsPrime i
  unmarked-IsPrime z = (
    two,
    λ d p q divides. elim (least_below (suc d) i) [
      | inr none ↦ none d p (omega arith) divides
      | inl (l, two', small, none, (c, e)) ↦
          let (big, below) = cofactor_bounds c l d i two' (omega arith) q e in
          w.done c l big below two' (rw e at none) (omega arith) (rw e at z)
    ],
  )

  -- the least divisor of a multiple of `i` is not above `i`
  divisor-le : (p : ℕ) → NoneBelow p (i * p) → p ≤ i
  divisor-le p none = elim (dec_lt i p) [
    | yes q ↦ absurd (none i two q (p, mul_comm i p))
    | no q ↦ omega arith
  ]

  -- the multiple of `i` by a prime number that is its least divisor is marked
  struck_least :
      (s' : Sieve)
      → ListsPrimes (i + 1) s'.prime.at s'.prime_index
      → IsStruck n i s'.prime_index s'.prime.at 0 s.access.at s'.access.at
      → (l : ℕ) → l < s'.prime_index
      → NoneBelow (s'.prime.at l) (i * s'.prime.at l)
      → i * s'.prime.at l < n
      → s'.access.at (i * s'.prime.at l) ≢ 0
  struck_least s' lists c l q none small = c.hit l (omega arith) q small λ k _ r divides.
      none (s'.prime.at k) (lists.prime k (omega arith)).0 (lists.ascends k l r q) (
        Divides-trans (s'.prime.at k) i (i * s'.prime.at l) divides
          (s'.prime.at l, mul_comm i (s'.prime.at l)))

  struck-IsLinear :
      (s' : Sieve)
      → s'.access.size ≡ s.access.size
      → s'.prime.size ≡ s.prime.size
      → ListsPrimes (i + 1) s'.prime.at s'.prime_index
      → IsStruck n i s'.prime_index s'.prime.at 0 s.access.at s'.access.at
      → IsLinear n (i + 1) s'
  struck-IsLinear s' size size' lists c = record {
    fits = omega (arith, w.fits);
    room = omega (arith, w.room);
    lists = lists;
    marked = λ m small mark. elim (c.only m mark) [
      | inl before ↦ w.marked m small before
      | inr (l, q, e) ↦ (i, two, rw e (above i _ two (lists.prime l q).0), (_, e ∙ mul_comm i _))
    ];
    done = λ b p two' q two'' none small. elim (ℕ_discrete b i) [
      | yes e ↦
          let none' : NoneBelow p (i * p) = rw e at none in
          let (l, q', same) =
            lists.complete p (omega (arith, divisor-le p none'))
              (two'', λ d x y divides. none' d x y (Divides-trans d p (i * p) divides (i, refl))) in
          rw (e, ← same)
            (struck_least s' lists c l q' (rw (← same) at none') (rw (e, ← same) at small))
      | no ne ↦ c.kept (b * p) (w.done b p two' (omega arith) two'' none small)
    ];
  }

  -- the inner loop of a round, once `i` is stored or not
  rest-IsLinear :
      (prime : Arr ℕ) (k : ℕ)
      → prime.size ≡ s.prime.size
      → k ≤ i
      → ListsPrimes (i + 1) prime.at k
      → Returns (IsLinear n (i + 1)) (do
        st ← strike_loop k n i 0 prime s.access
        ok (record { access = st; prime = prime; prime_index = k }))
  rest-IsLinear prime k same room lists =
      Returns-bind
        (strike_loop-IsStruck n i k prime.at prime (λ _. refl) (omega (arith, w.room))
          (λ l q. (lists.prime l q).0) lists.ascends k 0 s.access (omega arith) w.fits)
        λ st (same', c). returns (struck-IsLinear _ same' same lists c)

  pub step-IsLinear : Returns (IsLinear n (i + 1)) (euler_step n i s)
  unfolding euler_step
  step-IsLinear =
      rw (read-ok s.access i (omega (arith, w.fits))) (elim (ℕ_discrete (s.access.at i) 0) [
        | yes z ↦
            let free : (s.access.at i == 0) ≡ true = ground arith in
            let lists =
              ListsPrimes-prime i s.prime.at s.prime_index (omega arith) w.lists
                (unmarked-IsPrime z) in
            rw (free, store-ok i s (omega (arith, w.lists.room, w.room)))
              (rest-IsLinear (put s.prime s.prime_index i) (suc s.prime_index) refl
                (omega (arith, lists.room)) lists)
        | no nz ↦
            let taken : (s.access.at i == 0) ≡ false = ground arith in
            let lists =
              ListsPrimes-composite i s.prime.at s.prime_index (omega arith) w.lists
                (w.marked i less nz) in
            rw taken (rest-IsLinear s.prime s.prime_index refl (omega (arith, lists.room)) lists)
      ])

-- `euler_sieve_method` on arrays of `n` cells or more, with nothing marked and `count` 0, ends
-- without an access out of bounds or a division by zero, and leaves the prime numbers below `n` in
-- `primes`, in ascending order, and their number in `count`.
pub euler_sieve_method-ListsPrimes :
    (n : ℕ) (s : Sieve)
    → n ≤ s.access.size
    → n ≤ s.prime.size
    → ((k : ℕ) → k < n → s.access.at k ≡ 0)
    → s.prime_index ≡ 0
    → Returns (λ s'. ListsPrimes n s'.prime.at s'.prime_index) (euler_sieve_method n s)
unfolding euler_sieve_method
euler_sieve_method-ListsPrimes n s fits room clear none = elim (dec_lt n 2) [
  | yes small ↦
      rw (for_range_empty {i = 2} {j = n} (euler_step n) s (omega arith))
        (returns (rw none (ListsPrimes-none n s.prime.at (omega arith))))
  | no big ↦
      let start : IsLinear n 2 s = record {
        fits = fits;
        room = omega arith;
        lists = rw none (ListsPrimes-none 2 s.prime.at (omega arith));
        marked = λ m less mark. absurd (mark (clear m less));
        done = λ c p two less. absurd (omega arith);
      } in
      Returns-mono
        (for_range_inv (λ i s. (2 ≤ i) × IsLinear n i s) (euler_step n) n
          (λ i s' less (two, w).
            Returns-mono (step-IsLinear n i s' two less w) λ t v. (omega arith, v))
          2 s (omega arith) (omega arith, start))
        λ s' (two, w). w.lists
]
