-- ===== src/Number/Sieve/Eratosthenes.antt =====
-- `eratosthenes_sieve_method` and `Eratosthene_sieve_method`.
use core_technologies.Base.{
  Arr, Returns, Returns-mono, Returns-bind, Returns-value, arith, dec_lt, fault, for_range-last,
  for_range_empty, for_range_inv, inl, inr, ok, read-fault, read-ok, refl, returns, suc, true,
  false, zero, ℕ, ℕ_discrete, ◌*◌, ◌+◌, ◌<◌, ◌==◌, ◌>>=◌, ◌∙◌, ◌≡◌, ◌≢◌, ◌≤◌,
}
use core_technologies.Number.Prime.{
  Divides, Divides-trans, IsComposite, IsPrime, ListsPrimes, ListsPrimes-composite,
  ListsPrimes-none, ListsPrimes-prime,
}
use core_technologies.Number.Sieve.{
  Sieve, eratosthene_sieve_method, eratosthene_step, eratosthenes_sieve_method, eratosthenes_step,
  multiple_loop,
}
use core_technologies.Number.Sieve.Cross.{
  IsCrossed, cross_loop-IsCrossed, multiple_loop-cross_loop, store-ok,
}

-- Before the round of `i` the primes below `i` are listed, and of the numbers below `n` those are
-- marked that have a divisor below `i`, and composite numbers only.
pub record IsSieved (n i : ℕ) (s : Sieve) : Type 0 where
  pub fits : n ≤ s.access.size
  pub room : n ≤ s.prime.size
  pub lists : ListsPrimes i s.prime.at s.prime_index
  pub marked : (m : ℕ) → m < n → s.access.at m ≢ 0 → IsComposite m
  pub open_ : (m d : ℕ) → m < n → s.access.at m ≡ 0 → 2 ≤ d → d < i → d < m → ¬ (Divides d m)

two_more : (i k : ℕ) → i + i + k * i ≡ suc (suc k) * i
two_more i k = grind arith

-- a multiple of `i` above `i`
cofactor : (i m : ℕ) → i < m → Divides i m → (k : ℕ) × (m ≡ i + i + k * i)
cofactor i m less (zero, e) = absurd (omega arith)
cofactor i m less (suc zero, e) = absurd (omega arith)
cofactor i m less (suc (suc k), e) = (k, omega (arith, two_more i k))

module _ (n i : ℕ) (s : Sieve) (two : 2 ≤ i) (w : IsSieved n i s) where
  open-IsPrime : i < n → s.access.at i ≡ 0 → IsPrime i
  open-IsPrime less z = (two, λ d p q. w.open_ i d less z p q q)

  -- once the multiples of `i` are marked too
  crossed-IsSieved :
      (s' : Sieve)
      → s'.access.size ≡ s.access.size
      → s'.prime.size ≡ s.prime.size
      → ListsPrimes (i + 1) s'.prime.at s'.prime_index
      → IsCrossed n i (i + i) s.access.at s'.access.at
      → IsSieved n (i + 1) s'
  crossed-IsSieved s' size size' lists c = record {
    fits = omega (arith, w.fits);
    room = omega (arith, w.room);
    lists = lists;
    marked = λ m less mark. elim (c.only m mark) [
      | inl before ↦ w.marked m less before
      | inr (k, e) ↦ (i, two, omega arith, (suc (suc k), e ∙ two_more i k))
    ];
    open_ = λ m d less z p q r divides. elim (ℕ_discrete (s.access.at m) 0) [
      | yes z' ↦ elim (ℕ_discrete d i) [
        | yes e ↦
            let (k, e') = cofactor i m (omega arith) (rw e at divides) in
            c.hit k (omega arith) (rw e' at z)
        | no ne ↦ w.open_ m d less z' p (omega arith) r divides
      ]
      | no nz ↦ c.kept m nz z
    ];
  }

  -- a composite number needs no marks of its own
  composite-IsSieved : IsComposite i → IsSieved n (i + 1) s
  composite-IsSieved (e, p, q, divides) = record {
    fits = w.fits;
    room = w.room;
    lists =
        ListsPrimes-composite i s.prime.at s.prime_index (omega arith) w.lists (e, p, q, divides);
    marked = w.marked;
    open_ = λ m d less z p' q' r divides'. elim (ℕ_discrete d i) [
      | yes same ↦
          w.open_ m e less z p q (omega arith) (Divides-trans e i m divides (rw same at divides'))
      | no ne ↦ w.open_ m d less z p' (omega arith) r divides'
    ];
  }

  step-IsSieved : i < n → Returns (IsSieved n (i + 1)) (eratosthenes_step n i s)
  unfolding eratosthenes_step
  step-IsSieved less =
      rw (read-ok s.access i (omega (arith, w.fits))) (elim (ℕ_discrete (s.access.at i) 0) [
        | yes z ↦
            let free : (s.access.at i == 0) ≡ true = ground arith in
            rw (free, store-ok i s (omega (arith, w.room, w.lists.room)))
              (Returns-bind
                (cross_loop-IsCrossed (suc n) n i (i + i) s.access (omega arith) w.fits
                  (omega arith))
                λ st (same, c). returns (
                  crossed-IsSieved _ same refl
                    (ListsPrimes-prime i s.prime.at s.prime_index (omega arith) w.lists
                      (open-IsPrime less z))
                    c))
        | no nz ↦
            let taken : (s.access.at i == 0) ≡ false = ground arith in
            rw taken (returns (composite-IsSieved (w.marked i less nz)))
      ])

  -- the rest of a round of `Eratosthene_sieve_method`, once `i` is stored or not
  rest-IsSieved :
      (prime : Arr ℕ) (k : ℕ)
      → prime.size ≡ s.prime.size
      → ListsPrimes (i + 1) prime.at k
      → Returns
          (λ s'. IsSieved n (i + 1) s' × (s'.access.size ≡ s.access.size))
          (do
            access ← multiple_loop (suc n) n i 2 s.access
            ok (record { access = access; prime = prime; prime_index = k }))
  rest-IsSieved prime k same lists =
      let e : i * 2 ≡ i + i = omega arith in
      rw (multiple_loop-cross_loop (suc n) n i 2 s.access, e)
        (Returns-bind
          (cross_loop-IsCrossed (suc n) n i (i + i) s.access (omega arith) w.fits (omega arith))
          λ st (same', c). returns (crossed-IsSieved _ same' same lists c, same'))

  multiple-IsSieved :
      i < n
      → Returns
          (λ s'. IsSieved n (i + 1) s' × (s'.access.size ≡ s.access.size))
          (eratosthene_step n i s)
  unfolding eratosthene_step
  multiple-IsSieved less =
      rw (read-ok s.access i (omega (arith, w.fits))) (elim (ℕ_discrete (s.access.at i) 0) [
        | yes z ↦
            let free : (s.access.at i == 0) ≡ true = ground arith in
            rw (free, store-ok i s (omega (arith, w.room, w.lists.room)))
              (rest-IsSieved _ _ refl (
                ListsPrimes-prime i s.prime.at s.prime_index (omega arith) w.lists
                  (open-IsPrime less z)))
        | no nz ↦
            let taken : (s.access.at i == 0) ≡ false = ground arith in
            rw taken (
              rest-IsSieved _ _ refl (
                ListsPrimes-composite i s.prime.at s.prime_index (omega arith) w.lists
                  (w.marked i less nz)))
      ])

start-IsSieved :
    (n : ℕ) (s : Sieve)
    → n ≤ s.access.size
    → n ≤ s.prime.size
    → ((k : ℕ) → k < n → s.access.at k ≡ 0)
    → s.prime_index ≡ 0
    → IsSieved n 2 s
start-IsSieved n s fits room clear none = record {
  fits = fits;
  room = room;
  lists = rw none (ListsPrimes-none 2 s.prime.at (omega arith));
  marked = λ m less mark. absurd (mark (clear m less));
  open_ = λ m d less z p q. absurd (omega arith);
}

-- `eratosthenes_sieve_method` on arrays of `n` cells or more, with nothing marked and `count` 0,
-- ends without an access out of bounds, and leaves the prime numbers below `n` in `primes`, in
-- ascending order, and their number in `count`.
pub eratosthenes_sieve_method-ListsPrimes :
    (n : ℕ) (s : Sieve)
    → n ≤ s.access.size
    → n ≤ s.prime.size
    → ((k : ℕ) → k < n → s.access.at k ≡ 0)
    → s.prime_index ≡ 0
    → Returns (λ s'. ListsPrimes n s'.prime.at s'.prime_index) (eratosthenes_sieve_method n s)
unfolding eratosthenes_sieve_method
eratosthenes_sieve_method-ListsPrimes n s fits room clear none = elim (dec_lt n 2) [
  | yes small ↦
      rw (for_range_empty {i = 2} {j = n} (eratosthenes_step n) s (omega arith))
        (returns (rw none (ListsPrimes-none n s.prime.at (omega arith))))
  | no big ↦
      Returns-mono
        (for_range_inv (λ i s. (2 ≤ i) × IsSieved n i s) (eratosthenes_step n) n
          (λ i s' less (two, w).
            Returns-mono (step-IsSieved n i s' two w less) λ t v. (omega arith, v))
          2 s (omega arith) (omega arith, start-IsSieved n s fits room clear none))
        λ s' (two, w). w.lists
]

behind : (n : ℕ) (s : Sieve) → s.access.size ≡ n → eratosthene_step n n s ≡ fault
unfolding eratosthene_step
behind n s size = rw (read-fault s.access n (omega arith)) refl

-- `Eratosthene_sieve_method` reads `access[MAXNUM]`, one cell behind the end of the array that `main`
-- gives it: with `n` cells, nothing marked, for a bound `n` of at least 2, it always ends there.
pub eratosthene_sieve_method-fault :
    (n : ℕ) (s : Sieve)
    → 2 ≤ n
    → s.access.size ≡ n
    → n ≤ s.prime.size
    → ((k : ℕ) → k < n → s.access.at k ≡ 0)
    → eratosthene_sieve_method n s ≡ fault
unfolding eratosthene_sieve_method
eratosthene_sieve_method-fault n s big size room clear =
    let start : Sieve = record s { prime_index = 0 } in
    let e : suc n ≡ n + 1 = omega arith in
    let (s', run, (_, _, size')) = Returns-value (
      for_range_inv (λ i s. (2 ≤ i) × IsSieved n i s × (s.access.size ≡ n)) (eratosthene_step n) n
        (λ i s' less (two, w, same).
          Returns-mono (multiple-IsSieved n i s' two w less)
            λ t (v, same'). (omega arith, v, same' ∙ same))
        2 start big (omega arith, start-IsSieved n start (omega arith) room clear refl, size)) in
    rw (e, for_range-last 2 n (eratosthene_step n) start big, run) (behind n s' size')
