-- ===== src/Number/Prime.antt =====
-- Prime numbers, and what it means that an array lists those below a bound.
use core_technologies.Base.{
  arith, suc, update, ℕ, ℕ_discrete, ◌*◌, ◌+◌, ◌-◌, ◌<◌, ◌∙◌, ◌≡◌, ◌≢◌, ◌≤◌, sym, ap,
}
use native.Mathlib.Nat.{mul_assoc}

abbrev pub Divides : ℕ → ℕ → Type 0
Divides d m = (c : ℕ) × (m ≡ c * d)

abbrev pub IsPrime : ℕ → Type 0
IsPrime p = (2 ≤ p) × ((d : ℕ) → 2 ≤ d → d < p → ¬ (Divides d p))

abbrev pub IsComposite : ℕ → Type 0
IsComposite m = (d : ℕ) × (2 ≤ d) × (d < m) × Divides d m

-- the first `count` cells are the prime numbers below `n`, in ascending order
pub record ListsPrimes (n : ℕ) (a : ℕ → ℕ) (count : ℕ) : Type 0 where
  pub room : count ≤ n - 1
  pub prime : (k : ℕ) → k < count → IsPrime (a k)
  pub below : (k : ℕ) → k < count → a k < n
  pub ascends : (k l : ℕ) → k < l → l < count → a k < a l
  pub complete : (p : ℕ) → p < n → IsPrime p → (k : ℕ) × (k < count) × (a k ≡ p)

pub Divides-trans : (d e m : ℕ) → Divides d e → Divides e m → Divides d m
Divides-trans d e m (b, p) (c, q) = (c * b, q ∙ ap (λ t. c * t) p ∙ sym (mul_assoc c b d))

pub prime_not_composite : (p : ℕ) → IsPrime p → ¬ (IsComposite p)
prime_not_composite p h (d, two, less, divides) = h.1 d two less divides

pub ListsPrimes-none : (n : ℕ) (a : ℕ → ℕ) → n ≤ 2 → ListsPrimes n a 0
ListsPrimes-none n a h = record {
  room = omega arith;
  prime = λ k lt. absurd (omega arith);
  below = λ k lt. absurd (omega arith);
  ascends = λ k l lt lt'. absurd (omega arith);
  complete = λ p lt h'. absurd (omega (arith, h'.0));
}

module _ (f : ℕ → ℕ) (i v : ℕ) where
  update_self : update f i v i ≡ v
  update_self = ground arith

  update-ne : (k : ℕ) → k ≢ i → update f i v k ≡ f k
  update-ne k ne = ground arith

module _ (i : ℕ) (a : ℕ → ℕ) (count : ℕ) (pos : 1 ≤ i) (lists : ListsPrimes i a count) where
  -- a prime number comes behind the ones that are listed
  pub ListsPrimes-prime : IsPrime i → ListsPrimes (i + 1) (update a count i) (suc count)
  ListsPrimes-prime h = record {
    room = omega (arith, lists.room);
    prime = λ k lt. elim (ℕ_discrete k count) [
      | yes e ↦ rw (e, update_self a count i) h
      | no ne ↦ rw (update-ne a count i k ne) (lists.prime k (omega arith))
    ];
    below = λ k lt. elim (ℕ_discrete k count) [
      | yes e ↦ rw (e, update_self a count i) (omega arith)
      | no ne ↦ rw (update-ne a count i k ne) (omega (arith, lists.below k (omega arith)))
    ];
    ascends = λ k l lt lt'. rw (update-ne a count i k (omega arith)) (elim (ℕ_discrete l count) [
      | yes e ↦ rw (e, update_self a count i) (lists.below k (omega arith))
      | no ne ↦ rw (update-ne a count i l ne) (lists.ascends k l lt (omega arith))
    ]);
    complete = λ p lt h'. elim (ℕ_discrete p i) [
      | yes e ↦ (count, omega arith, update_self a count i ∙ sym e)
      | no ne ↦
          let (k, less, same) = lists.complete p (omega arith) h' in
          (k, omega arith, update-ne a count i k (omega arith) ∙ same)
    ];
  }

  pub ListsPrimes-composite : IsComposite i → ListsPrimes (i + 1) a count
  ListsPrimes-composite h = record {
    room = omega (arith, lists.room);
    prime = lists.prime;
    below = λ k lt. omega (arith, lists.below k lt);
    ascends = lists.ascends;
    complete = λ p lt h'. elim (ℕ_discrete p i) [
      | yes e ↦ absurd (prime_not_composite p h' (rw e h))
      | no ne ↦ lists.complete p (omega arith) h'
    ];
  }
