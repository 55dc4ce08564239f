-- ===== src/Number/Sieve/Overrun.antt =====
-- `Euler_sieve_method` of Euler_sieve_method.c and the cell behind its array `access`.
use core_technologies.Base.{
  Arr, Bool-cases, refl, ◌∙◌, Run, arith, fault, for_range, for_range_step, if◌then◌else◌, inl, inr,
  ltb, ok, out_of_fuel, read, read-ok, read-fault, suc, true, write, write-fault, zero, ℕ, dec_lt,
  ◌%◌, ◌*◌, ◌+◌, ◌-◌, ◌<◌, ◌==◌, ◌>>=◌, ◌≡◌,
}
use core_technologies.Number.Sieve.{Sieve, euler_sieve, last_step, store, strike_loop}

-- what a run of a round leaves: the size of `access`, and 2 as the first prime number
pub record HasTwo (n : ℕ) (s : Sieve) : Type 0 where
  pub size : s.access.size ≡ n
  pub some_ : 0 < s.prime_index
  pub two : s.prime.at 0 ≡ 2

-- the run ends, and a result satisfies `P`; a fault is allowed
abbrev Ends : {A : Type 0} → (A → Type 0) → Run A → Type 0
Ends P (ok a) = P a
Ends P fault = Unit
Ends P out_of_fuel = ⊥

Ends-bind :
    {A B : Type 0} (P : A → Type 0) (Q : B → Type 0) (r : Run A) (k : A → Run B)
    → Ends P r
    → ((a : A) → P a → Ends Q (k a))
    → Ends Q (r >>= k)
Ends-bind P Q (ok a) k p next = next a p
Ends-bind P Q fault k p next = tt
Ends-bind P Q out_of_fuel k p next = absurd p

Ends-mono :
    {A : Type 0} {P Q : A → Type 0} (r : Run A) → Ends P r → ((a : A) → P a → Q a) → Ends Q r
Ends-mono (ok a) p weaken = weaken a p
Ends-mono fault p weaken = tt
Ends-mono out_of_fuel p weaken = absurd p

fault_of_Ends : {A : Type 0} (r : Run A) → Ends (λ _. ⊥) r → r ≡ fault
fault_of_Ends (ok a) never = absurd never
fault_of_Ends fault never = refl
fault_of_Ends out_of_fuel never = absurd never

read-Ends : (st : Arr ℕ) (i : ℕ) → Ends (λ _. Unit {0}) (read st i)
unfolding read
read-Ends st i = ground arith

write_size : (st : Arr ℕ) (i v : ℕ) → Ends (λ st'. st'.size ≡ st.size) (write st i v)
unfolding write
write_size st i v = ground arith

strike_loop_size :
    (k limit i j : ℕ) (prime st : Arr ℕ)
    → Ends (λ st'. st'.size ≡ st.size) (strike_loop k limit i j prime st)
unfolding strike_loop
strike_loop_size zero limit i j prime st = refl
strike_loop_size (suc k) limit i j prime st =
    Ends-bind (λ _. Unit {0}) _ (read prime j) _ (read-Ends prime j)
      λ p _. elim (Bool-cases (ltb (i * p) limit)) [
        | inl less ↦ rw less (
            Ends-bind _ _ (write st (i * p) 1) _ (write_size st (i * p) 1) λ st' same.
              elim (Bool-cases (p == 0)) [
                | inl null ↦ rw null tt
                | inr some_ ↦ rw some_ (elim (Bool-cases (i % p == 0)) [
                  | inl found ↦ rw found same
                  | inr on ↦ rw on (
                      Ends-mono (strike_loop k limit i (suc j) prime st')
                        (strike_loop_size k limit i (suc j) prime st') λ t same'. same' ∙ same)
                ])
              ])
        | inr far ↦ rw far refl
      ]

store-HasTwo : (n i : ℕ) (s : Sieve) → HasTwo n s → Ends (HasTwo n) (store i s)
unfolding store write
store-HasTwo n i s h = ground (arith, h.size, h.some_, h.two)

module _ (n i : ℕ) (s : Sieve) where
  HasTwo-access : (st : Arr ℕ) → st.size ≡ n → HasTwo n s → HasTwo n (record s { access = st })
  HasTwo-access st same h = record { size = same; some_ = h.some_; two = h.two }

  -- the round of a number whose double is not the bound
  rest-HasTwo :
      HasTwo n s
      → Ends (HasTwo n) (do
        access ← strike_loop (suc s.prime_index) (suc n) i 0 s.prime s.access
        ok (record s { access = access }))
  rest-HasTwo h =
      Ends-bind _ (HasTwo n) _ _ (strike_loop_size (suc s.prime_index) (suc n) i 0 s.prime s.access)
        λ st same. HasTwo-access st (same ∙ h.size) h

  -- the round of half the bound
  strike_fault :
      HasTwo n s → i * 2 ≡ n → strike_loop (suc s.prime_index) (suc n) i 0 s.prime s.access ≡ fault
  unfolding strike_loop read
  strike_fault h half = elim (dec_lt 0 s.prime.size) [
    | yes some_ ↦
        let more : ltb (i * 2) (suc n) ≡ true = ground arith in
        let out : write s.access (i * 2) 1 ≡ fault =
          write-fault s.access (i * 2) 1 (omega (arith, h.size)) in
        rw (read-ok s.prime 0 some_, h.two, more, out) refl
    | no empty ↦ rw (read-fault s.prime 0 (omega arith)) refl
  ]

module _ (n i : ℕ) (s : Sieve) where
  maybe_store-HasTwo : (a : ℕ) → HasTwo n s → Ends (HasTwo n) (if a == 0 then store i s else ok s)
  maybe_store-HasTwo a h = elim (Bool-cases (a == 0)) [
    | inl free ↦ rw free (store-HasTwo n i s h)
    | inr taken ↦ rw taken h
  ]

  last_step-HasTwo : HasTwo n s → Ends (HasTwo n) (last_step n i s)
  unfolding last_step
  last_step-HasTwo h =
      Ends-bind (λ _. Unit {0}) (HasTwo n) (read s.access i) _ (read-Ends s.access i)
        λ a _.
          Ends-bind (HasTwo n) (HasTwo n) (if a == 0 then store i s else ok s) _
            (maybe_store-HasTwo a h) λ s' h'. rest-HasTwo n i s' h'

  last_step_fault : HasTwo n s → i * 2 ≡ n → Ends (λ _. ⊥) (last_step n i s)
  unfolding last_step
  last_step_fault h half =
      Ends-bind (λ _. Unit {0}) (λ _. ⊥) (read s.access i) _ (read-Ends s.access i)
        λ a _.
          Ends-bind (HasTwo n) (λ _. ⊥) (if a == 0 then store i s else ok s) _
            (maybe_store-HasTwo a h) λ s' h'. rw (strike_fault n i s' h' half) tt

first_store-HasTwo :
    (n : ℕ) (s : Sieve) → s.access.size ≡ n → s.prime_index ≡ 0 → Ends (HasTwo n) (store 2 s)
unfolding store write
first_store-HasTwo n s size start = ground arith

first_step-HasTwo :
    (n : ℕ) (s : Sieve)
    → s.access.size ≡ n
    → 2 < n
    → s.access.at 2 ≡ 0
    → s.prime_index ≡ 0
    → Ends (HasTwo n) (last_step n 2 s)
unfolding last_step
first_step-HasTwo n s size big clear start =
    rw (read-ok s.access 2 (omega arith), clear)
      (Ends-bind (HasTwo n) (HasTwo n) (store 2 s) _ (first_store-HasTwo n s size start)
        λ s' h'. rest-HasTwo n 2 s' h')

-- from a round up to half the bound on, no run ends without a fault
to_half :
    (k n m i : ℕ) (s : Sieve)
    → i + k ≡ m
    → m * 2 ≡ n
    → 0 < m
    → HasTwo n s
    → Ends (λ _. ⊥) (for_range i n (last_step n) s)
to_half zero n m i s at_half half big h = rw (for_range_step i n (last_step n) s (omega arith)) (
    Ends-bind (λ _. ⊥) (λ _. ⊥) (last_step n i s) _ (last_step_fault n i s h (omega arith))
      λ s' never. absurd never)
to_half (suc k) n m i s at_half half big h = rw (for_range_step i n (last_step n) s (omega arith)) (
    Ends-bind (HasTwo n) (λ _. ⊥) (last_step n i s) _ (last_step-HasTwo n i s h)
      λ s' h'. to_half k n m (i + 1) s' (omega arith) half big h')

-- `Euler_sieve_method` with an even bound `n` of at least 6 and an array `access` of `n` cells, with
-- nothing marked in cell 2, makes an access out of bounds.
pub euler_sieve-fault :
    (n m : ℕ) (s : Sieve)
    → m * 2 ≡ n
    → 2 < m
    → s.access.size ≡ n
    → s.access.at 2 ≡ 0
    → euler_sieve n s ≡ fault
unfolding euler_sieve
euler_sieve-fault n m s half big size clear =
    let start : Sieve = record s { prime_index = 0 } in
    let never : Ends (λ _. ⊥) (for_range 2 n (last_step n) start) =
      rw (for_range_step 2 n (last_step n) start (omega arith)) (
        Ends-bind (HasTwo n) (λ _. ⊥) (last_step n 2 start) _
          (first_step-HasTwo n start size (omega arith) clear refl)
          λ t h. to_half (m - 3) n m 3 t (omega arith) half (omega arith) h) in
    fault_of_Ends (for_range 2 n (last_step n) start) never
