-- ===== src/Subsequence/Divided/Border.antt =====
-- The sums that begin or end at the middle.
use core_technologies.Base.{
  Arr, Bool-cases, Returns, Returns-mono, arith, dec_le, eq_of_parts, for_range_inv, inl, inr,
  int_laws, ltb_ℤ, pos, read-ok, refl, returns, suc, sym, true, ℕ, ℤ, ◌+ℤ◌, ◌+◌, ◌-ℤ◌, ◌-◌, ◌<◌,
  ◌≡◌, ◌≤ℤ◌, ◌≤◌,
}
use core_technologies.Subsequence.{add_int, is_int}
use core_technologies.Subsequence.Best.{next_sum}
use core_technologies.Subsequence.Divided.{border_step, left_border, right_border}
use core_technologies.Subsequence.Spec.{SumsFit, prefix, sum}

-- the sum is `f i`, and the largest one is the largest of `f lo`, ..., `f i`
pub record IsBorder (f : ℕ → ℤ) (lo i : ℕ) (s : ℤ × ℤ) : Type 0 where
  pub now : s.0 ≡ f i
  pub place : ℕ
  pub low : lo ≤ place
  pub high : place ≤ i
  pub value : s.1 ≡ f place
  pub best : (j : ℕ) → lo ≤ j → j ≤ i → f j ≤ℤ s.1

border_step-IsBorder :
    (a : Arr ℤ) (k : ℕ) (f : ℕ → ℤ) (lo i : ℕ) (s : ℤ × ℤ)
    → k < a.size
    → f i +ℤ a.at k ≡ f (suc i)
    → is_int (f (suc i)) ≡ true
    → lo ≤ i
    → IsBorder f lo i s
    → Returns (IsBorder f lo (suc i)) (border_step a k s)
unfolding border_step add_int
border_step-IsBorder a k f lo i (sum, max) lt next int le w =
    rw (read-ok a k lt, w.now, next, int)
      (elim (Bool-cases (ltb_ℤ max (f (suc i)))) [
        | inl more ↦ rw more (
            returns (record {
              now = refl;
              place = suc i;
              low = omega arith;
              high = omega arith;
              value = refl;
              best = λ j p q. elim (dec_le j i) [
                | yes h ↦ let old = w.best j p h in ground arith
                | no h ↦ let last : j ≡ suc i = omega arith in rw last (omega arith)
              ];
            }))
        | inr less ↦ rw less (
            returns (record {
              now = refl;
              place = w.place;
              low = w.low;
              high = omega (arith, w.high);
              value = w.value;
              best = λ j p q. elim (dec_le j i) [
                | yes h ↦ w.best j p h
                | no h ↦ let last : j ≡ suc i = omega arith in rw last (ground arith)
              ];
            }))
      ])

begins : (f : ℕ → ℤ) (lo : ℕ) → f lo ≡ pos 0 → IsBorder f lo lo (pos 0, pos 0)
begins f lo e = record {
  now = sym e;
  place = lo;
  low = omega arith;
  high = omega arith;
  value = sym e;
  best = λ j p q. let same : j ≡ lo = omega arith in rw (same, e) (omega arith);
}

pub same_parts : (p : ℤ) → p -ℤ p ≡ pos 0
same_parts p = eq_of_parts (p -ℤ p) (pos 0) (omega int_laws)

back : (p q x : ℤ) → (p -ℤ (q +ℤ x)) +ℤ x ≡ p -ℤ q
back p q x = eq_of_parts ((p -ℤ (q +ℤ x)) +ℤ x) (p -ℤ q) (omega int_laws)

module _ (a : Arr ℤ) (n : ℕ) (fits : n ≤ a.size) (ints : SumsFit a n) where
  pub right_border-IsBorder :
      (mid stop : ℕ)
      → mid + 1 ≤ stop
      → stop ≤ n
      → Returns (IsBorder (λ j. sum a (mid + 1) j) (mid + 1) stop) (right_border a mid stop)
  unfolding right_border prefix
  right_border-IsBorder mid stop le le' =
      Returns-mono
        (for_range_inv (λ i s. (mid + 1 ≤ i) × IsBorder (λ j. sum a (mid + 1) j) (mid + 1) i s)
          (border_step a) stop
          (λ i s lt (low, w).
            let e : i + 1 ≡ suc i = omega arith in
            rw e (
              Returns-mono
                (border_step-IsBorder a i (λ j. sum a (mid + 1) j) (mid + 1) i s (omega arith)
                  (next_sum _ (prefix a i) (prefix a (mid + 1)) (a.at i) refl)
                  (ints (mid + 1) (suc i) (omega arith) (omega arith)) low w)
                λ s' w'. (omega arith, w')))
          (mid + 1) (pos 0, pos 0) le
          (
            omega arith,
            begins (λ j. sum a (mid + 1) j) (mid + 1) (same_parts (prefix a (mid + 1))),
          ))
        λ s w. w.1

  pub left_border-IsBorder :
      (left mid : ℕ)
      → left ≤ mid
      → mid < n
      → Returns
          (IsBorder (λ k. sum a (mid + 1 - k) (mid + 1)) 0 (mid + 1 - left))
          (left_border a left mid)
  unfolding left_border prefix
  left_border-IsBorder left mid le lt' =
      for_range_inv (IsBorder (λ k. sum a (mid + 1 - k) (mid + 1)) 0) (λ k. border_step a (mid - k))
        (mid + 1 - left)
        (λ k s lt w.
          let e : k + 1 ≡ suc k = omega arith in
          let e' : mid + 1 - k ≡ suc (mid - k) = omega arith in
          let e'' : mid + 1 - suc k ≡ mid - k = omega arith in
          rw e (
            border_step-IsBorder a (mid - k) (λ k. sum a (mid + 1 - k) (mid + 1)) 0 k s
              (omega arith)
              (rw (e', e'') (back (prefix a (mid + 1)) (prefix a (mid - k)) (a.at (mid - k))))
              (ints (mid + 1 - suc k) (mid + 1) (omega arith) (omega arith)) (omega arith) w))
        0 (pos 0, pos 0) (omega arith)
        (begins (λ k. sum a (mid + 1 - k) (mid + 1)) 0
          (let e : mid + 1 - 0 ≡ mid + 1 = omega arith in rw e (same_parts (prefix a (mid + 1)))))
