-- ===== src/Subsequence/Exhaustive.antt =====
-- Both programs give the same sum.
use core_technologies.Base.{
  Arr, Bool-cases, Returns, Returns-bind, Returns-mono, Returns-value, ap, arith, dec_le, dec_lt,
  for_range_inv, inl, inr, ltb_ℤ, ok, pos, read-ok, returns, suc, sym, true, ℕ, ℤ, ◌+ℤ◌, ◌+◌, ◌<◌,
  ◌∙◌, ◌≡◌, ◌≤ℤ◌, ◌≤◌,
}
use core_technologies.Subsequence.{
  add_int, is_int, max_sub_sequence_sum, max_subsequence_sum, try_from, try_step,
}
use core_technologies.Subsequence.Best.{
  empty_sum, max_sub_sequence_sum-IsMaxSum, next_sum, zero_sum, ≤ℤ_trans,
}
use core_technologies.Subsequence.Spec.{IsMaxSum, IsMaxSum-unique, SumsFit, prefix, sum}

-- the largest of the sums that start before `i`, and of those that start at `i` and end by `k`
record IsTried (a : Arr ℤ) (n i k : ℕ) (m : ℤ) : Type 0 where
  from : ℕ
  to : ℕ
  order : from ≤ to
  within : to ≤ n
  value : m ≡ sum a from to
  nonneg : pos 0 ≤ℤ m
  outer : (i' j : ℕ) → i' < i → i' ≤ j → j ≤ n → sum a i' j ≤ℤ m
  inner : (j : ℕ) → i ≤ j → j ≤ k → sum a i j ≤ℤ m

record IsTrying (a : Arr ℤ) (n i k : ℕ) (s : ℤ × ℤ) : Type 0 where
  reached : i ≤ k
  this : s.1 ≡ sum a i k
  most : IsTried a n i k s.0

inner_next :
    (a : Arr ℤ) (i k : ℕ) (m r : ℤ)
    → ((j : ℕ) → i ≤ j → j ≤ k → sum a i j ≤ℤ m)
    → m ≤ℤ r
    → sum a i (suc k) ≤ℤ r
    → (j : ℕ) → i ≤ j
    → j ≤ suc k
    → sum a i j ≤ℤ r
inner_next a i k m r old le new j p q = elim (dec_le j k) [
  | yes h ↦ ≤ℤ_trans (sum a i j) m r (old j p h) le
  | no h ↦ let last : j ≡ suc k = omega arith in rw last new
]

try_step-IsTrying :
    (a : Arr ℤ) (n i k : ℕ) (s : ℤ × ℤ)
    → n ≤ a.size
    → SumsFit a n
    → k < n
    → IsTrying a n i k s
    → Returns (IsTrying a n i (suc k)) (try_step a k s)
unfolding try_step add_int
try_step-IsTrying a n i k (m, t) fits ints lt w =
    let t' = t +ℤ a.at k in
    let most = w.most in
    let e : t' ≡ sum a i (suc k) =
      unfold prefix in next_sum t (prefix a k) (prefix a i) (a.at k) w.this in
    let is : is_int t' ≡ true =
      ap (λ v. is_int v) e ∙ ints i (suc k) (omega (arith, w.reached)) (omega arith) in
    rw (read-ok a k (omega arith), is)
      (elim (Bool-cases (ltb_ℤ m t')) [
        | inl more ↦
            let le : m ≤ℤ t' = ground arith in
            let self : sum a i (suc k) ≤ℤ t' = rw (← e) (omega arith) in
            rw more (
              returns (record {
                reached = omega (arith, w.reached);
                this = e;
                most = record {
                  from = i;
                  to = suc k;
                  order = omega (arith, w.reached);
                  within = omega arith;
                  value = e;
                  nonneg = ≤ℤ_trans (pos 0) m t' most.nonneg le;
                  outer = λ i' j p q r. ≤ℤ_trans (sum a i' j) m t' (most.outer i' j p q r) le;
                  inner = inner_next a i k m t' most.inner le self;
                };
              }))
        | inr less ↦
            let le : t' ≤ℤ m = ground arith in
            let below : sum a i (suc k) ≤ℤ m = rw (← e) le in
            rw less (
              returns (record {
                reached = omega (arith, w.reached);
                this = e;
                most = record {
                  from = most.from;
                  to = most.to;
                  order = most.order;
                  within = most.within;
                  value = most.value;
                  nonneg = most.nonneg;
                  outer = most.outer;
                  inner = inner_next a i k m m most.inner (omega arith) below;
                };
              }))
      ])

try_from-IsTried :
    (a : Arr ℤ) (n i : ℕ) (m : ℤ)
    → n ≤ a.size
    → SumsFit a n
    → i < n
    → IsTried a n i i m
    → Returns (IsTried a n (suc i) (suc i)) (try_from a n i m)
unfolding try_from
try_from-IsTried a n i m fits ints lt w =
    Returns-bind
      (for_range_inv (IsTrying a n i) (try_step a) n
        (λ k s lt' v.
          let e : k + 1 ≡ suc k = omega arith in rw e (try_step-IsTrying a n i k s fits ints lt' v))
        i (m, pos 0) (omega arith)
        (record { reached = omega arith; this = zero_sum (prefix a i); most = w }))
      λ s v.
        let most = v.most in
        returns (record {
          from = most.from;
          to = most.to;
          order = most.order;
          within = most.within;
          value = most.value;
          nonneg = most.nonneg;
          outer = λ i' j p q r. elim (dec_lt i' i) [
            | yes h ↦ most.outer i' j h q r
            | no h ↦ let here : i' ≡ i = omega arith in rw here (most.inner j (omega arith) r)
          ];
          inner = λ j p q.
              let both : j ≡ suc i = omega arith in
              rw both (empty_sum (prefix a (suc i)) s.0 most.nonneg);
        })

pub max_subsequence_sum-IsMaxSum :
    (a : Arr ℤ) (n : ℕ)
    → n ≤ a.size
    → SumsFit a n
    → Returns (IsMaxSum a n) (max_subsequence_sum a n)
unfolding max_subsequence_sum
max_subsequence_sum-IsMaxSum a n fits ints =
    Returns-mono
      (for_range_inv (λ i m. IsTried a n i i m) (try_from a n) n
        (λ i m lt w.
          let e : i + 1 ≡ suc i = omega arith in rw e (try_from-IsTried a n i m fits ints lt w))
        0 (pos 0) (omega arith)
        (record {
          from = 0;
          to = 0;
          order = omega arith;
          within = omega arith;
          value = zero_sum (prefix a 0);
          nonneg = omega arith;
          outer = λ i j p q r. absurd (omega arith);
          inner = λ j p q.
              let e : j ≡ 0 = omega arith in rw e (empty_sum (prefix a 0) (pos 0) (omega arith));
        }))
      λ m w. record {
        from = w.from;
        to = w.to;
        order = w.order;
        within = w.within;
        value = w.value;
        best = λ i j p q. elim (dec_lt i n) [
          | yes h ↦ w.outer i j h p q
          | no h ↦
              let first : i ≡ n = omega arith in
              let last : j ≡ n = omega arith in rw (first, last) (empty_sum (prefix a n) m w.nonneg)
        ];
      }

-- On an array of at least `N` cells, all of whose sums of consecutive cells below the `N`th are
-- `int`s, `MaxSubsequenceSum` of Exhaustive.c, which tries all these sums, and
-- `MaxSubSequenceSum` of Best.c, which makes one pass, do not overflow and give the same sum, the
-- largest.
pub max_subsequence_sum-max_sub_sequence_sum :
    (a : Arr ℤ) (n : ℕ)
    → n ≤ a.size
    → SumsFit a n
    → (max_subsequence_sum a n ≡ max_sub_sequence_sum a n)
      × Returns (IsMaxSum a n) (max_subsequence_sum a n)
max_subsequence_sum-max_sub_sequence_sum a n fits ints =
    let all = max_subsequence_sum-IsMaxSum a n fits ints in
    let (r, run, most) = Returns-value all in
    let (r', run', most') = Returns-value (max_sub_sequence_sum-IsMaxSum a n fits ints) in
    (run ∙ ap (λ v. ok v) (IsMaxSum-unique most most') ∙ sym run', all)
