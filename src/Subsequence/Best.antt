-- ===== src/Subsequence/Best.antt =====
-- `MaxSubSequenceSum` gives the maximal sum.
use core_technologies.Base.{
  Arr, Bool-cases, Returns, Returns-bind, ap, arith, dec_le, eq_of_parts, for_range_inv, inl, inr,
  int_laws, ltb_ℤ, pos, read-ok, returns, suc, true, ℕ, ℤ, ◌+ℤ◌, ◌+◌, ◌-ℤ◌, ◌<ℤ◌, ◌<◌, ◌∙◌, ◌≡◌,
  ◌≤ℤ◌, ◌≤◌,
}
use core_technologies.Subsequence.{add_int, is_int, max_sub_sequence_sum, sum_step}
use core_technologies.Subsequence.Spec.{IsMaxSum, SumsFit, prefix, sum}

-- what the loop knows before the round of `k`
record IsScanned (a : Arr ℤ) (k : ℕ) (s : ℤ × ℤ) : Type 0 where
  start : ℕ
  early : start ≤ k
  this : s.0 ≡ sum a start k
  low : (i : ℕ) → i ≤ k → prefix a start ≤ℤ prefix a i
  most : IsMaxSum a k s.1

pub next_sum : (t p q x : ℤ) → t ≡ p -ℤ q → t +ℤ x ≡ (p +ℤ x) -ℤ q
next_sum t p q x e = rw e (eq_of_parts _ _ (omega int_laws))

pub zero_sum : (p : ℤ) → pos 0 ≡ p -ℤ p
zero_sum p = eq_of_parts _ _ (omega int_laws)

below_start : (p q r t : ℤ) → t ≡ p -ℤ q → q ≤ℤ r → p -ℤ r ≤ℤ t
below_start p q r t e h = rw e (omega int_laws)

start_low : (p q t : ℤ) → t ≡ p -ℤ q → pos 0 ≤ℤ t → q ≤ℤ p
start_low p q t e h = let h' = rw e at h in omega (int_laws, h')

start_high : (p q t : ℤ) → t ≡ p -ℤ q → t <ℤ pos 0 → p ≤ℤ q
start_high p q t e h = let h' = rw e at h in omega (int_laws, h')

pub sum_empty : (p r : ℤ) → p -ℤ p ≤ℤ r → pos 0 ≤ℤ r
sum_empty p r h = omega (int_laws, h)

pub empty_sum : (p r : ℤ) → pos 0 ≤ℤ r → p -ℤ p ≤ℤ r
empty_sum p r h = omega (int_laws, h)

pub ≤ℤ_trans : (p q r : ℤ) → p ≤ℤ q → q ≤ℤ r → p ≤ℤ r
≤ℤ_trans p q r h k = omega arith

-- the largest sum up to `suc k` from the one up to `k` and those that end at `suc k`
best_next :
    (a : Arr ℤ) (k : ℕ) (m r : ℤ)
    → ((i j : ℕ) → i ≤ j → j ≤ k → sum a i j ≤ℤ m)
    → m ≤ℤ r
    → ((i : ℕ) → i ≤ k → sum a i (suc k) ≤ℤ r)
    → (i j : ℕ) → i ≤ j
    → j ≤ suc k
    → sum a i j ≤ℤ r
best_next a k m r old le new i j p q = elim (dec_le j k) [
  | yes h ↦ ≤ℤ_trans (sum a i j) m r (old i j p h) le
  | no h ↦
      let last : j ≡ suc k = omega arith in
      elim (dec_le i k) [
        | yes h' ↦ rw last (new i h')
        | no h' ↦
            let both : i ≡ suc k = omega arith in
            let nonneg =
              ≤ℤ_trans (pos 0) m r (sum_empty (prefix a 0) m (old 0 0 (omega arith) (omega arith)))
                le in
            rw (last, both) (empty_sum (prefix a (suc k)) r nonneg)
      ]
]

low_next :
    (a : Arr ℤ) (k : ℕ) (q : ℤ)
    → ((i : ℕ) → i ≤ k → q ≤ℤ prefix a i)
    → q ≤ℤ prefix a (suc k)
    → (i : ℕ) → i ≤ suc k
    → q ≤ℤ prefix a i
low_next a k q old new i p = elim (dec_le i k) [
  | yes h ↦ old i h
  | no h ↦ let last : i ≡ suc k = omega arith in rw last new
]

sum_step-IsScanned :
    (a : Arr ℤ) (n k : ℕ) (s : ℤ × ℤ)
    → n ≤ a.size
    → SumsFit a n
    → k < n
    → IsScanned a k s
    → Returns (IsScanned a (suc k)) (sum_step a k s)
unfolding sum_step add_int
sum_step-IsScanned a n k (t, m) fits ints lt w =
    let start = w.start in
    let t' = t +ℤ a.at k in
    let e : t' ≡ sum a start (suc k) =
      unfold prefix in next_sum t (prefix a k) (prefix a start) (a.at k) w.this in
    let is : is_int t' ≡ true =
      ap (λ v. is_int v) e ∙ ints start (suc k) (omega (arith, w.early)) (omega arith) in
    let ends = λ (i : ℕ) (p : i ≤ k).
      below_start (prefix a (suc k)) (prefix a start) (prefix a i) t' e (w.low i p) in
    let most = w.most in
    let nonneg : pos 0 ≤ℤ m =
      sum_empty (prefix a 0) m (most.best 0 0 (omega arith) (omega arith)) in
    rw (read-ok a k (omega arith), is)
      (elim (Bool-cases (ltb_ℤ m t')) [
        | inl more ↦
            let le : m ≤ℤ t' = ground arith in
            rw more (
              returns (record {
                start = start;
                early = omega (arith, w.early);
                this = e;
                low = low_next a k (prefix a start) w.low (
                    start_low (prefix a (suc k)) (prefix a start) t' e
                      (≤ℤ_trans (pos 0) m t' nonneg le));
                most = record {
                  from = start;
                  to = suc k;
                  order = omega (arith, w.early);
                  within = omega arith;
                  value = e;
                  best = best_next a k m t' most.best le ends;
                };
              }))
        | inr less ↦
            let le : t' ≤ℤ m = ground arith in
            let most' : IsMaxSum a (suc k) m = record {
              from = most.from;
              to = most.to;
              order = most.order;
              within = omega (arith, most.within);
              value = most.value;
              best =
                  best_next a k m m most.best (omega arith)
                    λ i p. ≤ℤ_trans (sum a i (suc k)) t' m (ends i p) le;
            } in
            elim (Bool-cases (ltb_ℤ t' (pos 0))) [
              | inl neg ↦
                  let down = start_high (prefix a (suc k)) (prefix a start) t' e (ground arith) in
                  rw (less, neg)
                    (returns (record {
                      start = suc k;
                      early = omega arith;
                      this = zero_sum (prefix a (suc k));
                      low =
                          low_next a k (prefix a (suc k))
                            (λ i p. ≤ℤ_trans _ (prefix a start) _ down (w.low i p)) (omega arith);
                      most = most';
                    }))
              | inr nonneg' ↦
                  rw (less, nonneg')
                    (returns (record {
                      start = start;
                      early = omega (arith, w.early);
                      this = e;
                      low =
                          low_next a k (prefix a start) w.low
                            (start_low (prefix a (suc k)) (prefix a start) t' e (ground arith));
                      most = most';
                    }))
            ]
      ])

-- `MaxSubSequenceSum(A, N)` on an array of at least `N` cells, all of whose sums of consecutive
-- cells below the `N`th are `int`s, does not overflow and gives the largest of these sums, the
-- empty sum 0 among them.
pub max_sub_sequence_sum-IsMaxSum :
    (a : Arr ℤ) (n : ℕ)
    → n ≤ a.size
    → SumsFit a n
    → Returns (IsMaxSum a n) (max_sub_sequence_sum a n)
unfolding max_sub_sequence_sum
max_sub_sequence_sum-IsMaxSum a n fits ints =
    Returns-bind
      (for_range_inv (IsScanned a) (sum_step a) n
        (λ k s lt w.
          let e : k + 1 ≡ suc k = omega arith in rw e (sum_step-IsScanned a n k s fits ints lt w))
        0 (pos 0, pos 0) (omega arith)
        (record {
          start = 0;
          early = omega arith;
          this = zero_sum (prefix a 0);
          low = λ i p. let e : i ≡ 0 = omega arith in rw e (omega arith);
          most = record {
            from = 0;
            to = 0;
            order = omega arith;
            within = omega arith;
            value = zero_sum (prefix a 0);
            best = λ i j p q.
                let e : i ≡ j = omega arith in rw e (empty_sum (prefix a j) (pos 0) (omega arith));
          };
        }))
      λ s w. returns w.most
