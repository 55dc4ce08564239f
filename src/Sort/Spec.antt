-- ===== src/Sort/Spec.antt =====
-- What a sort promises: it rearranges the cells of a range and leaves them in ascending order.
use core_technologies.Base.{
  Arr, SameCounts, arith, dec_le, dec_lt, inl, inr, refl, ℕ, ℤ, ◌<◌, ◌≡◌, ◌≤ℤ◌, ◌≤◌, ◌⊎◌,
}
use mathlib.Core.Path.{◌∙◌}

-- `b` is `a` with the cells `lo`, ..., `hi - 1` rearranged: the values of `a` as often as before,
-- each cell of the range from a cell of the range, and nothing else touched.
pub record Rearranges (lo hi : ℕ) (a b : Arr ℤ) : Type 0 where
  pub same_size : b.size ≡ a.size
  pub counts : SameCounts a b
  pub outside : (k : ℕ) → (k < lo) ⊎ (hi ≤ k) → b.at k ≡ a.at k
  pub source : (k : ℕ) → lo ≤ k → k < hi → (m : ℕ) × (lo ≤ m) × (m < hi) × (b.at k ≡ a.at m)

-- the cells `lo`, ..., `hi - 1` ascend
abbrev pub IsSorted : ℕ → ℕ → Arr ℤ → Type 0
IsSorted lo hi a = (k l : ℕ) → lo ≤ k → k < l → l < hi → a.at k ≤ℤ a.at l

module _ {lo hi : ℕ} where
  pub Rearranges-refl : (a : Arr ℤ) → Rearranges lo hi a a
  Rearranges-refl a = record {
    same_size = refl;
    counts = λ v. refl;
    outside = λ k h. refl;
    source = λ k p q. (k, p, q, refl);
  }

  pub Rearranges-trans :
      {a b c : Arr ℤ} → Rearranges lo hi a b → Rearranges lo hi b c → Rearranges lo hi a c
  Rearranges-trans r s = record {
    same_size = s.same_size ∙ r.same_size;
    counts = λ v. r.counts v ∙ s.counts v;
    outside = λ k h. s.outside k h ∙ r.outside k h;
    source = λ k p q.
        let (m, p', q', e) = s.source k p q in
        let (n, p'', q'', e') = r.source m p' q' in (n, p'', q'', e ∙ e');
  }

  -- a rearrangement of a range is one of a larger range
  pub Rearranges-widen :
      {lo' hi' : ℕ} {a b : Arr ℤ}
      → lo' ≤ lo
      → hi ≤ hi'
      → Rearranges lo hi a b
      → Rearranges lo' hi' a b
  Rearranges-widen l h r = record {
    same_size = r.same_size;
    counts = r.counts;
    outside = λ k p. r.outside k (omega arith);
    source = λ k p q. elim (dec_lt k lo) [
      | yes u ↦ (k, p, q, r.outside k (inl u))
      | no u ↦ elim (dec_le hi k) [
        | yes v ↦ (k, p, q, r.outside k (inr v))
        | no v ↦
            let (m, p', q', e) = r.source k (omega arith) (omega arith) in
            (m, omega arith, omega arith, e)
      ]
    ];
  }
