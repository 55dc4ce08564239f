-- ===== src/Sort/Quick/Partition.antt =====
-- What `Partition` does to its range.
use core_technologies.Base.{
  Arr, Bool-cases, Returns, Returns-bind, arith, for_range_inv, inl, inr, leb_ℤ, read-ok, returns,
  ℕ, ℤ, ◌+◌, ◌<ℤ◌, ◌<◌, ◌≡◌, ◌≤ℤ◌, ◌≤◌,
}
use core_technologies.Sort.Quick.{partition, partition_step}
use core_technologies.Sort.Spec.{Rearranges, Rearranges-refl, Rearranges-trans, Rearranges-widen}
use core_technologies.Sort.Swap.{Rearranges-swapped, swap-ok, swapped}

-- the loop's invariant: cells below `next` are at most the pivot, those from `next` to `j` above it
record IsSplit (left right : ℕ) (pivot : ℤ) (a₀ : Arr ℤ) (j : ℕ) (s : Arr ℤ × ℕ) : Type 0 where
  same : Rearranges left right a₀ s.0
  from : left ≤ s.1
  upto : s.1 ≤ j
  small : (k : ℕ) → left ≤ k → k < s.1 → s.0.at k ≤ℤ pivot
  large : (k : ℕ) → s.1 ≤ k → k < j → pivot <ℤ s.0.at k

module _ {left right : ℕ} {pivot : ℤ} {a₀ : Arr ℤ} (fits : right < a₀.size) where
  partition_step-IsSplit :
      (j : ℕ) (s : Arr ℤ × ℕ)
      → j < right
      → IsSplit left right pivot a₀ j s
      → Returns (IsSplit left right pivot a₀ (j + 1)) (partition_step pivot j s)
  unfolding partition_step
  partition_step-IsSplit j (a, n) lt p =
      let size = p.same.same_size in
      let upto = p.upto in
      let from = p.from in
      rw (read-ok a j (omega arith)) (elim (Bool-cases (leb_ℤ (a.at j) pivot)) [
        | inl e ↦
            rw (e, swap-ok a n j (omega arith) (omega arith))
              (returns (record {
                same = Rearranges-trans p.same (
                    Rearranges-swapped a n j left right from (omega arith) (omega arith) lt
                      (omega arith));
                from = omega arith;
                upto = omega arith;
                small = λ k q r. ground (arith, p.small k, e);
                large = λ k q r. ground (arith, p.large k, p.large n, e);
              }))
        | inr e ↦ rw e (
            returns (record {
              same = p.same;
              from = from;
              upto = omega arith;
              small = p.small;
              large = λ k q r. ground (arith, p.large k, e);
            }))
      ])

-- The pivot's cell `p` splits the range.
pub record IsPartitioned (left right : ℕ) (a : Arr ℤ) (s : Arr ℤ × ℕ) : Type 0 where
  pub same : Rearranges left (right + 1) a s.0
  pub from : left ≤ s.1
  pub upto : s.1 ≤ right
  pub small : (k : ℕ) → left ≤ k → k < s.1 → s.0.at k ≤ℤ s.0.at s.1
  pub large : (k : ℕ) → s.1 < k → k ≤ right → s.0.at s.1 <ℤ s.0.at k

IsPartitioned-last :
    {left right : ℕ} {a : Arr ℤ} (b : Arr ℤ) (n : ℕ)
    → right < a.size
    → IsSplit left right (a.at right) a right (b, n)
    → IsPartitioned left right a (swapped b n right, n)
IsPartitioned-last {left} {right} {a} b n fits p =
    let size = p.same.same_size in
    let from = p.from in
    let upto = p.upto in
    let kept : b.at right ≡ a.at right = p.same.outside right (omega arith) in
    record {
      same = Rearranges-trans (Rearranges-widen (omega arith) (omega arith) p.same) (
          Rearranges-swapped b n right left (right + 1) from (omega arith) (omega arith)
            (omega arith) (omega arith));
      from = from;
      upto = upto;
      small = λ k q r. ground (arith, p.small k, kept);
      large = λ k q r. ground (arith, p.large k, p.large n, kept);
    }

-- `Partition` on a range within the array that is not empty reads and writes no other cell, and
-- rearranges the range: the values before the index that it gives are at most the value there,
-- and those behind are above it.
pub partition-IsPartitioned :
    (a : Arr ℤ) (left right : ℕ)
    → left ≤ right
    → right < a.size
    → Returns (IsPartitioned left right a) (partition a left right)
unfolding partition
partition-IsPartitioned a left right le fits = rw (read-ok a right fits) (
    Returns-bind
      (for_range_inv (IsSplit left right (a.at right) a) (partition_step (a.at right)) right
        (partition_step-IsSplit fits) left (a, left) le
        (record {
          same = Rearranges-refl a;
          from = omega arith;
          upto = omega arith;
          small = λ k p q. absurd (omega arith);
          large = λ k p q. absurd (omega arith);
        }))
      λ (b, n) p.
        let size = p.same.same_size in
        let upto = p.upto in
        rw (swap-ok b n right (omega arith) (omega arith))
          (returns (IsPartitioned-last b n fits p)))
