-- ===== src/Subsequence/Divided/Halves.antt =====
-- The largest sum of a range from those of its halves, as in Divide_and_conquer.c.
use core_technologies.Base.{
  Arr, Bool-cases, arith, dec_le, dec_lt, eq_of_parts, if◌then◌else◌, inl, inr, int_laws, ltb_ℤ,
  pos, refl, suc, sym, ℕ, ℤ, ◌+ℤ◌, ◌-ℤ◌, ◌-◌, ◌<◌, ◌∙◌, ◌≡◌, ◌≤ℤ◌, ◌≤◌, ◌⊎◌,
}
use core_technologies.Subsequence.Best.{zero_sum}
use core_technologies.Subsequence.Divided.{max3}
use core_technologies.Subsequence.Divided.Border.{IsBorder, same_parts}
use core_technologies.Subsequence.Spec.{SumsFit, prefix, sum}

-- `r` is the largest sum of consecutive cells from `lo` on below `hi`
pub record IsMaxIn (a : Arr ℤ) (lo hi : ℕ) (r : ℤ) : Type 0 where
  pub from : ℕ
  pub to : ℕ
  pub low : lo ≤ from
  pub order : from ≤ to
  pub within : to ≤ hi
  pub value : r ≡ sum a from to
  pub best : (i j : ℕ) → lo ≤ i → i ≤ j → j ≤ hi → sum a i j ≤ℤ r

max3_of : (x y z : ℤ) → (max3 x y z ≡ x) ⊎ ((max3 x y z ≡ y) ⊎ (max3 x y z ≡ z))
unfolding max3
max3_of x y z = elim (Bool-cases (ltb_ℤ y x)) [
  | inl e ↦ rw e (elim (Bool-cases (ltb_ℤ z x)) [
    | inl e' ↦ rw e' (inl refl)
    | inr e' ↦ rw e' (inr (inr refl))
  ])
  | inr e ↦ rw e (elim (Bool-cases (ltb_ℤ z y)) [
    | inl e' ↦ rw e' (inr (inl refl))
    | inr e' ↦ rw e' (inr (inr refl))
  ])
]

max3_le : (x y z : ℤ) → (x ≤ℤ max3 x y z) × (y ≤ℤ max3 x y z) × (z ≤ℤ max3 x y z)
unfolding max3
max3_le x y z = (ground arith, ground arith, ground arith)

-- sums that meet
pub joined_sum : (p q r : ℤ) → (p -ℤ q) +ℤ (r -ℤ p) ≡ r -ℤ q
joined_sum p q r = eq_of_parts ((p -ℤ q) +ℤ (r -ℤ p)) (r -ℤ q) (omega int_laws)

-- sums of parts that are not above these
joined_le : (p q r b c : ℤ) → p -ℤ q ≤ℤ b → r -ℤ p ≤ℤ c → r -ℤ q ≤ℤ b +ℤ c
joined_le p q r b c h h' = omega int_laws

one_cell : (p x : ℤ) → (p +ℤ x) -ℤ p ≡ x
one_cell p x = eq_of_parts ((p +ℤ x) -ℤ p) x (omega int_laws)

module _ (a : Arr ℤ) (n : ℕ) (fits : n ≤ a.size) (ints : SumsFit a n) where
  pub combine :
      (left m stop : ℕ) (r r' : ℤ) (s s' : ℤ × ℤ)
      → left ≤ m
      → m ≤ stop
      → IsMaxIn a left m r
      → IsMaxIn a m stop r'
      → IsBorder (λ k. sum a (m - k) m) 0 (m - left) s
      → IsBorder (λ j. sum a m j) m stop s'
      → IsMaxIn a left stop (max3 r r' (s.1 +ℤ s'.1))
  combine left m stop r r' s s' le le' w w' b b' =
      let over : s.1 +ℤ s'.1 ≡ sum a (m - b.place) b'.place =
        rw (b.value, b'.value)
          (joined_sum (prefix a m) (prefix a (m - b.place)) (prefix a b'.place)) in
      let (x_le, y_le, z_le) = max3_le r r' (s.1 +ℤ s'.1) in
      let best : (i j : ℕ) → left ≤ i → i ≤ j → j ≤ stop → sum a i j ≤ℤ max3 r r' (s.1 +ℤ s'.1) =
        λ i j p q h. elim (dec_le j m) [
          | yes inner ↦ let most = w.best i j p q inner in omega (arith, most, x_le)
          | no after ↦ elim (dec_le m i) [
            | yes outer ↦ let most = w'.best i j outer q h in omega (arith, most, y_le)
            | no before ↦
                let e : m - (m - i) ≡ i = omega arith in
                let left_most = b.best (m - i) (omega arith) (omega arith) in
                let left_most' = rw e at left_most in
                let right_most = b'.best j (omega arith) h in
                let most =
                  joined_le (prefix a m) (prefix a i) (prefix a j) s.1 s'.1 left_most' right_most in
                omega (arith, most, z_le)
          ]
        ] in
      elim (max3_of r r' (s.1 +ℤ s'.1)) [
        | inl e ↦ record {
          from = w.from;
          to = w.to;
          low = w.low;
          order = w.order;
          within = omega (arith, w.within);
          value = e ∙ w.value;
          best = best;
        }
        | inr (inl e) ↦ record {
          from = w'.from;
          to = w'.to;
          low = omega (arith, w'.low);
          order = w'.order;
          within = w'.within;
          value = e ∙ w'.value;
          best = best;
        }
        | inr (inr e) ↦ record {
          from = m - b.place;
          to = b'.place;
          low = omega (arith, b.high);
          order = omega (arith, b'.low);
          within = b'.high;
          value = e ∙ over;
          best = best;
        }
      ]

  -- a range of one cell
  pub single :
      (left : ℕ)
      → left < n
      → IsMaxIn a left (suc left) (if ltb_ℤ (pos 0) (a.at left) then a.at left else pos 0)
  single left lt =
      let e : sum a left (suc left) ≡ a.at left =
        unfold prefix in one_cell (prefix a left) (a.at left) in
      let none : (i : ℕ) → sum a i i ≡ pos 0 = λ i. same_parts (prefix a i) in
      let cases : (i j : ℕ)
          → left ≤ i
          → i ≤ j
          → j ≤ suc left
          → (sum a i j ≡ pos 0) ⊎ (sum a i j ≡ a.at left) =
        λ i j p q h. elim (dec_lt i j) [
          | yes more ↦
              let first : i ≡ left = omega arith in
              let last : j ≡ suc left = omega arith in inr (rw (first, last) e)
          | no less ↦ let same : j ≡ i = omega arith in inl (rw same (none i))
        ] in
      elim (Bool-cases (ltb_ℤ (pos 0) (a.at left))) [
        | inl more ↦ rw more (record {
          from = left;
          to = suc left;
          low = omega arith;
          order = omega arith;
          within = omega arith;
          value = sym e;
          best = λ i j p q h. elim (cases i j p q h) [
            | inl zero_sum ↦ rw zero_sum (ground arith)
            | inr whole ↦ rw whole (omega arith)
          ];
        })
        | inr less ↦ rw less (record {
          from = left;
          to = left;
          low = omega arith;
          order = omega arith;
          within = omega arith;
          value = sym (none left);
          best = λ i j p q h. elim (cases i j p q h) [
            | inl zero_sum ↦ rw zero_sum (omega arith)
            | inr whole ↦ rw whole (ground arith)
          ];
        })
      ]
