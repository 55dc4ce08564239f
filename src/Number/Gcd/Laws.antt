-- ===== src/Number/Gcd/Laws.antt =====
-- `Gcd` and `gcd` give the greatest common divisor, `Lcm` a common multiple.
use core_technologies.Base.{
  Bool-cases, Returns, Returns-bind, Returns-mono, ap, arith, false, inl, inr, leb, ltb, refl,
  returns, suc, sym, true, zero, ℕ, ◌%◌, ◌*◌, ◌+◌, ◌/◌, ◌<◌, ◌==◌, ◌∙◌, ◌≡◌, ◌≤◌,
}
use core_technologies.Number.Gcd.{gcd, gcd_loop, lcm, max_long}
use Prim.Native.Nat.{◌∣◌}
use native.Mathlib.Nat.{
  div-le_self, div-mul_cancel, dvd-mod_iff, dvd-mul_left, dvd-mul_right, dvd-zero, dvd_refl,
  eq-zero_of_zero-dvd, mod-lt, mul-le-mul_right, mul_assoc, mul_comm,
}

-- `g` divides both numbers, and each common divisor divides `g`
pub record IsGcd (m n g : ℕ) : Type 0 where
  pub left : g ∣ m
  pub right : g ∣ n
  pub greatest : (d : ℕ) → d ∣ m → d ∣ n → d ∣ g

IsGcd-zero : (m : ℕ) → IsGcd m 0 m
IsGcd-zero m = record { left = dvd_refl m; right = dvd-zero m; greatest = λ d p q. p }

IsGcd-mod : (m n g : ℕ) → IsGcd n (m % n) g → IsGcd m n g
IsGcd-mod m n g w = record {
  left = (dvd-mod_iff g w.left).0 w.right;
  right = w.left;
  greatest = λ d p q. w.greatest d q ((dvd-mod_iff d q).1 p);
}

-- `Gcd` of unsigned numbers gives their greatest common divisor; more rounds than the second
-- number are enough.
pub gcd_loop-IsGcd : (fuel m n : ℕ) → n < fuel → Returns (IsGcd m n) (gcd_loop fuel m n)
unfolding gcd_loop
gcd_loop-IsGcd zero m n f = absurd (omega arith)
gcd_loop-IsGcd (suc fuel) m n f = elim (Bool-cases (ltb 0 n)) [
  | inl more ↦
      let positive : 0 < n = ground arith in
      let less : m % n < n = mod-lt m positive in
      rw more (Returns-mono (gcd_loop-IsGcd fuel n (m % n) (omega arith)) λ g w. IsGcd-mod m n g w)
  | inr done ↦ let null : n ≡ 0 = ground arith in rw (done, null) (returns (IsGcd-zero m))
]

gcd-loop : (fuel m n : ℕ) → gcd fuel m n ≡ gcd_loop fuel m n
unfolding gcd gcd_loop
gcd-loop zero m n = refl
gcd-loop (suc fuel) m n = elim (Bool-cases (n == 0)) [
  | inl null ↦ let done : ltb 0 n ≡ false = ground arith in rw (null, done) refl
  | inr more ↦ let on : ltb 0 n ≡ true = ground arith in rw (more, on) (gcd-loop fuel n (m % n))
]

-- `gcd` of two numbers that are not negative gives their greatest common divisor; a recursion
-- deeper than the second number is not needed.
pub gcd-IsGcd : (fuel m n : ℕ) → n < fuel → Returns (IsGcd m n) (gcd fuel m n)
gcd-IsGcd fuel m n f = rw (gcd-loop fuel m n) (gcd_loop-IsGcd fuel m n f)

-- `l` is a common multiple, and times the greatest common divisor it is the product
pub record IsLcm (m n l : ℕ) : Type 0 where
  pub divisor : ℕ
  pub common : IsGcd m n divisor
  pub product : l * divisor ≡ m * n
  pub left : m ∣ l
  pub right : n ∣ l

IsGcd-IsLcm : (m n g : ℕ) → IsGcd m n g → IsLcm m n (m / g * n)
IsGcd-IsLcm m n g w =
    let m' = div-mul_cancel g w.left in
    let n' = div-mul_cancel g w.right in
    let other : m / g * n ≡ m * (n / g) =
      ap (λ k. m / g * k) (sym n' ∙ mul_comm (n / g) g)
      ∙ sym (mul_assoc (m / g) g (n / g))
      ∙ ap (λ k. k * (n / g)) m' in
    record {
      divisor = g;
      common = w;
      product =
          mul_assoc (m / g) n g
          ∙ ap (λ k. m / g * k) (mul_comm n g)
          ∙ sym (mul_assoc (m / g) g n)
          ∙ ap (λ k. k * n) m';
      left = rw other (dvd-mul_right m (n / g));
      right = dvd-mul_left n (m / g);
    }

le→leb : (a b : ℕ) → a ≤ b → leb a b ≡ true
le→leb a b h = ground arith

-- `Lcm` of two numbers that are not negative, not both 0, and whose product is a `long long`,
-- gives a common multiple of them, which times their greatest common divisor is their product;
-- it divides by no zero and does not overflow.
pub lcm-IsLcm :
    (fuel m n : ℕ) → n < fuel → 0 < m + n → m * n ≤ max_long → Returns (IsLcm m n) (lcm fuel m n)
unfolding lcm
lcm-IsLcm fuel m n f positive fits = Returns-bind (gcd-IsGcd fuel m n f) λ g w.
    let ne : (g == 0) ≡ false = elim (Bool-cases (g == 0)) [
      | inl null ↦
          let zero : g ≡ 0 = ground arith in
          let no_m = eq-zero_of_zero-dvd (rw zero at w.left) in
          let no_n = eq-zero_of_zero-dvd (rw zero at w.right) in absurd (omega arith)
      | inr ne ↦ ne
    ] in
    let le = mul-le-mul_right {m = m / g} {n = m} n (div-le_self m g) in
    let within : leb (m / g * n) max_long ≡ true = le→leb (m / g * n) max_long (omega arith) in
    rw (ne, within) (returns (IsGcd-IsLcm m n g w))
