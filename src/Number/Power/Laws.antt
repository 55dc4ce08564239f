-- ===== src/Number/Power/Laws.antt =====
-- `BinPow` gives the power.
use core_technologies.Base.{
  Bool, Bool-cases, ap, arith, eqb_ℤ, sub_ℕ, eq_of_parts, false, inl, inr, neg_part, negsuc, not,
  ok, pos, pos_part, refl, suc, sym, true, zero, ℕ, ℤ, ◌%◌, ◌*ℤ◌, ◌*◌, ◌+◌, ◌/◌, ◌<◌, ◌==◌, ◌^◌,
  ◌∙◌, ◌≡◌, ◌≤◌,
}
use core_technologies.Number.Power.{
  bin_pow, half, is_long_long, max_long_long, mul_long, negative, rest_of_half,
}
use native.Mathlib.Nat.{pow-suc, pow-zero, pow-le-pow_right, mul_assoc}

-- the distance from 0
abbrev pub abs : ℤ → ℕ
abs (pos n) = n
abs (negsuc n) = suc n

-- the `n`th power, by multiplying `n` times
unfoldable pub power : ℤ → ℕ → ℤ
power x zero = pos 1
power x (suc n) = power x n *ℤ x

-- the number with the distance `m` from 0, below 0 where `below` is true
signed : (below : Bool) → ℕ → ℤ
signed true m = negative m
signed false m = pos m

differ : Bool → Bool → Bool
differ true b = not b
differ false b = b

is_below : ℤ → Bool
is_below (pos n) = false
is_below (negsuc n) = true

signed-abs : (x : ℤ) → signed (is_below x) (abs x) ≡ x
unfolding signed is_below
signed-abs (pos n) = refl
signed-abs (negsuc n) = refl

-- the two parts of a number below 0
pos_of_negative : (m : ℕ) → pos_part (negative m) ≡ 0
pos_of_negative zero = refl
pos_of_negative (suc m) = refl

neg_of_negative : (m : ℕ) → neg_part (negative m) ≡ m
neg_of_negative zero = refl
neg_of_negative (suc m) = refl

sub_parts : (a b : ℕ) → pos_part (sub_ℕ a b) + b ≡ neg_part (sub_ℕ a b) + a
sub_parts a b = ground arith

eq_of_product :
    (a b c : ℤ)
    → pos_part a * pos_part b + neg_part a * neg_part b + neg_part c
      ≡ pos_part a * neg_part b + neg_part a * pos_part b + pos_part c
    → a *ℤ b ≡ c
unfolding ◌*ℤ◌
eq_of_product a b c h =
    let p = pos_part a * pos_part b + neg_part a * neg_part b in
    let n = pos_part a * neg_part b + neg_part a * pos_part b in
    let parts = sub_parts p n in eq_of_parts (sub_ℕ p n) c (omega (arith, parts, h))

signed-mul : (b c : Bool) (m k : ℕ) → signed b m *ℤ signed c k ≡ signed (differ b c) (m * k)
unfolding signed differ
signed-mul false false m k = eq_of_product (pos m) (pos k) (pos (m * k)) (omega arith)
signed-mul false true m k = eq_of_product (pos m) (negative k) (negative (m * k)) (
    rw (pos_of_negative k, neg_of_negative k, pos_of_negative (m * k), neg_of_negative (m * k))
      (omega arith))
signed-mul true false m k = eq_of_product (negative m) (pos k) (negative (m * k)) (
    rw (pos_of_negative m, neg_of_negative m, pos_of_negative (m * k), neg_of_negative (m * k))
      (omega arith))
signed-mul true true m k =
    eq_of_product (negative m) (negative k) (pos (m * k)) (
      rw (pos_of_negative m, neg_of_negative m, pos_of_negative k, neg_of_negative k) (omega arith))

-- whether an odd number of factors below 0 stand in the `n`th power
odd_below : ℤ → ℕ → Bool
odd_below x zero = false
odd_below x (suc n) = differ (odd_below x n) (is_below x)

power-signed : (x : ℤ) (n : ℕ) → power x n ≡ signed (odd_below x n) (abs x ^ n)
unfolding power signed odd_below
power-signed x zero = rw (pow-zero (abs x)) refl
power-signed x (suc n) =
    ap (λ r. r *ℤ x) (power-signed x n)
    ∙ ap (λ r. signed (odd_below x n) (abs x ^ n) *ℤ r) (sym (signed-abs x))
    ∙ signed-mul (odd_below x n) (is_below x) (abs x ^ n) (abs x)
    ∙ ap (signed (odd_below x (suc n))) (sym (pow-suc (abs x) n))

differ_assoc : (a b c : Bool) → differ (differ a b) c ≡ differ a (differ b c)
unfolding differ
differ_assoc a b c = ground arith

differ-false : (b : Bool) → differ b false ≡ b
unfolding differ
differ-false true = refl
differ-false false = refl

odd_below-add : (x : ℤ) (a b : ℕ) → odd_below x (a + b) ≡ differ (odd_below x a) (odd_below x b)
unfolding odd_below
odd_below-add x a zero =
    let e : a + 0 ≡ a = omega arith in rw e (sym (differ-false (odd_below x a)))
odd_below-add x a (suc b) =
    let e : a + suc b ≡ suc (a + b) = omega arith in
    rw (e, odd_below-add x a b) (differ_assoc (odd_below x a) (odd_below x b) (is_below x))

pow_add : (x a b : ℕ) → x ^ (a + b) ≡ x ^ a * x ^ b
pow_add x a zero = let e : a + 0 ≡ a = omega arith in rw (e, pow-zero x) (omega arith)
pow_add x a (suc b) =
    let e : a + suc b ≡ suc (a + b) = omega arith in
    rw (e, pow-suc x (a + b), pow_add x a b, pow-suc x b) (mul_assoc (x ^ a) (x ^ b) x)

power-add : (x : ℤ) (a b : ℕ) → power x a *ℤ power x b ≡ power x (a + b)
power-add x a b =
    rw
      (
        power-signed x a,
        power-signed x b,
        power-signed x (a + b),
        odd_below-add x a b,
        pow_add (abs x) a b,
      )
      (signed-mul (odd_below x a) (odd_below x b) (abs x ^ a) (abs x ^ b))

zero_pow : (i : ℕ) → 0 ^ i ≤ 1
zero_pow zero = rw (pow-zero 0) (omega arith)
zero_pow (suc i) = rw (pow-suc 0 i) (omega arith)

-- a lower power fits too
pow-fits : (x i j : ℕ) → i ≤ j → x ^ j ≤ max_long_long → x ^ i ≤ max_long_long
pow-fits zero i j le fits = omega (arith, zero_pow i)
pow-fits (suc x) i j le fits =
    let lower : suc x ^ i ≤ suc x ^ j = pow-le-pow_right (omega arith) le in omega arith

signed-is_long_long : (b : Bool) (m : ℕ) → m ≤ max_long_long → is_long_long (signed b m) ≡ true
unfolding signed
signed-is_long_long false m h = ground arith
signed-is_long_long true zero h = refl
signed-is_long_long true (suc m) h = ground arith

is_long_long-power : (x : ℤ) (n : ℕ) → abs x ^ n ≤ max_long_long → is_long_long (power x n) ≡ true
is_long_long-power x n h = rw (power-signed x n) (signed-is_long_long (odd_below x n) (abs x ^ n) h)

-- the last product of an odd exponent
mul_long-next :
    (x : ℤ) (n : ℕ) → abs x ^ suc n ≤ max_long_long → mul_long (power x n) x ≡ ok (power x (suc n))
unfolding mul_long power
mul_long-next x n h = let fits = is_long_long-power x (suc n) h in rw fits refl

mul_long-power :
    (x : ℤ) (a b : ℕ)
    → abs x ^ (a + b) ≤ max_long_long
    → mul_long (power x a) (power x b) ≡ ok (power x (a + b))
unfolding mul_long
mul_long-power x a b h =
    let fits = is_long_long-power x (a + b) h in rw (power-add x a b, fits) refl

abs-negative : (m : ℕ) → abs (negative m) ≡ m
abs-negative zero = refl
abs-negative (suc m) = refl

negative-zero : (m : ℕ) → eqb_ℤ (negative m) (pos 0) ≡ (m == 0)
negative-zero zero = refl
negative-zero (suc m) = ground arith

abs-half : (y : ℤ) → abs (half y) ≡ abs y / 2
abs-half (pos n) = refl
abs-half (negsuc n) = abs-negative (suc n / 2)

-- the test `y % 2`
rest_of_half-abs : (y : ℤ) → eqb_ℤ (rest_of_half y) (pos 0) ≡ (abs y % 2 == 0)
rest_of_half-abs (pos n) = ground arith
rest_of_half-abs (negsuc n) = negative-zero (suc n % 2)

-- `BinPow(x, y)` of two `long long`s gives the power of `x` by the distance of `y` from 0 and does
-- not overflow, if the distance of this power from 0 is a `long long`; so for a `y` that is not
-- negative it gives the power of `x` by `y`. Its recursion ends within one call more than the
-- distance of `y` from 0.
pub bin_pow_lem :
    (fuel : ℕ) (x y : ℤ)
    → abs y < fuel
    → abs x ^ abs y ≤ max_long_long
    → bin_pow fuel x y ≡ ok (power x (abs y))
unfolding bin_pow
bin_pow_lem zero x y f fits = absurd (omega arith)
bin_pow_lem (suc fuel) x y f fits = elim (Bool-cases (eqb_ℤ y (pos 0))) [
  | inl nought ↦ let e : abs y ≡ 0 = ground arith in rw (nought, e) (unfold power in refl)
  | inr some_there ↦
      let positive : 0 < abs y = ground arith in
      let h = abs y / 2 in
      let e = abs-half y in
      let smaller : abs (half y) < fuel = rw e (omega arith) in
      let fits' : abs x ^ abs (half y) ≤ max_long_long =
        rw e (pow-fits (abs x) h (abs y) (omega arith) fits) in
      let lower : bin_pow fuel x (half y) ≡ ok (power x h) =
        bin_pow_lem fuel x (half y) smaller fits' ∙ rw e refl in
      let square = mul_long-power x h h (pow-fits (abs x) (h + h) (abs y) (omega arith) fits) in
      rw (some_there, lower, square, rest_of_half-abs y)
        (elim (Bool-cases (abs y % 2 == 0)) [
          | inl even ↦ let e : h + h ≡ abs y = ground arith in rw (even, e) refl
          | inr odd ↦
              let e : suc (h + h) ≡ abs y = ground arith in
              let fits'' : abs x ^ suc (h + h) ≤ max_long_long = rw e fits in
              rw (odd, mul_long-next x (h + h) fits'', e) refl
        ])
]
