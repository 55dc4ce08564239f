-- ===== src/Number/Sieve/Strike.antt =====
-- The inner loop of the sieves of Euler: which cells it writes.
use core_technologies.Base.{
  Arr, Returns, Returns-mono, arith, dec_lt, false, inl, inr, ltb, read-ok, refl, returns, suc,
  true, update, write-ok, zero, ℕ, ℕ_discrete, ◌%◌, ◌*◌, ◌+◌, ◌<◌, ◌==◌, ◌≡◌, ◌≢◌, ◌≤◌, ◌⊎◌, ◌/◌,
}
use core_technologies.Number.Prime.{Divides}
use core_technologies.Number.Sieve.{strike_loop}
use native.Mathlib.Nat.{mod-add-div', mul-le-mul_left}

pub Divides-of_mod : (d m : ℕ) → m % d ≡ 0 → Divides d m
Divides-of_mod d m z = (m / d, omega (arith, mod-add-div' m d))

le_of_lt' : (x y : ℕ) → x < y → x ≤ y
le_of_lt' x y h = omega arith

module _ (limit i count : ℕ) (a : ℕ → ℕ) where
  -- `g` marks what `f` marks and the multiples of `i` by the numbers in the cells from `j` on, up
  -- to the first of them that divides `i`
  pub record IsStruck (j : ℕ) (f g : ℕ → ℕ) : Type 0 where
    pub kept : (k : ℕ) → f k ≢ 0 → g k ≢ 0
    pub hit :
        (l : ℕ)
        → j ≤ l
        → l < count
        → i * a l < limit
        → ((k : ℕ) → j ≤ k → k < l → ¬ (Divides (a k) i))
        → g (i * a l) ≢ 0
    pub only : (k : ℕ) → g k ≢ 0 → (f k ≢ 0) ⊎ ((l : ℕ) × (l < count) × (k ≡ i * a l))

  IsStruck-end :
      (j : ℕ) (f : ℕ → ℕ) → ((l : ℕ) → j ≤ l → l < count → limit ≤ i * a l) → IsStruck j f f
  IsStruck-end j f far = record {
    kept = λ k marked. marked;
    hit = λ l p q less none. absurd (omega (arith, far l p q));
    only = λ k marked. inl marked;
  }

  IsStruck-break :
      (j : ℕ) (f : ℕ → ℕ) → j < count → Divides (a j) i → IsStruck j f (update f (i * a j) 1)
  IsStruck-break j f less divides = record {
    kept = λ k marked. ground arith;
    hit = λ l p q small none. elim (ℕ_discrete l j) [
      | yes e ↦ rw e (ground arith)
      | no ne ↦ absurd (none j (omega arith) (omega arith) divides)
    ];
    only = λ k marked. elim (ℕ_discrete k (i * a j)) [
      | yes e ↦ inr (j, less, e)
      | no ne ↦ inl (λ z. marked (ground arith))
    ];
  }

  IsStruck-next :
      (j : ℕ) (f g : ℕ → ℕ) → j < count → IsStruck (suc j) (update f (i * a j) 1) g → IsStruck j f g
  IsStruck-next j f g less w = record {
    kept = λ k marked. w.kept k (ground arith);
    hit = λ l p q small none. elim (ℕ_discrete l j) [
      | yes e ↦ rw e (w.kept (i * a j) (ground arith))
      | no ne ↦ w.hit l (omega arith) q small (λ k p' q'. none k (omega arith) q')
    ];
    only = λ k marked. elim (w.only k marked) [
      | inl before ↦ elim (ℕ_discrete k (i * a j)) [
        | yes e ↦ inr (j, less, e)
        | no ne ↦ inl (λ z. before (ground arith))
      ]
      | inr later ↦ inr later
    ];
  }

  module _ (prime : Arr ℕ) (same : (k : ℕ) → prime.at k ≡ a k) (room : count ≤ prime.size)
      (two : (k : ℕ) → k < count → 2 ≤ a k)
      (ascends : (k l : ℕ) → k < l → l < count → a k < a l) where
    pub strike_loop-IsStruck :
        (k j : ℕ) (st : Arr ℕ)
        → j + k ≡ count
        → limit ≤ st.size
        → Returns
            (λ st'. (st'.size ≡ st.size) × IsStruck j st.at st'.at)
            (strike_loop k limit i j prime st)
    unfolding strike_loop
    strike_loop-IsStruck zero j st e fits =
        returns (refl, IsStruck-end j st.at (λ l p q. absurd (omega arith)))
    strike_loop-IsStruck (suc k) j st e fits =
        rw (read-ok prime j (omega arith), same j)
          (elim (dec_lt (i * a j) limit) [
            | yes less ↦
                let more : ltb (i * a j) limit ≡ true = ground arith in
                let some_ : (a j == 0) ≡ false = ground (arith, two j (omega arith)) in
                let st' : Arr ℕ = record { size = st.size; at = update st.at (i * a j) 1 } in
                rw (more, write-ok st (i * a j) 1 (omega arith), some_)
                  (elim (ℕ_discrete (i % a j) 0) [
                    | yes z ↦
                        let found : (i % a j == 0) ≡ true = ground arith in
                        rw found (
                          returns
                            (refl, IsStruck-break j st.at (omega arith) (Divides-of_mod (a j) i z)))
                    | no nz ↦
                        let on : (i % a j == 0) ≡ false = ground arith in
                        rw on (
                          Returns-mono (strike_loop-IsStruck k (suc j) st' (omega arith) fits)
                            λ t (size, w). (size, IsStruck-next j st.at t.at (omega arith) w))
                  ])
            | no far ↦
                let stop : ltb (i * a j) limit ≡ false = ground arith in
                rw stop (
                  returns (
                    refl,
                    IsStruck-end j st.at (λ l p q. elim (ℕ_discrete l j) [
                      | yes e' ↦ rw e' (omega arith)
                      | no ne ↦ omega (
                        arith,
                        mul-le-mul_left i (le_of_lt' (a j) (a l) (ascends j l (omega arith) q)),
                      )
                    ]),
                  ))
          ])
