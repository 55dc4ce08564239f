-- ===== src/Number/Sieve/Cross.antt =====
-- The inner loops of the sieves of Eratosthenes: which cells they write.
use core_technologies.Base.{
  Arr, Returns, Returns-mono, arith, dec_lt, inl, inr, ltb, put, refl, ok, ap, if◌then◌else◌, write,
  ◌>>=◌, ◌∙◌, ◌-◌, returns, suc, update, write-ok, zero, ℕ, ℕ_discrete, ◌*◌, ◌+◌, ◌<◌, ◌≡◌, ◌≢◌,
  ◌≤◌, ◌⊎◌, true, false, Run,
}
use mathlib.Core.Path.{fun_ext}
use core_technologies.Number.Sieve.{Sieve, cross_loop, multiple_loop, store}

-- the cells `m`, `m + i`, `m + 2 * i`, ... below `n` are marked in `g`, and those marked in `f`
pub record IsCrossed (n i m : ℕ) (f g : ℕ → ℕ) : Type 0 where
  pub kept : (k : ℕ) → f k ≢ 0 → g k ≢ 0
  pub hit : (c : ℕ) → m + c * i < n → g (m + c * i) ≢ 0
  pub only : (k : ℕ) → g k ≢ 0 → (f k ≢ 0) ⊎ ((c : ℕ) × (k ≡ m + c * i))

IsCrossed-end : (n i m : ℕ) (f : ℕ → ℕ) → n ≤ m → IsCrossed n i m f f
IsCrossed-end n i m f h = record {
  kept = λ k marked. marked;
  hit = λ c less. absurd (omega arith);
  only = λ k marked. inl marked;
}

next_multiple : (m c i : ℕ) → m + suc c * i ≡ m + i + c * i
next_multiple m c i = grind arith

IsCrossed-hit :
    (n i m : ℕ) (f g : ℕ → ℕ)
    → IsCrossed n i (m + i) (update f m 1) g
    → (c : ℕ) → m + c * i < n
    → g (m + c * i) ≢ 0
IsCrossed-hit n i m f g w zero less =
    let e : m + 0 * i ≡ m = omega arith in rw e (w.kept m (ground arith))
IsCrossed-hit n i m f g w (suc c) less =
    rw (next_multiple m c i) (w.hit c (omega (arith, next_multiple m c i)))

IsCrossed-step :
    (n i m : ℕ) (f g : ℕ → ℕ) → IsCrossed n i (m + i) (update f m 1) g → IsCrossed n i m f g
IsCrossed-step n i m f g w = record {
  kept = λ k marked. w.kept k (ground arith);
  hit = IsCrossed-hit n i m f g w;
  only = λ k marked. elim (w.only k marked) [
    | inl before ↦ elim (ℕ_discrete k m) [
      | yes e ↦ inr (0, omega arith)
      | no ne ↦ inl (λ z. before (ground arith))
    ]
    | inr (c, e) ↦ inr (suc c, grind arith)
  ];
}

pub cross_loop-IsCrossed :
    (fuel n i m : ℕ) (st : Arr ℕ)
    → 0 < i
    → n ≤ st.size
    → n - m < fuel
    → Returns
        (λ st'. (st'.size ≡ st.size) × IsCrossed n i m st.at st'.at)
        (cross_loop fuel n i m st)
unfolding cross_loop
cross_loop-IsCrossed zero n i m st pos fits f = absurd (omega arith)
cross_loop-IsCrossed (suc fuel) n i m st pos fits f = elim (dec_lt m n) [
  | yes less ↦
      let more : ltb m n ≡ true = ground arith in
      rw (more, write-ok st m 1 (omega arith))
        (Returns-mono
          (cross_loop-IsCrossed fuel n i (m + i) (record { size = st.size; at = update st.at m 1 })
            pos fits (omega arith))
          λ st' (same, w). (same, IsCrossed-step n i m st.at st'.at w))
  | no ge ↦
      let done : ltb m n ≡ false = ground arith in
      rw done (returns (refl, IsCrossed-end n i m st.at (omega arith)))
]

pub multiple_loop-cross_loop :
    (fuel n i j : ℕ) (st : Arr ℕ) → multiple_loop fuel n i j st ≡ cross_loop fuel n i (i * j) st
unfolding multiple_loop cross_loop
multiple_loop-cross_loop zero n i j st = refl
multiple_loop-cross_loop (suc fuel) n i j st =
    let e : i * (j + 1) ≡ i * j + i = grind arith in
    let same : (λ (a : Arr ℕ). multiple_loop fuel n i (j + 1) a) ≡ cross_loop fuel n i (i * j + i) =
      fun_ext
        (λ a. multiple_loop-cross_loop fuel n i (j + 1) a ∙ ap (λ m. cross_loop fuel n i m a) e) in
    ap (λ (k : Arr ℕ → Run (Arr ℕ)). if ltb (i * j) n then (write st (i * j) 1 >>= k) else ok st)
      same

pub store-ok :
    (i : ℕ) (s : Sieve)
    → s.prime_index < s.prime.size
    → store i s
      ≡ ok (record {
        access = s.access;
        prime = put s.prime s.prime_index i;
        prime_index = suc s.prime_index;
      })
unfolding store
store-ok i s room = rw (write-ok s.prime s.prime_index i room)
