-- ===== src/Text/Reverse.antt =====
-- `reverse_string` turns a string around.
use core_technologies.Base.{
  Arr, Bool-cases, Returns, Returns-mono, arith, dec_lt, false, inl, inr, ltb, ok, put, read-ok,
  refl, returns, suc, sym, true, write-ok, zero, ℕ, ◌+◌, ◌-◌, ◌<◌, ◌==◌, ◌∙◌, ◌≡◌, ◌≢◌, ◌≤◌, ◌⊎◌,
}
use core_technologies.Text.{exchange, reverse_loop, reverse_string}
use core_technologies.Text.Spec.{IsText, my_strlen_lem}

-- the array with two cells exchanged
abbrev exchanged : Arr ℕ → ℕ → ℕ → Arr ℕ
exchanged a i j = put (put a i (a.at j)) j (a.at i)

exchange-ok :
    (a : Arr ℕ) (i j : ℕ)
    → i < a.size
    → j < a.size
    → a.at i ≢ 0
    → a.at j ≢ 0
    → exchange a i j ≡ ok (exchanged a i j)
unfolding exchange
exchange-ok a i j hi hj x y =
    let e : (a.at i == 0) ≡ false = ground arith in
    let e' : (a.at j == 0) ≡ false = ground arith in
    rw
      (
        read-ok a i hi,
        read-ok a j hj,
        e,
        e',
        write-ok a i (a.at j) hi,
        write-ok (put a i (a.at j)) j (a.at i) hj,
      )
      refl

-- the cells from `left` to `stop - 1` are turned around
record IsReversed (left stop : ℕ) (a b : Arr ℕ) : Type 0 where
  same_size : b.size ≡ a.size
  turned : (k : ℕ) → left ≤ k → k < stop → b.at k ≡ a.at (left + stop - 1 - k)
  outside : (k : ℕ) → (k < left) ⊎ (stop ≤ k) → b.at k ≡ a.at k

reverse_loop-IsReversed :
    (fuel : ℕ) (a : Arr ℕ) (left stop : ℕ)
    → stop + 1 < fuel + left
    → left ≤ stop + 1
    → stop ≤ a.size
    → ((k : ℕ) → left ≤ k → k < stop → a.at k ≢ 0)
    → Returns (IsReversed left stop a) (reverse_loop fuel a left stop)
unfolding reverse_loop
reverse_loop-IsReversed zero a left stop f le fits full = absurd (omega arith)
reverse_loop-IsReversed (suc fuel) a left stop f le fits full = elim (Bool-cases (ltb left stop)) [
  | inr done ↦ rw done (
      returns (record {
        same_size = refl;
        turned = λ k p q. absurd (ground arith);
        outside = λ k h. refl;
      }))
  | inl more ↦
      let lt : left < stop = ground arith in
      let last = stop - 1 in
      let c = exchanged a left last in
      let right : (k : ℕ) → last ≡ k → c.at k ≡ a.at left =
        λ k e. let b : (last == k) ≡ true = ground arith in rw b refl in
      let inner : (k : ℕ) → left < k → k < last → c.at k ≡ a.at k = λ k p q.
        let b : (last == k) ≡ false = ground arith in
        let b' : (left == k) ≡ false = ground arith in rw (b, b') refl in
      let outer : (k : ℕ) → (k < left) ⊎ (stop ≤ k) → c.at k ≡ a.at k = λ k h.
        let b : (last == k) ≡ false = ground arith in
        let b' : (left == k) ≡ false = ground arith in rw (b, b') refl in
      let first : c.at left ≡ a.at last = elim (Bool-cases (last == left)) [
        | inl e ↦ let same : last ≡ left = ground arith in rw (e, same) refl
        | inr e ↦ let b : (left == left) ≡ true = ground arith in rw (e, b) refl
      ] in
      rw
        (
          more,
          exchange-ok a left last (omega arith) (omega arith) (full left (omega arith) lt)
              (full last (omega arith) (omega arith)),
        )
        (Returns-mono
          (reverse_loop-IsReversed fuel c (suc left) last (omega arith) (omega arith) (omega arith)
            (λ k p q same. full k (omega arith) (omega arith) (sym (inner k p q) ∙ same)))
          λ b w. record {
            same_size = w.same_size;
            turned = λ k p q. elim (dec_lt left k) [
              | no h ↦
                  let e : k ≡ left = omega arith in
                  let e' : left + stop - 1 - left ≡ last = omega arith in
                  rw (e, e') (w.outside left (inl (omega arith)) ∙ first)
              | yes h ↦ elim (dec_lt k last) [
                | yes h' ↦
                    let e : suc left + last - 1 - k ≡ left + stop - 1 - k = omega arith in
                    w.turned k h h' ∙ rw e (inner (left + stop - 1 - k) (omega arith) (omega arith))
                | no h' ↦
                    let e : left + stop - 1 - k ≡ left = omega arith in
                    rw e (w.outside k (inr (omega arith)) ∙ right k (omega arith))
              ]
            ];
            outside = λ k h.
                w.outside k (elim h [ inl less ↦ inl (omega arith) | inr more ↦ inr (omega arith) ])
                ∙ outer k h;
          })
]

-- `reverse_string` of a string turns its characters around and changes nothing else; two rounds
-- more than it has characters are enough.
pub reverse_string-IsText :
    (fuel : ℕ) (a : Arr ℕ) (p n : ℕ)
    → suc n < fuel
    → IsText a p n
    → Returns
        (λ b.
          IsText b p n
          × (b.size ≡ a.size)
          × ((k : ℕ) → k < n → b.at (p + k) ≡ a.at (p + (n - 1 - k)))
          × ((k : ℕ) → (k < p) ⊎ (p + n ≤ k) → b.at k ≡ a.at k))
        (reverse_string fuel a p)
unfolding reverse_string
reverse_string-IsText fuel a p n f w =
    let full : (k : ℕ) → p ≤ k → k < p + n → a.at k ≢ 0 = λ k q r.
      let e : p + (k - p) ≡ k = omega arith in
      let old = w.full (k - p) (omega arith) in rw e at old in
    rw (my_strlen_lem fuel a p n (omega arith) w) (
      Returns-mono
        (reverse_loop-IsReversed fuel a p (p + n) (omega arith) (omega arith)
          (omega (arith, w.fits)) full)
        λ b v.
          let turned : (k : ℕ) → k < n → b.at (p + k) ≡ a.at (p + (n - 1 - k)) = λ k lt.
            let e : p + (p + n) - 1 - (p + k) ≡ p + (n - 1 - k) = omega arith in
            v.turned (p + k) (omega arith) (omega arith) ∙ rw e refl in
          (
            record {
              fits = omega (arith, v.same_size, w.fits);
              full = λ k lt same. w.full (n - 1 - k) (omega arith) (sym (turned k lt) ∙ same);
              end = v.outside (p + n) (inr (omega arith)) ∙ w.end;
            },
            v.same_size,
            turned,
            v.outside,
          ))
