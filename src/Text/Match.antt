-- ===== src/Text/Match.antt =====
-- `match` of Question2.c.
use core_technologies.Base.{
  Arr, Bool-cases, Option, Returns, Returns-mono, arith, false, inl, inr, none, read-ok, returns,
  some, suc, true, zero, ℕ, ◌+◌, ◌-◌, ◌<◌, ◌==◌, ◌≡◌,
}
use core_technologies.Text.{match}
use core_technologies.Text.Spec.{IsText, IsText-empty, IsText-head, IsText-next}

-- the string at `q` of `m` characters stands at `i`
abbrev pub Matches : Arr ℕ → (i : ℕ) → Arr ℕ → (q m : ℕ) → Type 0
Matches a i b q m = (j : ℕ) → j < m → a.at (i + j) ≡ b.at (q + j)

-- what `match` says
abbrev pub Tells : Arr ℕ → (i : ℕ) → Arr ℕ → (q m : ℕ) → Option ℕ → Type 0
Tells a i b q m none = ¬ Matches a i b q m
Tells a i b q m (some k) = (k ≡ i + m) × Matches a i b q m

pub match-Tells :
    (fuel : ℕ) (a : Arr ℕ) (i n : ℕ) (b : Arr ℕ) (q m : ℕ)
    → m < fuel
    → IsText a i n
    → IsText b q m
    → Returns (Tells a i b q m) (match fuel a i b q)
unfolding match
match-Tells zero a i n b q m f w v = absurd (omega arith)
match-Tells (suc fuel) a i n b q zero f w v =
    rw (read-ok b q (omega (arith, v.fits)), IsText-empty b q v)
      (returns (omega arith, λ j lt. absurd (omega arith)))
match-Tells (suc fuel) a i zero b q (suc m) f w v =
    let e : i + 0 ≡ i = omega arith in
    let e' : q + 0 ≡ q = omega arith in
    let full = IsText-head b q m v in
    let differ : (0 == b.at q) ≡ false = ground arith in
    rw
      (
        read-ok b q (omega (arith, v.fits)),
        full,
        read-ok a i (omega (arith, w.fits)),
        IsText-empty a i w,
        differ,
      )
      (returns λ same.
        let first = same 0 (omega arith) in
        let first' : a.at i ≡ b.at q = rw (e, e') at first in
        let nought = IsText-empty a i w in ground arith)
match-Tells (suc fuel) a i (suc n) b q (suc m) f w v =
    let e : i + 0 ≡ i = omega arith in
    let e' : q + 0 ≡ q = omega arith in
    rw
      (
        read-ok b q (omega (arith, v.fits)),
        IsText-head b q m v,
        read-ok a i (omega (arith, w.fits)),
      )
      (elim (Bool-cases (a.at i == b.at q)) [
        | inl hit ↦ rw hit (
            Returns-mono
              (match-Tells fuel a (suc i) n b (suc q) m (omega arith) (IsText-next a i n w)
                (IsText-next b q m v))
              λ o told. Tells-next o told hit)
        | inr miss ↦ rw miss (
            returns λ same.
              let first = same 0 (omega arith) in
              let first' : a.at i ≡ b.at q = rw (e, e') at first in ground arith)
      ])
  where
    Tells-next :
        (o : Option ℕ)
        → Tells a (suc i) b (suc q) m o
        → (a.at i == b.at q) ≡ true
        → Tells a i b q (suc m) o
    Tells-next none out hit = λ same. out λ j lt.
        let e : suc i + j ≡ i + suc j = omega arith in
        let e' : suc q + j ≡ q + suc j = omega arith in rw (e, e') (same (suc j) (omega arith))
    Tells-next (some k) (end, same) hit = (
      omega arith,
      λ j lt. elim (Bool-cases (j == 0)) [
        | inl nought ↦
            let e : i + j ≡ i = ground arith in
            let e' : q + j ≡ q = ground arith in rw (e, e') (ground arith)
        | inr later ↦
            let e : i + j ≡ suc i + (j - 1) = ground arith in
            let e' : q + j ≡ suc q + (j - 1) = ground arith in
            rw (e, e') (same (j - 1) (ground arith))
      ],
    )
