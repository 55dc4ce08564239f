-- ===== src/Text/Move.antt =====
-- The overwriting in `del_substr` of Question2.c.
-- the overwriting: the cells from `next` to the end of the string move down by `m` places
use core_technologies.Base.{
  Arr, Returns, Returns-mono, arith, dec_lt, false, put, read-ok, refl, returns, suc, true,
  write-ok, zero, ℕ, ◌+◌, ◌<◌, ◌==◌, ◌∙◌, ◌≡◌, ◌≤◌,
}
use core_technologies.Text.{move_loop}
use core_technologies.Text.Spec.{IsText, IsText-empty, IsText-head, IsText-next}

pub record IsMoved (m next n : ℕ) (a b : Arr ℕ) : Type 0 where
  pub same_size : b.size ≡ a.size
  pub front : (k : ℕ) → k + m < next → b.at k ≡ a.at k
  pub moved : (k : ℕ) → next ≤ k + m → k + m ≤ next + n → b.at k ≡ a.at (k + m)

pub move_loop-IsMoved :
    (fuel : ℕ) (a : Arr ℕ) (str m n : ℕ)
    → n < fuel
    → IsText a (str + m) n
    → Returns (IsMoved m (str + m) n a) (move_loop fuel a str (str + m))
unfolding move_loop
move_loop-IsMoved zero a str m n f w = absurd (omega arith)
move_loop-IsMoved (suc fuel) a str m zero f w =
    let e : (a.at (str + m) == 0) ≡ true =
      let nought = IsText-empty a (str + m) w in ground arith in
    rw
      (
        read-ok a (str + m) (omega (arith, w.fits)),
        write-ok a str (a.at (str + m)) (omega (arith, w.fits)),
        e,
      )
      (returns (record {
        same_size = refl;
        front = λ k p. let b : (str == k) ≡ false = ground arith in rw b refl;
        moved = λ k p q.
            let same : k ≡ str = omega arith in
            let b : (str == str) ≡ true = ground arith in rw (same, b) refl;
      }))
move_loop-IsMoved (suc fuel) a str m (suc n) f w =
    let e : suc (str + m) ≡ suc str + m = omega arith in
    let c = put a str (a.at (str + m)) in
    let old = IsText-next a (str + m) n w in
    let next = rw e at old in
    let later : IsText c (suc str + m) n = record {
      fits = next.fits;
      full =
          λ k lt. let d : (str == suc str + m + k) ≡ false = ground arith in rw d (next.full k lt);
      end = let d : (str == suc str + m + n) ≡ false = ground arith in rw d next.end;
    } in
    rw
      (
        read-ok a (str + m) (omega (arith, w.fits)),
        write-ok a str (a.at (str + m)) (omega (arith, w.fits)),
        IsText-head a (str + m) n w,
        e,
      )
      (Returns-mono (move_loop-IsMoved fuel c (suc str) m n (omega arith) later) λ b v. record {
        same_size = v.same_size;
        front =
            λ k p. let d : (str == k) ≡ false = ground arith in v.front k (omega arith) ∙ rw d refl;
        moved = λ k p q. elim (dec_lt str k) [
          | yes h ↦
              let d : (str == k + m) ≡ false = ground arith in
              v.moved k (omega arith) (omega arith) ∙ rw d refl
          | no h ↦
              let same : k ≡ str = omega arith in
              let d : (str == str) ≡ true = ground arith in
              rw same (v.front str (omega arith) ∙ rw d refl)
        ];
      })
