-- ===== src/Base/Array/Shift.antt =====
-- Moving the cells of an array by one place, down by a counted loop or up by one that counts back.
use Prim.Native.Nat.{ℕ, zero, suc, ◌+◌, ◌≤◌, ◌<◌}
use mathlib.Core.Path.{◌≡◌, refl, ◌∙◌}
use mathlib.Core.Logic.{inl, inr}
use mathlib.Core.Bool.{false, true}
use native.Mathlib.Omega.{arith}
use core_technologies.Base.Tests.{◌==◌, Bool-cases}
use core_technologies.Base.Int.{ℤ, pos, decr}
use core_technologies.Base.Outcome.{Run, ok, fault, ◌>>=◌, Returns, returns, Returns-mono}
use core_technologies.Base.Loop.{for_range, for_range_inv}
use core_technologies.Base.Array.{
  Arr, put, read, write, read_at, write_at, read-ok, write-ok, read-fault,
}

-- `arr[i] = arr[i + 1]`
unfoldable pub shift_step {ℓ} : {A : Type ℓ} → ℕ → Arr A → Run (Arr A)
shift_step i arr = do x ← read arr (i + 1); write arr i x

-- the cells from `s` to `i` have moved down
pub record IsShifted {ℓ} {A : Type ℓ} (s : ℕ) (a₀ : Arr A) (i : ℕ) (a : Arr A) : Type ℓ where
  pub same_size : a.size ≡ a₀.size
  pub front : (k : ℕ) → k < s → a.at k ≡ a₀.at k
  pub moved : (k : ℕ) → s ≤ k → k < i → a.at k ≡ a₀.at (suc k)
  pub rest : (k : ℕ) → i ≤ k → a.at k ≡ a₀.at k

module _ {ℓ} {A : Type ℓ} where
  shift_step-IsShifted :
      (s : ℕ) (a₀ : Arr A) (i : ℕ) (a : Arr A)
      → s ≤ i
      → i + 1 < a₀.size
      → IsShifted s a₀ i a
      → Returns (IsShifted s a₀ (i + 1)) (shift_step i a)
  unfolding shift_step
  shift_step-IsShifted s a₀ i a le h w =
      let size = w.same_size in
      let e : i + 1 ≡ suc i = omega arith in
      rw (read-ok a (i + 1) (omega arith), write-ok a i (a.at (i + 1)) (omega arith))
        (returns (record {
          same_size = w.same_size;
          front = λ k p. let b : (i == k) ≡ false = ground arith in rw b (w.front k p);
          moved = λ k q p. elim (Bool-cases (i == k)) [
            | inl b ↦
                let same : i ≡ k = ground arith in rw (b, w.rest (i + 1) (omega arith), e, same)
            | inr b ↦ rw b (w.moved k q (ground arith))
          ];
          rest = λ k p. let b : (i == k) ≡ false = ground arith in rw b (w.rest k (omega arith));
        }))

  pub shift-IsShifted :
      (a : Arr A) (s n : ℕ)
      → s ≤ n
      → n < a.size
      → Returns (IsShifted s a n) (for_range s n shift_step a)
  shift-IsShifted a s n le h =
      Returns-mono
        (for_range_inv (λ i b. (s ≤ i) × IsShifted s a i b) shift_step n
          (λ i b lt w.
            Returns-mono (shift_step-IsShifted s a i b w.0 (omega arith) w.1)
              λ c w'. (omega (arith, w.0), w'))
          s a le
          (
            omega arith,
            record {
              same_size = refl;
              front = λ k p. refl;
              moved = λ k q p. absurd (omega arith);
              rest = λ k p. refl;
            },
          ))
        λ b w. w.1

  pub shift_step_end : (i : ℕ) (a : Arr A) → a.size ≤ i + 1 → shift_step i a ≡ fault
  unfolding shift_step
  shift_step_end i a h = rw (read-fault a (i + 1) h)

-- `for (k = i; k > i - n; k--) arr[k] = arr[k - 1]`
unfoldable pub raise {ℓ} : {A : Type ℓ} → ℕ → ℤ → Arr A → Run (Arr A)
raise zero i arr = ok arr
raise (suc n) i arr = do x ← read_at arr (decr i); arr ← write_at arr i x; raise n (decr i) arr

-- the cells from `s` up to `s + n - 1` have moved up
pub record IsRaised {ℓ} {A : Type ℓ} (s n : ℕ) (a₀ a : Arr A) : Type ℓ where
  pub same_size : a.size ≡ a₀.size
  pub front : (k : ℕ) → k ≤ s → a.at k ≡ a₀.at k
  pub moved : (k : ℕ) → s ≤ k → k < s + n → a.at (suc k) ≡ a₀.at k
  pub rest : (k : ℕ) → s + n < k → a.at k ≡ a₀.at k

pub raise-IsRaised {ℓ} :
    {A : Type ℓ} (s n : ℕ) (a : Arr A)
    → s + n < a.size
    → Returns (IsRaised s n a) (raise n (pos (s + n)) a)
unfolding raise
raise-IsRaised s zero a h = returns (record {
  same_size = refl;
  front = λ k p. refl;
  moved = λ k p q. absurd (omega arith);
  rest = λ k p. refl;
})
raise-IsRaised s (suc n) a h =
    let e : s + suc n ≡ suc (s + n) = omega arith in
    rw (e, read-ok a (s + n) (omega arith), write-ok a (suc (s + n)) (a.at (s + n)) (omega arith))
      (Returns-mono (raise-IsRaised s n (put a (suc (s + n)) (a.at (s + n))) (omega arith)) λ b w.
        record {
          same_size = w.same_size;
          front =
              λ k p. let b : (suc (s + n) == k) ≡ false = ground arith in rw (w.front k p, b) refl;
          moved = λ k p q. elim (Bool-cases (s + n == k)) [
            | inl last ↦
                let same : s + n ≡ k = ground arith in
                let b : (suc (s + n) == suc k) ≡ true = ground arith in
                w.rest (suc k) (omega arith) ∙ rw (b, same) refl
            | inr more ↦
                let b : (suc (s + n) == k) ≡ false = ground arith in
                w.moved k p (ground arith) ∙ rw b refl
          ];
          rest = λ k p.
              let b : (suc (s + n) == k) ≡ false = ground arith in
              w.rest k (omega arith) ∙ rw b refl;
        })
