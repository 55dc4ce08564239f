-- ===== src/Sort/Shell/Passes.antt =====
-- Each pass of `ShellSort` rearranges the array.
use core_technologies.Base.{
  Arr, Bool-cases, Returns, Returns-bind, Returns-of_eq, ap, arith, inl, inr, leb, leb→le, ltb,
  ltb_ℤ, ltb→lt, put, read-ok, returns, suc, write-ok, zero, ℕ, ℤ, ◌+◌, ◌-◌, ◌<◌, ◌≡◌, ◌≤◌,
}
use core_technologies.Sort.Insertion.Laws.{fill_same}
use core_technologies.Sort.Shell.{shell_pass, shell_shift}
use core_technologies.Sort.Spec.{Rearranges, Rearranges-trans}
use core_technologies.Sort.Swap.{Rearranges-swapped, swapped}
use mathlib.Core.Path.{fun_ext}

-- moving the hole down by the gap is a swap in the array whose hole is filled
gap_moves :
    (a : Arr ℤ) (i j : ℕ) (temp : ℤ)
    → j < i
    → put (put a i (a.at j)) j temp ≡ swapped (put a i temp) j i
gap_moves a i j temp lt =
    let same : (k : ℕ) → (put (put a i (a.at j)) j temp).at k ≡ (swapped (put a i temp) j i).at k =
      λ k. ground arith in
    ap (λ f. record { size = a.size; at = f }) (fun_ext same)

module _ {sz : ℕ} {a₀ : Arr ℤ} (fits : sz ≤ a₀.size) (gap : ℕ) (positive : 0 < gap) where
  shell_shift-Rearranges :
      (fuel j : ℕ) (temp : ℤ) (a : Arr ℤ)
      → j < fuel
      → j < sz
      → Rearranges 0 sz a₀ (put a j temp)
      → Returns (Rearranges 0 sz a₀) (shell_shift fuel gap temp j a)
  unfolding shell_shift
  shell_shift-Rearranges zero j temp a h lt p = absurd (omega arith)
  shell_shift-Rearranges (suc fuel) j temp a h lt p =
      let size = p.same_size in
      let stop = Returns-of_eq {P = Rearranges 0 sz a₀} (write-ok a j temp (omega arith)) p in
      elim (Bool-cases (leb gap j)) [
        | inl e ↦
            let le = leb→le _ _ e in
            rw (e, read-ok a (j - gap) (omega arith))
              (elim (Bool-cases (ltb_ℤ temp (a.at (j - gap)))) [
                | inl e' ↦
                    rw (e', write-ok a j (a.at (j - gap)) (omega arith))
                      (shell_shift-Rearranges fuel (j - gap) temp (put a j (a.at (j - gap)))
                        (omega arith) (omega arith)
                        (rw (gap_moves a j (j - gap) temp (omega arith)) (
                          Rearranges-trans p (
                            Rearranges-swapped (put a j temp) (j - gap) j 0 sz (omega arith)
                              (omega arith) (omega arith) (omega arith) (omega arith)))))
                | inr e' ↦ rw e' stop
              ])
        | inr e ↦ rw e stop
      ]

  pub shell_pass-Rearranges :
      (fuel i : ℕ) (a : Arr ℤ)
      → sz - i < fuel
      → Rearranges 0 sz a₀ a
      → Returns (Rearranges 0 sz a₀) (shell_pass fuel gap sz i a)
  unfolding shell_pass
  shell_pass-Rearranges zero i a h p = absurd (omega arith)
  shell_pass-Rearranges (suc fuel) i a h p = elim (Bool-cases (ltb i sz)) [
    | inl e ↦
        let lt = ltb→lt _ _ e in
        let size = p.same_size in
        rw (e, read-ok a i (omega arith))
          (Returns-bind
            (shell_shift-Rearranges (i + 1) i (a.at i) a (omega arith) lt (rw (fill_same a i) p))
            λ b q. shell_pass-Rearranges fuel (i + gap) b (omega arith) q)
    | inr e ↦ rw e (returns p)
  ]
