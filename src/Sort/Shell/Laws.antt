-- ===== src/Sort/Shell/Laws.antt =====
-- `ShellSort` sorts: its last pass, with gap 1, is an insertion sort.
use core_technologies.Base.{
  Arr, Bool-cases, Returns, Returns-bind, Returns-of_eq, arith, dec_lt, for_range, for_range_empty,
  for_range_step, inl, inr, leb, ltb, ltb_ℤ, ltb→lt, ok, read-fault, read-ok, refl, suc, true,
  write, write-fault, write-ok, zero, ℕ, ℤ, ◌+◌, ◌-◌, ◌/◌, ◌<◌, ◌>>=◌, ◌≡◌, ◌≤◌,
}
use core_technologies.Sort.Insertion.{insert_round, insertion_sort, shift_up}
use core_technologies.Sort.Insertion.Laws.{insertion_sort-IsSorted}
use core_technologies.Sort.Shell.{shell_gaps, shell_pass, shell_shift, shell_sort}
use core_technologies.Sort.Shell.Passes.{shell_pass-Rearranges}
use core_technologies.Sort.Spec.{IsSorted, Rearranges, Rearranges-refl, Rearranges-trans}
use mathlib.Core.Path.{fun_ext}

shell_shift-shift_up :
    (fuel j : ℕ) (temp : ℤ) (a : Arr ℤ)
    → j < fuel
    → shell_shift fuel 1 temp j a ≡ (shift_up j temp a >>= λ (b, k). write b k temp)
unfolding shell_shift shift_up
shell_shift-shift_up zero j temp a h = absurd (omega arith)
shell_shift-shift_up (suc fuel) zero temp a h = refl
shell_shift-shift_up (suc fuel) (suc j) temp a h =
    let e : suc j - 1 ≡ j = omega arith in
    let e' : j + 1 ≡ suc j = omega arith in
    let t : leb 1 (suc j) ≡ true = ground arith in
    rw (e, e', t)
      (elim (dec_lt j a.size) [
        | yes lt ↦ rw (read-ok a j lt) (elim (Bool-cases (ltb_ℤ temp (a.at j))) [
          | inl b ↦ rw b (elim (dec_lt (suc j) a.size) [
            | yes lt' ↦
                rw (write-ok a (suc j) (a.at j) lt')
                  (shell_shift-shift_up fuel j temp _ (omega arith))
            | no ge ↦ rw (write-fault a (suc j) (a.at j) (omega arith))
          ])
          | inr b ↦ rw b
        ])
        | no ge ↦ rw (read-fault a j (omega arith))
      ])

-- a round of the pass with gap 1 is a round of the insertion sort
insert_round-shell_shift :
    (i : ℕ) (a : Arr ℤ) → i < a.size → insert_round i a ≡ shell_shift (i + 1) 1 (a.at i) i a
unfolding insert_round
insert_round-shell_shift i a h =
    rw (read-ok a i h, shell_shift-shift_up (i + 1) i (a.at i) a (omega arith))

shell_pass-insert :
    (fuel sz i : ℕ) (a : Arr ℤ)
    → sz - i < fuel
    → shell_pass fuel 1 sz i a ≡ for_range i sz insert_round a
unfolding shell_pass
shell_pass-insert zero sz i a h = absurd (omega arith)
shell_pass-insert (suc fuel) sz i a h = elim (Bool-cases (ltb i sz)) [
  | inl e ↦
      let more : (b : Arr ℤ)
          → shell_pass fuel 1 sz (i + 1) b ≡ for_range (i + 1) sz insert_round b =
        λ b. shell_pass-insert fuel sz (i + 1) b (omega (arith, ltb→lt _ _ e)) in
      rw (e, for_range_step i sz insert_round a (ltb→lt _ _ e))
        (elim (dec_lt i a.size) [
          | yes lt ↦ rw (insert_round-shell_shift i a lt, read-ok a i lt, fun_ext more)
          | no ge ↦ unfold insert_round in rw (read-fault a i (omega arith))
        ])
  | inr e ↦ rw (e, for_range_empty {i = i} {j = sz} insert_round a (ground arith))
]

last_pass-IsSorted :
    (a : Arr ℤ) (sz : ℕ)
    → sz ≤ a.size
    → Returns (λ b. Rearranges 0 sz a b × IsSorted 0 sz b) (shell_pass (sz + 1) 1 sz 1 a)
unfolding insertion_sort
last_pass-IsSorted a sz fits =
    rw (shell_pass-insert (sz + 1) sz 1 a (omega arith)) (insertion_sort-IsSorted a sz fits)

shell_gaps_end : (fuel sz : ℕ) (a : Arr ℤ) → 0 < fuel → shell_gaps fuel 0 sz a ≡ ok a
unfolding shell_gaps
shell_gaps_end zero sz a h = absurd (omega arith)
shell_gaps_end (suc fuel) sz a h = refl

shell_gaps-IsSorted :
    (fuel gap sz : ℕ) {a₀ a : Arr ℤ}
    → sz ≤ a₀.size
    → gap < fuel
    → 0 < gap
    → Rearranges 0 sz a₀ a
    → Returns (λ b. Rearranges 0 sz a₀ b × IsSorted 0 sz b) (shell_gaps fuel gap sz a)
unfolding shell_gaps
shell_gaps-IsSorted zero gap sz fits h positive p = absurd (omega arith)
shell_gaps-IsSorted (suc fuel) gap sz {a₀} {a} fits h positive p =
    let size = p.same_size in
    let t : ltb 0 gap ≡ true = ground arith in
    elim (dec_lt 1 gap) [
      | yes more ↦ rw t (
          Returns-bind (shell_pass-Rearranges fits gap positive (sz + 1) gap a (omega arith) p)
            λ b q. shell_gaps-IsSorted fuel (gap / 2) sz fits (omega arith) (omega arith) q)
      | no last ↦
          let e : gap ≡ 1 = omega arith in
          rw (t, e)
            (Returns-bind (last_pass-IsSorted a sz (omega arith)) λ b (q, sorted).
              Returns-of_eq (shell_gaps_end fuel sz b (omega arith)) (Rearranges-trans p q, sorted))
    ]

-- `ShellSort(arr, sz)` on an array of at least `sz` cells reads and writes no other cell, and
-- leaves the first `sz` cells in ascending order, with the values they had.
pub shell_sort-IsSorted :
    (a : Arr ℤ) (sz : ℕ)
    → sz ≤ a.size
    → Returns (λ b. Rearranges 0 sz a b × IsSorted 0 sz b) (shell_sort a sz)
unfolding shell_sort
shell_sort-IsSorted a sz fits = elim (dec_lt 1 sz) [
  | yes h ↦
      shell_gaps-IsSorted (sz + 1) (sz / 2) sz fits (omega arith) (omega arith) (Rearranges-refl a)
  | no h ↦
      let e : sz / 2 ≡ 0 = omega arith in
      rw e (
        Returns-of_eq (shell_gaps_end (sz + 1) sz a (omega arith))
          (Rearranges-refl a, λ k l p q r. absurd (omega arith)))
]
