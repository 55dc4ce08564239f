-- ===== src/Hash/Open/Laws.antt =====
-- Probing: what `Find` finds, and when it does not end.
use core_technologies.Base.{
  Bool, arith, eqb_ℤ, false, not, ok, out_of_fuel, pos, read, read-ok, refl, sub_ℕ, suc, true, zero,
  ℕ, ◌%◌, ◌&&◌, ◌+ℤ◌, ◌+◌, ◌-◌, ◌<◌, ◌==◌, ◌∙◌, ◌≡◌,
}
use core_technologies.Hash.{rem-pos}
use core_technologies.Hash.Open.{Element, HashTable, empty, find, find_loop, hash, hash2, insert}
use native.Mathlib.Nat.{mod-lt}

-- the offset of an element, and the cell of its `k`th probe
abbrev pub step : ℕ → ℕ → ℕ
step n e = 5 + e % (n - 5)

unfoldable pub probe : ℕ → ℕ → ℕ → ℕ
probe n e zero = e % n
probe n e (suc k) = (probe n e k + step n e) % n

-- whether a probe goes on at a cell
abbrev pub passes : Element → ℕ → Bool
passes cell e = not (cell.status == empty) && not (eqb_ℤ cell.element (pos e))

-- a table of more than five cells
pub record IsTable (h : HashTable) : Type 0 where
  pub large : 5 < h.tablesize
  pub fits : h.arr.size ≡ h.tablesize

pub probe-lt : (n e k : ℕ) → 0 < n → probe n e k < n
unfolding probe
probe-lt n e zero h = mod-lt e h
probe-lt n e (suc k) h = mod-lt (probe n e k + step n e) h

add_pos : (a b : ℕ) → pos a +ℤ pos b ≡ pos (a + b)
unfolding ◌+ℤ◌
add_pos a b = ground arith

pub probe-read :
    (h : HashTable) (e k : ℕ)
    → IsTable h
    → read h.arr (probe h.tablesize e k) ≡ ok (h.arr.at (probe h.tablesize e k))
probe-read h e k w =
    read-ok h.arr (probe h.tablesize e k)
      (omega (arith, probe-lt h.tablesize e k (omega (arith, w.large)), w.fits))

find_loop-goes :
    (fuel : ℕ) (h : HashTable) (e k : ℕ)
    → IsTable h
    → passes (h.arr.at (probe h.tablesize e k)) e ≡ true
    → find_loop (suc fuel) h (pos e) (pos (step h.tablesize e)) (pos (probe h.tablesize e k))
      ≡ find_loop fuel h (pos e) (pos (step h.tablesize e)) (pos (probe h.tablesize e (suc k)))
unfolding find_loop probe
find_loop-goes fuel h e k w goes =
    rw
      (
        probe-read h e k w,
        goes,
        add_pos (probe h.tablesize e k) (step h.tablesize e),
        rem-pos (probe h.tablesize e k + step h.tablesize e) h.tablesize (omega (arith, w.large)),
      )
      refl

find_loop-stops :
    (fuel : ℕ) (h : HashTable) (e k : ℕ)
    → IsTable h
    → passes (h.arr.at (probe h.tablesize e k)) e ≡ false
    → find_loop (suc fuel) h (pos e) (pos (step h.tablesize e)) (pos (probe h.tablesize e k))
      ≡ ok (pos (probe h.tablesize e k))
unfolding find_loop
find_loop-stops fuel h e k w stops = rw (probe-read h e k w, stops) refl

find_loop-probe :
    (fuel : ℕ) (h : HashTable) (e k n : ℕ)
    → IsTable h
    → ((j : ℕ) → j < k + n → passes (h.arr.at (probe h.tablesize e j)) e ≡ true)
    → passes (h.arr.at (probe h.tablesize e (k + n))) e ≡ false
    → n < fuel
    → find_loop fuel h (pos e) (pos (step h.tablesize e)) (pos (probe h.tablesize e k))
      ≡ ok (pos (probe h.tablesize e (k + n)))
find_loop-probe zero h e k n w before here f = absurd (omega arith)
find_loop-probe (suc fuel) h e k zero w before here f =
    let at : k + 0 ≡ k = omega arith in find_loop-stops fuel h e k w (rw at at here) ∙ rw at refl
find_loop-probe (suc fuel) h e k (suc n) w before here f =
    let at : k + suc n ≡ suc k + n = omega arith in
    find_loop-goes fuel h e k w (before k (omega arith))
    ∙ find_loop-probe fuel h e (suc k) n w (λ j lt. before j (omega arith)) (rw at at here)
        (omega arith)
    ∙ rw at refl

find-loop :
    (fuel : ℕ) (h : HashTable) (e : ℕ)
    → IsTable h
    → find fuel h (pos e)
      ≡ find_loop fuel h (pos e) (pos (step h.tablesize e)) (pos (probe h.tablesize e 0))
unfolding find hash hash2 probe
find-loop fuel h e w =
    let large = w.large in
    let five : sub_ℕ h.tablesize 5 ≡ pos (h.tablesize - 5) = ground arith in
    rw
      (
        rem-pos e h.tablesize (omega arith),
        five,
        rem-pos e (h.tablesize - 5) (omega arith),
        add_pos 5 (e % (h.tablesize - 5)),
      )
      refl

-- In a table of more than five cells `Find` of an element that is not negative gives the first of
-- its probes whose cell is empty or holds the element; one round more than the probes in front of
-- it are enough.
pub find-probe :
    (fuel : ℕ) (h : HashTable) (e n : ℕ)
    → IsTable h
    → ((j : ℕ) → j < n → passes (h.arr.at (probe h.tablesize e j)) e ≡ true)
    → passes (h.arr.at (probe h.tablesize e n)) e ≡ false
    → n < fuel
    → find fuel h (pos e) ≡ ok (pos (probe h.tablesize e n))
find-probe fuel h e n w before here f =
    let first : 0 + n ≡ n = omega arith in
    find-loop fuel h e w
    ∙ find_loop-probe fuel h e 0 n w (λ j lt. before j (omega arith)) (rw first here) f
    ∙ rw first refl

find_loop-endless :
    (fuel : ℕ) (h : HashTable) (e k : ℕ)
    → IsTable h
    → ((j : ℕ) → passes (h.arr.at (probe h.tablesize e j)) e ≡ true)
    → find_loop fuel h (pos e) (pos (step h.tablesize e)) (pos (probe h.tablesize e k))
      ≡ out_of_fuel
find_loop-endless zero h e k w all = unfold find_loop in refl
find_loop-endless (suc fuel) h e k w all =
    find_loop-goes fuel h e k w (all k) ∙ find_loop-endless fuel h e (suc k) w all

-- In a table of more than five cells, `Find` of an element that is not negative does not end, however many rounds it has, if the
-- cells that its probes reach are all taken by other elements, though others may be empty. So
-- `Insert` does not end either.
pub insert_endless :
    (fuel : ℕ) (h : HashTable) (e : ℕ)
    → IsTable h
    → ((j : ℕ) → passes (h.arr.at (probe h.tablesize e j)) e ≡ true)
    → (find fuel h (pos e) ≡ out_of_fuel) × (insert fuel h (pos e) ≡ out_of_fuel)
insert_endless fuel h e w all =
    let endless = find-loop fuel h e w ∙ find_loop-endless fuel h e 0 w all in
    (endless, unfold insert in rw endless refl)
