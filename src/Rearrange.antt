-- ===== src/Rearrange.antt =====
-- rearrang.c of Programming/C_CPP/Pointers_On_C/Chapter One Getting Started Quickly. `strlen` and
-- `strncpy` of the C library are parameters.
pub mod Read
pub mod Spec
pub mod Laws
use core_technologies.Base.{
  Arr, Bool, List, Run, [], arith, false, fault, if◌then◌else◌, leb_ℤ, ltb, ltb_ℤ, not, ok,
  out_of_fuel, pos, read, suc, write, write_at, zero, ℕ, ℤ, ◌%◌, ◌*◌, ◌+ℤ◌, ◌+◌, ◌-ℤ◌, ◌-◌, ◌==◌,
  ◌>>=◌, ◌||◌, ◌∷◌,
}

-- `MAX_INPUT`
abbrev pub max_input : ℕ
max_input = 1000

-- the loop of `read_column_numbers`: the columns and `num`, where the list is what `scanf` reads
unfoldable pub column_loop : List ℤ → (columns : Arr ℤ) (max num : ℕ) → Run (Arr ℤ × ℕ)
column_loop [] columns max num = ok (columns, num)
column_loop (v ∷ input) columns max num =
    if ltb num max
    then (do
      columns' ← write columns num v
      if leb_ℤ (pos 0) v then column_loop input columns' max (num + 1) else ok (columns', num))
    else ok (columns, num)

-- what `read_column_numbers` ends with: the number of the columns, or the end of the program
pub data Columns : Type 0 where
  column_numbers : (columns : Arr ℤ) (num : ℕ) → Columns
  not_paired : Columns

unfoldable pub read_column_numbers : List ℤ → (columns : Arr ℤ) (max : ℕ) → Run Columns
unfolding column_loop
read_column_numbers input columns max = do
  (columns', num) ← column_loop input columns max 0
  if not (num % 2 == 0) then ok not_paired else ok (column_numbers columns' num)

-- `nchars`, cut where the output seems to have no room for it
unfoldable pub clipped : (output_col : ℕ) (nchars : ℤ) → ℤ
clipped output_col nchars =
    if ltb_ℤ (pos (max_input - 1)) (pos output_col +ℤ nchars)
    then pos (max_input - output_col - 1)
    else nchars

module _ (strlen : Arr ℕ → Run ℕ)
    (strncpy : (dst : Arr ℕ) (place : ℤ) (src : Arr ℕ) (from n : ℤ) → Run (Arr ℕ)) where
  -- the calls at the end of a round, on the array of `output` and the place of the pointer into it
  unfoldable pub copy_chars :
      (output input : Arr ℕ) (place : ℤ) (output_col : ℕ) (start nchars : ℤ) → Run (Arr ℕ × ℤ)
  copy_chars output input place output_col start nchars = do
    copied ← strncpy output (place +ℤ pos output_col) input start nchars
    ended ← write_at copied (place +ℤ nchars +ℤ pos output_col) 0
    ok (ended, place +ℤ nchars)

  -- the loop of `rearrange`, in which `output_col` does not change
  unfoldable pub rearrange_loop :
      ℕ
      → (output input : Arr ℕ) (place : ℤ) (output_col : ℕ) (n_columns : ℤ) (columns : Arr ℤ)
        (len col : ℕ)
      → Run (Arr ℕ)
  unfolding clipped copy_chars
  rearrange_loop zero output input place output_col n_columns columns len col = out_of_fuel
  rearrange_loop (suc fuel) output input place output_col n_columns columns len col =
      if ltb_ℤ (pos col) n_columns
      then (do
        stop ← read columns (col + 1)
        start ← read columns col
        if leb_ℤ (pos len) start || output_col == max_input - output_col - 1 then ok output else (do
          (output', place') ←
              copy_chars output input place output_col start
                (clipped output_col (stop -ℤ start +ℤ pos 1))
          rearrange_loop fuel output' input place' output_col n_columns columns len (col + 2)))
      else ok output

  unfoldable pub rearrange :
      ℕ → (output input : Arr ℕ) (n_columns : ℤ) (columns : Arr ℤ) → Run (Arr ℕ)
  unfolding rearrange_loop
  rearrange fuel output input n_columns columns = do
    len ← strlen input
    rearrange_loop fuel output input (pos 0) 0 n_columns columns len 0
