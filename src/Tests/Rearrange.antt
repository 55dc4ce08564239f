-- ===== src/Tests/Rearrange.antt =====
-- rearrang.c on small lines, with functions that do what `strlen` and `strncpy` promise.
use core_technologies.Base.{
  Arr, false, List, Returns, Run, [], arith, fault, if◌then◌else◌, leb, ltb, negsuc, ok, pos, refl,
  returns, suc, true, cells, ℕ, ℤ, ◌&&◌, ◌+◌, ◌-◌, ◌<◌, ◌≡◌, ◌≢◌, ◌∷◌,
}
use core_technologies.Rearrange.{read_column_numbers, rearrange}
use core_technologies.Rearrange.Laws.{rearrange-Rearranges}
use core_technologies.Rearrange.Spec.{
  Copied, Inside, IsStrlen, IsStrncpy, Rearranges, Stored, columns_of, selected, width,
}
use core_technologies.Rearrange.Read.{Reads, read_column_numbers-Reads, taken}
use core_technologies.Tests.{nth}
use core_technologies.Text.{my_strlen}
use core_technologies.Text.Spec.{IsText, my_strlen_lem}

unfoldable strlen : Arr ℕ → Run ℕ
strlen a = my_strlen (suc a.size) a 0

strlen_law : IsStrlen strlen
unfolding IsStrlen strlen
strlen_law a n w = my_strlen_lem (suc a.size) a 0 n (omega (arith, w.fits)) w

-- the array with `n` cells of another
unfoldable copied_at : (dst : Arr ℕ) (i : ℕ) (src : Arr ℕ) (j n : ℕ) → Arr ℕ
copied_at dst i src j n = record {
  size = dst.size;
  at = λ k. if leb i k && ltb k (i + n) then src.at (k - i + j) else dst.at k;
}

unfoldable strncpy : (dst : Arr ℕ) (place : ℤ) (src : Arr ℕ) (from n : ℤ) → Run (Arr ℕ)
unfolding copied_at
strncpy dst (pos i) src (pos j) (pos n) =
    if leb (i + n) dst.size && leb (j + n) src.size then ok (copied_at dst i src j n) else fault
strncpy dst place src from n = fault

copied_at-Copied :
    (dst : Arr ℕ) (i : ℕ) (src : Arr ℕ) (j n : ℕ) → Copied dst i src j n (copied_at dst i src j n)
unfolding copied_at
copied_at-Copied dst i src j n = record {
  same_size = refl;
  copied = λ k lt.
      let e : i + k - i + j ≡ j + k = omega arith in
      let within : (leb i (i + k) && ltb (i + k) (i + n)) ≡ true = ground arith in
      rw (within, e) refl;
  front =
      λ k lt. let without : (leb i k && ltb k (i + n)) ≡ false = ground arith in rw without refl;
}

strncpy_law : IsStrncpy strncpy
unfolding IsStrncpy strncpy
strncpy_law dst i src j n room inside full =
    let fits : (leb (i + n) dst.size && leb (j + n) src.size) ≡ true = ground arith in
    rw fits (returns (copied_at-Copied dst i src j n))

-- the line "abcdef"
abbrev line : Arr ℕ
line = record { size = 7; at = λ k. if ltb k 6 then 97 + k else 0 }

line-IsText : IsText line 0 6
line-IsText = record { fits = omega arith; full = λ k lt. ground arith; end = refl }

abbrev output : Arr ℕ
output = record { size = 10; at = λ k. 1 }

abbrev columns : Arr ℤ
columns = record { size = 4; at = nth (pos 4 ∷ pos 5 ∷ pos 0 ∷ pos 2 ∷ []) }

abbrev pairs : List (ℕ × ℕ)
pairs = (4, 5) ∷ (0, 2) ∷ []

stored : Stored columns 0 pairs
unfolding Stored
stored = (refl, refl, (refl, refl, omega arith))

inside : Inside 6 pairs
unfolding Inside
inside = (omega arith, omega arith, (omega arith, omega arith, omega arith))

room : width pairs < 10
unfolding width
room = omega arith

few : columns_of pairs < 5
unfolding columns_of
few = omega arith

some_pairs : pairs ≢ []
some_pairs e = cc

rearrange-Rearranges_example :
    Returns
      (Rearranges output line 0 pairs)
      (rearrange strlen strncpy 5 output line (pos (columns_of pairs)) columns)
rearrange-Rearranges_example =
    rearrange-Rearranges strlen strncpy strlen_law strncpy_law 5 output line columns 6 pairs few
      (omega arith) line-IsText stored inside room some_pairs

selected_test : selected line.at pairs ≡ 101 ∷ 102 ∷ 97 ∷ 98 ∷ 99 ∷ []
unfolding selected cells
selected_test = refl

abbrev output_columns : Arr ℤ
output_columns = record { size = 20; at = nth [] }

read_column_numbers-Reads_test :
    Returns
      (Reads output_columns (taken 20 (pos 4 ∷ pos 5 ∷ pos 0 ∷ pos 2 ∷ negsuc 0 ∷ pos 7 ∷ [])))
      (read_column_numbers
        (pos 4 ∷ pos 5 ∷ pos 0 ∷ pos 2 ∷ negsuc 0 ∷ pos 7 ∷ [])
        output_columns
        20)
read_column_numbers-Reads_test =
    read_column_numbers-Reads (pos 4 ∷ pos 5 ∷ pos 0 ∷ pos 2 ∷ negsuc 0 ∷ pos 7 ∷ []) output_columns
      20 (omega arith)
