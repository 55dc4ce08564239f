-- ===== src/Rearrange/Spec.antt =====
-- What `rearrange` promises, and what it needs of the C library.
use core_technologies.Base.{
  Arr, List, Returns, Run, [], cells, ok, pos, suc, ℕ, ℤ, ◌++◌, ◌+◌, ◌-◌, ◌<◌, ◌≡◌, ◌≢◌, ◌≤◌, ◌∷◌,
}
use core_technologies.Text.Spec.{IsText}

-- the pairs of columns stand in the array from `col` on
unfoldable pub Stored : Arr ℤ → (col : ℕ) → List (ℕ × ℕ) → Type 0
Stored columns col [] = col ≤ columns.size
Stored columns col ((start, stop) ∷ pairs) =
    (columns.at col ≡ pos start)
    × (columns.at (suc col) ≡ pos stop)
    × Stored columns (suc (suc col)) pairs

-- every pair ascends, and lies in a line of `len` characters
unfoldable pub Inside : (len : ℕ) → List (ℕ × ℕ) → Type 0
Inside len [] = 0 ≤ len
Inside len ((start, stop) ∷ pairs) = (start ≤ stop) × (stop < len) × Inside len pairs

-- the number of the columns, and of the characters in them
unfoldable pub columns_of : List (ℕ × ℕ) → ℕ
columns_of [] = 0
columns_of (p ∷ pairs) = suc (suc (columns_of pairs))

unfoldable pub width : List (ℕ × ℕ) → ℕ
width [] = 0
width ((start, stop) ∷ pairs) = (suc stop - start) + width pairs

-- the characters in the columns
unfoldable pub selected : (ℕ → ℕ) → List (ℕ × ℕ) → List ℕ
selected line [] = []
selected line ((start, stop) ∷ pairs) = cells line start (suc stop - start) ++ selected line pairs

-- `n` cells of `dst` from `i` on are those of `src` from `j` on, and the cells before `i` are as they
-- were
pub record Copied (dst : Arr ℕ) (i : ℕ) (src : Arr ℕ) (j n : ℕ) (d : Arr ℕ) : Type 0 where
  pub same_size : d.size ≡ dst.size
  pub copied : (k : ℕ) → k < n → d.at (i + k) ≡ src.at (j + k)
  pub front : (k : ℕ) → k < i → d.at k ≡ dst.at k

-- what the C library promises of `strncpy` for characters of a string, with room for them
unfoldable pub IsStrncpy :
    ((dst : Arr ℕ) (place : ℤ) (src : Arr ℕ) (from n : ℤ) → Run (Arr ℕ)) → Type 0
IsStrncpy strncpy =
    (dst : Arr ℕ) (i : ℕ) (src : Arr ℕ) (j n : ℕ)
    → i + n ≤ dst.size
    → j + n ≤ src.size
    → ((k : ℕ) → k < n → src.at (j + k) ≢ 0)
    → Returns (Copied dst i src j n) (strncpy dst (pos i) src (pos j) (pos n))

unfoldable pub IsStrlen : (Arr ℕ → Run ℕ) → Type 0
IsStrlen strlen = (a : Arr ℕ) (n : ℕ) → IsText a 0 n → strlen a ≡ ok n

-- the cells from `place` on hold the characters in the columns and a 0 behind them, and the cells
-- before are as they were
unfoldable pub Rearranges :
    (output input : Arr ℕ) (place : ℕ) (pairs : List (ℕ × ℕ)) → Arr ℕ → Type 0
Rearranges output input place pairs d =
    (cells d.at place (width pairs) ≡ selected input.at pairs)
    × (d.at (place + width pairs) ≡ 0)
    × ((k : ℕ) → k < place → d.at k ≡ output.at k)
