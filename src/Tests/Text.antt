-- ===== src/Tests/Text.antt =====
-- The functions on strings, on `abcabc` and on `bc`.
use core_technologies.Base.{
  Arr, List, Returns, [], arith, refl, some, suc, zero, ℕ, ◌+◌, ◌-◌, ◌<◌, ◌∷◌, ◌≡◌, ◌≢◌, ◌≤◌, ◌⊎◌,
}
use core_technologies.Text.{del_substr, find_char, reverse_string}
use core_technologies.Text.Find.{IsFound, find_char-IsFound}
use core_technologies.Text.Match.{Matches}
use core_technologies.Text.Move.{IsMoved}
use core_technologies.Text.Remove.{del_substr-IsMoved}
use core_technologies.Text.Reverse.{reverse_string-IsText}
use core_technologies.Text.Spec.{IsText}

abbrev nth_char : List ℕ → ℕ → ℕ
nth_char [] k = 0
nth_char (c ∷ cs) zero = c
nth_char (c ∷ cs) (suc k) = nth_char cs k

abbrev text : List ℕ → Arr ℕ
text cs = record { size = 8; at = nth_char cs }

abbrev long : Arr ℕ
long = text (b'a' ∷ b'b' ∷ b'c' ∷ b'a' ∷ b'b' ∷ b'c' ∷ [])

abbrev short : Arr ℕ
short = text (b'b' ∷ b'c' ∷ [])

full_long : (k : ℕ) → k < 6 → long.at (0 + k) ≢ 0
full_long zero lt = omega arith
full_long (suc zero) lt = omega arith
full_long (suc (suc zero)) lt = omega arith
full_long (suc (suc (suc zero))) lt = omega arith
full_long (suc (suc (suc (suc zero)))) lt = omega arith
full_long (suc (suc (suc (suc (suc zero))))) lt = omega arith
full_long (suc (suc (suc (suc (suc (suc k)))))) lt = absurd (omega arith)

full_short : (k : ℕ) → k < 2 → short.at (0 + k) ≢ 0
full_short zero lt = omega arith
full_short (suc zero) lt = omega arith
full_short (suc (suc k)) lt = absurd (omega arith)

long-IsText : IsText long 0 6
long-IsText = record { fits = omega arith; full = full_long; end = refl }

short-IsText : IsText short 0 2
short-IsText = record { fits = omega arith; full = full_short; end = refl }

reverse_string-IsText_example :
    Returns
      (λ b.
        IsText b 0 6
        × (b.size ≡ 8)
        × ((k : ℕ) → k < 6 → b.at (0 + k) ≡ long.at (0 + (5 - k)))
        × ((k : ℕ) → (k < 0) ⊎ (6 ≤ k) → b.at k ≡ long.at k))
      (reverse_string 8 long 0)
reverse_string-IsText_example = reverse_string-IsText 8 long 0 6 (omega arith) long-IsText

find_char-IsFound_test :
    Returns (IsFound long 0 6 short 0 2) (find_char 9 long (some 0) short (some 0))
find_char-IsFound_test =
    find_char-IsFound 9 long 0 6 short 0 2 (omega arith) long-IsText short-IsText

del_substr-IsMoved_example :
    Returns
      (λ (r, c).
        ((r ≡ 0) × (c ≡ long) × ((i : ℕ) → 0 ≤ i → i < 6 → ¬ Matches long i short 0 2))
        ⊎ ((i : ℕ) × (r ≡ 1)
            × (0 ≤ i)
            × (i < 6)
            × (i + 2 ≤ 6)
            × Matches long i short 0 2
            × ((j : ℕ) → 0 ≤ j → j < i → ¬ Matches long j short 0 2)
            × IsMoved 2 (i + 2) (6 - (i + 2)) long c))
      (del_substr 9 long 0 short 0)
del_substr-IsMoved_example =
    del_substr-IsMoved 9 long 0 6 short 0 2 (omega arith) long-IsText short-IsText
