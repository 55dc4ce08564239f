-- ===== src/Tests/Exercises.antt =====
-- The exercises at small inputs.
use core_technologies.Base.{
  true, ltb, Bool-cases, inl, inr, ◌*ℤ◌, List, Option, some, none, pos_part, false, suc, zero, ◌≢◌,
  cells, for_range, for_rounds, read, write, ◌>>=◌, ◌==◌, if◌then◌else◌, Arr, ◌+ℤ◌, Returns, [],
  negsuc, ok, pos, refl, ℕ, ℤ, ◌*◌, ◌+◌, ◌<◌, ◌∷◌, ◌≡◌, arith,
}
use core_technologies.Exercises.Copy.{copy_n, copy_step, deblank, deblank_loop}
use core_technologies.Exercises.Lines.{
  char, labelled, lines, number, number_lines, number_lines-labelled,
}
use core_technologies.Exercises.Repeated.{
  AreLines, IsString, groups, length, repeated_lines, repeated_lines-groups, repeats,
}
use core_technologies.Exercises.Matrix.{IsWithin, entry, matrix_multiply, matrix_multiply-entry}
use core_technologies.Exercises.Numbers.{
  cipher, gcd_positive, primes_below_hundred, reverse_bits, scalene, triangle,
}
use core_technologies.Exercises.Strings.{
  Points, Short, Used, find_char, find_char-Used, number_of, one_contains,
}
use core_technologies.Tests.{nth}

abbrev two_rows : Arr ℤ
two_rows = record { size = 4; at = nth (pos 1 ∷ pos 2 ∷ pos 3 ∷ negsuc 3 ∷ []) }

abbrev other_rows : Arr ℤ
other_rows = record { size = 4; at = nth (pos 5 ∷ pos 6 ∷ pos 7 ∷ pos 8 ∷ []) }

small_entries : (i j k : ℕ) → i < 2 → j < 2 → k < 2 → IsWithin two_rows.at other_rows.at 2 i j k
unfolding IsWithin ◌+ℤ◌ ◌*ℤ◌ entry
small_entries zero zero zero p q r = (refl, refl)
small_entries zero zero (suc zero) p q r = (refl, refl)
small_entries zero (suc zero) zero p q r = (refl, refl)
small_entries zero (suc zero) (suc zero) p q r = (refl, refl)
small_entries (suc zero) zero zero p q r = (refl, refl)
small_entries (suc zero) zero (suc zero) p q r = (refl, refl)
small_entries (suc zero) (suc zero) zero p q r = (refl, refl)
small_entries (suc zero) (suc zero) (suc zero) p q r = (refl, refl)
small_entries i j (suc (suc k)) p q r = absurd (omega arith)
small_entries i (suc (suc j)) k p q r = absurd (omega arith)
small_entries (suc (suc i)) j k p q r = absurd (omega arith)

matrix_multiply-entry_example :
    Returns
      (λ r.
        (a b : ℕ) → a < 2 → b < 2 → r.at (a * 2 + b) ≡ entry two_rows.at other_rows.at 2 2 a b 2)
      (matrix_multiply two_rows other_rows two_rows 2 2 2)
matrix_multiply-entry_example =
    matrix_multiply-entry two_rows other_rows 2 2 2 (omega arith) (omega arith) small_entries
      two_rows (omega arith)

number_lines-labelled_test :
    number_lines (97 ∷ 10 ∷ 98 ∷ []) ≡ labelled 1 (lines (97 ∷ 10 ∷ 98 ∷ []))
number_lines-labelled_test = number_lines-labelled (97 ∷ 10 ∷ 98 ∷ [])

number_lines_test :
    number_lines (97 ∷ 10 ∷ 98 ∷ []) ≡ number 1 ∷ char 97 ∷ char 10 ∷ number 2 ∷ char 98 ∷ []
unfolding number_lines
number_lines_test = refl

strcmp : List ℕ → List ℕ → ℤ
strcmp [] [] = pos 0
strcmp [] (d ∷ ds) = negsuc 0
strcmp (c ∷ cs) [] = pos 1
strcmp (c ∷ cs) (d ∷ ds) =
    let rest = strcmp cs ds in if c == d then rest else if ltb c d then negsuc 0 else pos 1

strcmp_sound : (a b : List ℕ) → strcmp a b ≡ pos 0 → a ≡ b
unfolding strcmp
strcmp_sound [] [] e = refl
strcmp_sound [] (d ∷ ds) e = cc
strcmp_sound (c ∷ cs) [] e = cc
strcmp_sound (c ∷ cs) (d ∷ ds) e = elim (Bool-cases (c == d)) [
  | inl same ↦
      let first : c ≡ d = ground arith in
      let e' = rw same at e in rw (first, strcmp_sound cs ds e') refl
  | inr other ↦ let e' = rw other at e in absurd (ground arith)
]

strcmp_reflexive : (a : List ℕ) → strcmp a a ≡ pos 0
unfolding strcmp
strcmp_reflexive [] = refl
strcmp_reflexive (c ∷ cs) =
    let same : (c == c) ≡ true = ground arith in rw (same, strcmp_reflexive cs) refl

abbrev some_lines : List (List ℕ)
some_lines = (97 ∷ []) ∷ (98 ∷ 99 ∷ []) ∷ (98 ∷ 99 ∷ []) ∷ (98 ∷ 99 ∷ []) ∷ (97 ∷ []) ∷ []

some_lines-AreLines : AreLines some_lines
unfolding AreLines IsString length
some_lines-AreLines = (
  omega arith,
  (refl, tt),
  (
    omega arith,
    (refl, (refl, tt)),
    (
      omega arith,
      (refl, (refl, tt)),
      (omega arith, (refl, (refl, tt)), (omega arith, (refl, tt), tt)),
    ),
  ),
)

repeated_lines-groups_example :
    repeated_lines strcmp some_lines ≡ ok (repeats strcmp (groups strcmp some_lines))
repeated_lines-groups_example =
    repeated_lines-groups strcmp (λ a b p q. strcmp_sound a b) strcmp_reflexive some_lines
      some_lines-AreLines

primes_below_hundred_test :
    primes_below_hundred
    ≡ 2 ∷ 3 ∷ 5 ∷ 7 ∷ 11 ∷ 13 ∷ 17 ∷ 19 ∷ 23 ∷ 29 ∷ 31 ∷ 37 ∷ 41 ∷ 43 ∷ 47 ∷ 53 ∷ 59 ∷ 61 ∷ 67 ∷ 71
      ∷ 73 ∷ 79 ∷ 83 ∷ 89 ∷ 97 ∷ []
unfolding primes_below_hundred
primes_below_hundred_test = refl

reverse_bits_test : reverse_bits 33 13 ≡ ok 0
unfolding reverse_bits
reverse_bits_test = refl

-- no letter is printed
cipher_test : cipher (72 ∷ 105 ∷ 33 ∷ []) ≡ 33 ∷ []
unfolding cipher
cipher_test = refl

triangle_test : triangle (pos 1) (pos 2) (pos 9) ≡ scalene
unfolding triangle ◌+ℤ◌
triangle_test = refl

gcd_positive_test : gcd_positive 5 (pos 24) (pos 18) ≡ ok (pos 6)
unfolding gcd_positive
gcd_positive_test = refl

abbrev source : ℕ → ℕ
source k = if k == 1 then 97 else if k == 2 then 98 else 0

abbrev blank : ℕ → ℕ
blank k = if k == 0 then 32 else if k == 1 then 97 else if k == 2 then 98 else 0

-- three characters of "ab", from place 1 of the source
copy_n_test :
    (copy_n 1 (record { size = 4; at = λ k. 9 }) (record { size = 4; at = source }) 3 >>= λ d.
    ok (cells d.at 0 4))
    ≡ ok (97 ∷ 98 ∷ 0 ∷ 9 ∷ [])
unfolding copy_n copy_step for_range for_rounds read write cells
copy_n_test = refl

-- of " ab" only the blank is left
deblank_test :
    (deblank 5 (record { size = 4; at = blank }) 0 >>= λ b. ok (cells b.at 0 4))
    ≡ ok (32 ∷ 0 ∷ 98 ∷ 0 ∷ [])
unfolding deblank deblank_loop read write cells
deblank_test = refl

-- the strings "ab" and "c", and pointers to them
abbrev characters : List ℤ
characters = pos 97 ∷ pos 98 ∷ pos 0 ∷ pos 99 ∷ pos 0 ∷ []

abbrev text : Arr ℕ
text = record { size = 5; at = λ k. pos_part (nth characters k) }

abbrev pointers : Arr (Option ℕ)
pointers = record { size = 3; at = λ k. if k == 0 then some 0 else if k == 1 then some 3 else none }

points : Points text pointers 0 ((0, 2) ∷ (3, 1) ∷ [])
unfolding Points
points = (
  refl,
  omega arith,
  record { fits = omega arith; full = full_first; end = refl },
  (
    refl,
    omega arith,
    record { fits = omega arith; full = full_second; end = refl },
    (omega arith, refl),
  ),
)
  where
    full_first : (k : ℕ) → k < 2 → text.at (0 + k) ≢ 0
    full_first zero lt e = omega arith
    full_first (suc zero) lt e = omega arith
    full_first (suc (suc k)) lt e = omega arith

    full_second : (k : ℕ) → k < 1 → text.at (3 + k) ≢ 0
    full_second zero lt e = omega arith
    full_second (suc k) lt e = omega arith

few_strings : number_of ((0, 2) ∷ (3, 1) ∷ []) < 3
unfolding number_of
few_strings = omega arith

up_to_three : Short 3 ((0, 2) ∷ (3, 1) ∷ [])
unfolding Short
up_to_three = (omega arith, (omega arith, omega arith))

find_char-Used_test :
    Returns
      (λ (found, t).
        (found ≡ one_contains text.at ((0, 2) ∷ (3, 1) ∷ []) 120)
        × (found ≡ false → Used t 0 ((0, 2) ∷ (3, 1) ∷ [])))
      (find_char 3 3 text pointers 120)
find_char-Used_test =
    find_char-Used 3 3 text pointers ((0, 2) ∷ (3, 1) ∷ []) 120 few_strings up_to_three points
