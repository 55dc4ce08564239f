-- ===== src/Exercises/Lines.antt =====
-- The program of Chapter One Getting Started Quickly/Programming_Exercises_1_8/Question_2.c. The
-- standard input is the list of the characters that it reads.
use core_technologies.Base.{
  Bool, Bool-cases, List, [], arith, false, if◌then◌else◌, inl, inr, refl, suc, true, ℕ, ◌+◌, ◌==◌,
  ◌∷◌, ◌≡◌,
}

-- what Question_2.c prints: a number with a blank, or a character
pub data Output : Type 0 where
  number : ℕ → Output
  char : ℕ → Output

-- the loop of Question_2.c
unfoldable pub number_loop : List ℕ → (line : ℕ) (at_beginning : Bool) → List Output
number_loop [] line at_beginning = []
number_loop (ch ∷ rest) line at_beginning =
    if at_beginning
    then number (line + 1) ∷ char ch ∷ number_loop rest (line + 1) (ch == 10)
    else char ch ∷ number_loop rest line (ch == 10)

unfoldable pub number_lines : List ℕ → List Output
unfolding number_loop
number_lines input = number_loop input 0 true

on_first : ℕ → List (List ℕ) → List (List ℕ)
on_first c [] = (c ∷ []) ∷ []
on_first c (l ∷ ls) = (c ∷ l) ∷ ls

-- the lines of a text, each but the last with its line break
unfoldable pub lines : List ℕ → List (List ℕ)
unfolding on_first
lines [] = []
lines (c ∷ cs) = let rest = lines cs in if c == 10 then (c ∷ []) ∷ rest else on_first c rest

unfoldable pub chars : List ℕ → List Output → List Output
chars [] out = out
chars (c ∷ cs) out = char c ∷ chars cs out

-- the lines, numbered from `k` on
unfoldable pub labelled : ℕ → List (List ℕ) → List Output
unfolding chars
labelled k [] = []
labelled k (l ∷ ls) = number k ∷ chars l (labelled (suc k) ls)

-- the rest of the line `k`, and the lines behind it
continued : ℕ → List (List ℕ) → List Output
unfolding labelled
continued k [] = []
continued k (l ∷ ls) = chars l (labelled (suc k) ls)

labelled-on_first :
    (k c : ℕ) (ls : List (List ℕ)) → labelled k (on_first c ls) ≡ number k ∷ char c ∷ continued k ls
unfolding labelled on_first continued chars
labelled-on_first k c [] = refl
labelled-on_first k c (l ∷ ls) = refl

continued-on_first :
    (k c : ℕ) (ls : List (List ℕ)) → continued k (on_first c ls) ≡ char c ∷ continued k ls
unfolding on_first continued chars
continued-on_first k c [] = refl
continued-on_first k c (l ∷ ls) = refl

number_loop-lines :
    (cs : List ℕ) (k : ℕ)
    → (number_loop cs k true ≡ labelled (suc k) (lines cs))
      × (number_loop cs k false ≡ continued k (lines cs))
unfolding number_loop lines labelled continued chars
number_loop-lines [] k = (refl, refl)
number_loop-lines (c ∷ cs) k =
    let next : k + 1 ≡ suc k = omega arith in
    elim (Bool-cases (c == 10)) [
      | inl end ↦ (
        rw (end, next, (number_loop-lines cs (suc k)).0) refl,
        rw (end, (number_loop-lines cs k).0) refl,
      )
      | inr more ↦ (
        rw (more, next, (number_loop-lines cs (suc k)).1, labelled-on_first) refl,
        rw (more, (number_loop-lines cs k).1, continued-on_first) refl,
      )
    ]

-- The program of Question_2.c prints the lines that it reads, each with its number before it,
-- from 1 on.
pub number_lines-labelled : (input : List ℕ) → number_lines input ≡ labelled 1 (lines input)
unfolding number_lines
number_lines-labelled input = (number_loop-lines input 0).0
