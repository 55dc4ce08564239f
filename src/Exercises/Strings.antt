-- ===== src/Exercises/Strings.antt =====
-- `find_char` of Chapter Six Pointers/s_srch.c, which moves the pointers in the array that it gets.
use core_technologies.Base.{
  Arr, Bool, Bool-cases, List, Option, Returns, Returns-bind, Returns-mono, Run, [], arith, fault,
  false, if◌then◌else◌, inl, inr, none, ok, out_of_fuel, put, read, read-ok, refl, returns, some,
  suc, sym, true, write, write-ok, zero, ℕ, ◌+◌, ◌<◌, ◌==◌, ◌>>=◌, ◌||◌, ◌∙◌, ◌∷◌, ◌≡◌, ◌≢◌, ◌≤◌,
}
use core_technologies.Text.Spec.{IsText, IsText-empty, IsText-head, IsText-next}

-- a pointer that is dereferenced
unfoldable pub pointer_of : Option ℕ → Run ℕ
pointer_of none = fault
pointer_of (some p) = ok p

unfoldable pub is_null : Option ℕ → Bool
is_null none = true
is_null (some p) = false

-- the inner loop, on the pointer in cell `s` of `strings`: whether it returns
unfoldable pub string_loop :
    ℕ → (a : Arr ℕ) (strings : Arr (Option ℕ)) (s value : ℕ) → Run (Bool × Arr (Option ℕ))
unfolding pointer_of
string_loop zero a strings s value = out_of_fuel
string_loop (suc fuel) a strings s value = do
  pointer ← read strings s
  p ← pointer_of pointer
  c ← read a p
  if c == 0 then ok (false, strings) else (do
    strings' ← write strings s (some (p + 1))
    if c == value then ok (true, strings') else string_loop fuel a strings' s value)

-- the outer loop, where the inner one has `most` rounds
unfoldable pub strings_loop :
    ℕ
    → (most : ℕ) (a : Arr ℕ) (strings : Arr (Option ℕ)) (s value : ℕ) → Run (Bool × Arr (Option ℕ))
unfolding string_loop is_null
strings_loop zero most a strings s value = out_of_fuel
strings_loop (suc fuel) most a strings s value = do
  pointer ← read strings s
  if is_null pointer then ok (false, strings) else (do
    (found, strings') ← string_loop most a strings s value
    if found then ok (true, strings') else strings_loop fuel most a strings' (suc s) value)

unfoldable pub find_char :
    (fuel most : ℕ) (a : Arr ℕ) (strings : Arr (Option ℕ)) (value : ℕ) → Run (Bool × Arr (Option ℕ))
unfolding strings_loop
find_char fuel most a strings value = strings_loop fuel most a strings 0 value

-- whether one of `n` characters from `p` on is `value`, and whether one of some strings has it
unfoldable pub contains : (a : ℕ → ℕ) (p n value : ℕ) → Bool
contains a p zero value = false
contains a p (suc n) value = a p == value || contains a (suc p) n value

unfoldable pub one_contains : (a : ℕ → ℕ) → List (ℕ × ℕ) → (value : ℕ) → Bool
one_contains a [] value = false
one_contains a ((p, n) ∷ texts) value = contains a p n value || one_contains a texts value

-- what the inner loop leaves
record Searched (a : Arr ℕ) (strings : Arr (Option ℕ)) (s p n value : ℕ) (r : Bool × Arr (Option ℕ))
    : Type 0 where
  found : r.0 ≡ contains a.at p n value
  same_size : r.1.size ≡ strings.size
  others : (k : ℕ) → k ≢ s → r.1.at k ≡ strings.at k
  used : r.0 ≡ false → r.1.at s ≡ some (p + n)

Searched-next :
    (a : Arr ℕ) (strings : Arr (Option ℕ)) (s p n value : ℕ) (r : Bool × Arr (Option ℕ))
    → (a.at p == value) ≡ false
    → Searched a (put strings s (some (suc p))) s (suc p) n value r
    → Searched a strings s p (suc n) value r
unfolding contains
Searched-next a strings s p n value r differ w = record {
  found = w.found ∙ rw differ refl;
  same_size = w.same_size;
  others = λ k ne. let other : (s == k) ≡ false = ground arith in w.others k ne ∙ rw other refl;
  used = λ e. let at_end : suc p + n ≡ p + suc n = omega arith in w.used e ∙ rw at_end refl;
}

string_loop-Searched :
    (fuel : ℕ) (a : Arr ℕ) (strings : Arr (Option ℕ)) (s p n value : ℕ)
    → n < fuel
    → s < strings.size
    → strings.at s ≡ some p
    → IsText a p n
    → Returns (Searched a strings s p n value) (string_loop fuel a strings s value)
unfolding string_loop pointer_of contains
string_loop-Searched zero a strings s p n value f room here text = absurd (omega arith)
string_loop-Searched (suc fuel) a strings s p zero value f room here text =
    let e : p + 0 ≡ p = omega arith in
    rw (read-ok strings s room, here, read-ok a p (omega (arith, text.fits)), IsText-empty a p text)
      (returns
        (record { found = refl; same_size = refl; others = λ k ne. refl; used = λ e'. rw e here }))
string_loop-Searched (suc fuel) a strings s p (suc n) value f room here text =
    let next : p + 1 ≡ suc p = omega arith in
    let self : (s == s) ≡ true = ground arith in
    rw
      (
        read-ok strings s room,
        here,
        read-ok a p (omega (arith, text.fits)),
        IsText-head a p n text,
        write-ok strings s (some (p + 1)) room,
        next,
      )
      (elim (Bool-cases (a.at p == value)) [
        | inl same ↦ rw same (
            returns (record {
              found = rw same refl;
              same_size = refl;
              others = λ k ne. let other : (s == k) ≡ false = ground arith in rw other refl;
              used = λ e. cc;
            }))
        | inr differ ↦ rw differ (
            Returns-mono
              (string_loop-Searched fuel a (put strings s (some (suc p))) s (suc p) n value
                (omega arith) room (rw self refl) (IsText-next a p n text))
              λ r w. Searched-next a strings s p n value r differ w)
      ])

-- the cells from `s` on point to strings, given by their places and lengths, and a null pointer is
-- behind them
unfoldable pub Points : Arr ℕ → Arr (Option ℕ) → (s : ℕ) → List (ℕ × ℕ) → Type 0
Points a strings s [] = (s < strings.size) × (strings.at s ≡ none)
Points a strings s ((p, n) ∷ texts) =
    (strings.at s ≡ some p) × (s < strings.size) × IsText a p n × Points a strings (suc s) texts

-- the cells from `s` on point to the ends of the strings
unfoldable pub Used : Arr (Option ℕ) → (s : ℕ) → List (ℕ × ℕ) → Type 0
Used strings s [] = strings.at s ≡ none
Used strings s ((p, n) ∷ texts) = (strings.at s ≡ some (p + n)) × Used strings (suc s) texts

-- every string is shorter than `most`
unfoldable pub Short : (most : ℕ) → List (ℕ × ℕ) → Type 0
Short most [] = 0 ≤ most
Short most ((p, n) ∷ texts) = (n < most) × Short most texts

unfoldable pub number_of : List (ℕ × ℕ) → ℕ
number_of [] = 0
number_of (t ∷ texts) = suc (number_of texts)

Points-change :
    (a : Arr ℕ) (old new : Arr (Option ℕ)) (s : ℕ) (texts : List (ℕ × ℕ))
    → new.size ≡ old.size
    → ((k : ℕ) → s ≤ k → new.at k ≡ old.at k)
    → Points a old s texts
    → Points a new s texts
unfolding Points
Points-change a old new s [] size same (room, end) = (omega arith, same s (omega arith) ∙ end)
Points-change a old new s ((p, n) ∷ texts) size same (here, room, text, rest) = (
  same s (omega arith) ∙ here,
  omega arith,
  text,
  Points-change a old new (suc s) texts size (λ k le. same k (omega arith)) rest,
)

-- what the outer loop leaves
record Ended (a : Arr ℕ) (strings : Arr (Option ℕ)) (s : ℕ) (texts : List (ℕ × ℕ)) (value : ℕ)
    (r : Bool × Arr (Option ℕ)) : Type 0 where
  found : r.0 ≡ one_contains a.at texts value
  before : (k : ℕ) → k < s → r.1.at k ≡ strings.at k
  used : r.0 ≡ false → Used r.1 s texts

strings_loop-Ended :
    (fuel most : ℕ) (a : Arr ℕ) (strings : Arr (Option ℕ)) (s : ℕ) (texts : List (ℕ × ℕ))
    (value : ℕ)
    → number_of texts < fuel
    → Short most texts
    → Points a strings s texts
    → Returns (Ended a strings s texts value) (strings_loop fuel most a strings s value)
unfolding strings_loop is_null Points Used Short number_of one_contains
strings_loop-Ended zero most a strings s texts value f short points = absurd (omega arith)
strings_loop-Ended (suc fuel) most a strings s [] value f short (room, end) =
    rw (read-ok strings s room, end)
      (returns (record { found = refl; before = λ k lt. refl; used = λ e. end }))
strings_loop-Ended (suc fuel) most a strings s ((p, n) ∷ texts) value f (short, shorts)
      (here, room, text, rest) =
    rw (read-ok strings s room, here)
      (Returns-bind (string_loop-Searched most a strings s p n value short room here text)
        λ (found, t) w. elim (Bool-cases found) [
          | inl got ↦
              let hit : contains a.at p n value ≡ true = sym w.found ∙ got in
              rw got (
                returns (record {
                  found = rw hit refl;
                  before = λ k lt. w.others k (omega arith);
                  used = λ e. cc;
                }))
          | inr missed ↦
              let miss : contains a.at p n value ≡ false = sym w.found ∙ missed in
              rw missed (
                Returns-mono
                  (strings_loop-Ended fuel most a t (suc s) texts value (omega arith) shorts (
                    Points-change a strings t (suc s) texts w.same_size
                      (λ k le. w.others k (omega arith)) rest))
                  λ r v. record {
                    found = v.found ∙ rw miss refl;
                    before = λ k lt. v.before k (omega arith) ∙ w.others k (omega arith);
                    used = λ e. (v.before s (omega arith) ∙ w.used missed, v.used e);
                  })
        ])

-- `find_char` of an array of pointers to strings, with a null pointer behind them, finds the
-- character exactly if a string has it. Where none has it, every pointer of the caller is moved to the
-- end of its string. More rounds than there are strings, and than a string has characters, are
-- enough.
pub find_char-Used :
    (fuel most : ℕ) (a : Arr ℕ) (strings : Arr (Option ℕ)) (texts : List (ℕ × ℕ)) (value : ℕ)
    → number_of texts < fuel
    → Short most texts
    → Points a strings 0 texts
    → Returns
        (λ (found, t). (found ≡ one_contains a.at texts value) × (found ≡ false → Used t 0 texts))
        (find_char fuel most a strings value)
unfolding find_char
find_char-Used fuel most a strings texts value f short points =
    Returns-mono (strings_loop-Ended fuel most a strings 0 texts value f short points)
      λ r w. (w.found, w.used)
