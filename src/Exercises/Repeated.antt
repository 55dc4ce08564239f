-- ===== src/Exercises/Repeated.antt =====
-- The program of Chapter Four Statement/Programming Exercises 4.14/Question_5.c. The standard input is
-- the list of the lines that it reads, without their line breaks. `strcmp` of the C library is a
-- parameter.
use core_technologies.Base.{
  Bool, Bool-cases, List, Run, [], arith, eqb_ℤ, false, fault, if◌then◌else◌, inl, inr, leb, ltb,
  not, ok, pos, refl, suc, true, ◌∙◌, ℕ, ℤ, ◌<◌, ◌==◌, ◌>>=◌, ◌∷◌, ◌≡◌,
}

-- `LINE_SIZE`
abbrev pub line_size : ℕ
line_size = 129

unfoldable pub length : List ℕ → ℕ
length [] = 0
length (c ∷ cs) = suc (length cs)

-- `gets` into an array of `LINE_SIZE` characters: there is no room for a longer line and its 0
unfoldable pub gets : List ℕ → Run (List ℕ)
unfolding length
gets line = if ltb (length line) line_size then ok line else fault

-- a line without the character 0
unfoldable pub IsString : List ℕ → Type 0
IsString [] = Unit
IsString (c ∷ cs) = ((c == 0) ≡ false) × IsString cs

-- lines without it that have room in the arrays
unfoldable pub AreLines : List (List ℕ) → Type 0
AreLines [] = Unit
AreLines (l ∷ ls) = (length l < line_size) × IsString l × AreLines ls

gets-ok : (line : List ℕ) → length line < line_size → gets line ≡ ok line
unfolding gets
gets-ok line short = let e : ltb (length line) line_size ≡ true = ground arith in rw e refl

module _ (strcmp : List ℕ → List ℕ → ℤ) where
  -- the loop of Question_5.c: what it prints of the lines that it reads
  unfoldable pub repeated_loop :
      List (List ℕ) → (previous : List ℕ) (printed : Bool) → Run (List (List ℕ))
  unfolding gets
  repeated_loop [] previous printed = ok []
  repeated_loop (line ∷ rest) previous printed = do
    input ← gets line
    if not (eqb_ℤ (strcmp input previous) (pos 0))
        then repeated_loop rest input false
        else if not printed
        then (do out ← repeated_loop rest previous true; ok (input ∷ out))
        else repeated_loop rest previous printed

  -- `main` of Question_5.c: without a first line there is no second one
  unfoldable pub repeated_lines : List (List ℕ) → Run (List (List ℕ))
  unfolding repeated_loop gets
  repeated_lines [] = ok []
  repeated_lines (first ∷ rest) = do previous ← gets first; repeated_loop rest previous false

  add_run : List ℕ → List (List ℕ × ℕ) → List (List ℕ × ℕ)
  add_run l [] = (l, 1) ∷ []
  add_run l ((m, n) ∷ runs) =
      if eqb_ℤ (strcmp m l) (pos 0) then (l, suc n) ∷ runs else (l, 1) ∷ (m, n) ∷ runs

  -- the groups of equal neighbours, each with its number of lines
  unfoldable pub groups : List (List ℕ) → List (List ℕ × ℕ)
  unfolding add_run
  groups [] = []
  groups (l ∷ ls) = add_run l (groups ls)

  -- the lines of the groups of two and more
  unfoldable pub repeats : List (List ℕ × ℕ) → List (List ℕ)
  repeats [] = []
  repeats ((l, n) ∷ runs) = let rest = repeats runs in if leb 2 n then l ∷ rest else rest

  -- what a run of the loop prints of the groups behind, once the group of `p` is printed
  after : List ℕ → List (List ℕ × ℕ) → List (List ℕ)
  unfolding repeats
  after p [] = []
  after p ((m, n) ∷ runs) =
      if eqb_ℤ (strcmp m p) (pos 0) then repeats runs else repeats ((m, n) ∷ runs)

  -- the groups with one more line in front
  add_run-after :
      (l : List ℕ) (runs : List (List ℕ × ℕ))
      → (n : ℕ) × (behind : List (List ℕ × ℕ)) × (add_run l runs ≡ (l, suc n) ∷ behind)
        × (after l runs ≡ repeats behind)
  unfolding add_run after
  add_run-after l [] = (0, [], refl, refl)
  add_run-after l ((m, n) ∷ runs) = elim (Bool-cases (eqb_ℤ (strcmp m l) (pos 0))) [
    | inl same ↦ (n, runs, rw same refl, rw same refl)
    | inr other ↦ (0, (m, n) ∷ runs, rw other refl, rw other refl)
  ]

  module _ (sound : (a b : List ℕ) → IsString a → IsString b → strcmp a b ≡ pos 0 → a ≡ b)
      (reflexive : (a : List ℕ) → strcmp a a ≡ pos 0) where
    repeated_loop-groups :
        (rest : List (List ℕ)) (previous : List ℕ)
        → IsString previous
        → AreLines rest
        → (repeated_loop rest previous false ≡ ok (repeats (add_run previous (groups rest))))
          × (repeated_loop rest previous true ≡ ok (after previous (groups rest)))
    unfolding repeated_loop groups repeats after add_run AreLines
    repeated_loop-groups [] previous text lines = (refl, refl)
    repeated_loop-groups (input ∷ rest) previous text (short, text', lines) =
        let read = gets-ok input short in
        elim (Bool-cases (eqb_ℤ (strcmp input previous) (pos 0))) [
          | inl same ↦
              let equal : input ≡ previous = sound input previous text' text (ground arith) in
              let read' : gets previous ≡ ok previous = rw equal at read in
              let (n, behind, e, e') = add_run-after previous (groups rest) in
              let self : eqb_ℤ (strcmp previous previous) (pos 0) ≡ true =
                rw (reflexive previous) refl in
              let ih : repeated_loop rest previous true ≡ ok (repeats behind) =
                (repeated_loop-groups rest previous text lines).1 ∙ rw e' refl in
              let two : leb 2 (suc (suc n)) ≡ true = ground arith in
              rw (equal, read', self, e, self, ih, two) (refl, refl)
          | inr other ↦
              let (n, behind, e, e') = add_run-after input (groups rest) in
              let ih = (repeated_loop-groups rest input text' lines).0 in
              (rw (read, other, ih, e, other) refl, rw (read, other, ih, e, other) refl)
        ]

    -- The program of Question_5.c prints, of each group of two and more equal neighbours among the
    -- lines that it reads, the line once, if no line has more than 128 characters or the character
    -- 0. It is supposed that `strcmp` gives 0 for equal strings and only for these.
    pub repeated_lines-groups :
        (ls : List (List ℕ)) → AreLines ls → repeated_lines ls ≡ ok (repeats (groups ls))
    unfolding repeated_lines groups repeats AreLines
    repeated_lines-groups [] lines = refl
    repeated_lines-groups (first ∷ rest) (short, text, lines) =
        rw (gets-ok first short) (repeated_loop-groups rest first text lines).0

  -- The program of Question_5.c overruns its array where the first line has 129 characters or more.
  pub repeated_lines-fault :
      (first : List ℕ) (rest : List (List ℕ))
      → 128 < length first
      → repeated_lines (first ∷ rest) ≡ fault
  unfolding repeated_lines gets
  repeated_lines-fault first rest long =
      let e : ltb (length first) line_size ≡ false = ground arith in rw e refl
