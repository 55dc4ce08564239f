-- ===== src/Text/Find.antt =====
-- `find_char` of Question1.c finds the first character that is in a set.
use core_technologies.Base.{
  Arr, Bool, Bool-cases, Option, Returns, Returns-bind, Returns-mono, arith, false, if◌then◌else◌,
  inl, inr, none, ok, read-ok, returns, some, suc, true, zero, ℕ, ℕ_discrete, ◌+◌, ◌-◌, ◌<◌, ◌==◌,
  ◌≡◌, ◌≤◌,
}
use core_technologies.Text.{among_loop, find_char, find_char_loop}
use core_technologies.Text.Spec.{IsText, IsText-empty, IsText-head, IsText-next}

-- the character is one of the string
abbrev pub Among : Arr ℕ → (q m : ℕ) → ℕ → Type 0
Among b q m c = (j : ℕ) × (j < m) × (b.at (q + j) ≡ c)

-- the index of the first character from `p` on that is one of the string at `q`
abbrev pub IsFound : Arr ℕ → (p n : ℕ) → Arr ℕ → (q m : ℕ) → Option ℕ → Type 0
IsFound a p n b q m none = (k : ℕ) → p ≤ k → k < p + n → ¬ Among b q m (a.at k)
IsFound a p n b q m (some i) =
    (p ≤ i)
    × (i < p + n)
    × Among b q m (a.at i)
    × ((k : ℕ) → p ≤ k → k < i → ¬ Among b q m (a.at k))

-- what the inner loop says
abbrev Tells : Arr ℕ → (q m : ℕ) → ℕ → Bool → Type 0
Tells b q m c true = Among b q m c
Tells b q m c false = ¬ Among b q m c

among_loop-Tells :
    (fuel : ℕ) (c : ℕ) (b : Arr ℕ) (q m : ℕ)
    → m < fuel
    → IsText b q m
    → Returns (Tells b q m c) (among_loop fuel c b q)
unfolding among_loop
among_loop-Tells zero c b q m f w = absurd (omega arith)
among_loop-Tells (suc fuel) c b q zero f w =
    rw (read-ok b q (omega (arith, w.fits)), IsText-empty b q w)
      (returns (λ (j, lt, e). absurd (omega arith)))
among_loop-Tells (suc fuel) c b q (suc m) f w =
    rw (read-ok b q (omega (arith, w.fits)), IsText-head b q m w)
      (elim (Bool-cases (c == b.at q)) [
        | inl hit ↦
            let e : q + 0 ≡ q = omega arith in
            rw hit (returns (0, omega arith, rw e (ground arith)))
        | inr miss ↦ rw miss (
            Returns-mono (among_loop-Tells fuel c b (suc q) m (omega arith) (IsText-next b q m w))
              λ r told. Tells-next r told miss)
      ])
  where
    Tells-next : (r : Bool) → Tells b (suc q) m c r → (c == b.at q) ≡ false → Tells b q (suc m) c r
    Tells-next true (j, lt, e) miss =
        let e' : q + suc j ≡ suc q + j = omega arith in (suc j, omega arith, rw e' e)
    Tells-next false out miss = λ (j, lt, e). elim (Bool-cases (j == 0)) [
      | inl nought ↦ let first : q + j ≡ q = ground arith in let e' = rw first at e in ground arith
      | inr later ↦
          let e' : q + j ≡ suc q + (j - 1) = ground arith in out (j - 1, ground arith, rw e' at e)
    ]

-- a first character that is not in the set
IsFound-next :
    (a : Arr ℕ) (p n : ℕ) (b : Arr ℕ) (q m : ℕ) (o : Option ℕ)
    → ¬ Among b q m (a.at p)
    → IsFound a (suc p) n b q m o
    → IsFound a p (suc n) b q m o
IsFound-next a p n b q m none out w = λ k low high. elim (ℕ_discrete p k) [
  | yes e ↦ rw (← e) out
  | no e ↦ w k (omega arith) (omega arith)
]
IsFound-next a p n b q m (some i) out (low, high, among, w) = (
  omega arith,
  omega arith,
  among,
  λ k low' high'. elim (ℕ_discrete p k) [
    | yes e ↦ rw (← e) out
    | no e ↦ w k (omega arith) (omega arith)
  ],
)

find_char_loop-IsFound :
    (fuel : ℕ) (a : Arr ℕ) (p n : ℕ) (b : Arr ℕ) (q m : ℕ)
    → n + m < fuel
    → IsText a p n
    → IsText b q m
    → Returns (IsFound a p n b q m) (find_char_loop fuel a p b q)
unfolding find_char_loop
find_char_loop-IsFound zero a p n b q m f w v = absurd (omega arith)
find_char_loop-IsFound (suc fuel) a p zero b q m f w v =
    rw (read-ok a p (omega (arith, w.fits)), IsText-empty a p w)
      (returns (λ k low high. absurd (omega arith)))
find_char_loop-IsFound (suc fuel) a p (suc n) b q m f w v =
    rw (read-ok a p (omega (arith, w.fits)), IsText-head a p n w)
      (Returns-bind (among_loop-Tells (suc fuel) (a.at p) b q m (omega arith) v) λ found told.
        after_test found told
          (find_char_loop-IsFound fuel a (suc p) n b q m (omega arith) (IsText-next a p n w) v))
  where
    after_test :
        (found : Bool)
        → Tells b q m (a.at p) found
        → Returns (IsFound a (suc p) n b q m) (find_char_loop fuel a (suc p) b q)
        → Returns
            (IsFound a p (suc n) b q m)
            (if found then ok (some p) else find_char_loop fuel a (suc p) b q)
    after_test true told rest =
        returns (omega arith, omega arith, told, λ k low high. absurd (omega arith))
    after_test false told rest = Returns-mono rest λ o found. IsFound-next a p n b q m o told found

-- `find_char` of two strings gives the first character of the first one that is in the second one,
-- null if there is none; more rounds than they have characters together are enough.
pub find_char-IsFound :
    (fuel : ℕ) (a : Arr ℕ) (p n : ℕ) (b : Arr ℕ) (q m : ℕ)
    → n + m < fuel
    → IsText a p n
    → IsText b q m
    → Returns (IsFound a p n b q m) (find_char fuel a (some p) b (some q))
unfolding find_char
find_char-IsFound fuel a p n b q m f w v = find_char_loop-IsFound fuel a p n b q m f w v
