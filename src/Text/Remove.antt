-- ===== src/Text/Remove.antt =====
-- `del_substr` of Question2.c takes the first place where a string occurs out of another.
use core_technologies.Base.{
  Arr, Option, Returns, Returns-bind, Returns-mono, ap, arith, dec_le, false, inl, inr, none, ok,
  read-ok, refl, returns, some, suc, sym, zero, ℕ, ℕ_discrete, ◌+◌, ◌-◌, ◌<◌, ◌==◌, ◌∙◌, ◌≡◌, ◌≢◌,
  ◌≤◌, ◌⊎◌,
}
use core_technologies.Text.{del_substr, search_loop}
use core_technologies.Text.Match.{Matches, Tells, match-Tells}
use core_technologies.Text.Move.{IsMoved, move_loop-IsMoved}
use core_technologies.Text.Spec.{IsText, IsText-empty, IsText-from, IsText-head, IsText-next}

-- what the first loop of `del_substr` leaves: the end of the string, or the first place where the
-- other one stands
abbrev IsSearched : Arr ℕ → (p n : ℕ) → Arr ℕ → (q m : ℕ) → ℕ × Option ℕ → Type 0
IsSearched a p n b q m (str, next) =
    ((str ≡ p + n) × ((i : ℕ) → p ≤ i → i < p + n → ¬ Matches a i b q m))
    ⊎ ((p ≤ str)
        × (str < p + n)
        × (next ≡ some (str + m))
        × Matches a str b q m
        × ((i : ℕ) → p ≤ i → i < str → ¬ Matches a i b q m))

search_loop-IsSearched :
    (fuel : ℕ) (a : Arr ℕ) (p n : ℕ) (b : Arr ℕ) (q m : ℕ) (next : Option ℕ)
    → n + m < fuel
    → IsText a p n
    → IsText b q m
    → Returns (IsSearched a p n b q m) (search_loop fuel a p b q next)
unfolding search_loop
search_loop-IsSearched zero a p n b q m next f w v = absurd (omega arith)
search_loop-IsSearched (suc fuel) a p zero b q m next f w v =
    rw (read-ok a p (omega (arith, w.fits)), IsText-empty a p w)
      (returns (inl (omega arith, λ i low high. absurd (omega arith))))
search_loop-IsSearched (suc fuel) a p (suc n) b q m next f w v =
    rw (read-ok a p (omega (arith, w.fits)), IsText-head a p n w)
      (Returns-bind (match-Tells (suc fuel) a p (suc n) b q m (omega arith) w v) λ o told.
        after_match o told (
          search_loop-IsSearched fuel a (suc p) n b q m none (omega arith) (IsText-next a p n w) v))
  where
    after_match :
        (o : Option ℕ)
        → Tells a p b q m o
        → Returns (IsSearched a (suc p) n b q m) (search_loop fuel a (suc p) b q none)
        → Returns
            (IsSearched a p (suc n) b q m)
            (elim o [ none ↦ search_loop fuel a (suc p) b q none | some k ↦ ok (p, some k) ])
    after_match none out rest = Returns-mono rest λ (str, next) found. elim found [
      | inl (end, none_there) ↦ inl (
        omega arith,
        λ i low high. elim (ℕ_discrete p i) [
          | yes e ↦ rw (← e) out
          | no e ↦ none_there i (omega arith) (omega arith)
        ],
      )
      | inr (low, high, next, here, before) ↦ inr (
        omega arith,
        omega arith,
        next,
        here,
        λ i low' high'. elim (ℕ_discrete p i) [
          | yes e ↦ rw (← e) out
          | no e ↦ before i (omega arith) high'
        ],
      )
    ]
    after_match (some k) (end, here) rest =
        returns
          (inr (omega arith, omega arith, ap some end, here, λ i low high. absurd (omega arith)))

-- a string that stands in another one ends in front of its end
Matches-le :
    (a : Arr ℕ) (p n i : ℕ) (b : Arr ℕ) (q m : ℕ)
    → IsText a p n
    → IsText b q m
    → p ≤ i
    → i ≤ p + n
    → Matches a i b q m
    → i + m ≤ p + n
Matches-le a p n i b q m w v low high here = elim (dec_le (i + m) (p + n)) [
  | yes h ↦ h
  | no h ↦
      let e : i + (p + n - i) ≡ p + n = omega arith in
      let same = here (p + n - i) (omega arith) in
      let same' = rw e at same in absurd (v.full (p + n - i) (omega arith) (sym same' ∙ w.end))
]

-- `del_substr` of two strings: if the second one stands in the first one at some place in front of
-- its end, then 1, and what follows the first such place moves down over it, the end of the string
-- included; else 0, and nothing changes. More rounds than the strings have characters together are
-- enough.
pub del_substr-IsMoved :
    (fuel : ℕ) (a : Arr ℕ) (p n : ℕ) (b : Arr ℕ) (q m : ℕ)
    → n + m < fuel
    → IsText a p n
    → IsText b q m
    → Returns
        (λ (r, c).
          ((r ≡ 0) × (c ≡ a) × ((i : ℕ) → p ≤ i → i < p + n → ¬ Matches a i b q m))
          ⊎ ((i : ℕ) × (r ≡ 1)
              × (p ≤ i)
              × (i < p + n)
              × (i + m ≤ p + n)
              × Matches a i b q m
              × ((j : ℕ) → p ≤ j → j < i → ¬ Matches a j b q m)
              × IsMoved m (i + m) (p + n - (i + m)) a c))
        (del_substr fuel a p b q)
unfolding del_substr
del_substr-IsMoved fuel a p n b q m f w v =
    Returns-bind (match-Tells fuel a p n b q m (omega arith) w v) λ next told.
      Returns-bind (search_loop-IsSearched fuel a p n b q m next f w v) λ (str, next') found.
        elim found [
          | inl (end, none_there) ↦
              let e : a.at str ≡ 0 = rw end w.end in
              rw (read-ok a str (omega (arith, w.fits)), e) (returns (inl (refl, refl, none_there)))
          | inr (low, high, next, here, before) ↦
              let within = Matches-le a p n str b q m w v low (omega arith) here in
              let e : p + (str - p) ≡ str = omega arith in
              let full = w.full (str - p) (omega arith) in
              let full' : a.at str ≢ 0 = rw e at full in
              let more : (a.at str == 0) ≡ false = ground arith in
              rw (read-ok a str (omega (arith, w.fits)), more, next)
                (Returns-bind
                  (move_loop-IsMoved fuel a str m (p + n - (str + m)) (omega arith)
                    (IsText-from a p n (str + m) w (omega arith) within))
                  λ c moved. returns (inr (str, refl, low, high, within, here, before, moved)))
        ]
