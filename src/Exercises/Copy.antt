-- ===== src/Exercises/Copy.antt =====
-- `copy_n` and `deblank` of Chapter Four Statement/Programming Exercises 4.14: Question_4.c and
-- Question_7.c.
use core_technologies.Base.{
  Arr, Bool, Bool-cases, Returns, Returns-bind, Run, arith, false, for_range, for_range_inv,
  if◌then◌else◌, inl, inr, ltb, not, ok, out_of_fuel, pos, put, read, read-ok, read_at, refl,
  returns, suc, sym, true, write, write-ok, zero, ℕ, ◌+◌, ◌-ℤ◌, ◌<◌, ◌==◌, ◌>>=◌, ◌||◌, ◌≡◌, ◌≤◌,
}
use Prim.Native.Nat.{min}
use core_technologies.Text.Spec.{IsText, IsText-head, IsText-next, IsText-empty}

-- a round of the loop of `copy_n`, on `dst` and `src_index`
unfoldable pub copy_step : (src : Arr ℕ) (dst_index : ℕ) → Arr ℕ × ℕ → Run (Arr ℕ × ℕ)
copy_step src dst_index (dst, src_index) = do
  c ← read src src_index
  dst' ← write dst dst_index c
  ok (dst', if not (c == 0) then src_index + 1 else src_index)

-- `copy_n`, with what `src_index` holds at first, which the code does not set
unfoldable pub copy_n : (src_index : ℕ) (dst src : Arr ℕ) (n : ℕ) → Run (Arr ℕ)
unfolding copy_step
copy_n src_index dst src n = do
  (dst', last) ← for_range 0 n (copy_step src) (dst, src_index)
  ok dst'

-- `p` is the place of the character `i`, or of the end of the string
next_place :
    (src : Arr ℕ) (start len i : ℕ)
    → IsText src start len
    → (if not (src.at (start + min i len) == 0) then start + min i len + 1 else start + min i len)
      ≡ start + min (i + 1) len
next_place src start len i text = elim (Bool-cases (ltb i len)) [
  | inl more ↦
      let here : min i len ≡ i = ground arith in
      let next : min (i + 1) len ≡ i + 1 = ground arith in
      let full = text.full i (ground arith) in
      let c : (src.at (start + i) == 0) ≡ false = ground arith in rw (here, next, c) (omega arith)
  | inr done ↦
      let here : min i len ≡ len = ground arith in
      let next : min (i + 1) len ≡ len = ground arith in rw (here, next, text.end) refl
]

-- the first `n` cells hold the characters of the string of `len` characters at `start`, and 0 behind
-- its end, and the others are as they were
pub record IsPadded (src dst : Arr ℕ) (start len n : ℕ) (d : Arr ℕ) : Type 0 where
  pub same_size : d.size ≡ dst.size
  pub padded : (k : ℕ) → k < n → d.at k ≡ src.at (start + min k len)
  pub behind : (k : ℕ) → n ≤ k → d.at k ≡ dst.at k

-- what `min` does for the place of a read
in_text : (src : Arr ℕ) (start len i : ℕ) → IsText src start len → start + min i len < src.size
in_text src start len i text = omega (arith, text.fits)

IsPadded-next :
    (src dst : Arr ℕ) (start len i : ℕ) (d : Arr ℕ)
    → IsPadded src dst start len i d
    → IsPadded src dst start len (i + 1) (put d i (src.at (start + min i len)))
IsPadded-next src dst start len i d w = record {
  same_size = w.same_size;
  padded = λ k lt. elim (Bool-cases (i == k)) [
    | inl same ↦ let e : i ≡ k = ground arith in rw (same, e) refl
    | inr other ↦ let old = w.padded k (ground arith) in rw (other, old) refl
  ];
  behind = λ k le.
      let other : (i == k) ≡ false = ground arith in
      let old = w.behind k (omega arith) in rw (other, old) refl;
}

Copying : (src dst : Arr ℕ) (start len i : ℕ) → Arr ℕ × ℕ → Type 0
Copying src dst start len i (d, p) = (p ≡ start + min i len) × IsPadded src dst start len i d

copy_step-Copying :
    (src dst : Arr ℕ) (start len n i : ℕ) (s : Arr ℕ × ℕ)
    → IsText src start len
    → n ≤ dst.size
    → i < n
    → Copying src dst start len i s
    → Returns (Copying src dst start len (i + 1)) (copy_step src i s)
unfolding Copying copy_step
copy_step-Copying src dst start len n i (d, p) text room lt (e, w) =
    rw
      (
        e,
        read-ok src _ (in_text src start len i text),
        write-ok d i _ (omega (arith, w.same_size)),
        next_place src start len i text,
      )
      (returns (refl, IsPadded-next src dst start len i d w))

-- `copy_n` of a string, where `src_index` happens to hold its place, into an array with room for `n`
-- characters: the first `n` cells get the characters of the string, and 0 behind its end, as
-- `strncpy` would write them, and no other cell changes.
pub copy_n-IsPadded :
    (src dst : Arr ℕ) (start len n : ℕ)
    → IsText src start len
    → n ≤ dst.size
    → Returns (IsPadded src dst start len n) (copy_n start dst src n)
unfolding copy_n Copying
copy_n-IsPadded src dst start len n text room =
    let first : start + min 0 len ≡ start = omega arith in
    Returns-bind
      (for_range_inv (Copying src dst start len) (copy_step src) n
        (λ i s lt h. copy_step-Copying src dst start len n i s text room lt h) 0 (dst, start)
        (omega arith)
        (
          sym first,
          record { same_size = refl; padded = λ k lt. absurd (omega arith); behind = λ k le. refl },
        ))
      λ (d, p) (e, w). returns w

-- `is_white`
abbrev pub is_white : ℕ → Bool
is_white ch = ch == 32 || (ch == 9 || (ch == 11 || (ch == 12 || (ch == 10 || ch == 13))))

-- the loop of `deblank`, on the string at `start` and the places of `dest` and `src`
unfoldable pub deblank_loop : ℕ → (a : Arr ℕ) (start dest src : ℕ) → Run (Arr ℕ)
deblank_loop zero a start dest src = out_of_fuel
deblank_loop (suc fuel) a start dest src = do
  ch ← read a src
  if ch == 0 then ok a else (do
    (b, dest') ←
        (if is_white ch
          then (if src + 1 == start + 1 then (do b ← write a dest 32; ok (b, dest + 1)) else (do
            previous ← read_at a (pos dest -ℤ pos 1)
            b ← write a dest (if not (is_white previous) then 32 else ch)
            ok (b, dest + 1)))
          else ok (a, dest))
    c ← write b dest' 0
    deblank_loop fuel c start dest' (src + 1))

unfoldable pub deblank : ℕ → (a : Arr ℕ) (start : ℕ) → Run (Arr ℕ)
unfolding deblank_loop
deblank fuel a start = deblank_loop fuel a start start start

-- a write in front of a string
IsText-put : (a : Arr ℕ) (i p n v : ℕ) → i < p → IsText a p n → IsText (put a i v) p n
IsText-put a i p n v lt w = record {
  fits = w.fits;
  full = λ k lt'.
      let other : (i == p + k) ≡ false = ground arith in let old = w.full k lt' in rw other old;
  end = let other : (i == p + n) ≡ false = ground arith in let old = w.end in rw other old;
}

deblank_loop-empty :
    (fuel : ℕ) (a : Arr ℕ) (start src n : ℕ)
    → n < fuel
    → start ≤ src
    → IsText a src n
    → ((k : ℕ) → k < n → is_white (a.at (src + k)) ≡ false)
    → (n ≡ 0 → a.at start ≡ 0)
    → Returns (λ b. b.at start ≡ 0) (deblank_loop fuel a start start src)
unfolding deblank_loop
deblank_loop-empty zero a start src n f le text black ended = absurd (omega arith)
deblank_loop-empty (suc fuel) a start src zero f le text black ended =
    rw (read-ok a src (omega (arith, text.fits)), IsText-empty a src text) (returns (ended refl))
deblank_loop-empty (suc fuel) a start src (suc n) f le text black ended =
    let e : src + 0 ≡ src = omega arith in
    let first = black 0 (omega arith) in
    let first' : is_white (a.at src) ≡ false = rw e at first in
    let next : src + 1 ≡ suc src = omega arith in
    let self : (start == start) ≡ true = ground arith in
    rw
      (
        read-ok a src (omega (arith, text.fits)),
        IsText-head a src n text,
        first',
        write-ok a start 0 (omega (arith, text.fits)),
        next,
      )
      (deblank_loop-empty fuel (put a start 0) start (suc src) n (omega arith) (omega arith)
        (IsText-put a start (suc src) n 0 (omega arith) (IsText-next a src n text))
        (λ k lt.
          let other : (start == suc src + k) ≡ false = ground arith in
          let at_k : suc src + k ≡ src + suc k = omega arith in
          rw (other, at_k) (black (suc k) (omega arith)))
        (λ none. rw self refl))

-- `deblank` of a string without white space, which it should leave as it is, makes it empty.
pub deblank-empty :
    (fuel : ℕ) (a : Arr ℕ) (start n : ℕ)
    → suc n < fuel
    → IsText a start (suc n)
    → ((k : ℕ) → k < suc n → is_white (a.at (start + k)) ≡ false)
    → Returns (λ b. b.at start ≡ 0) (deblank fuel a start)
unfolding deblank
deblank-empty fuel a start n f text black =
    deblank_loop-empty fuel a start start (suc n) f (omega arith) text black
      (λ none. absurd (omega arith))
