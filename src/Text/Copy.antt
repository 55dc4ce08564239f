-- ===== src/Text/Copy.antt =====
-- `strcpy` and `substr`.
use core_technologies.Base.{
  Arr, Bool-cases, Returns, Returns-bind, Returns-mono, arith, false, inl, inr, leb_ℤ, ltb_ℤ, pos,
  put, read-ok, refl, returns, suc, sym, true, write-ok, zero, ℕ, ◌&&◌, ◌+◌, ◌-◌, ◌<◌, ◌==◌, ◌∙◌,
  ◌≡◌, ◌≤◌,
}
use core_technologies.Text.{copy_loop, strcpy, substr}
use core_technologies.Text.Spec.{IsText, IsText-empty, IsText-from, IsText-head, IsText-next}
use Prim.Native.Nat.{min}

-- the cells from `i` on are a copy of `n` cells from `j` on
pub record IsCopy (i n : ℕ) (dst a : Arr ℕ) (j : ℕ) (b : Arr ℕ) : Type 0 where
  pub same_size : b.size ≡ dst.size
  pub copied : (k : ℕ) → k < n → b.at (i + k) ≡ a.at (j + k)
  pub front : (k : ℕ) → k < i → b.at k ≡ dst.at k
  pub behind : (k : ℕ) → i + n ≤ k → b.at k ≡ dst.at k

IsCopy-next :
    (i n : ℕ) (dst a : Arr ℕ) (j : ℕ) (b : Arr ℕ)
    → IsCopy (suc i) n (put dst i (a.at j)) a (suc j) b
    → IsCopy i (suc n) dst a j b
IsCopy-next i n dst a j b w = record {
  same_size = w.same_size;
  copied = λ k lt. elim (Bool-cases (k == 0)) [
    | inl nought ↦
        let e : i + k ≡ i = ground arith in
        let e' : j + k ≡ j = ground arith in
        let self : (i == i) ≡ true = ground arith in
        rw (e, e') (w.front i (omega arith) ∙ rw self refl)
    | inr later ↦
        let e : i + k ≡ suc i + (k - 1) = ground arith in
        let e' : j + k ≡ suc j + (k - 1) = ground arith in
        rw (e, e') (w.copied (k - 1) (ground arith))
  ];
  front = λ k lt. let d : (i == k) ≡ false = ground arith in w.front k (omega arith) ∙ rw d refl;
  behind = λ k le. let d : (i == k) ≡ false = ground arith in w.behind k (omega arith) ∙ rw d refl;
}

-- `strcpy` of a string copies its characters and its end, and changes no other cell of an array
-- that has room for them; more rounds than it has characters are enough.
pub strcpy-IsCopy :
    (fuel : ℕ) (dst : Arr ℕ) (i : ℕ) (a : Arr ℕ) (j n : ℕ)
    → n < fuel
    → i + n < dst.size
    → IsText a j n
    → Returns (IsCopy i (suc n) dst a j) (strcpy fuel dst i a j)
unfolding strcpy
strcpy-IsCopy zero dst i a j n f room w = absurd (omega arith)
strcpy-IsCopy (suc fuel) dst i a j zero f room w =
    let e : (a.at j == 0) ≡ true = let end = IsText-empty a j w in ground arith in
    rw (read-ok a j (omega (arith, w.fits)), write-ok dst i (a.at j) (omega arith), e)
      (returns (
        IsCopy-next i 0 dst a j (put dst i (a.at j)) (record {
          same_size = refl;
          copied = λ k lt. absurd (omega arith);
          front = λ k lt. refl;
          behind = λ k le. refl;
        })))
strcpy-IsCopy (suc fuel) dst i a j (suc n) f room w =
    rw
      (
        read-ok a j (omega (arith, w.fits)),
        write-ok dst i (a.at j) (omega arith),
        IsText-head a j n w,
      )
      (Returns-mono
        (strcpy-IsCopy fuel (put dst i (a.at j)) (suc i) a (suc j) n (omega arith) (omega arith)
          (IsText-next a j n w))
        λ b v. IsCopy-next i (suc n) dst a j b v)

copy_loop-IsCopy :
    (len : ℕ) (dst : Arr ℕ) (i : ℕ) (a : Arr ℕ) (j n : ℕ)
    → i + min len n < dst.size
    → IsText a j n
    → Returns
        (λ (r, b). (r ≡ i + min len n) × IsCopy i (min len n) dst a j b)
        (copy_loop len dst i a j)
unfolding copy_loop
copy_loop-IsCopy zero dst i a j n room w =
    let e : min 0 n ≡ 0 = omega arith in
    rw e (
      returns (
        omega arith,
        record {
          same_size = refl;
          copied = λ k lt. absurd (omega arith);
          front = λ k lt. refl;
          behind = λ k le. refl;
        },
      ))
copy_loop-IsCopy (suc len) dst i a j zero room w =
    let e : min (suc len) 0 ≡ 0 = omega arith in
    rw (read-ok a j (omega (arith, w.fits)), IsText-empty a j w, e)
      (returns (
        omega arith,
        record {
          same_size = refl;
          copied = λ k lt. absurd (omega arith);
          front = λ k lt. refl;
          behind = λ k le. refl;
        },
      ))
copy_loop-IsCopy (suc len) dst i a j (suc n) room w =
    let e : min (suc len) (suc n) ≡ suc (min len n) = omega arith in
    rw
      (
        read-ok a j (omega (arith, w.fits)),
        IsText-head a j n w,
        write-ok dst i (a.at j) (omega arith),
        e,
      )
      (Returns-mono
        (copy_loop-IsCopy len (put dst i (a.at j)) (suc i) a (suc j) n (omega arith)
          (IsText-next a j n w))
        λ (r, b) (end, v). (omega arith, IsCopy-next i (min len n) dst a j b v))

-- `substr` of a string from a place in it on, or from its end on, gives the number of characters
-- that it copies: `len`, or as many as there are. They stand in the array afterwards, as a string,
-- if it has room for them.
pub substr-IsText :
    (dst a : Arr ℕ) (start len n : ℕ)
    → IsText a 0 n
    → start ≤ n
    → 0 < len
    → min len (n - start) < dst.size
    → Returns
        (λ (r, b).
          (r ≡ min len (n - start)) × IsText b 0 r × ((k : ℕ) → k < r → b.at k ≡ a.at (start + k)))
        (substr dst a (pos start) (pos len))
unfolding substr
substr-IsText dst a start len n w le some_there room =
    let e : (leb_ℤ (pos 0) (pos start) && ltb_ℤ (pos 0) (pos len)) ≡ true = ground arith in
    let e' : 0 + n - start ≡ n - start = omega arith in
    let tail = IsText-from a 0 n start w (omega arith) (omega arith) in
    rw e (
      Returns-bind (copy_loop-IsCopy len dst 0 a start (n - start) (omega arith) (rw e' at tail))
        λ (r, b) (end, v). rw (write-ok b r 0 (omega (arith, v.same_size))) (
          returns (
            let copied : (k : ℕ) → k < r → (put b r 0).at k ≡ a.at (start + k) = λ k lt.
              let d : (r == k) ≡ false = ground arith in
              let f : 0 + k ≡ k = omega arith in
              let old = v.copied k (omega arith) in rw d (rw f at old) in
            (
              omega arith,
              record {
                fits = omega (arith, v.same_size);
                full = λ k lt same.
                    let f : 0 + k ≡ k = omega arith in
                    let same' = rw f at same in
                    tail.full k (omega arith) (sym (copied k lt) ∙ same');
                end = let d : (r == 0 + r) ≡ true = ground arith in rw d refl;
              },
              copied,
            ))))
