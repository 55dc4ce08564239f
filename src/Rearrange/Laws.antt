-- ===== src/Rearrange/Laws.antt =====
-- `rearrange` on columns that lie in the line.
use core_technologies.Base.{
  Arr, List, Returns, Returns-bind, Returns-mono, Run, [], arith, cells, cells-split, false, leb_ℤ,
  ltb_ℤ, pos, read-ok, refl, returns, suc, true, write-ok, zero, ℕ, ℤ, ◌+ℤ◌, ◌+◌, ◌-ℤ◌, ◌-◌, ◌<◌,
  ◌==◌, ◌∙◌, ◌∷◌, ◌≡◌, ◌≢◌, ◌≤◌,
}
use core_technologies.Rearrange.{clipped, copy_chars, max_input, rearrange, rearrange_loop}
use core_technologies.Rearrange.Spec.{
  Copied, Inside, IsStrlen, IsStrncpy, Rearranges, Stored, columns_of, selected, width,
}
use core_technologies.Text.Spec.{IsText}

Stored-le :
    (columns : Arr ℤ) (col : ℕ) (pairs : List (ℕ × ℕ))
    → Stored columns col pairs
    → col ≤ columns.size
unfolding Stored
Stored-le columns col [] w = w
Stored-le columns col ((start, stop) ∷ pairs) (_, _, w) =
    let more = Stored-le columns (suc (suc col)) pairs w in omega arith

-- equal cells at different places
cells_moved :
    (f g : ℕ → ℕ) (i j n : ℕ)
    → ((k : ℕ) → k < n → f (i + k) ≡ g (j + k))
    → cells f i n ≡ cells g j n
unfolding cells
cells_moved f g i j zero h = refl
cells_moved f g i j (suc n) h =
    let e : i + 0 ≡ i = omega arith in
    let e' : j + 0 ≡ j = omega arith in
    let old = h 0 (omega arith) in
    let first : f i ≡ g j = rw (e, e') at old in
    rw (
      first,
      cells_moved f g (suc i) (suc j) n λ k lt.
          let up : suc i + k ≡ i + suc k = omega arith in
          let up' : suc j + k ≡ j + suc k = omega arith in rw (up, up') (h (suc k) (omega arith)),
    )

+ℤ-pos : (a b : ℕ) → pos a +ℤ pos b ≡ pos (a + b)
unfolding ◌+ℤ◌
+ℤ-pos a b = ground arith

+ℤ-zero : (a : ℕ) → pos a +ℤ pos 0 ≡ pos a
unfolding ◌+ℤ◌
+ℤ-zero a = ground arith

-- the number of characters from `start` to `stop`
span : (start stop : ℕ) → start ≤ stop → pos stop -ℤ pos start +ℤ pos 1 ≡ pos (suc stop - start)
unfolding ◌+ℤ◌ ◌-ℤ◌
span start stop le = ground arith

clipped_small : (n : ℕ) → n < max_input → clipped 0 (pos n) ≡ pos n
unfolding clipped ◌+ℤ◌
clipped_small n lt = ground arith

Rearranges-join :
    (output input : Arr ℕ) (place start stop : ℕ) (pairs : List (ℕ × ℕ)) (d r : Arr ℕ)
    → Copied output place input start (suc stop - start) d
    → Rearranges d input (place + (suc stop - start)) pairs r
    → Rearranges output input place ((start, stop) ∷ pairs) r
unfolding Rearranges width selected
Rearranges-join output input place start stop pairs d r w (held, end, front) =
    let n = suc stop - start in
    let e : place + n + width pairs ≡ place + (n + width pairs) = omega arith in
    let piece : cells r.at place n ≡ cells input.at start n =
      cells_moved r.at input.at place start n
        λ k lt. front (place + k) (omega arith) ∙ w.copied k lt in
    (
      cells-split r.at place n (width pairs) ∙ rw (piece, held) refl,
      rw e at end,
      λ k lt. front k (omega arith) ∙ w.front k lt,
    )

module _ (strlen : Arr ℕ → Run ℕ)
    (strncpy : (dst : Arr ℕ) (place : ℤ) (src : Arr ℕ) (from n : ℤ) → Run (Arr ℕ))
    (strlen_law : IsStrlen strlen) (strncpy_law : IsStrncpy strncpy) where
  copy_chars-Copied :
      (output input : Arr ℕ) (place start n : ℕ)
      → place + n < output.size
      → start + n ≤ input.size
      → ((k : ℕ) → k < n → input.at (start + k) ≢ 0)
      → Returns
          (λ (d, place').
            Copied output place input start n d
            × (d.at (place + n) ≡ 0)
            × (place' ≡ pos (place + n)))
          (copy_chars strlen strncpy output input (pos place) 0 (pos start) (pos n))
  unfolding copy_chars IsStrncpy
  copy_chars-Copied output input place start n room inside full =
      rw (+ℤ-zero place, +ℤ-pos place n, +ℤ-zero (place + n))
        (Returns-bind (strncpy_law output place input start n (omega arith) inside full) λ d w.
          rw (write-ok d (place + n) 0 (omega (arith, w.same_size))) (
            returns (
              record {
                same_size = w.same_size;
                copied = λ k lt.
                    let other : (place + n == place + k) ≡ false = ground arith in
                    rw other (w.copied k lt);
                front = λ k lt.
                    let other : (place + n == k) ≡ false = ground arith in rw other (w.front k lt);
              },
              (let self : (place + n == place + n) ≡ true = ground arith in rw self refl),
              refl,
            )))

  rearrange_loop-Rearranges :
      (fuel : ℕ) (output input : Arr ℕ) (place : ℕ) (columns : Arr ℤ) (len col : ℕ)
      → (pairs : List (ℕ × ℕ)) → columns_of pairs < fuel
      → len < max_input
      → IsText input 0 len
      → Stored columns col pairs
      → Inside len pairs
      → place + width pairs < output.size
      → (pairs ≡ [] → output.at place ≡ 0)
      → Returns (Rearranges output input place pairs) (
          rearrange_loop strlen strncpy fuel output input
            (pos place)
            0
            (pos (col + columns_of pairs))
            columns
            len
            col)
  unfolding Rearranges rearrange_loop columns_of Stored Inside width selected cells
  rearrange_loop-Rearranges zero output input place columns len col pairs f short text stored inside
        room ended =
      absurd (omega arith)
  rearrange_loop-Rearranges (suc fuel) output input place columns len col [] f short text stored
        inside room ended =
      let done : ltb_ℤ (pos col) (pos (col + 0)) ≡ false = ground arith in
      let here : place + 0 ≡ place = omega arith in
      rw done (returns (refl, rw here (ended refl), λ k lt. refl))
  rearrange_loop-Rearranges (suc fuel) output input place columns len col ((start, stop) ∷ pairs) f
        short text (first, second, stored) (ascend, within, inside) room ended =
      let bound = Stored-le columns (suc (suc col)) pairs stored in
      let more : ltb_ℤ (pos col) (pos (col + suc (suc (columns_of pairs)))) ≡ true = ground arith in
      let next : col + 1 ≡ suc col = omega arith in
      let next' : col + 2 ≡ suc (suc col) = omega arith in
      let ends : col + suc (suc (columns_of pairs)) ≡ suc (suc col) + columns_of pairs =
        omega arith in
      let before : leb_ℤ (pos len) (pos start) ≡ false = ground arith in
      rw
        (
          more,
          next,
          read-ok columns (suc col) (omega arith),
          read-ok columns col (omega arith),
          first,
          second,
          before,
          span start stop ascend,
          clipped_small (suc stop - start) (omega arith),
          next',
          ends,
        )
        (Returns-bind
          (copy_chars-Copied output input place start (suc stop - start) (omega arith)
            (omega (arith, text.fits))
            (λ k lt.
              let e : 0 + (start + k) ≡ start + k = omega arith in
              let old = text.full (start + k) (omega arith) in rw e at old))
          λ (d, place') (w, nul, e). rw e (
            Returns-mono
              (rearrange_loop-Rearranges fuel d input (place + (suc stop - start)) columns len
                (suc (suc col)) pairs (omega arith) short text stored inside
                (omega (arith, w.same_size)) (λ none. nul))
              λ r held. Rearranges-join output input place start stop pairs d r w held))

  -- `rearrange` with at least one pair of columns, each of which ascends and lies in the line, where
  -- the line is a string of less than `MAX_INPUT` characters, writes the characters of the line that
  -- stand in the columns, in the order of the pairs, and a 0 behind them, if the output has room for
  -- all. It is supposed that `strlen` gives the length of
  -- a string and that `strncpy` copies characters of a string. More rounds than columns are enough.
  pub rearrange-Rearranges :
      (fuel : ℕ) (output input : Arr ℕ) (columns : Arr ℤ) (len : ℕ) (pairs : List (ℕ × ℕ))
      → columns_of pairs < fuel
      → len < max_input
      → IsText input 0 len
      → Stored columns 0 pairs
      → Inside len pairs
      → width pairs < output.size
      → pairs ≢ []
      → Returns
          (Rearranges output input 0 pairs)
          (rearrange strlen strncpy fuel output input (pos (columns_of pairs)) columns)
  unfolding rearrange IsStrlen
  rearrange-Rearranges fuel output input columns len pairs f short text stored inside room some_ =
      let e : 0 + columns_of pairs ≡ columns_of pairs = omega arith in
      let start =
        rearrange_loop-Rearranges fuel output input 0 columns len 0 pairs f short text stored inside
          (omega arith) (λ none. absurd (some_ none)) in
      rw (strlen_law input len text) (rw e at start)
