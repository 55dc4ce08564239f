-- ===== src/Hash/Open/Update.antt =====
-- `Insert` and `Delete`.
use core_technologies.Base.{
  Bool-cases, Returns, arith, eq_of_parts, false, inl, inr, negsuc, ok, pos, put, refl, returns,
  true, write-ok, ℕ, ◌<◌, ◌==◌, ◌≡◌, ◌≢◌,
}
use core_technologies.Hash.Open.{Element, HashTable, delete, empty, find, insert, occupied}
use core_technologies.Hash.Open.Laws.{IsTable, find-probe, passes, probe, probe-lt, probe-read}

-- the table with a cell overwritten
abbrev pub set_element : HashTable → ℕ → Element → HashTable
set_element h i cell = record h { arr = put h.arr i cell }

-- no other cell has changed
abbrev pub SameElse : ℕ → HashTable → HashTable → Type 0
SameElse i h h' = (k : ℕ) → k ≢ i → h'.arr.at k ≡ h.arr.at k

passes-occupied : (e : ℕ) → passes (record { element = pos e; status = occupied }) e ≡ false
passes-occupied e = ground arith

passes-empty : (e : ℕ) → passes (record { element = negsuc 0; status = empty }) e ≡ false
passes-empty e = refl

held :
    (cell : Element) (e : ℕ)
    → passes cell e ≡ false
    → (cell.status == empty) ≡ false
    → cell.element ≡ pos e
held cell e stops full = eq_of_parts cell.element (pos e) (ground arith)

passes_apart :
    (h : HashTable) (e i j : ℕ)
    → passes (h.arr.at i) e ≡ false
    → passes (h.arr.at j) e ≡ true
    → i ≢ j
passes_apart h e i j stops goes same = cc

-- what `Insert` and `Delete` know of the place that `Find` gives
module _ (h : HashTable) (e n : ℕ) (w : IsTable h)
    (before : (j : ℕ) → j < n → passes (h.arr.at (probe h.tablesize e j)) e ≡ true)
    (here : passes (h.arr.at (probe h.tablesize e n)) e ≡ false) where
  -- a write at that place leaves the probes in front of it
  before_set :
      (cell : Element) (j : ℕ)
      → j < n
      → passes ((set_element h (probe h.tablesize e n) cell).arr.at (probe h.tablesize e j)) e
        ≡ true
  before_set cell j lt =
      let apart =
        passes_apart h e (probe h.tablesize e n) (probe h.tablesize e j) here (before j lt) in
      let differ : (probe h.tablesize e n == probe h.tablesize e j) ≡ false = ground arith in
      rw differ (before j lt)

  find-set_element :
      (fuel : ℕ) (cell : Element)
      → n < fuel
      → passes cell e ≡ false
      → find fuel (set_element h (probe h.tablesize e n) cell) (pos e)
        ≡ ok (pos (probe h.tablesize e n))
  find-set_element fuel cell f stops =
      let i = probe h.tablesize e n in
      let same : (i == i) ≡ true = ground arith in
      find-probe fuel (set_element h i cell) e n (record { large = w.large; fits = w.fits })
        (before_set cell) (rw same stops) f

  -- `Insert` of an element that is not negative, in a table of more than five cells where its `n`th
  -- probe is the first to reach a cell that is empty or holds it, with more than `n` rounds: `Find` gives that cell afterwards, which then holds the element, and no
  -- other cell has changed.
  pub insert-find :
      (fuel : ℕ)
      → n < fuel
      → Returns
          (λ h'.
            (find fuel h' (pos e) ≡ ok (pos (probe h.tablesize e n)))
            × ((h'.arr.at (probe h.tablesize e n)).element ≡ pos e)
            × ((h'.arr.at (probe h.tablesize e n)).status ≢ empty)
            × SameElse (probe h.tablesize e n) h h')
          (insert fuel h (pos e))
  insert-find fuel f =
      let i = probe h.tablesize e n in
      let same : (i == i) ≡ true = ground arith in
      let lt = probe-lt h.tablesize e n (omega (arith, w.large)) in
      let found = find-probe fuel h e n w before here f in
      unfold insert in
      rw (found, probe-read h e n w)
        (elim (Bool-cases ((h.arr.at i).status == empty)) [
          | inl free ↦
              rw
                (
                  free,
                  write-ok h.arr i (record { element = pos e; status = occupied })
                      (omega (arith, lt, w.fits)),
                )
                (returns (
                  find-set_element fuel (record { element = pos e; status = occupied }) f
                      (passes-occupied e),
                  rw same refl,
                  rw same (omega arith),
                  λ k differ. ground arith,
                ))
          | inr full ↦
              rw full
                (returns (found, held (h.arr.at i) e here full, ground arith, λ k differ. refl))
        ])

  -- `Delete` of that element gives the element of the cell that `Find` gives, and empties it.
  delete-probe :
      (fuel : ℕ)
      → n < fuel
      → delete fuel h (pos e)
        ≡ ok (
          (h.arr.at (probe h.tablesize e n)).element,
          set_element h (probe h.tablesize e n) (record { element = negsuc 0; status = empty }),
        )
  delete-probe fuel f =
      let i = probe h.tablesize e n in
      let lt = probe-lt h.tablesize e n (omega (arith, w.large)) in
      unfold delete in
      rw
        (
          find-probe fuel h e n w before here f,
          probe-read h e n w,
          write-ok h.arr i (record { element = negsuc 0; status = empty })
              (omega (arith, lt, w.fits)),
        )
        refl

-- `Delete` of an element `e` that is not negative empties the cell where its probes stop, in a
-- table of more than five cells. Another element `d`, that stands
-- behind this cell on its own probes and was found there, is not found any more: `Find` gives the
-- emptied cell, though `d` still stands in the table.
pub delete-find :
    (fuel : ℕ) (h : HashTable) (e n d m p : ℕ)
    → IsTable h
    → ((j : ℕ) → j < n → passes (h.arr.at (probe h.tablesize e j)) e ≡ true)
    → passes (h.arr.at (probe h.tablesize e n)) e ≡ false
    → ((j : ℕ) → j < p → passes (h.arr.at (probe h.tablesize d j)) d ≡ true)
    → (h.arr.at (probe h.tablesize d p)).element ≡ pos d
    → m < p
    → probe h.tablesize d m ≡ probe h.tablesize e n
    → ((j : ℕ) → j < m → probe h.tablesize d j ≢ probe h.tablesize e n)
    → n < fuel
    → p < fuel
    → (find fuel h (pos d) ≡ ok (pos (probe h.tablesize d p)))
      × Returns
          (λ (_, h').
            (find fuel h' (pos d) ≡ ok (pos (probe h.tablesize d m)))
            × ((h'.arr.at (probe h.tablesize d m)).status ≡ empty)
            × ((h'.arr.at (probe h.tablesize d p)).element ≡ pos d))
          (delete fuel h (pos e))
delete-find fuel h e n d m p w before here before' here' lt meets first f f' =
    let i = probe h.tablesize e n in
    let gone : Element = record { element = negsuc 0; status = empty } in
    let h' = set_element h i gone in
    let stops : passes (h.arr.at (probe h.tablesize d p)) d ≡ false = rw here' (ground arith) in
    let apart =
      passes_apart h d (probe h.tablesize d p) (probe h.tablesize d m) stops (before' m lt) in
    let same : (i == i) ≡ true = ground arith in
    let kept : (i == probe h.tablesize d p) ≡ false = ground arith in
    (
      find-probe fuel h d p w before' stops f',
      rw (delete-probe h e n w before here fuel f) (
          returns (
            find-probe fuel h' d m (record { large = w.large; fits = w.fits })
                (λ j less.
                  let far = first j less in
                  let differ : (i == probe h.tablesize d j) ≡ false = ground arith in
                  rw differ (before' j (omega arith)))
                (rw (meets, same) refl) (omega arith),
            rw (meets, same) refl,
            rw kept here',
          )),
    )
