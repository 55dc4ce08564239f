-- ===== src/Hash/Open.antt =====
-- OpenAddressing.c, with its double hashing. An index that is negative, as that of a negative
-- element can be, is an access out of bounds.
pub mod Laws
pub mod Update
use core_technologies.Base.{
  Arr, List, Run, [], eqb_ℤ, for_range, if◌then◌else◌, negsuc, not, ok, out_of_fuel, pos, read,
  read_at, sub_ℕ, suc, write, write_at, zero, ℕ, ℤ, ◌&&◌, ◌+ℤ◌, ◌==◌, ◌>>=◌, ◌>>◌, ◌∷◌,
}
use core_technologies.Hash.{rem}

pub record Element : Type 0 where
  pub element : ℤ
  pub status : ℕ

-- `EMPTY` and `OCCUPIED`
abbrev pub empty : ℕ
empty = 0

abbrev pub occupied : ℕ
occupied = 1

pub record HashTable : Type 0 where
  pub tablesize : ℕ
  pub arr : Arr Element

unfoldable pub hash : ℤ → ℕ → Run ℤ
hash element tablesize = rem element (pos tablesize)

-- `InitializeHashTable`: its loop overwrites what `malloc` leaves in the cells
unfoldable pub initialize_hash_table : ℕ → (ℕ → Element) → Run HashTable
initialize_hash_table tablesize fresh = do
  arr ←
      for_range 0 tablesize (λ i arr. write arr i (record { element = negsuc 0; status = empty }))
        (record { size = tablesize; at = fresh })
  ok (record { tablesize = tablesize; arr = arr })

unfoldable pub hash2 : ℤ → ℕ → Run ℤ
hash2 element tablesize = do r ← rem element (sub_ℕ tablesize 5); ok (pos 5 +ℤ r)

-- the loop of `Find`
unfoldable pub find_loop : ℕ → HashTable → ℤ → (offset index : ℤ) → Run ℤ
find_loop zero h element offset index = out_of_fuel
find_loop (suc fuel) h element offset index = do
  cell ← read_at h.arr index
  if not (cell.status == empty) && not (eqb_ℤ cell.element element)
      then (do
        index ← rem (index +ℤ offset) (pos h.tablesize)
        find_loop fuel h element offset index)
      else ok index

unfoldable pub find : ℕ → HashTable → ℤ → Run ℤ
find fuel h element = do
  index ← hash element h.tablesize
  offset ← hash2 element h.tablesize
  find_loop fuel h element offset index

unfoldable pub insert : ℕ → HashTable → ℤ → Run HashTable
insert fuel h element = do
  index ← find fuel h element
  cell ← read_at h.arr index
  if cell.status == empty
      then (do
        arr ← write_at h.arr index (record { element = element; status = occupied })
        ok (record h { arr = arr }))
      else ok h

unfoldable pub delete : ℕ → HashTable → ℤ → Run (ℤ × HashTable)
delete fuel h element = do
  index ← find fuel h element
  cell ← read_at h.arr index
  arr ← write_at h.arr index (record { element = negsuc 0; status = empty })
  ok (cell.element, record h { arr = arr })

-- `ShowHashTable`, as the list of what it prints
unfoldable pub show_loop : Arr Element → ℕ → ℕ → Run (List (ℕ × ℤ × ℕ))
show_loop arr i zero = ok []
show_loop arr i (suc n) = do
  cell ← read arr i
  rest ← show_loop arr (suc i) n
  ok ((i, cell.element, cell.status) ∷ rest)

unfoldable pub show_hash_table : HashTable → Run (List (ℕ × ℤ × ℕ))
show_hash_table h = show_loop h.arr 0 h.tablesize
