-- ===== src/Hash/Chained.antt =====
-- SeparateChaining.c. The buckets are lists behind headers; the loops on a bucket are those of
-- Linked/Single, on `fuel` rounds. An index that is negative, as that of a negative key is, is an
-- access out of bounds.
pub mod Buckets
pub mod Laws
use core_technologies.Base.{
  Arr, List, Run, [], cells, fault, if◌then◌else◌, negsuc, ok, out_of_fuel, pos, read, read_at, suc,
  write, write_at, zero, ℕ, ℤ, ◌==◌, ◌∷◌,
}
use core_technologies.Hash.{rem}
use core_technologies.Linked.Single.{find_loop, insert_front, predecessor, print_loop}
use core_technologies.Linked.Store.{Cmd, Ptr, alloc, free, load, node, pure, set_next, ◌>>=◌, ◌>>◌}

pub record HashTable : Type 0 where
  pub tablesize : ℕ
  pub arr : Arr Ptr

-- a run that does not touch the nodes
abbrev pub lift : {A : Type 0} → Run A → Cmd A
lift (ok a) h = ok (a, h)
lift fault h = fault
lift out_of_fuel h = out_of_fuel

-- `Hash`, which takes its arguments in the other order
unfoldable pub hash : ℕ → ℤ → Run ℤ
hash tablesize key = rem key (pos tablesize)

-- the loop of `InitializeHashTable`: the headers at the addresses that `malloc` gives, with what
-- it leaves in their elements
unfoldable pub initialize_loop : ℕ → ℕ → (ℕ → Ptr) → (ℕ → ℤ) → Arr Ptr → Cmd (Arr Ptr)
initialize_loop zero i fresh rest arr = pure arr
initialize_loop (suc n) i fresh rest arr = do
  arr ← lift (write arr i (fresh i))
  alloc (fresh i) (node (rest i) 0)
  initialize_loop n (suc i) fresh rest arr

-- `InitializeHashTable`
unfoldable pub initialize_hash_table : ℕ → (ℕ → Ptr) → (ℕ → ℤ) → (ℕ → Ptr) → Cmd HashTable
initialize_hash_table tablesize fresh rest cells = do
  arr ← initialize_loop tablesize 0 fresh rest (record { size = tablesize; at = cells })
  pure (record { tablesize = tablesize; arr = arr })

unfoldable pub find : ℕ → ℤ → HashTable → Cmd Ptr
find fuel key t = do
  index ← lift (hash t.tablesize key)
  l ← lift (read_at t.arr index)
  n ← load l
  find_loop fuel n.next key

unfoldable pub insert : ℕ → ℤ → HashTable → (fresh : Ptr) → Cmd (Unit {0})
insert fuel key t fresh = do
  p ← find fuel key t
  if p == 0
      then (do
        index ← lift (hash t.tablesize key)
        l ← lift (read_at t.arr index)
        insert_front l key fresh)
      else pure tt

-- `Delete`; the message for a missing element is left out
unfoldable pub delete : ℕ → HashTable → ℤ → Cmd (ℤ × HashTable)
delete fuel t element = do
  index ← lift (hash t.tablesize element)
  l ← lift (read_at t.arr index)
  p ← find fuel element t
  if p == 0 then pure (negsuc 0, t) else (do
    pre ← predecessor fuel l p
    n ← load p
    set_next pre n.next
    m ← load l
    arr ← lift (if m.next == p then write_at t.arr index pre else ok t.arr)
    free p
    pure (n.element, record t { arr = arr }))

-- `ShowHashTable`, as the lists of what it prints
unfoldable pub show_loop : ℕ → ℕ → ℕ → Arr Ptr → Cmd (List (List ℤ))
show_loop fuel zero i arr = pure []
show_loop fuel (suc n) i arr = do
  l ← lift (read arr i)
  m ← load l
  xs ← print_loop fuel m.next
  rest ← show_loop fuel n (suc i) arr
  pure (xs ∷ rest)

unfoldable pub show_hash_table : ℕ → HashTable → Cmd (List (List ℤ))
show_hash_table fuel t = show_loop fuel t.tablesize 0 t.arr
