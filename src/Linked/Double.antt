-- ===== src/Linked/Double.antt =====
-- Double_linked_list.c. A list is the address of its header, a node whose element means nothing.
-- The loops run on `fuel` rounds.
pub mod Chain
pub mod Delete
pub mod Ends
pub mod Find
pub mod Place
pub mod Order
pub mod Skip
use core_technologies.Base.{
  List, [], eqb_ℤ, if◌then◌else◌, leb_ℤ, ltb_ℤ, ok, out_of_fuel, some, suc, zero, ℕ, ℤ, ◌&&◌, ◌==◌,
  ◌∷◌, not,
}
use core_technologies.Linked.Memory.{
  Command, Memory, Ptr, alloc, free, load, pure, set_cell, ◌>>=◌, ◌>>◌,
}

pub record Dll : Type 0 where
  pub element : ℤ
  pub previous : Ptr
  pub next : Ptr

abbrev pub dll : ℤ → (previous next : Ptr) → Dll
dll x b q = record { element = x; previous = b; next = q }

abbrev pub Heap : Type 0
Heap = Memory Dll

abbrev pub Cmd : Type 0 → Type 0
Cmd = Command Dll

-- `p->next = q` and `p->previous = q`
unfoldable pub set_next : Ptr → Ptr → Cmd (Unit {0})
set_next p q = do n ← load p; λ h. ok (tt, set_cell h p (some (record n { next = q })))

unfoldable pub set_previous : Ptr → Ptr → Cmd (Unit {0})
set_previous p q = do n ← load p; λ h. ok (tt, set_cell h p (some (record n { previous = q })))

-- `CreateHeader`, with what `malloc` leaves in the element
unfoldable pub create_header : (fresh : Ptr) → ℤ → Cmd Ptr
create_header fresh rest = do alloc fresh (dll rest 0 0); pure fresh

unfoldable pub insert_front : (header : Ptr) → ℤ → (fresh : Ptr) → Cmd (Unit {0})
insert_front header x fresh = do
  n ← load header
  alloc fresh (dll x header n.next)
  set_next header fresh

-- `while (p->next) p = p->next;` and the two links to the new node
unfoldable pub link_last : ℕ → (p tmp : Ptr) → Cmd (Unit {0})
link_last zero p tmp = λ h. out_of_fuel
link_last (suc fuel) p tmp = do
  n ← load p
  if n.next == 0 then (do set_previous tmp p; set_next p tmp) else link_last fuel n.next tmp

-- `rest` is what `malloc` leaves in `previous`
unfoldable pub insert_tail : ℕ → (header : Ptr) → ℤ → (fresh rest : Ptr) → Cmd (Unit {0})
insert_tail fuel header x fresh rest = do alloc fresh (dll x rest 0); link_last fuel header fresh

-- the loop of `InsertOrder` and the three links that follow it
unfoldable pub link_order : ℕ → (p : Ptr) → ℤ → (tmp : Ptr) → Cmd (Unit {0})
link_order zero p x tmp = λ h. out_of_fuel
link_order (suc fuel) p x tmp = do
  n ← load p
  if not (n.next == 0) && ltb_ℤ n.element x
      then link_order fuel n.next x tmp
      else (do set_next tmp n.next; set_previous tmp p; set_next p tmp)

-- `rest` is the node that `malloc` leaves
unfoldable pub insert_order : ℕ → (header : Ptr) → ℤ → (fresh : Ptr) → (rest : Dll) → Cmd (Unit {0})
insert_order fuel header x fresh rest = do
  alloc fresh (record rest { element = x })
  n ← load header
  if n.next == 0
      then (do set_next fresh n.next; set_next header fresh; set_previous fresh header)
      else (do
        m ← load n.next
        if leb_ℤ x m.element
            then (do set_next fresh n.next; set_next header fresh; set_previous fresh header)
            else link_order fuel n.next x fresh)

-- `while (p != NULL && p->element != x) p = p->next;`
unfoldable pub find_loop : ℕ → (p : Ptr) → ℤ → Cmd Ptr
find_loop zero p x = λ h. out_of_fuel
find_loop (suc fuel) p x =
    if p == 0
    then pure p
    else do n ← load p; if eqb_ℤ n.element x then pure p else find_loop fuel n.next x

-- `Delete`, which has no test for a missing element or for the last node
unfoldable pub delete : ℕ → (header : Ptr) → ℤ → Cmd (Unit {0})
delete fuel header x = do
  n ← load header
  p ← find_loop fuel n.next x
  m ← load p
  set_next m.previous m.next
  m ← load p
  set_previous m.next m.previous
  free p

-- `PrintList`, as the list of what it prints
unfoldable pub print_loop : ℕ → Ptr → Cmd (List ℤ)
print_loop zero p = λ h. out_of_fuel
print_loop (suc fuel) p =
    if p == 0 then pure [] else do n ← load p; xs ← print_loop fuel n.next; pure (n.element ∷ xs)

unfoldable pub print_list : ℕ → (header : Ptr) → Cmd (List ℤ)
print_list fuel header = do n ← load header; print_loop fuel n.next
