-- ===== src/Linked/Single.antt =====
-- Single_linked_list.c. A list is the address of its header, a node whose element means nothing.
-- The loops run on `fuel` rounds.
pub mod Insert
pub mod Find
pub mod Order
pub mod Unlink
pub mod Delete
pub mod Merge
use core_technologies.Base.{
  Bool, List, [], count, eqb_ℤ, if◌then◌else◌, leb_ℤ, ltb_ℤ, negsuc, out_of_fuel, pos, suc, zero, ℕ,
  ℤ, ◌+◌, ◌==◌, ◌∷◌,
}
use core_technologies.Linked.Store.{
  Cmd, Node, Ptr, alloc, free, load, node, pure, set_element, set_next, ◌>>=◌, ◌>>◌,
}

-- `CreatHeader`, with what `malloc` leaves in the element
unfoldable pub creat_header : (fresh : Ptr) → ℤ → Cmd Ptr
creat_header fresh rest = do alloc fresh (node rest 0); pure fresh

-- `JudgeIsEmpty`, with what it says
unfoldable pub judge_is_empty : Ptr → Cmd Bool
judge_is_empty header = do n ← load header; pure (n.next == 0)

pub insert_front : (header : Ptr) → ℤ → (fresh : Ptr) → Cmd (Unit {0})
insert_front header x fresh = do n ← load header; alloc fresh (node x n.next); set_next header fresh

-- `while (p->next != NULL) p = p->next;` and the link to the new node
unfoldable pub link_last : ℕ → (p target : Ptr) → Cmd (Unit {0})
link_last zero p target = λ h. out_of_fuel
link_last (suc fuel) p target = do
  n ← load p
  if n.next == 0 then set_next p target else link_last fuel n.next target

pub insert_tail : ℕ → (header : Ptr) → ℤ → (fresh : Ptr) → Cmd (Unit {0})
insert_tail fuel header x fresh = do alloc fresh (node x 0); link_last fuel header fresh

-- the loop of `InsertOrder` and the two links that follow it
unfoldable pub link_order : ℕ → (p : Ptr) → ℤ → (tmp : Ptr) → Cmd (Unit {0})
link_order zero p x tmp = λ h. out_of_fuel
link_order (suc fuel) p x tmp = do
  n ← load p
  if n.next == 0 then (do set_next tmp n.next; set_next p tmp) else (do
    m ← load n.next
    if ltb_ℤ m.element x
        then link_order fuel n.next x tmp
        else (do set_next tmp n.next; set_next p tmp))

-- `rest` is what `malloc` leaves in the link of the new node
pub insert_order : ℕ → (header : Ptr) → ℤ → (fresh rest : Ptr) → Cmd (Unit {0})
insert_order fuel header x fresh rest = do
  alloc fresh (node x rest)
  n ← load header
  if n.next == 0 then (do set_next fresh n.next; set_next header fresh) else (do
    m ← load n.next
    if leb_ℤ x m.element
        then (do set_next fresh n.next; set_next header fresh)
        else link_order fuel n.next x fresh)

-- `while (p != NULL && p->element != x) p = p->next;`
unfoldable pub find_loop : ℕ → (p : Ptr) → ℤ → Cmd Ptr
find_loop zero p x = λ h. out_of_fuel
find_loop (suc fuel) p x =
    if p == 0
    then pure p
    else do n ← load p; if eqb_ℤ n.element x then pure p else find_loop fuel n.next x

unfoldable pub find : ℕ → (header : Ptr) → ℤ → Cmd Ptr
find fuel header x = do n ← load header; find_loop fuel n.next x

-- the loop of `FindNodeth`, and the -1 for a list without the element
unfoldable pub nodeth_loop : ℕ → (p : Ptr) → ℤ → (count : ℕ) → Cmd ℤ
nodeth_loop zero p x count = λ h. out_of_fuel
nodeth_loop (suc fuel) p x count = if p == 0 then pure (negsuc 0) else do
  n ← load p
  if eqb_ℤ n.element x then pure (pos count) else nodeth_loop fuel n.next x (count + 1)

unfoldable pub find_nodeth : ℕ → (header : Ptr) → ℤ → Cmd ℤ
find_nodeth fuel header x = do n ← load header; nodeth_loop fuel n.next x 1

-- `while (pre->next != p) pre = pre->next;`
unfoldable pub predecessor : ℕ → (pre p : Ptr) → Cmd Ptr
predecessor zero pre p = λ h. out_of_fuel
predecessor (suc fuel) pre p = do
  n ← load pre
  if n.next == p then pure pre else predecessor fuel n.next p

-- `Delete`; the message for a missing element is left out
unfoldable pub delete : ℕ → (header : Ptr) → ℤ → Cmd (Unit {0})
delete fuel header x = do
  p ← find fuel header x
  pre ← predecessor fuel header p
  if p == 0 then pure tt else do n ← load p; set_next pre n.next; free p

-- the loop of `Modify`
unfoldable pub modify_loop : ℕ → (p : Ptr) → (x y : ℤ) → Cmd (Unit {0})
modify_loop zero p x y = λ h. out_of_fuel
modify_loop (suc fuel) p x y =
    if p == 0
    then pure tt
    else do n ← load p; if eqb_ℤ n.element x then set_element p y else modify_loop fuel n.next x y

unfoldable pub modify : ℕ → (header : Ptr) → (x y : ℤ) → Cmd (Unit {0})
modify fuel header x y = do n ← load header; modify_loop fuel n.next x y

-- the loop of `Merge_SLL`, and the link to what is left
unfoldable pub merge_loop : ℕ → (p1 p2 p3 : Ptr) → Cmd (Unit {0})
merge_loop zero p1 p2 p3 = λ h. out_of_fuel
merge_loop (suc fuel) p1 p2 p3 =
    if p1 == 0 then set_next p3 p2 else if p2 == 0 then set_next p3 p1 else (do
      n1 ← load p1
      n2 ← load p2
      if ltb_ℤ n1.element n2.element
          then (do set_next p3 p1; m ← load p1; merge_loop fuel m.next p2 p1)
          else (do set_next p3 p2; m ← load p2; merge_loop fuel p1 m.next p2))

unfoldable pub merge_sll : ℕ → (header1 header2 fresh : Ptr) → Node → Cmd Ptr
merge_sll fuel header1 header2 fresh rest = do
  alloc fresh rest
  n1 ← load header1
  n2 ← load header2
  merge_loop fuel n1.next n2.next fresh
  pure fresh

-- `PrintList`, as the list of what it prints
unfoldable pub print_loop : ℕ → Ptr → Cmd (List ℤ)
print_loop zero p = λ h. out_of_fuel
print_loop (suc fuel) p =
    if p == 0 then pure [] else do n ← load p; xs ← print_loop fuel n.next; pure (n.element ∷ xs)

unfoldable pub print_list : ℕ → (header : Ptr) → Cmd (List ℤ)
print_list fuel header = do n ← load header; print_loop fuel n.next
