-- ===== src/Linked/Store.antt =====
-- The nodes of the single lists, stacks and queues, and the commands on them.
unfoldable pub use core_technologies.Linked.Memory.{
  Ptr, alloc, and_then, free, load, pure, set_cell, ◌>>=◌, ◌>>◌,
}
pub use core_technologies.Linked.Memory.{
  Returns-and_then, alloc-ok, free-ok, load-ok, set_cell-ne, set_cell_self,
}
use core_technologies.Base.{ok, some, ℤ, ◌≡◌, ◌≢◌}
use core_technologies.Linked.Memory.{Command, Memory}

pub record Node : Type 0 where
  pub element : ℤ
  pub next : Ptr

abbrev pub node : ℤ → Ptr → Node
node x q = record { element = x; next = q }

abbrev pub Heap : Type 0
Heap = Memory Node

abbrev pub Cmd : Type 0 → Type 0
Cmd = Command Node

-- `p->next = q`
unfoldable pub set_next : Ptr → Ptr → Cmd (Unit {0})
set_next p q = do n ← load p; λ h. ok (tt, set_cell h p (some (node n.element q)))

-- `p->element = x`
unfoldable pub set_element : Ptr → ℤ → Cmd (Unit {0})
set_element p x = do n ← load p; λ h. ok (tt, set_cell h p (some (node x n.next)))

-- the steps of these commands at a node that is there
module _ (h : Heap) (p : Ptr) {x : ℤ} {q : Ptr} (ne : p ≢ 0) (there : h p ≡ some (node x q)) where
  pub set_next-ok : (r : Ptr) → set_next p r h ≡ ok (tt, set_cell h p (some (node x r)))
  unfolding set_next
  set_next-ok r = rw (load-ok h p ne there)

  pub set_element-ok : (y : ℤ) → set_element p y h ≡ ok (tt, set_cell h p (some (node y q)))
  unfolding set_element
  set_element-ok y = rw (load-ok h p ne there)
