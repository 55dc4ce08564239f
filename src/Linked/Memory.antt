-- ===== src/Linked/Memory.antt =====
-- A memory of nodes at addresses, and the commands that read and write it, whatever a node holds.
-- `malloc` is not modelled: the address that it returns is an argument of what calls it, and null
-- if it fails.
use core_technologies.Base.{
  Option, Returns, Run, arith, false, fault, if◌then◌else◌, none, ok, out_of_fuel, returns, some, ℕ,
  ◌==◌, ◌≡◌, ◌≢◌,
}

abbrev pub Ptr : Type 0
Ptr = ℕ

abbrev pub Memory : Type 0 → Type 0
Memory N = Ptr → Option N

-- a command on a memory of nodes `N` that gives an `A`
abbrev pub Command : Type 0 → Type 0 → Type 0
Command N A = Memory N → Run (A × Memory N)

abbrev pub pure : {N A : Type 0} → A → Command N A
pure a h = ok (a, h)

module _ {N A B : Type 0} where
  abbrev pub and_then : Run (A × Memory N) → (A → Command N B) → Run (B × Memory N)
  and_then (ok (a, h)) k = k a h
  and_then fault k = fault
  and_then out_of_fuel k = out_of_fuel

  infixl 5 ◌>>=◌ ◌>>◌
  abbrev pub ◌>>=◌ : Command N A → (A → Command N B) → Command N B
  ◌>>=◌ m k h = and_then (m h) k

  abbrev pub ◌>>◌ : Command N A → Command N B → Command N B
  m >> k = m >>= λ _. k

module _ {N : Type 0} where
  unfoldable pub set_cell : Memory N → Ptr → Option N → Memory N
  set_cell h p c a = if a == p then c else h a

  -- `*p`: a fault at null and at an address that holds no node
  unfoldable pub load : Ptr → Command N N
  load p h = if p == 0 then fault else elim (h p) [ none ↦ fault | some n ↦ ok (n, h) ]

  -- a new node at the address that `malloc` gave; where that is null, an assertion or the first
  -- access fails
  unfoldable pub alloc : Ptr → N → Command N (Unit {0})
  alloc fresh n h = if fresh == 0 then fault else ok (tt, set_cell h fresh (some n))

  unfoldable pub free : Ptr → Command N (Unit {0})
  free p = do load p; λ h. ok (tt, set_cell h p none)

  -- the steps of these commands at a node that is there
  module _ (h : Memory N) (p : Ptr) {n : N} (ne : p ≢ 0) (there : h p ≡ some n) where
    not_null : (p == 0) ≡ false
    not_null = ground arith

    pub load-ok : load p h ≡ ok (n, h)
    unfolding load
    load-ok = rw (not_null, there)

    pub free-ok : free p h ≡ ok (tt, set_cell h p none)
    unfolding free
    free-ok = rw load-ok

  pub alloc-ok :
      (h : Memory N) (fresh : Ptr) (n : N)
      → fresh ≢ 0
      → alloc fresh n h ≡ ok (tt, set_cell h fresh (some n))
  unfolding alloc
  alloc-ok h fresh n ne = ground arith

  pub set_cell_self : (h : Memory N) (p : Ptr) (c : Option N) → set_cell h p c p ≡ c
  unfolding set_cell
  set_cell_self h p c = ground arith

  pub set_cell-ne : (h : Memory N) (p a : Ptr) (c : Option N) → a ≢ p → set_cell h p c a ≡ h a
  unfolding set_cell
  set_cell-ne h p a c ne = ground arith

-- the rule for a command and what follows it
pub Returns-and_then :
    {N A B : Type 0} {P : A × Memory N → Type 0} {Q : B × Memory N → Type 0}
    {r : Run (A × Memory N)} {k : A → Command N B}
    → Returns P r
    → ((a : A) (h : Memory N) → P (a, h) → Returns Q (k a h))
    → Returns Q (and_then r k)
Returns-and_then (returns p) next = next _ _ p
