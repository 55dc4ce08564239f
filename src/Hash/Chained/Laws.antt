-- ===== src/Hash/Chained/Laws.antt =====
-- `Find`, `Insert` and `Delete` of a key that is not negative.
use core_technologies.Base.{
  Bool-cases, Returns, Returns-mono, [], arith, false, if◌then◌else◌, inl, inr, negsuc, none, ok,
  pos, read, read-ok, refl, returns, update, ℕ, ℤ, ◌%◌, ◌<◌, ◌==◌, ◌∙◌, ◌∷◌, ◌≡◌, ◌≢◌, ◌⊎◌,
}
use core_technologies.Hash.{rem-pos}
use core_technologies.Hash.Chained.{HashTable, delete, find, hash, insert}
use core_technologies.Hash.Chained.Buckets.{IsTable, IsTable-bucket}
use core_technologies.Hash.Open.Laws.{step}
use core_technologies.Linked.Chain.{Cells, Chain, Chain-set_cell, has, size}
use core_technologies.Linked.Single.Delete.{without_missing}
use core_technologies.Linked.Single.Find.{find_loop-place, place}
use core_technologies.Linked.Single.Insert.{insert_front-IsList}
use core_technologies.Linked.Single.Unlink.{has-without, predecessor-before, unlink_next, without}
use core_technologies.Linked.Store.{
  Heap, Ptr, free-ok, load-ok, set_cell, set_cell-ne, set_cell_self,
}
use native.Mathlib.Nat.{mod-lt}

head-apart :
    (h : Heap) (r : Ptr) (xs : Cells) (p : Ptr)
    → Chain h r xs
    → has p xs ≡ false
    → p ≢ 0
    → (r == p) ≡ false
head-apart h r [] p ch out ne = ground arith
head-apart h r (c ∷ xs) p (e, _, _, _, _, _) out ne = ground arith

-- the bucket after `Insert`
unfoldable pub inserted : Ptr → ℤ → Cells → Cells
inserted fresh x xs = if place xs x == 0 then (fresh, x) ∷ xs else xs

module _ (fuel : ℕ) (h : Heap) (t : HashTable) (g : ℕ → ℤ) (b : ℕ → Cells) (key : ℕ)
    (w : IsTable h t g b) (f : size (b (key % t.tablesize)) < fuel) where
  index-lt : key % t.tablesize < t.tablesize
  index-lt = mod-lt key w.positive

  hash-index : hash t.tablesize (pos key) ≡ ok (pos (key % t.tablesize))
  unfolding hash
  hash-index = rem-pos key t.tablesize w.positive

  read_header : read t.arr (key % t.tablesize) ≡ ok (t.arr.at (key % t.tablesize))
  read_header = read-ok t.arr (key % t.tablesize) (omega (arith, index-lt, w.size))

  -- `Find` gives the address of the first node with the key in the key's bucket, null if there is
  -- none, and changes nothing.
  pub find-bucket : find fuel (pos key) t h ≡ ok (place (b (key % t.tablesize)) (pos key), h)
  unfolding find
  find-bucket =
      let (_, ne, _, q, there, rest) = w.lists (key % t.tablesize) index-lt in
      rw (hash-index, read_header, load-ok h (t.arr.at (key % t.tablesize)) ne there)
        (find_loop-place fuel h q (b (key % t.tablesize)) (pos key) f rest)

  -- `Insert` of a key that is not negative, with more rounds than its bucket has nodes, leaves the table as it is where the key's bucket holds the key, and else puts a node
  -- with the key, at the address that `malloc` gives, at the front of this bucket; the other
  -- buckets stay as they are.
  pub insert-IsTable :
      (fresh : Ptr)
      → fresh ≢ 0
      → h fresh ≡ none
      → Returns
          (λ (_, h').
            IsTable h' t g
              (update b (key % t.tablesize) (inserted fresh (pos key) (b (key % t.tablesize)))))
          (insert fuel (pos key) t fresh h)
  unfolding insert inserted
  insert-IsTable fresh ne unused =
      let i = key % t.tablesize in
      let list = w.lists i index-lt in
      rw find-bucket (elim (Bool-cases (place (b i) (pos key) == 0)) [
        | inl missing ↦
            rw (missing, hash-index, read_header)
              (Returns-mono
                (insert_front-IsList h (t.arr.at i) (g i) (b i) fresh (pos key) list ne unused)
                λ (_, h') (list', same).
                  IsTable-bucket h h' t g b i ((fresh, pos key) ∷ b i) w index-lt
                    (λ a inside. elim (Bool-cases (a == fresh)) [
                      | inl new ↦ inr (ground arith)
                      | inr old ↦ inl (ground arith)
                    ])
                    list' (λ a out used. same a (ground arith)))
        | inr found ↦ rw found (
            returns (
              IsTable-bucket h h t g b i (b i) w index-lt (λ a inside. inl (ground arith)) list
                (λ a out used. refl)))
      ])

  -- `Delete` of a key that is not negative, with more rounds than its bucket has nodes, gives the key and takes the first node with the key out of the key's bucket and frees
  -- it, or gives -1 and changes nothing where there is none. The array of headers stays as it is.
  pub delete-IsTable :
      Returns
        (λ ((e, t'), h').
          IsTable h' t' g (update b (key % t.tablesize) (without (pos key) (b (key % t.tablesize))))
          × (t' ≡ t)
          × (((place (b (key % t.tablesize)) (pos key) ≡ 0) × (e ≡ negsuc 0) × (h' ≡ h))
              ⊎ ((h' (place (b (key % t.tablesize)) (pos key)) ≡ none) × (e ≡ pos key))))
        (delete fuel t (pos key) h)
  unfolding delete
  delete-IsTable =
      let i = key % t.tablesize in
      let list = w.lists i index-lt in
      rw (hash-index, read_header, find-bucket)
        (elim (Bool-cases (place (b i) (pos key) == 0)) [
          | inl null ↦
              let missing : place (b i) (pos key) ≡ 0 = ground arith in
              let (_, _, _, q, _, rest) = list in
              rw (null, without_missing h q (b i) (pos key) rest missing)
                (returns (
                  IsTable-bucket h h t g b i (b i) w index-lt (λ a inside. inl (ground arith)) list
                      (λ a out used. refl),
                  refl,
                  inl (missing, refl, refl),
                ))
          | inr there ↦
              let p = place (b i) (pos key) in
              let found : p ≢ 0 = ground arith in
              let (q, h', at_p, step, still, ch, gone, inside, same) =
                unlink_next h (t.arr.at i) (g i) (b i) (pos key) list found in
              let (_, ne, _, r, at_l, rest) = ch in
              let out : has p (without (pos key) (b i)) ≡ false = ground arith in
              rw
                (
                  there,
                  predecessor-before fuel h (t.arr.at i) (g i) (b i) (pos key) f list,
                  load-ok h p found at_p,
                  step,
                  load-ok h' (t.arr.at i) ne at_l,
                  head-apart h' r (without (pos key) (b i)) p rest out found,
                  free-ok h' p found still,
                )
                (returns (
                  IsTable-bucket h (set_cell h' p none) t g b i (without (pos key) (b i)) w index-lt
                      (λ a among. elim (Bool-cases (has a (b i))) [
                        | inl old ↦ inl (ground arith)
                        | inr new ↦ let no = has-without a (pos key) (b i) new in absurd (cc)
                      ])
                      (Chain-set_cell h' (t.arr.at i) ((t.arr.at i, g i) ∷ without (pos key) (b i))
                        p none gone ch)
                      (λ a far used.
                        set_cell-ne h' p a none
                          (let far' : (a == p) ≡ false = ground arith in ground arith)
                        ∙ same a far),
                  refl,
                  inr (set_cell_self h' p none, refl),
                ))
        ])
