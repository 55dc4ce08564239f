-- ===== src/Hash/Chained/Buckets.antt =====
-- A table and its buckets in the memory.
use core_technologies.Base.{
  Bool-cases, arith, false, inl, inr, none, sym, true, update, ℕ, ℤ, ◌<◌, ◌==◌, ◌∷◌, ◌≡◌, ◌≢◌, ◌⊎◌,
}
use core_technologies.Hash.Chained.{HashTable}
use core_technologies.Linked.Chain.{Cells, Chain-frame, Chain-free, IsList, has}
use core_technologies.Linked.Store.{Heap, Ptr}

-- the header of a bucket and what it holds
abbrev pub whole : HashTable → (ℕ → ℤ) → (ℕ → Cells) → ℕ → Cells
whole t g b i = (t.arr.at i, g i) ∷ b i

-- bucket `i` holds the nodes `b i`, behind a header whose element `g i` means nothing, and no node
-- is in two buckets
pub record IsTable (h : Heap) (t : HashTable) (g : ℕ → ℤ) (b : ℕ → Cells) : Type 0 where
  pub size : t.arr.size ≡ t.tablesize
  pub positive : 0 < t.tablesize
  pub lists : (i : ℕ) → i < t.tablesize → IsList h (t.arr.at i) (g i) (b i)
  pub apart :
      (i j : ℕ) (a : Ptr)
      → i < t.tablesize
      → j < t.tablesize
      → i ≢ j
      → has a (whole t g b i) ≡ true
      → has a (whole t g b j) ≡ false

module _ (h h' : Heap) (t : HashTable) (g : ℕ → ℤ) (b : ℕ → Cells) (i : ℕ) (xs : Cells)
    (w : IsTable h t g b) (lt : i < t.tablesize)
    (source : (a : Ptr) → has a xs ≡ true → (has a (whole t g b i) ≡ true) ⊎ (h a ≡ none)) where
  bucket_free : (k : ℕ) (a : Ptr) → k < t.tablesize → h a ≡ none → has a (whole t g b k) ≡ false
  bucket_free k a p unused = Chain-free h (t.arr.at k) (whole t g b k) a (w.lists k p) unused

  -- the nodes of the changed bucket are in no other one
  new_apart :
      (k : ℕ) (a : Ptr)
      → k < t.tablesize
      → i ≢ k
      → has a ((t.arr.at i, g i) ∷ xs) ≡ true
      → has a (whole t g b k) ≡ false
  new_apart k a p differ inside = elim (Bool-cases (has a xs)) [
    | inl there ↦ elim (source a there) [
      | inl old ↦ w.apart i k a lt p differ old
      | inr unused ↦ bucket_free k a p unused
    ]
    | inr other ↦ w.apart i k a lt p differ (ground arith)
  ]

  old_apart :
      (j : ℕ) (a : Ptr)
      → j < t.tablesize
      → i ≢ j
      → has a (whole t g b j) ≡ true
      → has a ((t.arr.at i, g i) ∷ xs) ≡ false
  old_apart j a p differ inside = elim (Bool-cases (has a ((t.arr.at i, g i) ∷ xs))) [
    | inl there ↦ let out = new_apart j a p differ there in cc
    | inr out ↦ out
  ]

  other-IsList :
      (j : ℕ)
      → j < t.tablesize
      → i ≢ j
      → ((a : Ptr) → has a (whole t g b i) ≡ false → h a ≢ none → h' a ≡ h a)
      → IsList h' (t.arr.at j) (g j) (b j)
  other-IsList j p differ same =
      Chain-frame h h' (t.arr.at j) (whole t g b j)
        (λ a inside.
          same a (w.apart j i a p lt (λ e. differ (sym e)) inside)
            (λ unused. let out = bucket_free j a p unused in cc))
        (w.lists j p)

  -- The table after a change of one bucket, whose nodes were there or were free.
  pub IsTable-bucket :
      IsList h' (t.arr.at i) (g i) xs
      → ((a : Ptr) → has a (whole t g b i) ≡ false → h a ≢ none → h' a ≡ h a)
      → IsTable h' t g (update b i xs)
  IsTable-bucket list same = record {
    size = w.size;
    positive = w.positive;
    lists = λ j p. elim (Bool-cases (i == j)) [
      | inl e ↦ let here : j ≡ i = ground arith in rw (e, here) list
      | inr e ↦ rw e (other-IsList j p (ground arith) same)
    ];
    apart = λ j k a p q differ inside. elim (Bool-cases (i == j)) [
      | inl e ↦
          let here : j ≡ i = ground arith in
          let e' : (i == k) ≡ false = ground arith in
          let inside' = rw (e, here) at inside in rw e' (new_apart k a q (ground arith) inside')
      | inr e ↦ elim (Bool-cases (i == k)) [
        | inl e' ↦
            let here : k ≡ i = ground arith in
            let inside' = rw e at inside in rw (e', here) (old_apart j a p (ground arith) inside')
        | inr e' ↦ let inside' = rw e at inside in rw e' (w.apart j k a p q differ inside')
      ]
    ];
  }
