-- ===== src/DynamicArray/Init.antt =====
-- `InitDA`, which doubles the capacity once at most.
use core_technologies.Base.{
  Arr, Bool-cases, Returns, arith, cells, cells_eq, false, fault, if◌then◌else◌, inl, inr, leb,
  leb_ℤ, ltb, neg_part, ok, pos, refl, returns, true, ℕ, ℤ, ◌*◌, ◌+ℤ◌, ◌+◌, ◌<◌, ◌>>=◌, ◌≡◌, ◌≤◌,
}
use core_technologies.DynamicArray.{Da, grow, init_da, memcpy, realloc}
use core_technologies.DynamicArray.Laws.{Holds, view}

memcpy-ok :
    (dest src : Arr ℤ) (n : ℕ)
    → n ≤ dest.size
    → n ≤ src.size
    → memcpy dest src n
      ≡ ok (record { size = dest.size; at = λ k. if ltb k n then src.at k else dest.at k })
unfolding memcpy
memcpy-ok dest src n h h' =
    let b : leb n dest.size ≡ true = ground arith in
    let b' : leb n src.size ≡ true = ground arith in rw (b, b') refl

memcpy_short : (dest src : Arr ℤ) (n : ℕ) → dest.size < n → memcpy dest src n ≡ fault
unfolding memcpy
memcpy_short dest src n h = let b : leb n dest.size ≡ false = ground arith in rw b refl

add_pos : (a b : ℕ) → pos a +ℤ pos b ≡ pos (a + b)
unfolding ◌+ℤ◌
add_pos a b = ground arith

module _ (arr : Da) (tmp : Arr ℤ) (sz n : ℕ) (rest : ℕ → ℤ) (v : Holds n arr) where
  -- the test of `InitDA`
  full_test : leb_ℤ (pos arr.capacity) (pos sz +ℤ arr.length) ≡ leb arr.capacity (sz + n)
  full_test =
      let e : neg_part (pos (sz + n)) ≡ 0 = refl in
      let e' : arr.capacity + 0 ≡ arr.capacity = omega arith in
      let e'' : sz + n + 0 ≡ sz + n = omega arith in rw (v.length, add_pos sz n, e', e'') refl

  -- the copy and what follows
  copy-view :
      (big : Da)
      → big.da.size ≡ big.capacity
      → 0 < big.capacity
      → sz ≤ big.capacity
      → sz ≤ tmp.size
      → Returns
          (λ d. Holds sz d × (view d sz ≡ cells tmp.at 0 sz))
          (memcpy big.da tmp sz >>= λ da. ok (record big { da = da; length = pos sz }))
  copy-view big fits positive room there = rw (memcpy-ok big.da tmp sz (omega arith) there) (
      returns (
        record { fits = fits; used = room; length = refl; positive = positive },
        cells_eq _ tmp.at 0 sz (λ k p q. let b : ltb k sz ≡ true = ground arith in rw b refl),
      ))

  -- `InitDA` with up to twice as many elements as the capacity: the array holds the first `sz`
  -- cells of `tmp` afterwards.
  pub init_da-view :
      sz ≤ arr.capacity * 2
      → sz ≤ tmp.size
      → Returns (λ d. Holds sz d × (view d sz ≡ cells tmp.at 0 sz)) (init_da arr tmp sz rest)
  unfolding init_da
  init_da-view room there = rw full_test (elim (Bool-cases (leb arr.capacity (sz + n))) [
    | inl big ↦ rw big (
        unfold grow in
        unfold realloc in copy-view (grow arr rest) refl (omega (arith, v.positive)) room there)
    | inr small ↦ rw small (copy-view arr v.fits v.positive (ground arith) there)
  ])

  -- With more elements, the copy goes past the end of the array.
  pub init_da_overflow : arr.capacity * 2 < sz → init_da arr tmp sz rest ≡ fault
  unfolding init_da grow realloc
  init_da_overflow more =
      let b : leb arr.capacity (sz + n) ≡ true = ground arith in
      rw (full_test, b, memcpy_short (realloc arr.da (arr.capacity * 2) rest) tmp sz more) refl
