-- ===== src/DynamicArray.antt =====
-- DynamicArray.c: an array that doubles when it is full. `rest` is what `realloc` leaves in the new
-- cells; it is taken to succeed, and a capacity not to overflow.
pub mod Laws
pub mod Delete
pub mod Init
use core_technologies.Base.{
  Arr, List, Run, [], decr, eqb_ℤ, fault, for_range, if◌then◌else◌, incr, leb, leb_ℤ, ltb, ltb_ℤ,
  ok, pos, pos_part, raise, read, shift_step, suc, write, write_at, zero, ℕ, ℤ, ◌&&◌, ◌*◌, ◌+ℤ◌,
  ◌-ℤ◌, ◌>>=◌, ◌>>◌, ◌∷◌,
}

pub record Da : Type 0 where
  pub da : Arr ℤ
  pub length : ℤ
  pub capacity : ℕ

-- `CreateDA`, with what `malloc` leaves in the cells
unfoldable pub create_da : (ℕ → ℤ) → Da
create_da fresh = record { da = record { size = 5; at = fresh }; length = pos 0; capacity = 5 }

-- `realloc` to `n` cells
unfoldable pub realloc : Arr ℤ → ℕ → (ℕ → ℤ) → Arr ℤ
realloc a n rest = record { size = n; at = λ k. if ltb k a.size then a.at k else rest k }

-- `capacity *= 2`, and the `realloc`
unfoldable pub grow : Da → (ℕ → ℤ) → Da
grow arr rest = record arr {
  da = realloc arr.da (arr.capacity * 2) rest;
  capacity = arr.capacity * 2;
}

-- `memcpy` of `n` cells
unfoldable pub memcpy : Arr ℤ → Arr ℤ → ℕ → Run (Arr ℤ)
memcpy dest src n =
    if leb n dest.size && leb n src.size
    then ok (record { size = dest.size; at = λ k. if ltb k n then src.at k else dest.at k })
    else fault

-- `InitDA`, for an `sz` that is not negative
unfoldable pub init_da : Da → Arr ℤ → ℕ → (rest : ℕ → ℤ) → Run Da
init_da arr tmp sz rest =
    let big = if leb_ℤ (pos arr.capacity) (pos sz +ℤ arr.length) then grow arr rest else arr in
    memcpy big.da tmp sz >>= λ da. ok (record big { da = da; length = pos sz })

-- `PrintDA`, as the list of what it prints
unfoldable pub print_loop : Arr ℤ → ℕ → ℕ → Run (List ℤ)
print_loop da i zero = ok []
print_loop da i (suc n) = do x ← read da i; xs ← print_loop da (suc i) n; ok (x ∷ xs)

unfoldable pub print_da : Da → Run (List ℤ)
print_da arr = print_loop arr.da 0 (pos_part arr.length)

-- the test on the capacity that the three insertions begin with
unfoldable pub make_room : Da → (ℕ → ℤ) → Da
make_room arr rest = if leb_ℤ (pos arr.capacity) arr.length then grow arr rest else arr

-- `InsertTailDA`
unfoldable pub insert_tail : Da → ℤ → (rest : ℕ → ℤ) → Run Da
insert_tail arr num rest =
    let big = make_room arr rest in
    write_at big.da big.length num >>= λ da. ok (record big { da = da; length = incr big.length })

-- `InsertFrontDA`
unfoldable pub insert_front : Da → ℤ → (rest : ℕ → ℤ) → Run Da
insert_front arr num rest =
    let big = make_room arr rest in
    raise (pos_part big.length) big.length big.da >>= λ da.
    write da 0 num >>= λ da. ok (record big { da = da; length = incr big.length })

-- `InsertCenterDA`
unfoldable pub insert_center : Da → (index num : ℤ) → (rest : ℕ → ℤ) → Run Da
insert_center arr index num rest =
    let big = make_room arr rest in
    raise (pos_part (big.length -ℤ index)) big.length big.da >>= λ da.
    write_at da index num >>= λ da. ok (record big { da = da; length = incr big.length })

-- `DeleteFrontDA`
unfoldable pub delete_front : Da → Run Da
delete_front arr = do
  da ← for_range 0 (pos_part arr.length) shift_step arr.da
  ok (record arr { da = da; length = decr arr.length })

-- `DeleteTailDA`
unfoldable pub delete_tail : Da → Da
delete_tail arr = record arr { length = decr arr.length }

-- the body of the loop of `DeleteCenterDA`
unfoldable pub delete_step : ℕ → ℤ → Da → Run Da
delete_step i num arr = do
  x ← read arr.da i
  if eqb_ℤ x num
      then (do
        da ← for_range i (pos_part arr.length) shift_step arr.da
        ok (record arr { da = da; length = decr arr.length }))
      else ok arr

-- its loop from `i` on, which ends as the length only falls
unfoldable pub delete_loop : ℕ → ℕ → ℤ → Da → Run Da
delete_loop zero i num arr = ok arr
delete_loop (suc n) i num arr =
    if ltb_ℤ (pos i) arr.length
    then (do arr ← delete_step i num arr; delete_loop n (suc i) num arr)
    else ok arr

-- `DeleteCenterDA`
unfoldable pub delete_center : Da → ℤ → Run Da
delete_center arr num = delete_loop (pos_part arr.length) 0 num arr
