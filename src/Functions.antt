-- ===== src/Functions.antt =====
-- Programming/C_CPP/Pointers_On_C/Chapter Seven Functions/example.c, without its averages, which
-- are floating point, and its swap, which is that of Sort/Swap.
pub mod Numbers
pub mod Arrays
use core_technologies.Base.{
  Arr, Bool, List, Option, Run, [], eqb_ℤ, false, fault, if◌then◌else◌, leb, negsuc, none, ok,
  out_of_fuel, pos, pos_part, read, read_at, some, suc, true, write, zero, ℕ, ℤ, ◌%◌, ◌*◌, ◌++◌,
  ◌+◌, ◌-◌, ◌/◌, ◌==◌, ◌>>=◌, ◌>>◌, ◌^◌, ◌∷◌,
}

-- the loop of `find_int`, which gives the index of the cell instead of its address
unfoldable pub find_loop : (n i : ℕ) → ℤ → Arr ℤ → Run (Option ℕ)
find_loop zero i key array = ok none
find_loop (suc n) i key array = do
  x ← read array i
  if eqb_ℤ x key then ok (some i) else find_loop n (suc i) key array

unfoldable pub find_int : ℤ → Arr ℤ → (array_len : ℤ) → Run (Option ℕ)
find_int key array array_len = find_loop (pos_part array_len) 0 key array

-- the loop of `clear_array`
unfoldable pub clear_loop : ℕ → Arr ℤ → Run (Arr ℤ)
clear_loop zero array = ok array
clear_loop (suc n) array = do array ← write array n (pos 0); clear_loop n array

unfoldable pub clear_array : Arr ℤ → (n_elements : ℤ) → Run (Arr ℤ)
clear_array array n_elements = clear_loop (pos_part n_elements) array

-- the loop of `find_entry` over the entries from `i` on; `same` is whether `strcmp` finds no
-- difference between the name and that of an entry
unfoldable pub entry_loop : (n i : ℕ) → (same : ℕ → Bool) → ℤ
entry_loop zero i same = negsuc 0
entry_loop (suc n) i same = if same i then pos i else entry_loop n (suc i) same

unfoldable pub find_entry : (max_addresses : ℕ) → (same : ℕ → Bool) → ℤ
find_entry max_addresses same = entry_loop max_addresses 0 same

-- `lookup_address`, on the texts of the addresses
unfoldable pub lookup_address :
    {A : Type 0} → Arr A → (max_addresses : ℕ) → (same : ℕ → Bool) → Run (Option A)
lookup_address address max_addresses same =
    let entry = find_entry max_addresses same in
    if eqb_ℤ entry (negsuc 0) then ok none else do x ← read_at address entry; ok (some x)

-- `lookup_phone`: it returns nothing where the entry is not -1
unfoldable pub lookup_phone : {A : Type 0} → Arr A → (max_addresses : ℕ) → (same : ℕ → Bool) → Run A
lookup_phone phone max_addresses same =
    let entry = find_entry max_addresses same in
    if eqb_ℤ entry (negsuc 0) then read_at phone entry else fault

-- `even_parity` of a value that is not negative
unfoldable pub parity_loop : ℕ → (value parity : ℕ) → ℕ
parity_loop zero value parity = parity
parity_loop (suc n_bits) value parity = parity_loop n_bits (value / 2) (parity + value % 2)

unfoldable pub even_parity : (value n_bits : ℕ) → Bool
even_parity value n_bits = parity_loop n_bits value 0 % 2 == 0

-- `binary_to_ascii`, as the list of what it prints; it recurs at most `fuel` deep
unfoldable pub binary_to_ascii : ℕ → (value : ℕ) → Run (List ℕ)
binary_to_ascii zero value = out_of_fuel
binary_to_ascii (suc fuel) value = do
  front ← elim (value / 10 == 0) [ true ↦ ok [] | false ↦ binary_to_ascii fuel (value / 10) ]
  ok (front ++ ((value % 10 + b'0') ∷ []))

abbrev pub max_int : ℕ
max_int = 2 ^ 31 - 1

abbrev pub max_long : ℕ
max_long = 2 ^ 63 - 1

-- `factorial2`, whose product is an `int`
unfoldable pub factorial_loop : ℕ → (result : ℕ) → Run ℕ
factorial_loop zero result = ok result
factorial_loop (suc n) result =
    if n == 0
    then ok result
    else if leb (result * suc n) max_int
    then factorial_loop n (result * suc n)
    else fault

unfoldable pub factorial2 : ℤ → Run ℕ
factorial2 n = factorial_loop (pos_part n) 1

unfoldable pub add_long : (a b : ℕ) → Run ℕ
add_long a b = if leb (a + b) max_long then ok (a + b) else fault

-- `fibonacci1` and `fibonacci2` of a number that is not negative
unfoldable pub fibonacci1 : ℕ → Run ℕ
fibonacci1 zero = ok 0
fibonacci1 (suc zero) = ok 1
fibonacci1 (suc (suc n)) = do a ← fibonacci1 (suc n); b ← fibonacci1 n; add_long a b

-- the loop of `fibonacci2`, in as many rounds as `n` is above 2
unfoldable pub fibonacci_loop : ℕ → (result previous_result : ℕ) → Run ℕ
fibonacci_loop zero result previous_result = ok result
fibonacci_loop (suc n) result previous_result = do
  sum ← add_long result previous_result
  fibonacci_loop n sum result

unfoldable pub fibonacci2 : ℕ → Run ℕ
fibonacci2 n = fibonacci_loop (n - 2) 1 1
