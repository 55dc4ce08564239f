-- ===== src/Functions/Arrays.antt =====
-- The functions on arrays and on the table of addresses.
use core_technologies.Base.{
  Arr, Bool, Bool-cases, Option, Returns, Returns-mono, arith, dec_lt, eq_of_parts, eqb_ℤ, false,
  fault, inl, inr, negsuc, none, pos, put, read-ok, refl, returns, some, suc, true, write-ok, zero,
  ℕ, ℕ_discrete, ℤ, ◌+◌, ◌<◌, ◌==◌, ◌∙◌, ◌≡◌, ◌≢◌, ◌≤◌,
}
use core_technologies.Functions.{
  clear_array, clear_loop, find_entry, find_int, find_loop, lookup_phone,
}

-- where the first of the cells `lo` to `hi - 1` stands that hold the key
abbrev pub IsFirst : (ℕ → ℤ) → (lo hi : ℕ) → ℤ → Option ℕ → Type 0
IsFirst f lo hi key none = (k : ℕ) → lo ≤ k → k < hi → f k ≢ key
IsFirst f lo hi key (some i) =
    (lo ≤ i) × (i < hi) × (f i ≡ key) × ((k : ℕ) → lo ≤ k → k < i → f k ≢ key)

IsFirst-later :
    (f : ℕ → ℤ) (lo hi : ℕ) (key : ℤ) (o : Option ℕ)
    → f lo ≢ key
    → IsFirst f (suc lo) hi key o
    → IsFirst f lo hi key o
IsFirst-later f lo hi key none miss w =
    λ k p q. elim (ℕ_discrete lo k) [ yes e ↦ rw (← e) miss | no e ↦ w k (omega arith) q ]
IsFirst-later f lo hi key (some i) miss (p, q, hit, w) = (
  omega arith,
  q,
  hit,
  λ k p' q'. elim (ℕ_discrete lo k) [ yes e ↦ rw (← e) miss | no e ↦ w k (omega arith) q' ],
)

find_loop-IsFirst :
    (n i : ℕ) (key : ℤ) (a : Arr ℤ)
    → i + n ≤ a.size
    → Returns (IsFirst a.at i (i + n) key) (find_loop n i key a)
unfolding find_loop
find_loop-IsFirst zero i key a fits = returns (λ k p q. absurd (omega arith))
find_loop-IsFirst (suc n) i key a fits =
    let e : i + suc n ≡ suc i + n = omega arith in
    rw (read-ok a i (omega arith)) (elim (Bool-cases (eqb_ℤ (a.at i) key)) [
      | inl hit ↦ rw hit (
          returns (
            omega arith,
            omega arith,
            eq_of_parts (a.at i) key (ground arith),
            λ k p q. absurd (omega arith),
          ))
      | inr miss ↦
          let differ : a.at i ≢ key = λ same. let hit = rw same at miss in ground arith in
          rw (miss, e)
            (Returns-mono (find_loop-IsFirst n (suc i) key a (omega arith))
              λ o w. IsFirst-later a.at i (suc i + n) key o differ w)
    ])

-- `find_int` on an array of at least `array_len` cells gives the first of them that holds the key,
-- null if none does.
pub find_int-IsFirst :
    (key : ℤ) (a : Arr ℤ) (n : ℕ)
    → n ≤ a.size
    → Returns (IsFirst a.at 0 n key) (find_int key a (pos n))
unfolding find_int
find_int-IsFirst key a n fits =
    let e : 0 + n ≡ n = omega arith in
    Returns-mono (find_loop-IsFirst n 0 key a (omega arith)) λ o w. rw e at w

clear_loop-zeros :
    (n : ℕ) (a : Arr ℤ)
    → n ≤ a.size
    → Returns
        (λ b.
          (b.size ≡ a.size)
          × ((k : ℕ) → k < n → b.at k ≡ pos 0)
          × ((k : ℕ) → n ≤ k → b.at k ≡ a.at k))
        (clear_loop n a)
unfolding clear_loop
clear_loop-zeros zero a fits = returns (refl, λ k p. absurd (omega arith), λ k p. refl)
clear_loop-zeros (suc n) a fits = rw (write-ok a n (pos 0) (omega arith)) (
    Returns-mono (clear_loop-zeros n (put a n (pos 0)) (omega arith)) λ b (size, zeros, rest). (
      size,
      λ k p. elim (dec_lt k n) [
        | yes h ↦ zeros k h
        | no h ↦ let e : (n == k) ≡ true = ground arith in rest k (omega arith) ∙ rw e refl
      ],
      λ k p. let e : (n == k) ≡ false = ground arith in rest k (omega arith) ∙ rw e refl,
    ))

-- `clear_array` sets the first `n_elements` cells to 0 and changes no other one.
pub clear_array-zeros :
    (n : ℕ) (a : Arr ℤ)
    → n ≤ a.size
    → Returns
        (λ b.
          (b.size ≡ a.size)
          × ((k : ℕ) → k < n → b.at k ≡ pos 0)
          × ((k : ℕ) → n ≤ k → b.at k ≡ a.at k))
        (clear_array a (pos n))
unfolding clear_array
clear_array-zeros n a fits = clear_loop-zeros n a fits

-- `lookup_phone` gives no phone number, whatever the table holds: for a name that is not in the
-- table it reads in front of it, and for one that is it returns nothing.
pub lookup_phone-fault :
    {A : Type 0} (phone : Arr A) (max_addresses : ℕ) (same : ℕ → Bool)
    → lookup_phone phone max_addresses same ≡ fault
unfolding lookup_phone
lookup_phone-fault phone max_addresses same =
    elim (Bool-cases (eqb_ℤ (find_entry max_addresses same) (negsuc 0))) [
      | inl missing ↦
          let e = eq_of_parts (find_entry max_addresses same) (negsuc 0) (ground arith) in
          rw (missing, e) refl
      | inr there ↦ rw there refl
    ]
