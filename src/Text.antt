-- ===== src/Text.antt =====
-- Programming/C_CPP/Pointers_On_C, functions on strings of the chapters four, six and eight. A string
-- is an array of characters, which are numbers, and an index in it; the loops run on `fuel` rounds.
pub mod Spec
pub mod Reverse
pub mod Copy
pub mod Find
pub mod Match
pub mod Move
pub mod Remove
use core_technologies.Base.{
  Arr, Bool, Option, Run, count, false, fault, if◌then◌else◌, leb_ℤ, ltb, ltb_ℤ, none, not, ok,
  out_of_fuel, pos, pos_part, read, some, suc, true, write, zero, ℕ, ℤ, ◌&&◌, ◌+◌, ◌-◌, ◌==◌, ◌>>=◌,
  ◌>>◌,
}

-- `my_strlen` of Question3.c, and `strlen` of strlen.c
unfoldable pub my_strlen : ℕ → Arr ℕ → (string : ℕ) → Run ℕ
my_strlen zero a string = out_of_fuel
my_strlen (suc fuel) a string = do
  c ← read a string
  if c == 0 then ok 0 else (do count ← my_strlen fuel a (suc string); ok (count + 1))

-- the test and the exchange in the loop of `reverse_string`
unfoldable pub exchange : Arr ℕ → (left right : ℕ) → Run (Arr ℕ)
exchange a left right = do
  x ← read a left
  y ← read a right
  if not (x == 0) && not (y == 0) then (do a ← write a left y; write a right x) else ok a

-- the loop of `reverse_string`; `stop` is `right + 1`
unfoldable pub reverse_loop : ℕ → Arr ℕ → (left stop : ℕ) → Run (Arr ℕ)
reverse_loop zero a left stop = out_of_fuel
reverse_loop (suc fuel) a left stop =
    if ltb left stop
    then (do a ← exchange a left (stop - 1); reverse_loop fuel a (suc left) (stop - 1))
    else ok a

unfoldable pub reverse_string : ℕ → Arr ℕ → (string : ℕ) → Run (Arr ℕ)
reverse_string fuel a string = do
  len ← my_strlen fuel a string
  reverse_loop fuel a string (string + len)

-- the inner loop of `find_char` of Question1.c, with whether it finds the character
unfoldable pub among_loop : ℕ → ℕ → Arr ℕ → (tmp : ℕ) → Run Bool
among_loop zero c chars tmp = out_of_fuel
among_loop (suc fuel) c chars tmp = do
  d ← read chars tmp
  if d == 0 then ok false else if c == d then ok true else among_loop fuel c chars (suc tmp)

-- its outer loop
unfoldable pub find_char_loop : ℕ → Arr ℕ → (source : ℕ) → Arr ℕ → (chars : ℕ) → Run (Option ℕ)
find_char_loop zero a source b chars = out_of_fuel
find_char_loop (suc fuel) a source b chars = do
  c ← read a source
  if c == 0 then ok none else (do
    found ← among_loop (suc fuel) c b chars
    if found then ok (some source) else find_char_loop fuel a (suc source) b chars)

-- `find_char` of Question1.c; `none` is a null pointer
unfoldable pub find_char :
    ℕ → Arr ℕ → (source : Option ℕ) → Arr ℕ → (chars : Option ℕ) → Run (Option ℕ)
find_char fuel a none b chars = ok none
find_char fuel a (some source) b none = ok none
find_char fuel a (some source) b (some chars) = find_char_loop fuel a source b chars

-- `match` of Question2.c
unfoldable pub match : ℕ → Arr ℕ → (str : ℕ) → Arr ℕ → (match_str : ℕ) → Run (Option ℕ)
match zero a str b match_str = out_of_fuel
match (suc fuel) a str b match_str = do
  d ← read b match_str
  if d == 0
      then ok (some str)
      else (do c ← read a str; if c == d then match fuel a (suc str) b (suc match_str) else ok none)

-- the first loop of `del_substr`, with `str` and `next` behind it
unfoldable pub search_loop :
    ℕ → Arr ℕ → (str : ℕ) → Arr ℕ → (substr : ℕ) → Option ℕ → Run (ℕ × Option ℕ)
search_loop zero a str b substr next = out_of_fuel
search_loop (suc fuel) a str b substr next = do
  c ← read a str
  if c == 0 then ok (str, next) else (do
    next ← match (suc fuel) a str b substr
    elim next [ none ↦ search_loop fuel a (suc str) b substr none | some n ↦ ok (str, some n) ])

-- `while (*str++ = *next++);`
unfoldable pub move_loop : ℕ → Arr ℕ → (str next : ℕ) → Run (Arr ℕ)
move_loop zero a str next = out_of_fuel
move_loop (suc fuel) a str next = do
  c ← read a next
  a ← write a str c
  if c == 0 then ok a else move_loop fuel a (suc str) (suc next)

-- `del_substr`, with what it returns; the overwriting reads through `next`
unfoldable pub del_substr : ℕ → Arr ℕ → (str : ℕ) → Arr ℕ → (substr : ℕ) → Run (ℕ × Arr ℕ)
del_substr fuel a str b substr = do
  next ← match fuel a str b substr
  (str, next) ← search_loop fuel a str b substr next
  c ← read a str
  if c == 0
      then ok (0, a)
      else elim next [ none ↦ fault | some n ↦ do a ← move_loop fuel a str n; ok (1, a) ]

-- `strcpy` of Chapter Eight Array/strcpy.c, on two arrays
unfoldable pub strcpy : ℕ → (dst : Arr ℕ) → (str : ℕ) → Arr ℕ → (src : ℕ) → Run (Arr ℕ)
strcpy zero dst str a src = out_of_fuel
strcpy (suc fuel) dst str a src = do
  c ← read a src
  dst ← write dst str c
  if c == 0 then ok dst else strcpy fuel dst (suc str) a (suc src)

-- the loop of `substr` of Chapter Four Statement/Programming Exercises 4.14/Question_6.c, with `dst_index` behind it
unfoldable pub copy_loop :
    (len : ℕ) → Arr ℕ → (dst_index : ℕ) → Arr ℕ → (src_index : ℕ) → Run (ℕ × Arr ℕ)
copy_loop zero dst dst_index src src_index = ok (dst_index, dst)
copy_loop (suc len) dst dst_index src src_index = do
  c ← read src src_index
  if c == 0
      then ok (dst_index, dst)
      else (do dst ← write dst dst_index c; copy_loop len dst (suc dst_index) src (suc src_index))

-- `substr`, with what it returns
unfoldable pub substr : (dst src : Arr ℕ) → (start len : ℤ) → Run (ℕ × Arr ℕ)
substr dst src start len = do
  (dst_index, dst) ←
      if leb_ℤ (pos 0) start && ltb_ℤ (pos 0) len
      then copy_loop (pos_part len) dst 0 src (pos_part start)
      else ok (0, dst)
  dst ← write dst dst_index 0
  ok (dst_index, dst)
