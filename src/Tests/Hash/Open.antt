-- ===== src/Tests/Hash/Open.antt =====
-- OpenAddressing.c with ten cells. The probes of 13 go to the cells 3, 1, 9, 7 and 5.
use core_technologies.Base.{
  Returns, arith, if◌then◌else◌, negsuc, ok, pos, refl, true, ℕ, ℤ, ◌<◌, ◌==◌, ◌≡◌, ◌≢◌,
}
use core_technologies.Hash.Open.{Element, HashTable, delete, empty, find, insert, occupied}
use core_technologies.Hash.Open.Laws.{IsTable, passes, probe}
use core_technologies.Hash.Open.Update.{SameElse, delete-find, insert-find}

abbrev held : ℤ → Element
held x = record { element = x; status = occupied }

abbrev none : Element
none = record { element = negsuc 0; status = empty }

abbrev table : Element → HashTable
table cell = record {
  tablesize = 10;
  arr = record {
    size = 10;
    at = λ k. if k == 3 then held (pos 23) else if k == 1 then cell else none;
  };
}

table-IsTable : (cell : Element) → IsTable (table cell)
table-IsTable cell = record { large = omega arith; fits = refl }

first_probe :
    (cell : Element) (j : ℕ) → j < 1 → passes ((table cell).arr.at (probe 10 13 j)) 13 ≡ true
unfolding probe
first_probe cell j lt = let e : j ≡ 0 = omega arith in rw e refl

insert-find_example :
    Returns
      (λ h'.
        (find 2 h' (pos 13) ≡ ok (pos (probe 10 13 1)))
        × ((h'.arr.at (probe 10 13 1)).element ≡ pos 13)
        × ((h'.arr.at (probe 10 13 1)).status ≢ empty)
        × SameElse (probe 10 13 1) (table none) h')
      (insert 2 (table none) (pos 13))
insert-find_example =
    insert-find (table none) 13 1 (table-IsTable none) (first_probe none) (unfold probe in refl) 2
      (omega arith)

delete-find_test :
    (find 2 (table (held (pos 13))) (pos 13) ≡ ok (pos (probe 10 13 1)))
    × Returns
        (λ (_, h').
          (find 2 h' (pos 13) ≡ ok (pos (probe 10 13 0)))
          × ((h'.arr.at (probe 10 13 0)).status ≡ empty)
          × ((h'.arr.at (probe 10 13 1)).element ≡ pos 13))
        (delete 2 (table (held (pos 13))) (pos 23))
delete-find_test =
    delete-find 2 (table (held (pos 13))) 23 0 13 0 1 (table-IsTable (held (pos 13)))
      (λ j lt. absurd (omega arith)) (unfold probe in refl) (first_probe (held (pos 13)))
      (unfold probe in refl) (omega arith) (unfold probe in refl) (λ j lt. absurd (omega arith))
      (omega arith) (omega arith)
