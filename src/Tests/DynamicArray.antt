-- ===== src/Tests/DynamicArray.antt =====
-- DynamicArray.c with five elements, which is full, and with four.
use core_technologies.Base.{
  Returns, [], arith, cells, false, negsuc, pos, refl, ℕ, ℤ, ◌++◌, ◌∷◌, ◌≡◌,
}
use core_technologies.DynamicArray.{Da, delete_center, insert_center}
use core_technologies.DynamicArray.Delete.{Lists, delete_center-skim, skim}
use core_technologies.DynamicArray.Laws.{Holds, insert_center-view, view}
use core_technologies.Tests.{nth}

abbrev array : ℕ → Da
array n = record {
  da = record { size = 5; at = nth (pos 3 ∷ pos 7 ∷ pos 7 ∷ pos 2 ∷ pos 9 ∷ []) };
  length = pos n;
  capacity = 5;
}

abbrev rest : ℕ → ℤ
rest k = negsuc k

full-Holds : Holds 5 (array 5)
full-Holds = record { fits = refl; used = omega arith; length = refl; positive = omega arith }

four-Holds : Holds 4 (array 4)
four-Holds = record { fits = refl; used = omega arith; length = refl; positive = omega arith }

insert_center-view_example :
    Returns
      (λ d.
        Holds 6 d × (view d 6 ≡ cells (array 5).da.at 0 2 ++ (pos 8 ∷ cells (array 5).da.at 2 3)))
      (insert_center (array 5) (pos 2) (pos 8) rest)
insert_center-view_example = insert_center-view (array 5) 5 rest (pos 8) full-Holds 2 (omega arith)

delete_center-skim_example :
    Returns (Lists (skim (pos 7) false (view (array 4) 4))) (delete_center (array 4) (pos 7))
delete_center-skim_example = delete_center-skim (array 4) 4 (pos 7) four-Holds (omega arith)

-- one of the two sevens stays
seven_stays : skim (pos 7) false (pos 3 ∷ pos 7 ∷ pos 7 ∷ pos 2 ∷ []) ≡ pos 3 ∷ pos 7 ∷ pos 2 ∷ []
unfolding skim
seven_stays = refl
