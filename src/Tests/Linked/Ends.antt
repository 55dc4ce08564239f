-- ===== src/Tests/Linked/Ends.antt =====
-- The linked stack with the elements 3 and 5.
use core_technologies.Base.{Returns, arith, none, pos, refl, ◌≡◌}
use core_technologies.Linked.Chain.{IsList}
use core_technologies.Linked.Stack.{push}
use core_technologies.Linked.Stack.Laws.{pop-push-IsList}
use core_technologies.Linked.Store.{◌>>=◌}
use core_technologies.Tests.Linked.{heap, heap-IsList, nodes}
use core_technologies.Linked.Stack

pop-push-IsList_example :
    Returns
      (λ (v, h'). (v ≡ pos 4) × IsList h' 1 (pos 0) nodes × (h' 9 ≡ none))
      ((Stack.push 3 1 (pos 4) 9 8 >>= λ _. Stack.pop 3 1) heap)
pop-push-IsList_example =
    pop-push-IsList 3 heap 1 (pos 0) nodes (pos 4) 9 8 (omega arith) heap-IsList (omega arith) refl
