-- ===== src/Tests/Pid.antt =====
-- The controllers over a small arithmetic: the constants are their digits, and the operations are
-- those of the numbers.
use core_technologies.Base.{List, [], ℕ, ◌*◌, ◌+◌, ◌-◌, ◌∷◌, ◌≡◌}
use core_technologies.Pid.{FloatOps, pid_increment_init, pid_position_init}
use core_technologies.Pid.Laws.{
  controls, increment_outputs, increment_outputs-init, position_outputs, position_outputs-init,
  repeated,
}

abbrev numbers : FloatOps
numbers = record {
  Float = ℕ;
  decimal = λ d p. d;
  add = λ a b. a + b;
  sub = λ a b. a - b;
  mul = λ a b. a * b;
}

abbrev targets : List ℕ
targets = 5 ∷ 900 ∷ 7 ∷ []

increment_outputs-init_test :
    increment_outputs numbers targets (pid_increment_init numbers) ≡ repeated numbers 0 targets
increment_outputs-init_test = increment_outputs-init numbers targets

position_outputs-init_example :
    position_outputs numbers targets (pid_position_init numbers) ≡ controls numbers targets 0 []
position_outputs-init_example = position_outputs-init numbers targets
