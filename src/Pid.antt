-- ===== src/Pid.antt =====
-- pid_increment.c and pid_position.c of Embedded_Systems/PID, with the structs of their headers.
-- The arithmetic of `float` is a parameter.
pub mod Laws
use core_technologies.Base.{List, [], ℕ, ◌∷◌}

-- the type `float`, its operations, and `decimal d p` for the constant with the digits `d`, of which
-- `p` are behind the point
pub record FloatOps : Type 1 where
  pub Float : Type 0
  pub decimal : (digits places : ℕ) → Float
  pub add : Float → Float → Float
  pub sub : Float → Float → Float
  pub mul : Float → Float → Float

module _ (ops : FloatOps) where
  open ops use {Float, decimal, add, sub, mul}

  -- `pid_increment`
  pub record PidIncrement : Type 0 where
    pub target_val : Float
    pub actual_val : Float
    pub err : Float
    pub err_last : Float
    pub err_next : Float
    pub kp : Float
    pub ki : Float
    pub kd : Float

  unfoldable pub pid_increment_init : PidIncrement
  pid_increment_init = record {
    target_val = decimal 0 1;
    actual_val = decimal 0 1;
    err = decimal 0 1;
    err_last = decimal 0 1;
    err_next = decimal 0 1;
    kp = decimal 21 2;
    ki = decimal 80 2;
    kd = decimal 1 2;
  }

  -- the value of `increment_val`, once `err` is set
  pub increment_val : PidIncrement → Float
  increment_val pid =
      add (add (mul pid.kp (sub pid.err pid.err_next)) (mul pid.ki pid.err))
        (mul pid.kd (add (sub pid.err (mul (decimal 2 0) pid.err_next)) pid.err_last))

  -- `pid_increment_realize`, which computes `increment_val` and does not use it
  unfoldable pub pid_increment_realize : PidIncrement → Float × PidIncrement
  unfolding increment_val
  pid_increment_realize start =
      let pid : PidIncrement = record start { err = sub start.target_val start.actual_val } in
      let unused = increment_val pid in
      let pid : PidIncrement = record pid { err_last = pid.err_next; err_next = pid.err } in
      (pid.actual_val, pid)

  -- `pid_position`
  pub record PidPosition : Type 0 where
    pub target_val : Float
    pub actual_val : Float
    pub err : Float
    pub err_last : Float
    pub kp : Float
    pub ki : Float
    pub kd : Float
    pub integral : Float

  unfoldable pub pid_position_init : PidPosition
  pid_position_init = record {
    target_val = decimal 0 1;
    actual_val = decimal 0 1;
    err = decimal 0 1;
    err_last = decimal 0 1;
    integral = decimal 0 1;
    kp = decimal 31 2;
    ki = decimal 70 3;
    kd = decimal 3 1;
  }

  unfoldable pub pid_position_realize : PidPosition → Float × PidPosition
  pid_position_realize start =
      let err = sub start.target_val start.actual_val in
      let integral = add start.integral err in
      let actual =
        add (add (mul start.kp err) (mul start.ki integral))
          (mul start.kd (sub err start.err_last)) in
      (actual, record start { err = err; integral = integral; actual_val = actual; err_last = err })
