-- ===== src/Pid/Laws.antt =====
-- What the two controllers do over a sequence of target values.
use core_technologies.Base.{List, [], ap, refl, ◌∷◌, ◌≡◌}
use core_technologies.Pid.{
  FloatOps, PidIncrement, PidPosition, pid_increment_init, pid_increment_realize, pid_position_init,
  pid_position_realize,
}

module _ (ops : FloatOps) where
  open ops use {Float, decimal, add, sub, mul}

  -- what the calls give, one for each target value
  unfoldable pub increment_outputs : List Float → PidIncrement ops → List Float
  increment_outputs [] pid = []
  increment_outputs (t ∷ ts) pid =
      let (u, pid') = pid_increment_realize ops (record pid { target_val = t }) in
      u ∷ increment_outputs ts pid'

  unfoldable pub position_outputs : List Float → PidPosition ops → List Float
  position_outputs [] pid = []
  position_outputs (t ∷ ts) pid =
      let (u, pid') = pid_position_realize ops (record pid { target_val = t }) in
      u ∷ position_outputs ts pid'

  unfoldable pub repeated : Float → List Float → List Float
  repeated u [] = []
  repeated u (t ∷ ts) = u ∷ repeated u ts

  increment_outputs-repeated :
      (ts : List Float) (pid : PidIncrement ops)
      → increment_outputs ts pid ≡ repeated pid.actual_val ts
  unfolding increment_outputs pid_increment_realize repeated
  increment_outputs-repeated [] pid = refl
  increment_outputs-repeated (t ∷ ts) pid =
      ap (◌∷◌ pid.actual_val) (increment_outputs-repeated ts _)

  -- Whatever the target values are, every call of `pid_increment_realize` after `pid_increment_init`
  -- returns 0.0: the increment is computed and never added.
  pub increment_outputs-init :
      (ts : List Float) → increment_outputs ts (pid_increment_init ops) ≡ repeated (decimal 0 1) ts
  unfolding pid_increment_init
  increment_outputs-init ts = increment_outputs-repeated ts _

  -- the sum of the errors, the last one first
  unfoldable pub total : List Float → Float
  total [] = decimal 0 1
  total (e ∷ es) = add (total es) e

  unfoldable pub last_error : List Float → Float
  last_error [] = decimal 0 1
  last_error (e ∷ es) = e

  -- the formula of the position algorithm for the errors so far, the last one first, with the
  -- constants of `pid_position_init`
  unfoldable pub control : (e : Float) (es : List Float) → Float
  control e es =
      add (add (mul (decimal 31 2) e) (mul (decimal 70 3) (total (e ∷ es))))
        (mul (decimal 3 1) (sub e (last_error es)))

  -- its values for a sequence of targets, where each one is the actual value of the next call
  unfoldable pub controls : List Float → (actual : Float) → (es : List Float) → List Float
  unfolding control
  controls [] actual es = []
  controls (t ∷ ts) actual es =
      let e = sub t actual in control e es ∷ controls ts (control e es) (e ∷ es)

  record Remembers (es : List Float) (pid : PidPosition ops) : Type 0 where
    sum : pid.integral ≡ total es
    last : pid.err_last ≡ last_error es
    p : pid.kp ≡ decimal 31 2
    i : pid.ki ≡ decimal 70 3
    d : pid.kd ≡ decimal 3 1

  position_outputs-controls :
      (ts : List Float) (es : List Float) (pid : PidPosition ops)
      → Remembers es pid
      → position_outputs ts pid ≡ controls ts pid.actual_val es
  unfolding position_outputs controls control pid_position_realize total last_error
  position_outputs-controls [] es pid r = refl
  position_outputs-controls (t ∷ ts) es pid r =
      rw (r.sum, r.last, r.p, r.i, r.d)
        (ap (◌∷◌ (control (sub t pid.actual_val) es)) (
          position_outputs-controls ts (sub t pid.actual_val ∷ es) _
            (record { sum = refl; last = refl; p = refl; i = refl; d = refl })))

  -- The calls of `pid_position_realize` after `pid_position_init` return the values of the formula
  -- of the position algorithm: the error, the sum of the errors so far and the change of the error,
  -- with the three constants, where the error is that of the value returned before.
  pub position_outputs-init :
      (ts : List Float) → position_outputs ts (pid_position_init ops) ≡ controls ts (decimal 0 1) []
  unfolding pid_position_init total last_error
  position_outputs-init ts =
      position_outputs-controls ts [] (pid_position_init ops)
        (record { sum = refl; last = refl; p = refl; i = refl; d = refl })
