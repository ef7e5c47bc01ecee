-- ===== src/Pid.antt =====
-- `src/pid.rs`: the PID controller.
pub mod Bounds
pub mod Latch
pub mod Recurrence
use thermostat.Prelude.{ℕ, Option, none, some}
use thermostat.Platform.{Platform, nought, clamp}

module _ ⦃p : Platform⦄ where
  open p use {F64, F32, lit, add, sub, mul, widen, lit32, neg32}

  pub record Parameters : Type 0 where
    pub kp : F32
    pub ki : F32
    pub kd : F32
    pub output_min : F32
    pub output_max : F32

  -- `Default for Parameters`
  unfoldable pub default_parameters : Parameters
  default_parameters = record {
    kp = lit32 0 1;
    ki = lit32 0 1;
    kd = lit32 0 1;
    output_min = neg32 (lit32 20 1);
    output_max = lit32 20 1;
  }

  pub record Controller : Type 0 where
    pub parameters : Parameters
    pub target : F64
    pub u1 : F64
    pub x1 : F64
    pub x2 : F64
    pub y1 : F64

  -- `Controller::new`
  unfoldable pub new_controller : Parameters → Controller
  new_controller ps = record {
    parameters = ps;
    target = nought;
    u1 = nought;
    x1 = nought;
    x2 = nought;
    y1 = nought;
  }

  -- The sum that `update` clips, with its terms added from the left.
  unfoldable pub unclipped : Controller → F64 → F64
  unclipped c input =
      let kp = widen c.parameters.kp in
      let ki = widen c.parameters.ki in
      let kd = widen c.parameters.kd in
      add
        (sub (add (sub c.y1 (mul ki c.target)) (mul input (add (add kp ki) kd)))
          (mul c.x1 (add kp (mul (lit 20 1) kd))))
        (mul c.x2 kd)

  shift_history : Controller → F64 → F64 → F64 × Controller
  shift_history c input output =
      (output, record c { x2 = c.x1; x1 = input; u1 = c.target; y1 = output })

  -- `Controller::update`; `none` is the panic of `clamp`.
  unfoldable pub update : Controller → F64 → Option (F64 × Controller)
  unfolding unclipped shift_history
  update c input =
      elim (clamp (unclipped c input) (widen c.parameters.output_min)
        (widen c.parameters.output_max)) [
          | none ↦ none
          | some output ↦ some (shift_history c input output)
        ]
