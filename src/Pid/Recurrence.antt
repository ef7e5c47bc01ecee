-- ===== src/Pid/Recurrence.antt =====
-- The law that the comment in `src/pid.rs` gives for the controller, and that `update` follows it.
use thermostat.Prelude.{◌≡◌, refl, ap, ◌∙◌, some, ◌⊎◌, inl, inr}
use thermostat.Platform.{Platform, IsNan, ◌≼◌, clip, clamp}
use thermostat.Platform.Laws.{IsLawful}
use thermostat.Pid.{Parameters, Controller, unclipped, shift_history, update}
use thermostat.Pid.Bounds.{lower, upper, IsWithin, clip_cases}

module _ ⦃p : Platform⦄ where
  open p use {F64, lit, add, sub, mul, widen}

  -- The coefficients of the last three inputs, of the settings.
  abbrev pub b0 : Parameters → F64
  b0 k = add (add (widen k.kp) (widen k.ki)) (widen k.kd)

  abbrev pub b1 : Parameters → F64
  b1 k = add (widen k.kp) (mul (lit 20 1) (widen k.kd))

  abbrev pub b2 : Parameters → F64
  b2 k = widen k.kd

  -- y0' = y1 - ki * u0 + x0 * b0 - x1 * b1 + x2 * b2, in that order.
  abbrev pub law : Parameters → F64 → F64 → F64 → F64 → F64 → F64
  law k u0 y1 x0 x1 x2 =
      let integral = sub y1 (mul (widen k.ki) u0) in
      add (sub (add integral (mul x0 (b0 k))) (mul x1 (b1 k))) (mul x2 (b2 k))

  -- y0 = clip(y0', ymin, ymax)
  abbrev pub output_of : Controller → F64 → F64
  output_of c x0 =
      clip (law c.parameters c.target c.y1 x0 c.x1 c.x2) (widen c.parameters.output_min)
        (widen c.parameters.output_max)

  -- The controller after an input: its history moves on by one, its settings stay.
  abbrev pub next : Controller → F64 → Controller
  next c x0 = record {
    parameters = c.parameters;
    target = c.target;
    u1 = c.target;
    x1 = x0;
    x2 = c.x1;
    y1 = output_of c x0;
  }

  pub update_run :
      (c : Controller) (x0 : F64)
      → lower c ≼ upper c
      → update c x0 ≡ some (output_of c x0, next c x0)
  unfolding update clamp unclipped shift_history
  update_run c x0 h = rw (h, update) refl

  -- The output lies within the limits, or is NaN.
  pub output_of_range :
      (laws : IsLawful) (c : Controller) (x0 : F64)
      → lower c ≼ upper c
      → IsWithin c (output_of c x0) ⊎ IsNan (output_of c x0)
  output_of_range laws c x0 h =
      let sum = law c.parameters c.target c.y1 x0 c.x1 c.x2 in
      elim (clip_cases laws sum (lower c) (upper c) h) [
        | inl within ↦ inl within
        | inr (n, same) ↦ inr (ap (λ y. p.le y y) same ∙ n)
      ]
