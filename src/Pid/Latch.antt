-- ===== src/Pid/Latch.antt =====
-- A NaN in the controller of `src/pid.rs`: it enters with one input and never leaves.
use thermostat.Prelude.{◌≡◌, refl, Option, none, some, List, [], ◌∷◌, All}
use thermostat.Platform.{Platform, IsNan, ◌≼◌, clamp}
use thermostat.Platform.Laws.{IsLawful}
use thermostat.Pid.{Controller, unclipped, shift_history, update}
use thermostat.Pid.Bounds.{lower, upper, clip_nan}

module _ ⦃p : Platform⦄ where
  open p use {F64, le}

  cons_output : F64 → Option (List F64 × Controller) → Option (List F64 × Controller)
  cons_output y none = none
  cons_output y (some (ys, c)) = some (y ∷ ys, c)

  -- `update` once for each input: the outputs, and the last controller.
  pub run : Controller → List F64 → Option (List F64 × Controller)
  unfolding cons_output
  run c [] = some ([], c)
  run c (x ∷ xs) = elim (update c x) [ none ↦ none | some (y, c') ↦ cons_output y (run c' xs) ]

  module _ (laws : IsLawful) where
    open laws use {nan-add_left, nan-add_right, nan-sub_left, nan-mul_left}

    IsNan-of_y1 : (c : Controller) (input : F64) → IsNan c.y1 → IsNan (unclipped c input)
    unfolding unclipped
    IsNan-of_y1 c input n =
        nan-add_left _ _ (nan-sub_left _ _ (nan-add_left _ _ (nan-sub_left _ _ n)))

    IsNan-of_input : (c : Controller) (input : F64) → IsNan input → IsNan (unclipped c input)
    unfolding unclipped
    IsNan-of_input c input n =
        nan-add_left _ _ (nan-sub_left _ _ (nan-add_right _ _ (nan-mul_left _ _ n)))

    update_of_nan :
        (c : Controller) (input : F64)
        → lower c ≼ upper c
        → IsNan (unclipped c input)
        → update c input ≡ some (shift_history c input (unclipped c input))
    unfolding update clamp
    update_of_nan c input h n =
        rw (h, update) (rw (clip_nan laws (unclipped c input) (lower c) (upper c) n) refl)

    -- With lawful arithmetic and ordered limits, an input that is NaN makes an output that is
    -- NaN, and the controller keeps a NaN as its last output.
    update-IsNan :
        (c : Controller) (input : F64)
        → lower c ≼ upper c
        → IsNan input
        → (y : F64) × (c' : Controller) × (update c input ≡ some (y, c')) × IsNan y × IsNan c'.y1
    unfolding shift_history
    update-IsNan c input h n =
        let m = IsNan-of_input c input n in
        let y = unclipped c input in
        (y, (shift_history c input y).1, update_of_nan c input h m, m, m)

    -- A controller that remembers a NaN makes another one of any input.
    pub update_latched :
        (c : Controller) (input : F64)
        → lower c ≼ upper c
        → IsNan c.y1
        → (y : F64) × (c' : Controller) × (update c input ≡ some (y, c'))
          × IsNan y
          × IsNan c'.y1
          × (c'.parameters ≡ c.parameters)
    unfolding shift_history
    update_latched c input h n =
        let m = IsNan-of_y1 c input n in
        let y = unclipped c input in
        (y, (shift_history c input y).1, update_of_nan c input h m, m, m, refl)

    -- With lawful arithmetic and ordered limits, a controller whose last output is NaN runs
    -- through any inputs without a panic, every output is NaN, and so is its last output at the
    -- end.
    pub run_latched :
        (c : Controller) (inputs : List F64)
        → lower c ≼ upper c
        → IsNan c.y1
        → (ys : List F64) × (c' : Controller) × (run c inputs ≡ some (ys, c'))
          × All IsNan ys
          × IsNan c'.y1
    unfolding run shift_history
    run_latched c [] h n = ([], c, refl, tt, n)
    run_latched c (x ∷ xs) h n =
        let m = IsNan-of_y1 c x n in
        let y = unclipped c x in
        let next = (shift_history c x y).1 in
        let (ys, c', e, all, last) = run_latched next xs h m in
        (y ∷ ys, c', rw (update_of_nan c x h m, run) (rw e refl), (m, all), last)
