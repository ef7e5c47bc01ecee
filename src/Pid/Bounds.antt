-- ===== src/Pid/Bounds.antt =====
-- The output of the controller of `src/pid.rs`: its limits, its panic, and what a NaN does to it.
use thermostat.Prelude.{◌≡◌, refl, ◌⊎◌, inl, inr, ◌↔◌, false, none, some, arith, Bool-cases}
use thermostat.Platform.{Platform, IsNum, IsNan, ◌≼◌, clip, clamp}
use thermostat.Platform.Laws.{IsLawful}
use thermostat.Pid.{Controller, unclipped, shift_history, update}

module _ ⦃p : Platform⦄ where
  open p use {F64, widen, lt, le}

  abbrev pub lower : Controller → F64
  lower c = widen c.parameters.output_min

  abbrev pub upper : Controller → F64
  upper c = widen c.parameters.output_max

  -- The value lies between the controller's limits.
  abbrev pub IsWithin : Controller → F64 → Type 0
  IsWithin c y = (lower c ≼ y) × (y ≼ upper c)

  -- `update` ran: its output, and the state that it leaves.
  abbrev pub Steps : Controller → F64 → F64 → Controller → Type 0
  Steps c input y c' =
      (update c input ≡ some (y, c'))
      × (c'.y1 ≡ y)
      × (c'.x1 ≡ input)
      × (c'.x2 ≡ c.x1)
      × (c'.parameters ≡ c.parameters)
      × (c'.target ≡ c.target)

  module _ (laws : IsLawful) where
    open laws use {
      num_of_le, le_of_lt, le_of_not_lt, nan-add_left, nan-sub_left, nan-lt_left, nan-lt_right,
    }

    clip_num : (x lo hi : F64) → IsNum x → lo ≼ hi → (lo ≼ clip x lo hi) × (clip x lo hi ≼ hi)
    unfolding clip
    clip_num x lo hi n h = ground (
      arith,
      num_of_le lo hi h,
      le_of_lt x lo,
      le_of_not_lt x lo n,
      le_of_not_lt hi x,
      le_of_not_lt hi lo,
    )

    pub clip_nan : (x lo hi : F64) → IsNan x → clip x lo hi ≡ x
    unfolding clip
    clip_nan x lo hi n = ground (arith, nan-lt_left x lo n, nan-lt_right hi x n)

    pub clip_cases :
        (x lo hi : F64)
        → lo ≼ hi
        → ((lo ≼ clip x lo hi) × (clip x lo hi ≼ hi)) ⊎ (IsNan x × (clip x lo hi ≡ x))
    clip_cases x lo hi h = elim (Bool-cases (le x x)) [
      | inl n ↦ inl (clip_num x lo hi n h)
      | inr n ↦ inr (n, clip_nan x lo hi n)
    ]

    -- With lawful arithmetic and ordered limits `update` returns: the output lies within the
    -- limits, or the sum that it clips is NaN and is itself the output. The controller keeps its
    -- settings, and its history moves on by one.
    pub update_bounds :
        (c : Controller) (input : F64)
        → lower c ≼ upper c
        → (y : F64) × (c' : Controller) × Steps c input y c'
          × (IsWithin c y ⊎ (IsNan (unclipped c input) × (y ≡ unclipped c input)))
    unfolding update clamp
    update_bounds c input h =
        let y = clip (unclipped c input) (lower c) (upper c) in
        let c' = (shift_history c input y).1 in
        (
          y,
          c',
          (rw (h, update) refl, refl, refl, refl, refl, refl),
          clip_cases (unclipped c input) (lower c) (upper c) h,
        )

  -- `update` panics exactly when its lower limit is not at most its upper limit.
  pub update-panics_iff :
      (c : Controller) (input : F64) → (update c input ≡ none) ↔ (le (lower c) (upper c) ≡ false)
  unfolding update clamp
  update-panics_iff c input = ground arith
