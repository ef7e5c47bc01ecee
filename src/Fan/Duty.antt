-- ===== src/Fan/Duty.antt =====
-- What `src/fan_ctrl.rs` sets on the fan pin.
use thermostat.Prelude.{
  Option-cases, Bool-cases, inl, inr, ap, sym, ◌∙◌, ℕ, ◌≤◌, ◌≡◌, ◌⊎◌, refl, true, false, ◌&&◌, none,
  some, arith,
}
use mathlib.Core.Path.{subst}
use mathlib.Core.Option.{some-injective}
use thermostat.Platform.{Platform}
use thermostat.HwRev.{HwSettings}
use thermostat.Fan.{FanPin, FanCtrl, duty_for, set_pwm, cycle, curve_pwm}

module _ ⦃p : Platform⦄ where
  -- PWM is on only with a pin that is enabled and a fan that the hardware has, and the duty cycle
  -- never exceeds the full scale.
  pub record IsValid (f : FanCtrl) : Type 0 where
    pub enabled :
        f.pwm_enabled ≡ true
        → (pin : FanPin) × (f.fan ≡ some pin)
          × (pin.enabled ≡ true)
          × (f.hw_settings.fan_available ≡ true)
    pub in_scale : (pin : FanPin) → f.fan ≡ some pin → pin.duty ≤ pin.max_duty

  -- With a pin and a fan, `set_pwm` enables the pin and sets the duty cycle of the user's value cut
  -- to 1 to 100; without either it changes nothing.
  abbrev pub SetPwm : ℕ → FanCtrl → FanCtrl → Type 0
  SetPwm n f f' =
      ((pin : FanPin) × (f.fan ≡ some pin)
        × (f'.pwm_enabled ≡ true)
        × (f.hw_settings.fan_available ≡ true)
        × (f'.fan
            ≡ some (record pin { duty = duty_for f.hw_settings pin.max_duty n; enabled = true })))
      ⊎ ((f' ≡ f)
          × (f.pwm_enabled ≡ false)
          × ((f.fan ≡ none) ⊎ (f.hw_settings.fan_available ≡ false)))

  enabled_pin :
      (pin : FanPin) (n d : ℕ)
      → pin.enabled ≡ true
      → record pin { duty = d } ≡ record pin { duty = d; enabled = true }
  enabled_pin pin n d e = ap (λ b. record pin { duty = d; enabled = b }) e

  -- `set_pwm` of a fan that meets the invariant does the one or the other.
  set_pwm_lem : (n : ℕ) (f : FanCtrl) → IsValid f → SetPwm n f (set_pwm n f).1
  unfolding set_pwm
  set_pwm_lem n f v = elim (Option-cases f.fan) [
    | inl no_pin ↦ elim (Bool-cases f.pwm_enabled) [
      | inl on ↦ let (pin, has, _, _) = v.enabled on in absurd (cc)
      | inr off ↦ inr (ground arith, off, inl no_pin)
    ]
    | inr (pin, has) ↦ elim (Bool-cases f.pwm_enabled) [
      | inl on ↦
          let (pin', has', lit_up, there) = v.enabled on in
          let same : pin' ≡ pin = some-injective _ _ (sym has' ∙ has) in
          let pin_on : pin.enabled ≡ true = ap (λ (q : FanPin). q.enabled) (sym same) ∙ lit_up in
          inl (
            pin,
            has,
            ground arith,
            there,
            ground (arith, enabled_pin pin n (duty_for f.hw_settings pin.max_duty n) pin_on),
          )
      | inr off ↦ elim (Bool-cases f.hw_settings.fan_available) [
        | inl fan ↦ inl (pin, has, ground arith, fan, ground arith)
        | inr no_fan ↦ inr (ground arith, off, inr no_fan)
      ]
    ]
  ]

  set_pwm_keeps : (n : ℕ) (f : FanCtrl) → ((set_pwm n f).1.hw_settings ≡ f.hw_settings)
  unfolding set_pwm
  set_pwm_keeps n f = ground arith

  duty_for-le : (hw : HwSettings) (top n : ℕ) → duty_for hw top n ≤ top
  unfolding duty_for
  duty_for-le hw top n = omega arith

  IsValid-of_set :
      (n : ℕ) (f f' : FanCtrl)
      → f'.hw_settings ≡ f.hw_settings
      → IsValid f
      → SetPwm n f f'
      → IsValid f'
  IsValid-of_set n f f' keeps v (inl (pin, has, on, there, now)) = record {
    enabled = λ _. (
      record pin { duty = duty_for f.hw_settings pin.max_duty n; enabled = true },
      now,
      refl,
      ap (λ (h : HwSettings). h.fan_available) keeps ∙ there,
    );
    in_scale = λ q e.
        subst (λ (r : FanPin). r.duty ≤ r.max_duty) (some-injective _ _ (sym now ∙ e))
          (duty_for-le f.hw_settings pin.max_duty n);
  }
  IsValid-of_set n f f' keeps v (inr (same, _, _)) = subst IsValid (sym same) v

  -- `set_pwm` keeps the fan's invariant.
  set_pwm-IsValid : (n : ℕ) (f : FanCtrl) → IsValid f → IsValid (set_pwm n f).1
  set_pwm-IsValid n f v =
      IsValid-of_set n f (set_pwm n f).1 (set_pwm_keeps n f) v (set_pwm_lem n f v)

  measured-IsValid :
      (x : p.F32) (f : FanCtrl) → IsValid f → IsValid (record f { abs_max_tec_i = x })
  measured-IsValid x f v = record { enabled = v.enabled; in_scale = v.in_scale }

  -- Of a fan that meets the invariant, a cycle sets the duty cycle of the curve when the fan is
  -- automatic and the hardware has one, else it only notes the measured current; the invariant
  -- holds again.
  pub cycle_lem :
      (x : p.F64) (f : FanCtrl)
      → IsValid f
      → let f₁ = record f { abs_max_tec_i = p.narrow x } in
        IsValid (cycle x f)
        × ((f.fan_auto && f.hw_settings.fan_available) ≡ true
            → SetPwm (curve_pwm f₁) f₁ (cycle x f))
        × ((f.fan_auto && f.hw_settings.fan_available) ≡ false → cycle x f ≡ f₁)
  unfolding cycle
  cycle_lem x f v =
      let f₁ = record f { abs_max_tec_i = p.narrow x } in
      let v₁ = measured-IsValid (p.narrow x) f v in
      elim (Bool-cases (f.fan_auto && f.hw_settings.fan_available)) [
        | inl auto ↦ (
          rw auto (set_pwm-IsValid (curve_pwm f₁) f₁ v₁),
          (λ _. rw auto (set_pwm_lem (curve_pwm f₁) f₁ v₁)),
          (λ off. absurd (cc)),
        )
        | inr off ↦ (rw off v₁, (λ auto. absurd (cc)), (λ _. rw off refl))
      ]
