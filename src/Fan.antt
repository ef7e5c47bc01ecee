-- ===== src/Fan.antt =====
-- `src/fan_ctrl.rs`: the fan, driven by the largest current or by the user.
pub mod Duty
use thermostat.Prelude.{
  ℕ, ◌≤◌, Bool, true, false, not, ◌&&◌, ◌||◌, Option, none, some, min, ltb, if◌then◌else◌,
}
use thermostat.Platform.{Platform}
use thermostat.HwRev.{HwSettings}

-- The PWM output of the fan: its full scale, the duty last set, and whether it is enabled.
pub record FanPin : Type 0 where
  pub max_duty : ℕ
  pub duty : ℕ
  pub enabled : Bool

-- `u32::clamp(1, 100)`, the user's range
abbrev pub user_range : ℕ → ℕ
user_range n = if ltb n 1 then 1 else if ltb 100 n then 100 else n

module _ ⦃p : Platform⦄ where
  open p use {
    F64, F32, lit, narrow, lit32, of_u32_32, add32, sub32, mul32, div32, round32, to_u16_32,
    to_u32_32,
  }

  pub record FanCtrl : Type 0 where
    pub fan : Option FanPin
    pub fan_auto : Bool
    pub pwm_enabled : Bool
    pub k_a : F32
    pub k_b : F32
    pub k_c : F32
    pub abs_max_tec_i : F32
    pub hw_settings : HwSettings

  -- `MIN_USER_FAN_PWM`, `MAX_USER_FAN_PWM`
  abbrev pub min_user_fan_pwm : F32
  min_user_fan_pwm = lit32 10 1

  abbrev pub max_user_fan_pwm : F32
  max_user_fan_pwm = lit32 1000 1

  unfoldable pub scale_number : F32 → F32 → F32 → F32 → F32 → F32
  scale_number unscaled to_min to_max from_min from_max =
      add32
        (div32 (mul32 (sub32 to_max to_min) (sub32 unscaled from_min)) (sub32 from_max from_min))
        to_min

  enable_pin : FanPin → FanCtrl → Bool × FanCtrl
  enable_pin pin f =
      if f.hw_settings.fan_available
      then (
        true,
        record f { fan = some (record pin { duty = 0; enabled = true }); pwm_enabled = true },
      )
      else (false, f)

  -- `FanCtrl::enable_pwm`
  unfoldable pub enable_pwm : FanCtrl → Bool × FanCtrl
  unfolding enable_pin
  enable_pwm f = elim (f.fan) [ none ↦ (false, f) | some pin ↦ enable_pin pin f ]

  -- `((duty * max) as u16).min(max)` of the user's value scaled to the range of the hardware
  unfoldable pub duty_for : HwSettings → ℕ → ℕ → ℕ
  unfolding scale_number
  duty_for hw max_duty fan_pwm =
      let duty =
        scale_number (of_u32_32 (user_range fan_pwm)) hw.min_fan_pwm hw.max_fan_pwm min_user_fan_pwm
          max_user_fan_pwm in
      min (to_u16_32 (mul32 duty (of_u32_32 max_duty))) max_duty

  drive_pin : ℕ → FanCtrl → F32 × FanCtrl
  drive_pin fan_pwm f = elim (f.fan) [
    | none ↦ (lit32 0 0, f)
    | some pin ↦
        let value = duty_for f.hw_settings pin.max_duty fan_pwm in
        (
          div32 (of_u32_32 value) (of_u32_32 pin.max_duty),
          record f { fan = some (record pin { duty = value }) },
        )
  ]

  -- `FanCtrl::set_pwm`: without a pin, or where PWM is off and cannot be enabled, nothing is set.
  unfoldable pub set_pwm : ℕ → FanCtrl → F32 × FanCtrl
  unfolding enable_pwm drive_pin
  set_pwm fan_pwm f = elim (f.fan) [
    | none ↦ (lit32 0 0, f)
    | some pin ↦
        if f.pwm_enabled
        then drive_pin fan_pwm f
        else (let (done, f') = enable_pwm f in
            if done then drive_pin fan_pwm f' else (lit32 0 0, f'))
  ]

  -- `FanCtrl::new`
  unfoldable pub new : Option FanPin → HwSettings → FanCtrl
  unfolding enable_pwm
  new fan hw =
      let f : FanCtrl = record {
        fan = fan;
        fan_auto = hw.fan_pwm_recommended;
        pwm_enabled = false;
        k_a = hw.fan_k_a;
        k_b = hw.fan_k_b;
        k_c = hw.fan_k_c;
        abs_max_tec_i = lit32 0 0;
        hw_settings = hw;
      } in
      if hw.fan_pwm_recommended then (enable_pwm f).1 else f

  -- The PWM value of the curve at the current last measured, in per cent.
  unfoldable pub curve_pwm : FanCtrl → ℕ
  curve_pwm f =
      let scaled = div32 f.abs_max_tec_i (narrow (lit 20 1)) in
      to_u32_32
        (mul32 max_user_fan_pwm (add32 (mul32 scaled (add32 (mul32 scaled f.k_a) f.k_b)) f.k_c))

  -- `FanCtrl::cycle`
  unfoldable pub cycle : F64 → FanCtrl → FanCtrl
  cycle current f =
      let f' = record f { abs_max_tec_i = narrow current } in
      if f'.fan_auto && f'.hw_settings.fan_available then (set_pwm (curve_pwm f') f').1 else f'

  -- `FanCtrl::get_pwm`
  unfoldable pub get_pwm : FanCtrl → ℕ
  unfolding scale_number
  get_pwm f = elim (f.fan) [
    | none ↦ 0
    | some pin ↦ to_u32_32 (
        round32 (
          scale_number (div32 (of_u32_32 pin.duty) (of_u32_32 pin.max_duty)) min_user_fan_pwm
            max_user_fan_pwm f.hw_settings.min_fan_pwm f.hw_settings.max_fan_pwm))
  ]

  -- `FanCtrl::set_auto_mode`
  unfoldable pub set_auto_mode : Bool → FanCtrl → FanCtrl
  set_auto_mode auto f = record f { fan_auto = auto }

  -- `FanCtrl::set_curve`
  unfoldable pub set_curve : F32 → F32 → F32 → FanCtrl → FanCtrl
  set_curve a b c f = record f { k_a = a; k_b = b; k_c = c }

  -- `FanCtrl::restore_defaults`
  unfoldable pub restore_defaults : FanCtrl → FanCtrl
  unfolding set_curve
  restore_defaults f = set_curve f.hw_settings.fan_k_a f.hw_settings.fan_k_b f.hw_settings.fan_k_c f

  -- `FanCtrl::fan_pwm_recommended`, `FanCtrl::fan_available`
  abbrev pub fan_pwm_recommended : FanCtrl → Bool
  fan_pwm_recommended f = f.hw_settings.fan_pwm_recommended

  abbrev pub fan_available : FanCtrl → Bool
  fan_available f = f.hw_settings.fan_available
