-- ===== src/Config/View.antt =====
-- What is seen of a channel of `src/channels.rs` and of its limit pins, and how the methods that set
-- them change it.
use thermostat.Prelude.{ap, Option, none, ℕ, zero, suc, ◌≡◌, ◌≢◌, refl, true, some}
use thermostat.Platform.{Platform}
use thermostat.Command.{PwmPin, Polarity, normal, reversed}
use thermostat.ChannelState.{ChannelState, OutputLimits}
use thermostat.Channels.{Board, Channel, Channels, Duties, channel_at}
use thermostat.Channels.Output.{
  limited_to, max_tec_i, max_tec_v, same_polarity, duty_value, pos_pin, neg_pin, cpu_adc_vref,
  current_duty,
}
use thermostat.Channels.Limits.{driven, with_channel}

module _ ⦃p : Platform⦄ ⦃b : Board⦄ where
  -- The limit pins of a channel.
  abbrev pub duties_at : ℕ → Channels → Option Duties
  duties_at zero s = some s.pwm0
  duties_at (suc zero) s = some s.pwm1
  duties_at (suc (suc i)) s = none

  abbrev pub with_duties : ℕ → (Duties → Duties) → Channels → Channels
  with_duties zero f s = record s { pwm0 = f s.pwm0 }
  with_duties (suc zero) f s = record s { pwm1 = f s.pwm1 }
  with_duties (suc (suc i)) f s = s

  pub duties_of :
      (i : ℕ) (s : Channels) (c : Channel)
      → channel_at i s ≡ some c
      → (d : Duties) × (duties_at i s ≡ some d)
  unfolding channel_at
  duties_of zero s c has = (s.pwm0, refl)
  duties_of (suc zero) s c has = (s.pwm1, refl)
  duties_of (suc (suc i)) s c has = absurd (cc)

  -- What is seen of a channel: itself, its limit pins, and something of the devices on the buses.
  pub record View (X : Type 0) : Type 0 where
    pub channel : Channel
    pub duties : Duties
    pub seen : X

  abbrev pub with_state : {X : Type 0} → (ChannelState → ChannelState) → View X → View X
  with_state f v = record v { channel = record (v.channel) { state = f v.channel.state } }

  -- A limit pin with another value.
  abbrev pub with_pin : PwmPin → ℕ → Duties → Duties
  with_pin PwmPin.i_set x d = d
  with_pin PwmPin.max_i_pos x d = record d { max_i_pos = x }
  with_pin PwmPin.max_i_neg x d = record d { max_i_neg = x }
  with_pin PwmPin.max_v x d = record d { max_v = x }

  pub duties_at-with_channel :
      (i : ℕ) (c : Channel) (s : Channels) → duties_at i (with_channel i c s) ≡ duties_at i s
  duties_at-with_channel zero c s = refl
  duties_at-with_channel (suc zero) c s = refl
  duties_at-with_channel (suc (suc i)) c s = refl

  pub duties_at-same :
      (i : ℕ) (s s' : Channels)
      → s'.pwm0 ≡ s.pwm0
      → s'.pwm1 ≡ s.pwm1
      → duties_at i s' ≡ duties_at i s
  duties_at-same zero s s' e₀ e₁ = ap some e₀
  duties_at-same (suc zero) s s' e₀ e₁ = ap some e₁
  duties_at-same (suc (suc i)) s s' e₀ e₁ = refl

  -- The value for a pin, and a limit with its pin.
  abbrev pub pin_value : ℕ → PwmPin → p.F64 → ℕ
  pin_value i pin duty = duty_value (b.max_duty i pin) duty

  abbrev pub limits_of_view : {X : Type 0} → View X → OutputLimits
  limits_of_view v = v.channel.state.output_limits

  abbrev pub with_limit : {X : Type 0} → ℕ → PwmPin → p.F64 → OutputLimits → View X → View X
  with_limit i pin duty l v = record (with_state (λ st. record st { output_limits = l }) v) {
    duties = with_pin pin (pin_value i pin duty) v.duties;
  }

  abbrev pub with_max_v : {X : Type 0} → ℕ → p.F64 → View X → View X
  with_max_v i x v =
      let top = limited_to max_tec_v x in
      with_limit i PwmPin.max_v (p.div (p.div top (p.lit 40 1)) cpu_adc_vref)
        (record (limits_of_view v) { max_v = top }) v

  abbrev pub with_max_i_pos : {X : Type 0} → ℕ → p.F64 → View X → View X
  with_max_i_pos i x v =
      let top = limited_to max_tec_i x in
      with_limit i (pos_pin v.channel.state.polarity) (current_duty top)
        (record (limits_of_view v) { max_i_pos = top }) v

  abbrev pub with_max_i_neg : {X : Type 0} → ℕ → p.F64 → View X → View X
  with_max_i_neg i x v =
      let top = limited_to max_tec_i x in
      with_limit i (neg_pin v.channel.state.polarity) (current_duty top)
        (record (limits_of_view v) { max_i_neg = top }) v

  abbrev pub with_current : {X : Type 0} → p.F64 → View X → View X
  with_current x v = record v { channel = driven v.channel x }

  -- After a change of polarity: the current and its limits are set anew.
  abbrev pub repolarised : {X : Type 0} → ℕ → Polarity → View X → View X
  repolarised i q v =
      let l = limits_of_view v in
      with_max_i_neg i l.max_i_neg (
        with_max_i_pos i l.max_i_pos
          (with_current v.channel.state.i_set (with_state (λ st. record st { polarity = q }) v)))

  pub same_polarity_sound : (a q : Polarity) → same_polarity a q ≡ true → a ≡ q
  same_polarity_sound normal normal h = refl
  same_polarity_sound normal reversed h = cc
  same_polarity_sound reversed normal h = cc
  same_polarity_sound reversed reversed h = refl

  pub pos_pin_ne : (q : Polarity) → pos_pin q ≢ PwmPin.i_set
  pos_pin_ne normal = cc
  pos_pin_ne reversed = cc

  pub neg_pin_ne : (q : Polarity) → neg_pin q ≢ PwmPin.i_set
  neg_pin_ne normal = cc
  neg_pin_ne reversed = cc
