-- ===== src/ChannelState.antt =====
-- `src/channel_state.rs` and `src/b_parameter.rs`: what the firmware knows of one channel, and the
-- temperature that it computes from a reading.
pub mod Readings
use thermostat.Prelude.{ℕ, ◌≡◌, Bool, true, false, Option, none, some, ◌==◌, if◌then◌else◌}
use thermostat.Platform.{Platform, nought}
use thermostat.Command.{CenterPoint, vref, Polarity, normal}
use thermostat.Ad7172.Filter.{ChannelCalibration, convert_data}
use thermostat.Pid
use thermostat.Pid.{Controller, new_controller, default_parameters}

-- `ad7172::MAX_VALUE`
abbrev pub max_value : ℕ
max_value = 0xffffff

module _ ⦃p : Platform⦄ where
  open p use {F64, lit, of_u32, add, sub, mul, div, ln, of_celsius, to_celsius, since}

  -- `b_parameter::Parameters`
  pub record BParameters : Type 0 where
    pub t0 : F64
    pub r0 : F64
    pub b : F64

  -- `Default for Parameters`
  unfoldable pub default_b_parameters : BParameters
  default_b_parameters = record { t0 = of_celsius (lit 250 1); r0 = lit 100000 1; b = lit 38000 1 }

  -- `Parameters::get_temperature` of a resistance, in kelvin
  unfoldable pub temperature_of : BParameters → F64 → F64
  temperature_of ps r = div (lit 10 1) (add (div (lit 10 1) ps.t0) (div (ln (div r ps.r0)) ps.b))

  -- `OutputLimits` of `src/config.rs`
  pub record OutputLimits : Type 0 where
    pub max_v : F64
    pub max_i_pos : F64
    pub max_i_neg : F64

  pub record ChannelState : Type 0 where
    pub adc_data : Option ℕ
    pub adc_calibration : ChannelCalibration
    pub adc_time : ℕ
    pub adc_interval : ℕ
    pub center : CenterPoint
    pub dac_value : F64
    pub i_set : F64
    pub output_limits : OutputLimits
    pub pid_engaged : Bool
    pub pid : Controller
    pub bp : BParameters
    pub polarity : Polarity

  -- `ChannelState::new`
  unfoldable pub new_state : ChannelCalibration → ChannelState
  unfolding new_controller default_parameters default_b_parameters
  new_state calibration = record {
    adc_data = none;
    adc_calibration = calibration;
    adc_time = 0;
    adc_interval = 100;
    center = vref;
    dac_value = nought;
    i_set = nought;
    output_limits = record { max_v = nought; max_i_pos = nought; max_i_neg = nought };
    pid_engaged = false;
    pid = new_controller default_parameters;
    bp = default_b_parameters;
    polarity = normal;
  }

  -- `ChannelState::update`
  unfoldable pub update : ChannelState → ℕ → ℕ → ChannelState
  update s now reading = record s {
    adc_data = if reading == max_value then none else some reading;
    adc_interval = since now s.adc_time;
    adc_time = now;
  }

  -- `ChannelState::get_adc`
  unfoldable pub get_adc : ChannelState → Option F64
  get_adc s = elim s.adc_data [ none ↦ none | some d ↦ some (convert_data s.adc_calibration d) ]

  -- `R_INNER * adc_input / (VREF_SENS - adc_input)`, with 2.0 * 5100.0 ohm and 3.3 / 2.0 volt
  unfoldable pub sens_of : F64 → F64
  sens_of adc_input =
      div (mul (mul (lit 20 1) (lit 51000 1)) adc_input) (sub (div (lit 33 1) (lit 20 1)) adc_input)

  -- `ChannelState::get_sens`
  unfoldable pub get_sens : ChannelState → Option F64
  unfolding get_adc
  get_sens s = elim (get_adc s) [ none ↦ none | some v ↦ some (sens_of v) ]

  -- `ChannelState::get_temperature`, in kelvin
  unfoldable pub get_temperature : ChannelState → Option F64
  unfolding get_sens
  get_temperature s = elim (get_sens s) [ none ↦ none | some r ↦ some (temperature_of s.bp r) ]

  -- The outcome of `pid.update` put back into the state; `none` is its panic.
  with_pid : ChannelState → Option (F64 × Controller) → Option (Option F64 × ChannelState)
  with_pid s none = none
  with_pid s (some (y, c)) = some (some y, record s { pid = c })

  -- `ChannelState::update_pid`: the PID output, if there is a temperature; `none` outside is the
  -- panic of the controller.
  unfoldable pub update_pid : ChannelState → Option (Option F64 × ChannelState)
  unfolding with_pid
  update_pid s = elim (get_temperature s) [
    | none ↦ some (none, s)
    | some t ↦ with_pid s (Pid.update s.pid (to_celsius t))
  ]
